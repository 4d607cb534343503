-- ===== src/Channel/Allocation/Pieces/Filling.antt =====
-- What an allocation takes from the pieces.
use rust_tap.Common.{
  ℕ, ◌+◌, ◌-◌, ◌≤◌, ◌≡◌, refl, arith, min, Bool, not, ◌&&◌, ◌||◌, Option, none, some,
}
use rust_tap.Common.{List, [], ◌∷◌, Result, ok, ok_or, ◌>>=◌, All, subst}
use rust_tap.Common.{
  ltb, ◌==◌, if◌then◌else◌, sum_of, sum_of-append, bind_parts, ok_injective, Bool-cases, inl, inr,
}
use rust_tap.Channel.Interface.{ChannelAssets, ScriptKey, TapscriptPreimage}
use rust_tap.Channel.Allocation.{
  AllocationError, Allocation, VInput, VOutput, VPacket, script_key_gen_missing,
}
unfoldable use rust_tap.Channel.Allocation.{tapscript_sibling}
use rust_tap.Channel.Allocation.Pieces.{Piece}
unfoldable use rust_tap.Channel.Allocation.Pieces.{
  available, output_for, push_output, place, allocate_piece, fill_loop,
}

module _ ⦃assets : ChannelAssets⦄ where
  abbrev pub input_amount : VInput → ℕ
  input_amount v = elim v.input_asset [ none ↦ 0 | some a ↦ assets.asset_amount a ]

  -- The units that a packet spends, and that it creates.
  abbrev pub spent : VPacket → ℕ
  spent p = sum_of input_amount p.inputs

  abbrev pub created : VPacket → ℕ
  created p = sum_of (λ (o : VOutput). o.out_amount) p.outputs

  -- A piece hands out no more than it has, and its packet creates what it handed out.
  pub record IsBalanced (p : Piece) : Type 0 where
    pub within : p.allocated ≤ p.total_available
    pub handed : created p.packet ≡ p.allocated
    pub had : spent p.packet ≡ p.total_available

  abbrev pub total_allocated : List Piece → ℕ
  total_allocated = sum_of (λ (p : Piece). p.allocated)

  abbrev pub total_had : List Piece → ℕ
  total_had = sum_of (λ (p : Piece). p.total_available)

  -- The piece after it gave `delta` of the `to_fill` units that were asked for.
  pub record Gives (p : Piece) (to_fill : ℕ) (p' : Piece) (delta : ℕ) : Type 0 where
    pub balanced : IsBalanced p'
    pub grown : p'.allocated ≡ p.allocated + delta
    pub kept : p'.total_available ≡ p.total_available
    pub most : delta ≡ min to_fill (p.total_available - p.allocated)

  push_output-IsBalanced :
      (p : Piece) (o : VOutput) (more : ℕ)
      → o.out_amount ≡ more
      → p.allocated + more ≤ p.total_available
      → IsBalanced p
      → IsBalanced (record (push_output p o) { allocated = p.allocated + more })
  unfolding push_output
  push_output-IsBalanced p o more e fits h = record {
    within = fits;
    handed = omega (
      arith,
      sum_of-append (λ (o : VOutput). o.out_amount) p.packet.outputs (o ∷ []),
      e,
      h.handed,
    );
    had = h.had;
  }

  tombstone-IsBalanced :
      (p : Piece) (o : VOutput) → o.out_amount ≡ 0 → IsBalanced p → IsBalanced (push_output p o)
  unfolding push_output
  tombstone-IsBalanced p o e h = record {
    within = h.within;
    handed = omega (
      arith,
      sum_of-append (λ (o : VOutput). o.out_amount) p.packet.outputs (o ∷ []),
      e,
      h.handed,
    );
    had = h.had;
  }

  place-Gives :
      (p : Piece) (a : Allocation) (o : VOutput) (to_fill : ℕ) (interactive : Bool)
      → o.out_amount ≡ 0
      → IsBalanced p
      → Gives p to_fill (place p a o to_fill interactive).0 (place p a o to_fill interactive).1
  unfolding place available
  place-Gives p a o to_fill interactive zero_out h =
      elim (Bool-cases (p.total_available - p.allocated == 0 || to_fill == 0)) [
        | inl nothing ↦ elim (Bool-cases (interactive || not a.split_root)) [
          | inl skip ↦
              rw (nothing, skip)
                (record { balanced = h; grown = omega arith; kept = refl; most = ground arith })
          | inr tombstone ↦
              rw (nothing, tombstone)
                (record {
                  balanced = tombstone-IsBalanced p _ zero_out h;
                  grown = omega arith;
                  kept = refl;
                  most = ground arith;
                })
        ]
        | inr something ↦
            let delta : ℕ =
              if ltb (p.total_available - p.allocated) to_fill
              then p.total_available - p.allocated
              else to_fill in
            let fits : p.allocated + delta ≤ p.total_available = ground (arith, h.within) in
            rw something (record {
              balanced = push_output-IsBalanced p _ delta refl fits h;
              grown = refl;
              kept = refl;
              most = ground arith;
            })
      ]

  allocate_piece-Gives :
      (p : Piece) (a : Allocation) (to_fill : ℕ) (interactive : Bool) (r : Piece × ℕ)
      → IsBalanced p
      → allocate_piece p a to_fill interactive ≡ ok r
      → Gives p to_fill r.0 r.1
  unfolding allocate_piece
  allocate_piece-Gives p a to_fill interactive r h e =
      let finish : Option TapscriptPreimage → ScriptKey → Result (Piece × ℕ) AllocationError =
        λ sibling key. ok (place p a (output_for a sibling key interactive) to_fill interactive) in
      let (sibling, _, e₁) =
        bind_parts (tapscript_sibling a)
          (λ sibling. ok_or a.script_key script_key_gen_missing >>= finish sibling) r e in
      let (key, _, e₂) =
        bind_parts (ok_or a.script_key script_key_gen_missing) (finish sibling) r e₁ in
      subst (λ (t : Piece × ℕ). Gives p to_fill t.0 t.1) (ok_injective e₂)
        (place-Gives p a (output_for a sibling key interactive) to_fill interactive
          (unfold output_for in refl) h)

  abbrev pub free : List Piece → ℕ
  free = sum_of (λ (p : Piece). p.total_available - p.allocated)

  -- The pieces after one allocation took `taken` units from them.
  pub record AllGive (ps : List Piece) (taken : ℕ) (ps' : List Piece) : Type 0 where
    pub balanced : All IsBalanced ps'
    pub grown : total_allocated ps' ≡ total_allocated ps + taken
    pub kept : total_had ps' ≡ total_had ps

  pub fill_loop-AllGive :
      (a : Allocation) (interactive : Bool) (to_fill : ℕ) (ps ps' : List Piece)
      → All IsBalanced ps
      → fill_loop a interactive to_fill ps ≡ ok ps'
      → AllGive ps (min to_fill (free ps)) ps'
  unfolding fill_loop
  fill_loop-AllGive a interactive to_fill [] ps' h e =
      subst (AllGive [] (min to_fill 0)) (ok_injective e)
        (record { balanced = tt; grown = omega arith; kept = refl })
  fill_loop-AllGive a interactive to_fill (p ∷ ps) ps' h e =
      let later : ℕ → Result (List Piece) AllocationError = λ delta.
        if to_fill - delta == 0 && interactive
        then ok ps
        else fill_loop a interactive (to_fill - delta) ps in
      let (r, e₁, e₂) =
        bind_parts (allocate_piece p a to_fill interactive)
          (λ r. later r.1 >>= λ rest. ok (r.0 ∷ rest)) ps' e in
      let (rest, e₃, e₄) = bind_parts (later r.1) (λ rest. ok (r.0 ∷ rest)) ps' e₂ in
      let g = allocate_piece-Gives p a to_fill interactive r h.0 e₁ in
      let more : AllGive ps (min (to_fill - r.1) (free ps)) rest =
        elim (Bool-cases (to_fill - r.1 == 0 && interactive)) [
          | inl stop ↦
              subst (AllGive ps (min (to_fill - r.1) (free ps))) (ok_injective (rw stop at e₃))
                (record { balanced = h.1; grown = ground (arith, stop); kept = refl })
          | inr go_on ↦ fill_loop-AllGive a interactive (to_fill - r.1) ps rest h.1 (rw go_on at e₃)
        ] in
      subst (AllGive (p ∷ ps) (min to_fill (free (p ∷ ps)))) (ok_injective e₄) (record {
        balanced = (g.balanced, more.balanced);
        grown = omega (arith, g.grown, g.most, more.grown);
        kept = omega (arith, g.kept, more.kept);
      })

  pub free_lem : (ps : List Piece) → All IsBalanced ps → total_allocated ps + free ps ≡ total_had ps
  free_lem [] h = refl
  free_lem (p ∷ ps) (h, hs) = omega (arith, h.within, free_lem ps hs)
