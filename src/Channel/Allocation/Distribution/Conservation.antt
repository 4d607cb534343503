-- ===== src/Channel/Allocation/Distribution/Conservation.antt =====
-- Units across a distribution: what the packets create against what they spend.
use Prim.Native.Nat.{Ordering}
use rust_tap.Common.{ℕ, ◌≤◌, ◌≡◌, refl, sym, arith, min, Bool, false, ◌||◌}
use rust_tap.Common.{
  List, [], ◌∷◌, map, Result, ok, ensure, ◌>>=◌, ◌>>◌, All, subst, ◌==◌, if◌then◌else◌,
}
use rust_tap.Common.{sum_of, ensure_parts, bind_parts, ok_injective, Bool-cases, inl, inr}
use rust_tap.Channel.Interface.{ChannelAssets}
unfoldable use rust_tap.Channel.Order.{sort_by, insert_by}
use rust_tap.Channel.Order.{bytes_cmp, sum_of-sort_by, is_gt}
use rust_tap.Channel.Allocation.{AllocationError, Allocation, VPacket, asset_sort_for_inputs}
use rust_tap.Channel.Allocation.{no_split_root, input_output_sum_mismatch}
use rust_tap.Channel.Allocation.{is_no_assets}
unfoldable use rust_tap.Channel.Allocation.{}
use rust_tap.Channel.Allocation.Pieces.{Piece}
unfoldable use rust_tap.Channel.Allocation.Pieces.{fill_loop, sort_pieces_with_inputs}
use rust_tap.Channel.Allocation.Pieces.Filling.{
  IsBalanced, AllGive, fill_loop-AllGive, free, free_lem, total_had, total_allocated,
}
unfoldable use rust_tap.Channel.Allocation.Distribution.{
  check_inputs, check_allocations, group_inputs, new_pieces, fill_all, validate_vpacket_versions,
  assign_split_root, distribute_from,
}
use rust_tap.Channel.Allocation.Distribution.Grouping.{
  amounts_in, amounts_out, check_inputs-sum, check_allocations-sum, grouped-group_inputs,
  new_pieces-IsFresh,
}

module _ ⦃assets : ChannelAssets⦄ where
  abbrev resort : Piece → Piece
  resort p = record p { piece_inputs = sort_by asset_sort_for_inputs p.piece_inputs }

  All-insert_by :
      (cmp : Piece → Piece → Ordering) (p : Piece) (ps : List Piece)
      → IsBalanced p
      → All IsBalanced ps
      → All IsBalanced (insert_by cmp p ps)
  unfolding insert_by
  All-insert_by cmp p [] h hs = (h, tt)
  All-insert_by cmp p (q ∷ qs) h (b, bs) = elim (Bool-cases (is_gt (cmp p q))) [
    | inl later ↦ rw later (b, All-insert_by cmp p qs h bs)
    | inr here ↦ rw here (h, (b, bs))
  ]

  All-sort_by :
      (cmp : Piece → Piece → Ordering) (ps : List Piece)
      → All IsBalanced ps
      → All IsBalanced (sort_by cmp ps)
  unfolding sort_by
  All-sort_by cmp [] hs = tt
  All-sort_by cmp (p ∷ ps) (h, hs) = All-insert_by cmp p (sort_by cmp ps) h (All-sort_by cmp ps hs)

  -- Sorting the inputs of the pieces changes no amounts.
  resort-AllGive : (ps : List Piece) → All IsBalanced ps → AllGive ps 0 (map resort ps)
  resort-AllGive [] hs = record { balanced = tt; grown = refl; kept = refl }
  resort-AllGive (p ∷ ps) (h, hs) =
      let later = resort-AllGive ps hs in
      record {
        balanced = (record { within = h.within; handed = h.handed; had = h.had }, later.balanced);
        grown = omega (arith, later.grown);
        kept = omega (arith, later.kept);
      }

  sort_pieces_with_inputs-AllGive :
      (ps : List Piece) → All IsBalanced ps → AllGive ps 0 (sort_pieces_with_inputs ps)
  unfolding sort_pieces_with_inputs
  sort_pieces_with_inputs-AllGive ps hs =
      let by_id : Piece → Piece → Ordering = λ i j. bytes_cmp i.piece_id j.piece_id in
      let g = resort-AllGive (sort_by by_id ps) (All-sort_by by_id ps hs) in
      record {
        balanced = g.balanced;
        grown = omega (arith, g.grown, sum_of-sort_by by_id (λ (p : Piece). p.allocated) ps);
        kept = omega (arith, g.kept, sum_of-sort_by by_id (λ (p : Piece). p.total_available) ps);
      }

  -- What the allocation asks for: the allocations without assets are skipped.
  abbrev pub wanted : Allocation → ℕ
  wanted a = if is_no_assets a.alloc_type then 0 else a.amount

  abbrev pub asset_amounts : List Allocation → ℕ
  asset_amounts = sum_of wanted

  fill_all-AllGive :
      (allocations : List Allocation) (interactive : Bool) (ps ps' : List Piece)
      → All IsBalanced ps
      → fill_all allocations interactive ps ≡ ok ps'
      → AllGive ps (min (asset_amounts allocations) (free ps)) ps'
  unfolding fill_all
  fill_all-AllGive [] interactive ps ps' hs e =
      subst (AllGive ps (min 0 (free ps))) (ok_injective e)
        (record { balanced = hs; grown = omega arith; kept = refl })
  fill_all-AllGive (a ∷ rest) interactive ps ps' hs e =
      let (mid, e₁, e₂) =
        bind_parts
          (if is_no_assets a.alloc_type then ok ps else fill_loop a interactive a.amount ps)
          (λ mid. fill_all rest interactive mid) ps' e in
      let g : AllGive ps (min (wanted a) (free ps)) mid =
        elim (Bool-cases (is_no_assets a.alloc_type)) [
          | inl skip ↦
              subst (AllGive ps (min (wanted a) (free ps))) (ok_injective (rw skip at e₁))
                (record { balanced = hs; grown = ground (arith, skip); kept = refl })
          | inr fill ↦ rw fill (fill_loop-AllGive a interactive a.amount ps mid hs (rw fill at e₁))
        ] in
      let later = fill_all-AllGive rest interactive mid ps' g.balanced e₂ in
      record {
        balanced = later.balanced;
        grown =
            omega (arith, g.grown, g.kept, later.grown, free_lem ps hs, free_lem mid g.balanced);
        kept = omega (arith, g.kept, later.kept);
      }

  -- The pieces from which the packets are taken, and the packets before the split roots.
  pub record Filled (inputs : List assets.Asset) (allocations : List Allocation) (ps : List Piece)
      : Type 0 where
    pub balanced : All IsBalanced ps
    pub allocated_all : total_allocated ps ≡ asset_amounts allocations
    pub had_all : total_had ps ≡ amounts_in inputs

  asset_amounts-bound :
      (allocations : List Allocation) → asset_amounts allocations ≤ amounts_out allocations
  asset_amounts-bound [] = omega arith
  asset_amounts-bound (a ∷ rest) = ground (arith, asset_amounts-bound rest)

  abbrev pub finish : Bool → List VPacket → List VPacket
  finish interactive packets = if interactive then map assign_split_root packets else packets

  pub distribute_from_parts :
      (first : assets.Asset) (inputs : List assets.Asset) (allocations : List Allocation)
      (net : assets.TapNetwork) (interactive : Bool) (v : ℕ) (packets : List VPacket)
      → distribute_from first inputs allocations net interactive v ≡ ok packets
      → (ps : List Piece) × Filled inputs allocations ps
        × (packets ≡ finish interactive (map (λ (p : Piece). p.packet) ps))
  unfolding distribute_from
  distribute_from_parts first inputs allocations net interactive v packets e =
      let close : List Piece → Result (List VPacket) AllocationError = λ ps.
        validate_vpacket_versions (map (λ (p : Piece). p.packet) ps)
        >> ok (finish interactive (map (λ (p : Piece). p.packet) ps)) in
      let fill : List Piece → Result (List VPacket) AllocationError =
        λ ps. fill_all allocations interactive (sort_pieces_with_inputs ps) >>= close in
      let build : Result (List VPacket) AllocationError =
        new_pieces net v (group_inputs [] inputs) >>= fill in
      let compare : ℕ → ℕ × Bool → Result (List VPacket) AllocationError = λ input_sum out.
        ensure (interactive || out.1) no_split_root
        >> (ensure (input_sum == out.0) (input_output_sum_mismatch input_sum out.0) >> build) in
      let (input_sum, i₁, e₁) =
        bind_parts (check_inputs first 0 inputs)
          (λ s. check_allocations 0 false allocations >>= compare s) packets e in
      let (out, o₁, e₂) =
        bind_parts (check_allocations 0 false allocations) (compare input_sum) packets e₁ in
      let (_, e₃) = ensure_parts (interactive || out.1) no_split_root _ packets e₂ in
      let (same, e₄) =
        ensure_parts (input_sum == out.0) (input_output_sum_mismatch input_sum out.0) build packets
          e₃ in
      let (fresh, n₁, e₅) =
        bind_parts (new_pieces net v (group_inputs [] inputs)) fill packets e₄ in
      let (ps, f₁, e₆) =
        bind_parts (fill_all allocations interactive (sort_pieces_with_inputs fresh)) close packets
          e₅ in
      let (_, _, e₇) =
        bind_parts (validate_vpacket_versions (map (λ (p : Piece). p.packet) ps))
          (λ _. ok (finish interactive (map (λ (p : Piece). p.packet) ps))) packets e₆ in
      let (bs, none_yet, all_in) = new_pieces-IsFresh net v (group_inputs [] inputs) fresh n₁ in
      let sorted = sort_pieces_with_inputs-AllGive fresh bs in
      let g =
        fill_all-AllGive allocations interactive (sort_pieces_with_inputs fresh) ps sorted.balanced
          f₁ in
      let had_all : total_had ps ≡ amounts_in inputs =
        omega (arith, g.kept, sorted.kept, all_in, grouped-group_inputs [] inputs) in
      let fits : asset_amounts allocations ≤ amounts_in inputs = ground (
        arith,
        same,
        check_inputs-sum first 0 inputs input_sum i₁,
        check_allocations-sum 0 false allocations out o₁,
        asset_amounts-bound allocations,
      ) in
      (
        ps,
        record {
          balanced = g.balanced;
          allocated_all = omega (
            arith,
            g.grown,
            sorted.grown,
            sorted.kept,
            none_yet,
            all_in,
            fits,
            grouped-group_inputs [] inputs,
            free_lem (sort_pieces_with_inputs fresh) sorted.balanced,
          );
          had_all = had_all;
        },
        sym (ok_injective e₇),
      )
