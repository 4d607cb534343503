-- ===== src/Mint/Planter/Seedlings.antt =====
-- Queueing a seedling and setting its script key keep the pending batch sound.
use rust_tap.Common.{◌≡◌, refl, arith, false, Option, none, some, List, [], ◌∷◌, ◌++◌}
use rust_tap.Common.{
  ◌≤◌, bytes_eq_sym, bytes_eq, Bool-cases, inl, inr, ◌∙◌, ensure_parts, bind_parts, ok_injective,
}
use rust_tap.Common.{
  Result, ok, err, All, All-append, length, subst, ok_or, ensure, not, ◌>>=◌, ◌>>◌, length-append,
}
use rust_tap.Mint.Interface.{Name, Assets, KeyDescriptor}
use rust_tap.Mint.Seedling.{
  BatchState, frozen, committed, Intent, Fault, invalid_seedling, unknown_seedling,
  batch_not_pending, duplicate_seedling,
}
unfoldable use rust_tap.Mint.Seedling.{validate}
use rust_tap.Mint.Batch.{MintingBatch, Entry}
unfoldable use rust_tap.Mint.Batch.{add_seedling, new_batch, find, contains_key}
unfoldable use rust_tap.Mint.Batch.{can_add_seedlings}
use rust_tap.Mint.Planter.{Planter, taproot_assets_key_family}
unfoldable use rust_tap.Mint.Planter.{assign_script_key, ensure_batch}
unfoldable use rust_tap.Mint.Planter.{set_seedling_script_key}
unfoldable use rust_tap.Mint.Planter.{}
unfoldable use rust_tap.Mint.Planter.{settle, open_batch, enqueue}
use rust_tap.Mint.Planter.Soundness.{IsListed, IsDistinct, IsInState, IsSound, IsSoundOrNone}
use rust_tap.Mint.Planter.Commitment.{settle-IsSound, with_batch-IsSound}

module _ ⦃assets : Assets⦄ where
  assign-IsListed :
      (name : Name) (key : assets.ScriptKey) (entries : List Entry)
      → All IsListed entries
      → All IsListed (assign_script_key name key entries)
  unfolding assign_script_key validate
  assign-IsListed name key [] h = tt
  assign-IsListed name key ((k, s) ∷ rest) (h, hs) = elim (Bool-cases (bytes_eq k name)) [
    | inl e ↦ rw e (h, hs)
    | inr e ↦ rw e (h, assign-IsListed name key rest hs)
  ]

  contains_key-assign :
      (name other : Name) (key : assets.ScriptKey) (entries : List Entry)
      → contains_key other (assign_script_key name key entries) ≡ contains_key other entries
  unfolding assign_script_key contains_key
  contains_key-assign name other key [] = refl
  contains_key-assign name other key ((k, s) ∷ rest) =
      ground (arith, contains_key-assign name other key rest)

  assign-IsDistinct :
      (name : Name) (key : assets.ScriptKey) (entries : List Entry)
      → IsDistinct entries
      → IsDistinct (assign_script_key name key entries)
  unfolding assign_script_key
  assign-IsDistinct name key [] h = tt
  assign-IsDistinct name key ((k, s) ∷ rest) (h, hs) = elim (Bool-cases (bytes_eq k name)) [
    | inl e ↦ rw e (h, hs)
    | inr e ↦ rw e (contains_key-assign name k key rest ∙ h, assign-IsDistinct name key rest hs)
  ]

  length-assign :
      (name : Name) (key : assets.ScriptKey) (entries : List Entry)
      → length (assign_script_key name key entries) ≡ length entries
  unfolding assign_script_key
  length-assign name key [] = refl
  length-assign name key ((k, s) ∷ rest) = ground (arith, length-assign name key rest)

  -- A list of seedlings that is no shorter keeps what the state asks for.
  grown-IsInState :
      (s : BatchState) (b : MintingBatch) (entries : List Entry)
      → length b.seedlings ≤ length entries
      → IsInState s b
      → IsInState s (record b { seedlings = entries })
  grown-IsInState frozen b entries le h = omega (arith, le, h)
  grown-IsInState committed b entries le (h, k) = (omega (arith, le, h), k)
  grown-IsInState _ b entries le h = tt

  pub set_key-IsSound :
      (p : Planter) (name : Name) (key : assets.ScriptKey)
      → IsSoundOrNone p.pending_batch
      → IsSoundOrNone (set_seedling_script_key p name key).0.pending_batch
  unfolding set_seedling_script_key
  set_key-IsSound p name key h =
      with_batch-IsSound p _
        (λ b b' g e.
          let (_, _, e₁) =
            bind_parts (ok_or (find name b.seedlings) (invalid_seedling (unknown_seedling name))) _
              b' e in
          assigned b b' g e₁)
        h
    where
      assigned :
          (b b' : MintingBatch)
          → IsSound b
          → ◌≡◌ {A = Result MintingBatch Fault}
              (ok (record b { seedlings = assign_script_key name key b.seedlings }))
              (ok b')
          → IsSound b'
      assigned b b' (listed, distinct, state) e = subst IsSound (ok_injective e) (
        assign-IsListed name key b.seedlings listed,
        assign-IsDistinct name key b.seedlings distinct,
        grown-IsInState b.state b (assign_script_key name key b.seedlings)
            (omega (arith, length-assign name key b.seedlings)) state,
      )

  contains_key-append :
      (name : Name) (entries : List Entry) (k : Name) (s : Intent)
      → contains_key name entries ≡ false
      → contains_key name (entries ++ ((k, s) ∷ [])) ≡ bytes_eq k name
  unfolding contains_key
  contains_key-append name [] k s h = ground arith
  contains_key-append name ((k', s') ∷ rest) k s h =
      ground (arith, contains_key-append name rest k s)

  find_parts :
      (name k : Name) (s : Intent) (rest : List Entry)
      → contains_key name ((k, s) ∷ rest) ≡ false
      → (bytes_eq k name ≡ false) × (contains_key name rest ≡ false)
  unfolding contains_key
  find_parts name k s rest h = ground arith

  append-IsDistinct :
      (entries : List Entry) (k : Name) (s : Intent)
      → IsDistinct entries
      → contains_key k entries ≡ false
      → IsDistinct (entries ++ ((k, s) ∷ []))
  unfolding contains_key
  append-IsDistinct [] k s h f = (refl, tt)
  append-IsDistinct ((k', s') ∷ rest) k s (h, hs) f =
      let (differ, absent) = find_parts k k' s' rest f in
      (
        contains_key-append k' rest k s h ∙ bytes_eq_sym k k' ∙ differ,
        append-IsDistinct rest k s hs absent,
      )

  add_seedling-IsSound :
      (b b' : MintingBatch) (s : Intent) → IsSound b → add_seedling b s ≡ ok b' → IsSound b'
  unfolding add_seedling
  add_seedling-IsSound b b' s (listed, distinct, state) e =
      let entries : List Entry = b.seedlings ++ ((s.asset_name, s) ∷ []) in
      let next : Result MintingBatch Fault = ok (record b { seedlings = entries }) in
      let listing : Result MintingBatch Fault =
        ensure (not (contains_key s.asset_name b.seedlings)) (duplicate_seedling s.asset_name)
        >> next in
      let (_, e₁) =
        ensure_parts (can_add_seedlings b.state) (batch_not_pending b.state) (validate s >> listing)
          b' e in
      let (_, e₂, e₃) = bind_parts (validate s) (λ _. listing) b' e₁ in
      let (fresh, e₄) =
        ensure_parts (not (contains_key s.asset_name b.seedlings)) (duplicate_seedling s.asset_name)
          next b' e₃ in
      let absent : contains_key s.asset_name b.seedlings ≡ false = ground arith in
      subst IsSound (ok_injective e₄) (
        All-append IsListed b.seedlings _ listed ((refl, e₂), tt),
        append-IsDistinct b.seedlings s.asset_name s distinct absent,
        grown-IsInState b.state b entries
            (omega (arith, length-append b.seedlings ((s.asset_name, s) ∷ []))) state,
      )

  new_batch-IsSound : (k : KeyDescriptor) → IsSound (new_batch k)
  unfolding new_batch
  new_batch-IsSound k = (tt, tt, tt)

  -- A sound planter, and the batch that it answers, if it does.
  abbrev IsOpened : Planter × Result MintingBatch Fault → Type 0
  IsOpened (p, err e) = IsSoundOrNone p.pending_batch
  IsOpened (p, ok b) = IsSoundOrNone p.pending_batch × IsSound b

  open_batch-IsOpened :
      (r : assets.KeyRing × Result KeyDescriptor assets.ChainError) → IsOpened (open_batch r)
  unfolding open_batch
  open_batch-IsOpened (ring, err e) = tt
  open_batch-IsOpened (ring, ok k) = (new_batch-IsSound k, new_batch-IsSound k)

  ensure_batch-IsOpened :
      (ring : assets.KeyRing) (o : Option MintingBatch)
      → IsSoundOrNone o
      → IsOpened (ensure_batch ring o)
  unfolding ensure_batch
  ensure_batch-IsOpened ring none h =
      open_batch-IsOpened (assets.derive_next_key ring taproot_assets_key_family)
  ensure_batch-IsOpened ring (some b) h = (h, h)

  queue_opened :
      (s : Intent) (r : Planter × Result MintingBatch Fault)
      → IsOpened r
      → IsSoundOrNone (settle r.0 (r.1 >>= λ b. add_seedling b s)).0.pending_batch
  unfolding settle
  queue_opened s (p, err e) h = h
  queue_opened s (p, ok b) (h, k) =
      settle-IsSound p (add_seedling b s) (λ b' e. add_seedling-IsSound b b' s k e) h

  pub enqueue-IsSound :
      (p : Planter) (s : Intent) (r : Result (Unit {0}) Fault)
      → IsSoundOrNone p.pending_batch
      → IsSoundOrNone (enqueue p s r).0.pending_batch
  unfolding enqueue
  enqueue-IsSound p s (err e) h = h
  enqueue-IsSound p s (ok u) h =
      queue_opened s (ensure_batch p.key_ring p.pending_batch)
        (ensure_batch-IsOpened p.key_ring p.pending_batch h)
