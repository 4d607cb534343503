-- ===== src/Mint/Planter/Commitment.antt =====
-- Freezing, committing, updating and cancelling keep the pending batch sound.
use rust_tap.Common.{ℕ, ◌<◌, ◌≡◌, refl, arith, true, Option, none, some, List}
use rust_tap.Common.{Bool-cases, inl, inr, ensure_parts, bind_parts, ok_injective}
use rust_tap.Common.{Result, ok, err, All, length, map, subst, ok_or, ensure, ◌>>=◌, ◌>>◌}
use rust_tap.Mint.Interface.{Assets, OutPoint}
use rust_tap.Mint.Seedling.{
  BatchState, frozen, committed, Fault, no_pending_batch, batch_not_pending,
}
unfoldable use rust_tap.Mint.Seedling.{}
use rust_tap.Mint.Batch.{MintingBatch}
unfoldable use rust_tap.Mint.Batch.{state_eq}
unfoldable use rust_tap.Mint.Batch.{discriminant}
use rust_tap.Mint.Planter.{Planter}
unfoldable use rust_tap.Mint.Planter.{}
unfoldable use rust_tap.Mint.Planter.{freeze_batch, sprout, commit_batch}
unfoldable use rust_tap.Mint.Planter.{recommit_batch, build_commitment, update_sprouted_assets}
unfoldable use rust_tap.Mint.Planter.{
  cancel_batch, with_batch, settle, rebuild, update_batch, sprout_asset,
}
use rust_tap.Mint.Planter.Soundness.{
  IsListed, IsDistinct, IsPlanted, IsInState, IsSound, IsSoundOrNone,
}

module _ ⦃assets : Assets⦄ where
  pub settle-IsSound :
      (p : Planter) (r : Result MintingBatch Fault)
      → ((b : MintingBatch) → r ≡ ok b → IsSound b)
      → IsSoundOrNone p.pending_batch
      → IsSoundOrNone (settle p r).0.pending_batch
  unfolding settle
  settle-IsSound p (err e) keep h = h
  settle-IsSound p (ok b) keep h = keep b refl

  pub with_batch-IsSound :
      (p : Planter) (f : MintingBatch → Result MintingBatch Fault)
      → ((b b' : MintingBatch) → IsSound b → f b ≡ ok b' → IsSound b')
      → IsSoundOrNone p.pending_batch
      → IsSoundOrNone (with_batch p f).0.pending_batch
  unfolding with_batch
  with_batch-IsSound p f keep h =
      settle-IsSound p (ok_or p.pending_batch no_pending_batch >>= f) (found p.pending_batch h) h
    where
      found :
          (o : Option MintingBatch)
          → IsSoundOrNone o
          → (b : MintingBatch) → (ok_or o no_pending_batch >>= f) ≡ ok b
          → IsSound b
      found none h b e = cc e
      found (some b') h b e = keep b' b h e

  pub freeze-IsSound :
      (p : Planter) → IsSoundOrNone p.pending_batch → IsSoundOrNone (freeze_batch p).0.pending_batch
  unfolding freeze_batch
  freeze-IsSound p h = with_batch-IsSound p _ (λ b b' g e. ground (arith, g)) h

  pub cancel-IsSound :
      (p : Planter) → IsSoundOrNone p.pending_batch → IsSoundOrNone (cancel_batch p).0.pending_batch
  unfolding cancel_batch
  cancel-IsSound p h = with_batch-IsSound p _ (λ b b' g e. ground (arith, g)) h

  -- A sprouted batch has the commitment of its assets, and the seedlings and the state that it had.
  abbrev IsSprouted : MintingBatch → MintingBatch → Type 0
  IsSprouted b b' = IsPlanted b' × (b'.seedlings ≡ b.seedlings) × (b'.state ≡ b.state)

  sprout-IsSprouted :
      (b b' : MintingBatch) (point : OutPoint) (index : ℕ)
      → sprout b point index ≡ ok b'
      → IsSprouted b b'
  unfolding sprout
  sprout-IsSprouted b b' point index e = built (bind_parts (build_commitment sprouts) _ b' e)
    where
      sprouts : List assets.Asset
      sprouts = map (sprout_asset b point index) b.seedlings

      sprouted : assets.TapCommitmentTree → MintingBatch
      sprouted tree = record b {
        root_asset_commitment = some tree;
        sprouted_assets = sprouts;
        genesis_outpoint = some point;
        mint_output_index = some index;
      }

      built :
          (c : assets.TapCommitmentTree) × (build_commitment sprouts ≡ ok c)
            × (◌≡◌ {A = Result MintingBatch Fault} (ok (sprouted c)) (ok b'))
          → IsSprouted b b'
      built (tree, f, g) =
          let same : sprouted tree ≡ b' = ok_injective g in
          subst (IsSprouted b) same ((tree, refl, f), refl, refl)

  -- A sprouted batch that is then in the state `committed` is sound.
  sprouted-IsSound :
      (b b' : MintingBatch)
      → All IsListed b.seedlings
      → IsDistinct b.seedlings
      → 0 < length b.seedlings
      → IsSprouted b b'
      → IsSound (record b' { state = committed })
  sprouted-IsSound b b' listed distinct filled (planted, same, kept) =
      (rw same listed, rw same distinct, (rw same filled, planted))

  frozen-lem : (s : BatchState) → state_eq s frozen ≡ true → s ≡ frozen
  unfolding state_eq discriminant
  frozen-lem s e = ground arith

  committed-lem : (s : BatchState) → state_eq s committed ≡ true → s ≡ committed
  unfolding state_eq discriminant
  committed-lem s e = ground arith

  pub commit-IsSound :
      (p : Planter) (point : OutPoint) (index : ℕ)
      → IsSoundOrNone p.pending_batch
      → IsSoundOrNone (commit_batch p point index).0.pending_batch
  unfolding commit_batch
  commit-IsSound p point index h = with_batch-IsSound p _ committed_one h
    where
      committed_one :
          (b b' : MintingBatch)
          → IsSound b
          → (ensure (state_eq b.state frozen) (batch_not_pending b.state)
              >> (sprout b point index >>= (λ batch'. ok (record batch' { state = committed }))))
            ≡ ok b'
          → IsSound b'
      committed_one b b' (listed, distinct, state) e =
          let (is_frozen, e₁) = ensure_parts _ _ _ b' e in
          let (batch', e₂, e₃) = bind_parts (sprout b point index) _ b' e₁ in
          let filled : IsInState frozen b = rw (frozen-lem b.state is_frozen) at state in
          subst IsSound (ok_injective e₃) (
            sprouted-IsSound b batch' listed distinct filled
              (sprout-IsSprouted b batch' point index e₂))

  -- What `sprout` or `rebuild` makes of a sound committed batch is sound.
  kept-IsSound :
      (b b' : MintingBatch)
      → state_eq b.state committed ≡ true
      → All IsListed b.seedlings
      → IsDistinct b.seedlings
      → IsInState b.state b
      → IsSprouted b b'
      → IsSound b'
  kept-IsSound b b' is_committed listed distinct state (planted, same, kept) =
      let was = committed-lem b.state is_committed in
      let (filled, _) : IsInState committed b = rw was at state in
      let now : IsInState committed b' = (rw same filled, planted) in
      (rw same listed, rw same distinct, rw (kept, was) now)

  pub recommit-IsSound :
      (p : Planter) (point : OutPoint) (index : ℕ)
      → IsSoundOrNone p.pending_batch
      → IsSoundOrNone (recommit_batch p point index).0.pending_batch
  unfolding recommit_batch
  recommit-IsSound p point index h =
      with_batch-IsSound p _ (λ b b' g e. recommitted b b' g (ensure_parts _ _ _ b' e)) h
    where
      recommitted :
          (b b' : MintingBatch)
          → IsSound b
          → (state_eq b.state committed ≡ true) × (sprout b point index ≡ ok b')
          → IsSound b'
      recommitted b b' (listed, distinct, state) (was, e) =
          kept-IsSound b b' was listed distinct state (sprout-IsSprouted b b' point index e)

  settle_ok-IsSound :
      (p : Planter) (r : Result MintingBatch Fault)
      → ((b : MintingBatch) → r ≡ ok b → IsSound b)
      → (settle p r).1 ≡ ok tt
      → IsSoundOrNone (settle p r).0.pending_batch
  unfolding settle
  settle_ok-IsSound p (ok b) keep e = keep b refl
  settle_ok-IsSound p (err x) keep e = cc e

  rebuild-IsSprouted :
      (b b' : MintingBatch) (answer : Result (Unit {0}) Fault)
      → rebuild b answer ≡ ok b'
      → IsSprouted b b'
  unfolding rebuild
  rebuild-IsSprouted b b' answer e =
      let (_, _, e₁) = bind_parts answer _ b' e in
      let (tree, e₂, e₃) = bind_parts (build_commitment b.sprouted_assets) _ b' e₁ in
      subst (IsSprouted b) (ok_injective e₃) ((tree, refl, e₂), refl, refl)

  update_batch-IsSound :
      (p : Planter) (f : List assets.Asset → List assets.Asset × Result (Unit {0}) Fault)
      (o : Option MintingBatch)
      → (update_batch p f o).1 ≡ ok tt
      → IsSoundOrNone p.pending_batch
      → IsSoundOrNone o
      → IsSoundOrNone (update_batch p f o).0.pending_batch
  unfolding update_batch
  update_batch-IsSound p f none e k h = cc e
  update_batch-IsSound p f (some b) e k (listed, distinct, state) =
      elim (Bool-cases (state_eq b.state committed)) [
        | inl was ↦
            let (changed, answer) = f b.sprouted_assets in
            let b₁ : MintingBatch = record b { sprouted_assets = changed } in
            rw was (
              settle_ok-IsSound (record p { pending_batch = some b₁ }) (rebuild b₁ answer)
                (λ b' built.
                  kept-IsSound b b' was listed distinct state
                    (rebuild-IsSprouted b₁ b' answer built))
                (rw was at e))
        | inr not_committed ↦ rw not_committed k
      ]

  pub update-IsSound :
      (p : Planter) (f : List assets.Asset → List assets.Asset × Result (Unit {0}) Fault)
      → (update_sprouted_assets p f).1 ≡ ok tt
      → IsSoundOrNone p.pending_batch
      → IsSoundOrNone (update_sprouted_assets p f).0.pending_batch
  unfolding update_sprouted_assets
  update-IsSound p f e h = update_batch-IsSound p f p.pending_batch e h h
