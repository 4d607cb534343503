-- ===== src/TxMerkle/Levels.antt =====
-- One level of the tree and the next.
use rust_tap.Common.{ℕ, zero, suc, ◌+◌, ◌-◌, ◌*◌, ◌/◌, ◌%◌, ◌<◌, ◌≡◌, ◌∙◌, refl, ap₂, arith}
use rust_tap.Common.{List, [], ◌∷◌, ◌++◌, ◌==◌, length, get_or, length-append}
use rust_tap.Common.{Bool-cases, inl, inr}
use rust_tap.Mssmt.Hashing.{Sha256}
use rust_tap.TxMerkle.{Hash32, last_of, pad, sibling_index, pair_up, climb_once}

pub length-pad : (level : List Hash32) → length (pad level) ≡ length level + length level % 2
unfolding pad
length-pad level = ground (arith, length-append level (last_of level ∷ []))

get_or-append :
    (xs ys : List Hash32) (i : ℕ) → i < length xs → get_or (xs ++ ys) i [] ≡ get_or xs i []
get_or-append [] ys i h = absurd (omega arith)
get_or-append (x ∷ xs) ys zero h = refl
get_or-append (x ∷ xs) ys (suc i) h = get_or-append xs ys i (omega arith)

-- Padding leaves the entries that were there.
pub get_or-pad :
    (level : List Hash32) (i : ℕ) → i < length level → get_or (pad level) i [] ≡ get_or level i []
unfolding pad
get_or-pad level i h = ground (arith, get_or-append level (last_of level ∷ []) i h)

module _ ⦃sha256d : Sha256⦄ where
  pub length-pair_up : (level : List Hash32) → length (pair_up level) ≡ length level / 2
  unfolding pair_up
  length-pair_up [] = omega arith
  length-pair_up (a ∷ []) = omega arith
  length-pair_up (a ∷ b ∷ rest) = omega (arith, length-pair_up rest)

  -- Entry `k` of the next level is the hash of entries `2 k` and `2 k + 1`.
  get_or-pair_up :
      (level : List Hash32) (k : ℕ)
      → 2 * k + 1 < length level
      → get_or (pair_up level) k []
        ≡ sha256d.digest (get_or level (2 * k) [] ++ get_or level (2 * k + 1) [])
  unfolding pair_up
  get_or-pair_up [] k h = absurd (omega arith)
  get_or-pair_up (a ∷ []) k h = absurd (omega arith)
  get_or-pair_up (a ∷ b ∷ rest) zero h = refl
  get_or-pair_up (a ∷ b ∷ rest) (suc k) h =
      get_or-pair_up rest k (omega arith)
      ∙ ap₂ (λ m n. sha256d.digest (get_or (a ∷ b ∷ rest) m [] ++ get_or (a ∷ b ∷ rest) n [])) even
          odd
    where
      even : suc (suc (2 * k)) ≡ 2 * suc k
      even = omega arith

      odd : suc (suc (2 * k + 1)) ≡ 2 * suc k + 1
      odd = omega arith

  -- The entry that a node and its sibling hash to stands at half its index.
  pub climb_once-pair_up :
      (level : List Hash32) (index : ℕ)
      → index < length level
      → climb_once
          (get_or level index [])
          (get_or (pad level) (sibling_index index) [])
          (index % 2 == 0)
        ≡ get_or (pair_up (pad level)) (index / 2) []
  unfolding climb_once sibling_index
  climb_once-pair_up level index h =
      let room : 2 * (index / 2) + 1 < length (pad level) = omega (arith, length-pad level) in
      let above = get_or-pair_up (pad level) (index / 2) room in
      let kept = get_or-pad level index h in
      elim (Bool-cases (index % 2 == 0)) [
        | inl e ↦
            let even : 2 * (index / 2) ≡ index = ground arith in rw (above, e, even, kept) refl
        | inr e ↦
            let odd : 2 * (index / 2) + 1 ≡ index = ground arith in
            let before : 2 * (index / 2) ≡ index - 1 = ground arith in
            rw (above, e, odd, before, kept) refl
      ]
