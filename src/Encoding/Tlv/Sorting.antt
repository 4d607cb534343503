-- ===== src/Encoding/Tlv/Sorting.antt =====
-- The order that `TlvStream::encode` puts records in.
use rust_tap.Common.{ℕ, ◌<◌, ◌≡◌, ◌≢◌, refl, arith, List, [], ◌∷◌, leb, All, Bool-cases}
use rust_tap.Common.{inl, inr}
use rust_tap.Encoding.Tlv.{TlvRecord, insert_by_type, sort_by_type}
use mathlib.Core.List.{Perm}
use mathlib.Core.List.Perm

-- Types strictly ascend.
abbrev pub IsAscending : List TlvRecord → Type 0
IsAscending [] = Unit {0}
IsAscending (r ∷ rs) = All (λ x. r.type_num < x.type_num) rs × IsAscending rs

-- No two records have the same type.
abbrev pub HasDistinctTypes : List TlvRecord → Type 0
HasDistinctTypes [] = Unit {0}
HasDistinctTypes (r ∷ rs) = All (λ x. r.type_num ≢ x.type_num) rs × HasDistinctTypes rs

insert_by_type-All :
    (P : TlvRecord → Type 0) (r : TlvRecord) (xs : List TlvRecord)
    → P r
    → All P xs
    → All P (insert_by_type r xs)
unfolding insert_by_type
insert_by_type-All P r [] p h = (p, tt)
insert_by_type-All P r (x ∷ xs) p h = elim (Bool-cases (leb r.type_num x.type_num)) [
  | inl e ↦ rw e (p, h)
  | inr e ↦ rw e (h.0, insert_by_type-All P r xs p h.1)
]

pub sort_by_type-All :
    (P : TlvRecord → Type 0) (rs : List TlvRecord) → All P rs → All P (sort_by_type rs)
unfolding sort_by_type
sort_by_type-All P [] h = tt
sort_by_type-All P (r ∷ rs) h =
    insert_by_type-All P r (sort_by_type rs) h.0 (sort_by_type-All P rs h.1)

pub All-lt_trans :
    (a b : ℕ) (xs : List TlvRecord)
    → a < b
    → All (λ x. b < x.type_num) xs
    → All (λ x. a < x.type_num) xs
All-lt_trans a b [] h k = tt
All-lt_trans a b (x ∷ xs) h k = (omega (arith, k.0), All-lt_trans a b xs h k.1)

insert_by_type-IsAscending :
    (r : TlvRecord) (xs : List TlvRecord)
    → All (λ x. r.type_num ≢ x.type_num) xs
    → IsAscending xs
    → IsAscending (insert_by_type r xs)
unfolding insert_by_type
insert_by_type-IsAscending r [] d h = (tt, tt)
insert_by_type-IsAscending r (x ∷ xs) d h = elim (Bool-cases (leb r.type_num x.type_num)) [
  | inl e ↦
      let lt : r.type_num < x.type_num = ground (arith, d.0) in
      rw e ((lt, All-lt_trans r.type_num x.type_num xs lt h.0), h)
  | inr e ↦
      let lt : x.type_num < r.type_num = ground arith in
      rw e (
        insert_by_type-All (λ y. x.type_num < y.type_num) r xs lt h.0,
        insert_by_type-IsAscending r xs d.1 h.1,
      )
]

-- Records of distinct types come out strictly ascending.
pub sort_by_type-IsAscending :
    (rs : List TlvRecord) → HasDistinctTypes rs → IsAscending (sort_by_type rs)
unfolding sort_by_type
sort_by_type-IsAscending [] d = tt
sort_by_type-IsAscending (r ∷ rs) d =
    insert_by_type-IsAscending r (sort_by_type rs)
      (sort_by_type-All (λ x. r.type_num ≢ x.type_num) rs d.0) (sort_by_type-IsAscending rs d.1)

insert_by_type_least :
    (r : TlvRecord) (xs : List TlvRecord)
    → All (λ x. r.type_num < x.type_num) xs
    → insert_by_type r xs ≡ r ∷ xs
unfolding insert_by_type
insert_by_type_least r [] h = refl
insert_by_type_least r (x ∷ xs) h = ground (arith, h.0)

-- A strictly ascending list is left as it is.
pub sort_by_type_ascending : (rs : List TlvRecord) → IsAscending rs → sort_by_type rs ≡ rs
unfolding sort_by_type
sort_by_type_ascending [] h = refl
sort_by_type_ascending (r ∷ rs) h =
    rw (sort_by_type_ascending rs h.1) (insert_by_type_least r rs h.0)

insert_by_type-perm : (r : TlvRecord) (xs : List TlvRecord) → Perm (insert_by_type r xs) (r ∷ xs)
unfolding insert_by_type
insert_by_type-perm r [] = Perm.refl _
insert_by_type-perm r (x ∷ xs) = elim (Bool-cases (leb r.type_num x.type_num)) [
  | inl e ↦ rw e (Perm.refl _)
  | inr e ↦ rw e (Perm.trans (Perm.cons x (insert_by_type-perm r xs)) (Perm.swap r x xs))
]

pub sort_by_type-perm : (rs : List TlvRecord) → Perm (sort_by_type rs) rs
unfolding sort_by_type
sort_by_type-perm [] = Perm.refl []
sort_by_type-perm (r ∷ rs) =
    Perm.trans (insert_by_type-perm r (sort_by_type rs)) (Perm.cons r (sort_by_type-perm rs))
