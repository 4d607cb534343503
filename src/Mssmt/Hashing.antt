-- ===== src/Mssmt/Hashing.antt =====
-- The hash function of the crate `bitcoin_hashes`, which mssmt/node.rs calls: a parameter.
use rust_tap.Common.{ℕ, ◌≡◌, ◌≢◌, ◌⊎◌, inl, inr}
use rust_tap.Common.{List, length, All, Bool-cases, bytes_eq, bytes_eq→eq, bytes_eq_refl}
use rust_tap.Common.Bytes.{IsByte}

-- SHA-256 takes any bytes to 32 bytes.
pub record Sha256 : Type 0 where
  pub digest : List ℕ → List ℕ
  pub length-digest : (bytes : List ℕ) → length (digest bytes) ≡ 32
  pub digest-IsByte : (bytes : List ℕ) → All IsByte (digest bytes)

-- Two byte strings with one digest.
pub record Collision (h : Sha256) : Type 0 where
  pub one : List ℕ
  pub other : List ℕ
  pub differ : one ≢ other
  pub same : h.digest one ≡ h.digest other

-- Equal digests come from equal bytes, or show a collision.
pub eq_or_Collision :
    (h : Sha256) (xs ys : List ℕ) → h.digest xs ≡ h.digest ys → (xs ≡ ys) ⊎ Collision h
eq_or_Collision h xs ys e = elim (Bool-cases (bytes_eq xs ys)) [
  | inl same ↦ inl (bytes_eq→eq xs ys same)
  | inr no_match ↦ inr (record {
    one = xs;
    other = ys;
    differ = λ p. cc (rw (← p) at no_match, bytes_eq_refl xs);
    same = e;
  })
]
