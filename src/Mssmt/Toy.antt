-- ===== src/Mssmt/Toy.antt =====
-- A hash function for the concrete runs: a stand-in for SHA-256 that evaluates.
use rust_tap.Common.{ℕ, ◌+◌, ◌*◌, ◌^◌, ◌%◌, ◌≡◌, List, [], ◌∷◌, length, All}
use rust_tap.Common.Bytes.{IsByte, to_be_bytes, length-to_be_bytes, to_be_bytes-IsByte}
use rust_tap.Mssmt.Hashing.{Sha256}

-- The bytes, read as one number behind a leading 1, in 32 bytes. Each
-- byte shifts what stands before it by an odd factor.
toy_loop : ℕ → List ℕ → ℕ
toy_loop acc [] = acc
toy_loop acc (b ∷ bs) = toy_loop ((acc * 257 + b + 1) % 2 ^ 256) bs

unfoldable pub toy_digest : List ℕ → List ℕ
unfolding toy_loop to_be_bytes
toy_digest bytes = to_be_bytes 32 (toy_loop 1 bytes)

pub toy-length : (bytes : List ℕ) → length (toy_digest bytes) ≡ 32
unfolding toy_digest
toy-length bytes = length-to_be_bytes 32 (toy_loop 1 bytes)

pub toy-IsByte : (bytes : List ℕ) → All IsByte (toy_digest bytes)
unfolding toy_digest
toy-IsByte bytes = to_be_bytes-IsByte 32 (toy_loop 1 bytes)

instance abbrev pub toy_sha256 : Sha256
toy_sha256 = record { digest = toy_digest; length-digest = toy-length; digest-IsByte = toy-IsByte }
