-- ===== src/ProofFile.antt =====
-- tap-primitives/src/proof/file.rs: proof files, whose proofs form a hash chain.
pub mod Chain
pub mod RoundTrip
pub mod Canonical
mod Examples
use rust_tap.Common.{ℕ, zero, suc, ◌+◌, ◌*◌, ◌^◌, ◌%◌, Bool, true, false, Option, none, some}
use rust_tap.Common.{List, [], ◌∷◌, ◌++◌, Result, ok, err, ensure, ◌>>=◌, ◌>>◌, if◌then◌else◌}
use rust_tap.Common.{ltb, leb, not, length, take, drop, replicate, bytes_eq}
use rust_tap.Common.Bytes.{to_be_bytes, from_be_bytes}
use rust_tap.Encoding.BigSize.{TlvError}
unfoldable use rust_tap.Encoding.BigSize.{encode_bigsize, decode_bigsize}
use rust_tap.Mssmt.Hashing.{Sha256}
use rust_tap.Mssmt.Node.{NodeHash, hash_size}

abbrev pub file_magic_bytes : List ℕ
file_magic_bytes = 0x54 ∷ 0x41 ∷ 0x50 ∷ 0x46 ∷ []

abbrev pub file_version_v0 : ℕ
file_version_v0 = 0

abbrev pub file_max_num_proofs : ℕ
file_max_num_proofs = 420_000

abbrev pub file_max_proof_size_bytes : ℕ
file_max_proof_size_bytes = 128 * 1024 * 1024

-- The variants of `ProofError` that files use.
pub data ProofError : Type 0 where
  file_too_short : ProofError
  invalid_magic : ProofError
  too_many_proofs : ℕ → ProofError
  proof_too_large : ℕ → ProofError
  invalid_proof_hash : ProofError

pub record HashedProof : Type 0 where
  pub proof_bytes : List ℕ
  pub hash : NodeHash

pub record File : Type 0 where
  pub version : ℕ
  pub proofs : List HashedProof

unfoldable pub new_file : File
new_file = record { version = file_version_v0; proofs = [] }

-- `[0u8; 32]`
abbrev pub zero_hash : NodeHash
zero_hash = replicate 32 0

unfoldable pub num_proofs : File → ℕ
num_proofs f = length f.proofs

unfoldable pub last_of_proofs : List HashedProof → Option HashedProof
last_of_proofs [] = none
last_of_proofs (p ∷ []) = some p
last_of_proofs (p ∷ q ∷ rest) = last_of_proofs (q ∷ rest)

unfoldable pub last_proof : File → Option HashedProof
unfolding last_of_proofs
last_proof f = last_of_proofs f.proofs

abbrev pub hash_or_zero : Option HashedProof → NodeHash
hash_or_zero none = zero_hash
hash_or_zero (some p) = p.hash

unfoldable pub encode_entry : List ℕ → HashedProof → List ℕ
encode_entry buf p = (encode_bigsize buf (length p.proof_bytes) ++ p.proof_bytes) ++ p.hash

unfoldable pub encode_entries : List ℕ → List HashedProof → List ℕ
encode_entries buf [] = buf
encode_entries buf (p ∷ rest) = encode_entries (encode_entry buf p) rest

unfoldable pub encode : File → List ℕ
unfolding encode_entries encode_entry
encode f =
    encode_entries (encode_bigsize (file_magic_bytes ++ to_be_bytes 4 f.version) (length f.proofs))
      f.proofs

-- `map_err(|_| ProofError::FileTooShort)`
unfoldable pub or_too_short {ℓ} : {A : Type ℓ} → Result A TlvError → Result A ProofError
or_too_short (ok a) = ok a
or_too_short (err e) = err file_too_short

module _ ⦃sha256 : Sha256⦄ where
  unfoldable pub compute_proof_hash : NodeHash → List ℕ → NodeHash
  compute_proof_hash prev_hash proof_bytes = sha256.digest (prev_hash ++ proof_bytes)

  unfoldable pub append_proof : File → List ℕ → File
  unfolding compute_proof_hash last_of_proofs
  append_proof f proof_bytes = record f {
    proofs =
        f.proofs
        ++ (record {
          proof_bytes = proof_bytes;
          hash = compute_proof_hash (hash_or_zero (last_of_proofs f.proofs)) proof_bytes;
        }
            ∷ []);
  }

  -- The part of a round of `File::decode` behind the length: the entry, and the bytes behind it.
  unfoldable pub take_entry : NodeHash → ℕ → List ℕ → Result (HashedProof × List ℕ) ProofError
  unfolding compute_proof_hash
  take_entry prev_hash proof_len rest = do
    ensure (leb proof_len file_max_proof_size_bytes) (proof_too_large proof_len)
    ensure (leb (proof_len + 32) (length rest)) file_too_short
    let proof_bytes = take proof_len rest
    let hash = take hash_size (drop proof_len rest)
    ensure (bytes_eq hash (compute_proof_hash prev_hash proof_bytes)) invalid_proof_hash
    ok (record { proof_bytes = proof_bytes; hash = hash }, drop hash_size (drop proof_len rest))

  unfoldable pub decode_entry : NodeHash → List ℕ → Result (HashedProof × List ℕ) ProofError
  unfolding take_entry or_too_short
  decode_entry prev_hash bytes = do
    (proof_len, bytes_read) ← or_too_short (decode_bigsize bytes)
    take_entry prev_hash proof_len (drop bytes_read bytes)

  -- `for _ in 0..count` on `data[offset..]`.
  unfoldable pub decode_entries : ℕ → NodeHash → List ℕ → Result (List HashedProof) ProofError
  unfolding decode_entry
  decode_entries zero prev_hash bytes = ok []
  decode_entries (suc count) prev_hash bytes = do
    (p, rest) ← decode_entry prev_hash bytes
    later ← decode_entries count p.hash rest
    ok (p ∷ later)

  -- What follows the magic and the version.
  unfoldable pub decode_body : ℕ → List ℕ → Result File ProofError
  unfolding decode_entries or_too_short
  decode_body version bytes = do
    (count, bytes_read) ← or_too_short (decode_bigsize bytes)
    ensure (leb count file_max_num_proofs) (too_many_proofs count)
    proofs ← decode_entries count zero_hash (drop bytes_read bytes)
    ok (record { version = version; proofs = proofs })

  unfoldable pub decode : List ℕ → Result File ProofError
  unfolding decode_body
  decode bytes = do
    ensure (leb 4 (length bytes)) file_too_short
    ensure (bytes_eq (take 4 bytes) file_magic_bytes) invalid_magic
    ensure (leb 8 (length bytes)) file_too_short
    let bytes' = drop 4 bytes
    decode_body (from_be_bytes (take 4 bytes')) (drop 4 bytes')

  unfoldable pub chain_holds : NodeHash → List HashedProof → Bool
  unfolding compute_proof_hash
  chain_holds prev_hash [] = true
  chain_holds prev_hash (p ∷ rest) =
      let later = chain_holds p.hash rest in
      if bytes_eq p.hash (compute_proof_hash prev_hash p.proof_bytes) then later else false

  unfoldable pub verify_hash_chain : File → Bool
  unfolding chain_holds
  verify_hash_chain f = chain_holds zero_hash f.proofs
