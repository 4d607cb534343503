-- ===== src/ProofFile/Examples.antt =====
-- Tests of proof/file.rs, and its theorems at concrete inputs.
use rust_tap.Common.{
  ℕ, ◌^◌, ◌≤◌, ◌<◌, ◌≡◌, ◌⊎◌, refl, arith, true, List, [], ◌∷◌, ◌++◌, ok, err, All, length,
  bytes_eq,
}
use rust_tap.Common.Bytes.{to_be_bytes, from_be_bytes}
use rust_tap.Encoding.BigSize.{encode_bigsize, decode_bigsize}
use rust_tap.Mssmt.Hashing.{Collision}
use rust_tap.Mssmt.Toy.{toy_sha256, toy_digest}
use rust_tap.ProofFile.{
  File, new_file, append_proof, compute_proof_hash, verify_hash_chain, chain_holds, last_of_proofs,
}
use rust_tap.ProofFile.{
  encode, encode_entries, decode, decode_body, decode_entries, or_too_short, invalid_magic,
  file_too_short, file_max_num_proofs,
}
use rust_tap.ProofFile.Chain.{verify_hash_chain-append_proof, verify_hash_chain-binding}
use rust_tap.ProofFile.RoundTrip.{IsSmall, decode-encode_file}
use rust_tap.ProofFile.Canonical.{encode-decode}

abbrev two_proofs : File
unfolding append_proof new_file
two_proofs = append_proof (append_proof new_file (1 ∷ 2 ∷ [])) (3 ∷ [])

no_magic : decode (1 ∷ 2 ∷ 3 ∷ 4 ∷ []) ≡ err invalid_magic
unfolding decode bytes_eq
no_magic = refl

cut : decode (0x54 ∷ 0x41 ∷ 0x50 ∷ 0x46 ∷ 0 ∷ []) ≡ err file_too_short
unfolding decode bytes_eq
cut = refl

empty_bytes : encode new_file ≡ 0x54 ∷ 0x41 ∷ 0x50 ∷ 0x46 ∷ 0 ∷ 0 ∷ 0 ∷ 0 ∷ 0 ∷ []
unfolding encode new_file encode_entries encode_bigsize to_be_bytes
empty_bytes = refl

two_hold : verify_hash_chain two_proofs ≡ true
unfolding verify_hash_chain chain_holds append_proof new_file compute_proof_hash toy_digest
    last_of_proofs bytes_eq
two_hold = refl

verify_hash_chain-append_proof_example :
    verify_hash_chain (append_proof two_proofs (9 ∷ 9 ∷ [])) ≡ true
verify_hash_chain-append_proof_example =
    verify_hash_chain-append_proof two_proofs (9 ∷ 9 ∷ []) two_hold

verify_hash_chain-binding_example : (two_proofs.proofs ≡ two_proofs.proofs) ⊎ Collision toy_sha256
verify_hash_chain-binding_example =
    verify_hash_chain-binding two_proofs two_proofs refl two_hold two_hold refl

decode-encode_file_example : decode (encode two_proofs ++ (7 ∷ [])) ≡ ok two_proofs
unfolding append_proof new_file
decode-encode_file_example =
    decode-encode_file two_proofs (7 ∷ []) (omega arith) (omega arith) (omega arith) two_hold

abbrev empty_file : List ℕ
empty_file = 0x54 ∷ 0x41 ∷ 0x50 ∷ 0x46 ∷ 0 ∷ 0 ∷ 0 ∷ 0 ∷ 0 ∷ 8 ∷ []

empty_read : decode empty_file ≡ ok new_file
unfolding decode decode_body decode_entries or_too_short decode_bigsize new_file bytes_eq
    from_be_bytes
empty_read = refl

encode-decode_example :
    (rest : List ℕ) × (encode new_file ++ rest ≡ empty_file)
    × (verify_hash_chain new_file ≡ true)
    × (new_file.version < 2 ^ 32)
    × (length new_file.proofs ≤ file_max_num_proofs)
    × All IsSmall new_file.proofs
encode-decode_example = encode-decode empty_file new_file (omega arith) empty_read
