-- ===== src/ProofFile/RoundTrip.antt =====
-- `File::encode` and `File::decode` undo each other.
use rust_tap.Common.{ℕ, ◌+◌, ◌^◌, ◌≤◌, ◌<◌, ◌≡◌, refl, sym, ap, ◌∙◌, arith, true}
use rust_tap.Common.{List, [], ◌∷◌, ◌++◌, ok, length, take, drop}
use rust_tap.Common.{
  All, append_assoc, append-nil, length-append, take-append_length, drop-append_length,
}
use rust_tap.Common.{bytes_eq_refl, le→leb}
use rust_tap.Common.Bytes.{
  to_be_bytes, from_be_bytes, length-to_be_bytes, from_be_bytes-to_be_bytes,
}
use rust_tap.Encoding.BigSize.{encode_bigsize}
unfoldable use rust_tap.Encoding.BigSize.{}
use rust_tap.Encoding.BigSize.RoundTrip.{
  encoding, encode_bigsize-encoding, drop-encoding, decode_bigsize-encoding,
}
use rust_tap.Mssmt.Hashing.{Sha256}
use rust_tap.Mssmt.Node.{NodeHash}
use rust_tap.ProofFile.{
  File, HashedProof, zero_hash, file_magic_bytes, file_max_num_proofs, file_max_proof_size_bytes,
}
use rust_tap.ProofFile.Chain.{chain_holds_parts, link_IsHash}
unfoldable use rust_tap.ProofFile.{
  compute_proof_hash, chain_holds, verify_hash_chain, encode, encode_entries, encode_entry,
}
unfoldable use rust_tap.ProofFile.{
  decode, decode_body, decode_entries, decode_entry, take_entry, or_too_short,
}

-- What a proof takes in the file.
unfoldable pub entry : HashedProof → List ℕ
entry p = encoding (length p.proof_bytes) ++ (p.proof_bytes ++ p.hash)

unfoldable pub entries : List HashedProof → List ℕ
entries [] = []
entries (p ∷ rest) = entry p ++ entries rest

encode_entry-entry : (buf : List ℕ) (p : HashedProof) → encode_entry buf p ≡ buf ++ entry p
unfolding encode_entry entry
encode_entry-entry buf p = simp (encode_bigsize-encoding, append_assoc)

encode_entries-entries :
    (buf : List ℕ) (ps : List HashedProof) → encode_entries buf ps ≡ buf ++ entries ps
unfolding encode_entries entries
encode_entries-entries buf [] = sym (append-nil buf)
encode_entries-entries buf (p ∷ rest) =
    encode_entries-entries (encode_entry buf p) rest
    ∙ rw (encode_entry-entry buf p) (append_assoc buf (entry p) (entries rest))

-- The bytes behind the magic and the version.
abbrev pub body : List HashedProof → List ℕ
body ps = encoding (length ps) ++ entries ps

pub encode-body :
    (f : File) → encode f ≡ file_magic_bytes ++ (to_be_bytes 4 f.version ++ body f.proofs)
unfolding encode
encode-body f =
    encode_entries-entries
      (encode_bigsize (file_magic_bytes ++ to_be_bytes 4 f.version) (length f.proofs)) f.proofs
    ∙ simp (encode_bigsize-encoding, append_assoc)

-- A proof that `decode` takes: it is not too large.
abbrev pub IsSmall : HashedProof → Type 0
IsSmall p = length p.proof_bytes ≤ file_max_proof_size_bytes

module _ ⦃sha256 : Sha256⦄ where
  take_entry-append :
      (h : NodeHash) (p : HashedProof) (rest : List ℕ)
      → IsSmall p
      → p.hash ≡ compute_proof_hash h p.proof_bytes
      → length p.hash ≡ 32
      → take_entry h (length p.proof_bytes) (p.proof_bytes ++ (p.hash ++ rest)) ≡ ok (p, rest)
  unfolding take_entry
  take_entry-append h p rest small link size =
      let fits : length p.proof_bytes + 32 ≤ length (p.proof_bytes ++ (p.hash ++ rest)) =
        omega
          (arith, length-append p.proof_bytes (p.hash ++ rest), length-append p.hash rest, size) in
      let at_hash : take 32 (p.hash ++ rest) ≡ p.hash =
        rw size at (take-append_length p.hash rest) in
      let behind : drop 32 (p.hash ++ rest) ≡ rest = rw size at (drop-append_length p.hash rest) in
      rw
        (
          le→leb (length p.proof_bytes) file_max_proof_size_bytes small,
          le→leb (length p.proof_bytes + 32) (length (p.proof_bytes ++ (p.hash ++ rest))) fits,
          take-append_length p.proof_bytes (p.hash ++ rest),
          drop-append_length p.proof_bytes (p.hash ++ rest),
          at_hash,
          behind,
          ← link,
          bytes_eq_refl p.hash,
        )
        refl

  decode_entry-entry :
      (h : NodeHash) (p : HashedProof) (rest : List ℕ)
      → IsSmall p
      → p.hash ≡ compute_proof_hash h p.proof_bytes
      → length p.hash ≡ 32
      → decode_entry h (entry p ++ rest) ≡ ok (p, rest)
  unfolding decode_entry entry or_too_short
  decode_entry-entry h p rest small link size =
      let n = length p.proof_bytes in
      let tail = p.proof_bytes ++ (p.hash ++ rest) in
      let split : (encoding n ++ (p.proof_bytes ++ p.hash)) ++ rest ≡ encoding n ++ tail =
        simp append_assoc in
      rw (split, decode_bigsize-encoding n tail (omega (arith, small)), drop-encoding n tail)
        (take_entry-append h p rest small link size)

  decode_entries-entries :
      (h : NodeHash) (ps : List HashedProof) (rest : List ℕ)
      → All IsSmall ps
      → chain_holds h ps ≡ true
      → decode_entries (length ps) h (entries ps ++ rest) ≡ ok ps
  unfolding decode_entries entries
  decode_entries-entries h [] rest small e = refl
  decode_entries-entries h (p ∷ ps) rest small e =
      let (link, later) = chain_holds_parts h p ps e in
      let one =
        decode_entry-entry h p (entries ps ++ rest) small.0 link
          (link_IsHash h p.proof_bytes p.hash link) in
      rw
        (
          append_assoc (entry p) (entries ps) rest,
          one,
          decode_entries-entries p.hash ps rest small.1 later,
        )
        refl

  decode_body-body :
      (version : ℕ) (ps : List HashedProof) (rest : List ℕ)
      → length ps ≤ file_max_num_proofs
      → All IsSmall ps
      → chain_holds zero_hash ps ≡ true
      → decode_body version (body ps ++ rest) ≡ ok (record { version = version; proofs = ps })
  unfolding decode_body or_too_short
  decode_body-body version ps rest few small e =
      let n = length ps in
      let tail = entries ps ++ rest in
      let split : body ps ++ rest ≡ encoding n ++ tail =
        append_assoc (encoding n) (entries ps) rest in
      rw
        (
          split,
          decode_bigsize-encoding n tail (omega (arith, few)),
          le→leb n file_max_num_proofs few,
          drop-encoding n tail,
          decode_entries-entries zero_hash ps rest small e,
        )
        refl

  decode-magic :
      (version tail : List ℕ)
      → length version ≡ 4
      → decode (file_magic_bytes ++ (version ++ tail)) ≡ decode_body (from_be_bytes version) tail
  unfolding decode
  decode-magic version tail size =
      let fits : 8 ≤ length (file_magic_bytes ++ (version ++ tail)) =
        omega (arith, length-append version tail, size) in
      let fits₄ : 4 ≤ length (file_magic_bytes ++ (version ++ tail)) = omega (arith, fits) in
      let at_version : take 4 (version ++ tail) ≡ version =
        rw size at (take-append_length version tail) in
      let behind : drop 4 (version ++ tail) ≡ tail = rw size at (drop-append_length version tail) in
      rw
        (
          le→leb 8 (length (file_magic_bytes ++ (version ++ tail))) fits,
          le→leb 4 (length (file_magic_bytes ++ (version ++ tail))) fits₄,
          bytes_eq_refl file_magic_bytes,
          at_version,
          behind,
        )
        refl

  -- Decoding the encoding of a file, whatever bytes follow it and however large it is, gives the file
  -- back: its version is a u32, it has at most 420000 proofs, none larger than 128 MiB, and its hash
  -- chain holds.
  pub decode-encode_file :
      (f : File) (rest : List ℕ)
      → f.version < 2 ^ 32
      → length f.proofs ≤ file_max_num_proofs
      → All IsSmall f.proofs
      → verify_hash_chain f ≡ true
      → decode (encode f ++ rest) ≡ ok f
  unfolding verify_hash_chain
  decode-encode_file f rest small few sizes e =
      let version = to_be_bytes 4 f.version in
      let tail = body f.proofs ++ rest in
      let split : encode f ++ rest ≡ file_magic_bytes ++ (version ++ tail) =
        ap (λ t. t ++ rest) (encode-body f) ∙ simp append_assoc in
      ap decode split
      ∙ decode-magic version tail (length-to_be_bytes 4 f.version)
      ∙ ap (λ v. decode_body v tail) (from_be_bytes-to_be_bytes 4 f.version (omega (arith, small)))
      ∙ decode_body-body f.version f.proofs rest few sizes e
