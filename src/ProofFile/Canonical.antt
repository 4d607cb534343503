-- ===== src/ProofFile/Canonical.antt =====
-- What `File::decode` accepts is an encoding.
use rust_tap.Common.{ℕ, zero, suc, ◌+◌, ◌^◌, ◌≤◌, ◌<◌, ◌≡◌, refl, sym, ap, ◌∙◌, arith, true}
use rust_tap.Common.{List, [], ◌∷◌, ◌++◌, Result, ok, err, ensure, ◌>>=◌, ◌>>◌, length, take, drop}
use rust_tap.Common.{
  All, All-take, All-drop, append_assoc, length-take, length-drop, take-append-drop,
}
use rust_tap.Common.{
  bytes_eq→eq, bytes_eq_refl, leb→le, leb, ensure_parts, bind_parts, subst, ok_injective,
}
use rust_tap.Common.Bytes.{
  IsByte, to_be_bytes, from_be_bytes, to_be_bytes-from_be_bytes, from_be_bytes-lt,
}
use rust_tap.Encoding.BigSize.{TlvError}
unfoldable use rust_tap.Encoding.BigSize.{decode_bigsize}
use rust_tap.Encoding.BigSize.RoundTrip.{
  encoding, encode_bigsize-encoding, encode_bigsize-decode_bigsize,
}
use rust_tap.Mssmt.Hashing.{Sha256}
use rust_tap.Mssmt.Node.{NodeHash}
use rust_tap.ProofFile.{
  File, HashedProof, ProofError, zero_hash, file_magic_bytes, file_max_num_proofs,
  file_max_proof_size_bytes,
}
use rust_tap.ProofFile.{too_many_proofs}
unfoldable use rust_tap.ProofFile.{compute_proof_hash, chain_holds, verify_hash_chain, encode}
unfoldable use rust_tap.ProofFile.{
  decode, decode_body, decode_entries, decode_entry, take_entry, or_too_short,
}
use rust_tap.ProofFile.RoundTrip.{IsSmall, encode-body, body}
unfoldable use rust_tap.ProofFile.RoundTrip.{entry, entries}

module _ ⦃sha256 : Sha256⦄ where
  take_entry_parts :
      (h : NodeHash) (n : ℕ) (bytes : List ℕ) (p : HashedProof) (rest : List ℕ)
      → take_entry h n bytes ≡ ok (p, rest)
      → (n ≤ file_max_proof_size_bytes)
        × (n + 32 ≤ length bytes)
        × (p.proof_bytes ≡ take n bytes)
        × (p.hash ≡ take 32 (drop n bytes))
        × (rest ≡ drop 32 (drop n bytes))
        × (p.hash ≡ compute_proof_hash h p.proof_bytes)
  unfolding take_entry
  take_entry_parts h n bytes p rest e =
      ground (arith, bytes_eq→eq (take 32 (drop n bytes)) (compute_proof_hash h (take n bytes)))

  or_too_short_parts : (r : Result (ℕ × ℕ) TlvError) (a : ℕ × ℕ) → or_too_short r ≡ ok a → r ≡ ok a
  unfolding or_too_short
  or_too_short_parts (ok x) a e = ap ok (ok_injective e)
  or_too_short_parts (err x) a e = cc e

  -- The number in front of `bytes`, and what stands behind it.
  read_encoding :
      (bytes : List ℕ) (r : ℕ × ℕ)
      → All IsByte bytes
      → or_too_short (decode_bigsize bytes) ≡ ok r
      → (encoding r.0 ++ drop r.1 bytes ≡ bytes) × All IsByte (drop r.1 bytes)
  read_encoding bytes r h e =
      let (back, _, _, _) =
        encode_bigsize-decode_bigsize bytes r.0 r.1 h
          (or_too_short_parts (decode_bigsize bytes) r e) in
      (rw (encode_bigsize-encoding [] r.0) at back, All-drop IsByte r.1 bytes h)

  -- What a round reads: the entry stands in front of what is left.
  record IsRead (h : NodeHash) (bytes : List ℕ) (p : HashedProof) (rest : List ℕ) : Type 0 where
    front : entry p ++ rest ≡ bytes
    link : p.hash ≡ compute_proof_hash h p.proof_bytes
    small : IsSmall p
    left : All IsByte rest

  take_entry-IsRead :
      (h : NodeHash) (n : ℕ) (bytes tail : List ℕ) (p : HashedProof) (rest : List ℕ)
      → encoding n ++ tail ≡ bytes
      → All IsByte tail
      → take_entry h n tail ≡ ok (p, rest)
      → IsRead h bytes p rest
  unfolding entry
  take_entry-IsRead h n bytes tail p rest front left e =
      let (small, fits, is_bytes, is_hash, is_rest, link) = take_entry_parts h n tail p rest e in
      let size : length p.proof_bytes ≡ n =
        ap (λ (t : List ℕ). length t) is_bytes ∙ omega (arith, length-take n tail, fits) in
      let behind : p.hash ++ rest ≡ drop n tail =
        ap (λ t. t ++ rest) is_hash
        ∙ ap (λ t. take 32 (drop n tail) ++ t) is_rest
        ∙ take-append-drop 32 (drop n tail) in
      let whole : p.proof_bytes ++ (p.hash ++ rest) ≡ tail =
        ap (λ t. p.proof_bytes ++ t) behind
        ∙ ap (λ t. t ++ drop n tail) is_bytes
        ∙ take-append-drop n tail in
      record {
        front =
            append_assoc (encoding (length p.proof_bytes)) (p.proof_bytes ++ p.hash) rest
            ∙ ap (λ t. encoding (length p.proof_bytes) ++ t)
                (append_assoc p.proof_bytes p.hash rest ∙ whole)
            ∙ ap (λ m. encoding m ++ tail) size
            ∙ front;
        link = link;
        small = omega (arith, size, small);
        left =
            subst (All IsByte) (sym is_rest)
              (All-drop IsByte 32 (drop n tail) (All-drop IsByte n tail left));
      }

  decode_entry-IsRead :
      (h : NodeHash) (bytes : List ℕ) (p : HashedProof) (rest : List ℕ)
      → All IsByte bytes
      → decode_entry h bytes ≡ ok (p, rest)
      → IsRead h bytes p rest
  unfolding decode_entry
  decode_entry-IsRead h bytes p rest all e =
      let (r, e₁, e₂) =
        bind_parts (or_too_short (decode_bigsize bytes)) (λ r. take_entry h r.0 (drop r.1 bytes))
          (p, rest) e in
      let (front, left) = read_encoding bytes r all e₁ in
      take_entry-IsRead h r.0 bytes (drop r.1 bytes) p rest front left e₂

  chain_holds_cons :
      (h : NodeHash) (p : HashedProof) (ps : List HashedProof)
      → p.hash ≡ compute_proof_hash h p.proof_bytes
      → chain_holds p.hash ps ≡ true
      → chain_holds h (p ∷ ps) ≡ true
  unfolding chain_holds
  chain_holds_cons h p ps link later = rw (← link, bytes_eq_refl p.hash) later

  -- What the loop reads: `count` entries, linked from `h`, in front of what is left.
  record AreRead (count : ℕ) (h : NodeHash) (bytes : List ℕ) (ps : List HashedProof) : Type 0 where
    rest : List ℕ
    front : entries ps ++ rest ≡ bytes
    counted : length ps ≡ count
    chain : chain_holds h ps ≡ true
    small : All IsSmall ps

  decode_entries-AreRead :
      (count : ℕ) (h : NodeHash) (bytes : List ℕ) (ps : List HashedProof)
      → All IsByte bytes
      → decode_entries count h bytes ≡ ok ps
      → AreRead count h bytes ps
  unfolding decode_entries entries
  decode_entries-AreRead zero h bytes ps all e =
      subst (AreRead 0 h bytes) (ok_injective e) (record {
        rest = bytes;
        front = refl;
        counted = refl;
        chain = unfold chain_holds in refl;
        small = tt;
      })
  decode_entries-AreRead (suc count) h bytes ps all e =
      let (r, e₁, e₂) =
        bind_parts (decode_entry h bytes)
          (λ r. decode_entries count r.0.hash r.1 >>= λ later. ok (r.0 ∷ later)) ps e in
      let (later, e₃, e₄) =
        bind_parts (decode_entries count r.0.hash r.1) (λ later. ok (r.0 ∷ later)) ps e₂ in
      let one = decode_entry-IsRead h bytes r.0 r.1 all e₁ in
      let more = decode_entries-AreRead count r.0.hash r.1 later one.left e₃ in
      subst (AreRead (suc count) h bytes) (ok_injective e₄) (record {
        rest = more.rest;
        front =
            append_assoc (entry r.0) (entries later) more.rest
            ∙ ap (λ t. entry r.0 ++ t) more.front
            ∙ one.front;
        counted = ap suc more.counted;
        chain = chain_holds_cons h r.0 later one.link more.chain;
        small = (one.small, more.small);
      })

  -- The two ends of what `decode` accepts.
  decode_parts :
      (bytes : List ℕ) (f : File)
      → decode bytes ≡ ok f
      → (8 ≤ length bytes)
        × (take 4 bytes ≡ file_magic_bytes)
        × (decode_body (from_be_bytes (take 4 (drop 4 bytes))) (drop 4 (drop 4 bytes)) ≡ ok f)
  unfolding decode
  decode_parts bytes f e = ground (arith, bytes_eq→eq (take 4 bytes) file_magic_bytes)

  decode_body-IsRead :
      (version : ℕ) (bytes : List ℕ) (f : File)
      → All IsByte bytes
      → decode_body version bytes ≡ ok f
      → (rest : List ℕ) × (body f.proofs ++ rest ≡ bytes)
        × (chain_holds zero_hash f.proofs ≡ true)
        × (f.version ≡ version)
        × (length f.proofs ≤ file_max_num_proofs)
        × All IsSmall f.proofs
  unfolding decode_body
  decode_body-IsRead version bytes f all e =
      let finish : List HashedProof → Result File ProofError =
        λ proofs. ok (record { version = version; proofs = proofs }) in
      let (r, e₁, e₂) =
        bind_parts (or_too_short (decode_bigsize bytes))
          (λ r.
            ensure (leb r.0 file_max_num_proofs) (too_many_proofs r.0)
            >> (decode_entries r.0 zero_hash (drop r.1 bytes) >>= finish))
          f e in
      let (few, e₃) =
        ensure_parts (leb r.0 file_max_num_proofs) (too_many_proofs r.0)
          (decode_entries r.0 zero_hash (drop r.1 bytes) >>= finish) f e₂ in
      let (proofs, e₄, e₅) =
        bind_parts (decode_entries r.0 zero_hash (drop r.1 bytes)) finish f e₃ in
      let (front, left) = read_encoding bytes r all e₁ in
      let read = decode_entries-AreRead r.0 zero_hash (drop r.1 bytes) proofs left e₄ in
      let same : proofs ≡ f.proofs = ap (λ (t : File). t.proofs) (ok_injective e₅) in
      let whole : body proofs ++ read.rest ≡ bytes =
        append_assoc (encoding (length proofs)) (entries proofs) read.rest
        ∙ ap (λ t. encoding (length proofs) ++ t) read.front
        ∙ ap (λ n. encoding n ++ drop r.1 bytes) read.counted
        ∙ front in
      (
        read.rest,
        subst (λ ps. body ps ++ read.rest ≡ bytes) same whole,
        subst (λ ps. chain_holds zero_hash ps ≡ true) same read.chain,
        sym (ap (λ (t : File). t.version) (ok_injective e₅)),
        subst (λ (ps : List HashedProof). length ps ≤ file_max_num_proofs) same
            (omega (arith, read.counted, leb→le r.0 file_max_num_proofs few)),
        subst (All IsSmall) same read.small,
      )

  version_bytes :
      (bytes : List ℕ)
      → All IsByte bytes
      → 8 ≤ length bytes
      → (to_be_bytes 4 (from_be_bytes (take 4 (drop 4 bytes))) ≡ take 4 (drop 4 bytes))
        × (from_be_bytes (take 4 (drop 4 bytes)) < 2 ^ 32)
  version_bytes bytes all fits =
      let v = take 4 (drop 4 bytes) in
      let size : length v ≡ 4 =
        omega (arith, length-take 4 (drop 4 bytes), length-drop 4 bytes, fits) in
      let is_bytes : All IsByte v =
        All-take IsByte 4 (drop 4 bytes) (All-drop IsByte 4 bytes all) in
      (
        subst (λ n. to_be_bytes n (from_be_bytes v) ≡ v) size
            (to_be_bytes-from_be_bytes v is_bytes),
        subst (λ n. from_be_bytes v < 256 ^ n) size (from_be_bytes-lt v is_bytes),
      )

  -- What `decode` accepts, over any bytes, is a file whose hash chain holds, in its own encoding: the
  -- version is a u32, there are at most 420000 proofs, none larger than 128 MiB, and encoding the
  -- file gives the front of the bytes back.
  pub encode-decode :
      (bytes : List ℕ) (f : File)
      → All IsByte bytes
      → decode bytes ≡ ok f
      → (rest : List ℕ) × (encode f ++ rest ≡ bytes)
        × (verify_hash_chain f ≡ true)
        × (f.version < 2 ^ 32)
        × (length f.proofs ≤ file_max_num_proofs)
        × All IsSmall f.proofs
  unfolding verify_hash_chain
  encode-decode bytes f all e =
      let (fits, magic, e₁) = decode_parts bytes f e in
      let behind = drop 4 (drop 4 bytes) in
      let (rest, front, chain, version, few, small) =
        decode_body-IsRead _ behind f (All-drop IsByte 4 _ (All-drop IsByte 4 bytes all)) e₁ in
      let (back, narrow) = version_bytes bytes all fits in
      let header : to_be_bytes 4 f.version ≡ take 4 (drop 4 bytes) =
        ap (to_be_bytes 4) version ∙ back in
      let whole : encode f ++ rest ≡ bytes =
        ap (λ t. t ++ rest) (encode-body f)
        ∙ append_assoc file_magic_bytes (to_be_bytes 4 f.version ++ body f.proofs) rest
        ∙ ap (λ t. file_magic_bytes ++ t)
            (append_assoc (to_be_bytes 4 f.version) (body f.proofs) rest)
        ∙ ap (λ t. file_magic_bytes ++ (to_be_bytes 4 f.version ++ t)) front
        ∙ ap (λ t. file_magic_bytes ++ (t ++ behind)) header
        ∙ ap (λ t. file_magic_bytes ++ t) (take-append-drop 4 (drop 4 bytes))
        ∙ ap (λ t. t ++ drop 4 bytes) (sym magic)
        ∙ take-append-drop 4 bytes in
      (rest, whole, chain, omega (arith, version, narrow), few, small)
