-- ===== src/Rfq/Manager/Accounting.antt =====
-- The amounts in use, against the sum of what is tracked for a quote.
use rust_tap.Common.{
  ℕ, ◌+◌, ◌-◌, ◌^◌, ◌≤◌, ◌<◌, ◌≡◌, refl, sym, ap, ◌∙◌, arith, Bool, false, none, some,
}
use rust_tap.Common.{[], ◌∷◌, if◌then◌else◌, bytes_eq, bytes_eq→eq, unwrap_or, ◌==◌}
use rust_tap.Common.{Bool-cases, Option-cases, inl, inr, subst}
use rust_tap.Rfq.Keyed.{
  Key, Keyed, IsKeyed, get-remove_key, get-remove_key_other, get-insert_key, get-insert_key_other,
}
use rust_tap.Rfq.Keyed.{remove_key-IsKeyed, insert_key-IsKeyed, retain-IsKeyed, get-retain_keys}
unfoldable use rust_tap.Rfq.Keyed.{get, insert_key, remove_key, retain}
use rust_tap.Rfq.Manager.{QuoteManager, saturating_add}
use rust_tap.Rfq.Manager.Tracking.{is_quoted}
unfoldable use rust_tap.Rfq.Manager.Tracking.{
  quote_used_msat, release, untrack_htlc, track_accepted_htlc, prune_expired,
}

abbrev pub used_of : Key → Keyed ℕ → ℕ
used_of id used = unwrap_or (get id used) 0

abbrev counts : Key → Key × ℕ → ℕ
counts id (quote_id, amt) = if bytes_eq quote_id id then amt else 0

-- The amounts that are tracked against a quote.
unfoldable pub held : Key → Keyed (Key × ℕ) → ℕ
held id [] = 0
held id ((htlc, entry) ∷ rest) = counts id entry + held id rest

remove_key_missing : (k : Key) (m : Keyed (Key × ℕ)) → get k m ≡ none → remove_key k m ≡ m
unfolding get remove_key
remove_key_missing k [] h = refl
remove_key_missing k ((j, v) ∷ rest) h = elim (Bool-cases (bytes_eq j k)) [
  | inl hit ↦ cc (rw hit at h)
  | inr miss ↦ rw (miss, remove_key_missing k rest (rw miss at h)) refl
]

held-remove_key :
    (id htlc : Key) (entry : Key × ℕ) (m : Keyed (Key × ℕ))
    → IsKeyed m
    → get htlc m ≡ some entry
    → held id m ≡ counts id entry + held id (remove_key htlc m)
unfolding held get remove_key
held-remove_key id htlc entry [] h e = cc e
held-remove_key id htlc entry ((j, v) ∷ rest) (h, hs) e = elim (Bool-cases (bytes_eq j htlc)) [
  | inl hit ↦
      let missing : get htlc rest ≡ none =
        subst (λ k. get k rest ≡ none) (bytes_eq→eq j htlc hit) h in
      let same : v ≡ entry = cc (rw hit at e) in
      rw (hit, remove_key_missing htlc rest missing, same) refl
  | inr miss ↦ rw miss (omega (arith, held-remove_key id htlc entry rest hs (rw miss at e)))
]

pub used_of-release_here :
    (id : Key) (amt : ℕ) (used : Keyed ℕ) → used_of id (release id amt used) ≡ used_of id used - amt
unfolding release
used_of-release_here id amt used = elim (Option-cases (get id used)) [
  | inl none_yet ↦ rw (release, none_yet, none_yet) (omega arith)
  | inr (u, some_u) ↦ elim (Bool-cases (u - amt == 0)) [
    | inl gone ↦ rw (release, some_u, gone, get-remove_key id used) (ground (arith, gone))
    | inr left ↦ rw (release, some_u, left, get-insert_key id (u - amt) used) refl
  ]
]

pub used_of-release_other :
    (id quote_id : Key) (amt : ℕ) (used : Keyed ℕ)
    → bytes_eq quote_id id ≡ false
    → used_of id (release quote_id amt used) ≡ used_of id used
unfolding release
used_of-release_other id quote_id amt used miss = elim (Option-cases (get quote_id used)) [
  | inl none_yet ↦ rw (release, none_yet) refl
  | inr (u, some_u) ↦ elim (Bool-cases (u - amt == 0)) [
    | inl gone ↦ rw (release, some_u, gone, get-remove_key_other quote_id id used miss) refl
    | inr left ↦
        rw (release, some_u, left, get-insert_key_other quote_id id (u - amt) used miss) refl
  ]
]

used_of-release :
    (id quote_id : Key) (amt : ℕ) (used : Keyed ℕ)
    → used_of id (release quote_id amt used) ≡ used_of id used - counts id (quote_id, amt)
used_of-release id quote_id amt used = elim (Bool-cases (bytes_eq quote_id id)) [
  | inl hit ↦
      let same = bytes_eq→eq quote_id id hit in
      rw hit (
        subst (λ k. used_of k (release quote_id amt used) ≡ used_of k used - amt) same
          (used_of-release_here quote_id amt used))
  | inr miss ↦ rw (miss, used_of-release_other id quote_id amt used miss) (omega arith)
]

held-retain :
    (keep : Key → Bool) (id : Key) (m : Keyed (Key × ℕ))
    → held id (retain (λ htlc entry. keep entry.0) m) ≡ (if keep id then held id m else 0)
unfolding held retain
held-retain keep id [] = ground arith
held-retain keep id ((htlc, (quote_id, amt)) ∷ rest) =
    let later = held-retain keep id rest in
    elim (Bool-cases (bytes_eq quote_id id)) [
      | inl hit ↦
          let same : keep quote_id ≡ keep id = ap keep (bytes_eq→eq quote_id id hit) in
          elim (Bool-cases (keep id)) [
            | inl kept ↦ rw (same, kept, hit) (omega (arith, rw kept at later))
            | inr gone ↦ rw (same, gone) (rw gone at later)
          ]
      | inr miss ↦ elim (Bool-cases (keep quote_id)) [
        | inl kept ↦ rw (kept, miss) (ground (arith, later))
        | inr gone ↦ rw (gone, miss) (ground (arith, later))
      ]
    ]

-- The record of the amounts in use agrees with what is tracked.
pub record IsAccounted (m : QuoteManager) : Type 0 where
  pub keyed : IsKeyed m.tracked_htlcs
  pub exact : (id : Key) → quote_used_msat m id ≡ held id m.tracked_htlcs

pub untrack_htlc-IsAccounted :
    (m : QuoteManager) (htlc : Key) → IsAccounted m → IsAccounted (untrack_htlc m htlc)
unfolding untrack_htlc quote_used_msat
untrack_htlc-IsAccounted m htlc h = elim (Option-cases (get htlc m.tracked_htlcs)) [
  | inl unknown ↦ rw (untrack_htlc, unknown) h
  | inr (entry, known) ↦
      rw (untrack_htlc, known)
        (record {
          keyed = remove_key-IsKeyed htlc m.tracked_htlcs h.keyed;
          exact = λ id. omega (
            arith,
            used_of-release id entry.0 entry.1 m.used_msat,
            held-remove_key id htlc entry m.tracked_htlcs h.keyed known,
            h.exact id,
          );
        })
]

untracked : (m : QuoteManager) (htlc : Key) → get htlc (untrack_htlc m htlc).tracked_htlcs ≡ none
unfolding untrack_htlc
untracked m htlc = elim (Option-cases (get htlc m.tracked_htlcs)) [
  | inl unknown ↦ rw (untrack_htlc, unknown) unknown
  | inr (entry, known) ↦ rw (untrack_htlc, known) (get-remove_key htlc m.tracked_htlcs)
]

held-insert_key :
    (id htlc : Key) (entry : Key × ℕ) (m : Keyed (Key × ℕ))
    → get htlc m ≡ none
    → held id (insert_key htlc entry m) ≡ counts id entry + held id m
unfolding held insert_key
held-insert_key id htlc entry m h = rw (remove_key_missing htlc m h) refl

pub untrack_htlc-used :
    (m : QuoteManager) (htlc id : Key)
    → quote_used_msat (untrack_htlc m htlc) id ≤ quote_used_msat m id
unfolding untrack_htlc quote_used_msat
untrack_htlc-used m htlc id = elim (Option-cases (get htlc m.tracked_htlcs)) [
  | inl unknown ↦ rw (untrack_htlc, unknown) (omega arith)
  | inr (entry, known) ↦
      rw (untrack_htlc, known) (omega (arith, used_of-release id entry.0 entry.1 m.used_msat))
]

pub used_of-insert_key :
    (id quote_id : Key) (v : ℕ) (used : Keyed ℕ)
    → used_of id (insert_key quote_id v used)
      ≡ (if bytes_eq quote_id id then v else used_of id used)
used_of-insert_key id quote_id v used = elim (Bool-cases (bytes_eq quote_id id)) [
  | inl hit ↦ rw hit (
      subst (λ k. used_of k (insert_key quote_id v used) ≡ v) (bytes_eq→eq quote_id id hit)
        (ap (λ o. unwrap_or o 0) (get-insert_key quote_id v used)))
  | inr miss ↦ rw miss (ap (λ o. unwrap_or o 0) (get-insert_key_other quote_id id v used miss))
]

pub track_accepted_htlc-IsAccounted :
    (m : QuoteManager) (quote_id htlc : Key) (amt : ℕ)
    → quote_used_msat m quote_id + amt < 2 ^ 64
    → IsAccounted m
    → IsAccounted (track_accepted_htlc m quote_id htlc amt)
unfolding track_accepted_htlc quote_used_msat
track_accepted_htlc-IsAccounted m quote_id htlc amt fits h =
    let c = untrack_htlc m htlc in
    let hc = untrack_htlc-IsAccounted m htlc h in
    let total = saturating_add (quote_used_msat c quote_id) amt in
    let sum : total ≡ quote_used_msat c quote_id + amt =
      omega (arith, fits, untrack_htlc-used m htlc quote_id) in
    record {
      keyed = insert_key-IsKeyed htlc (quote_id, amt) c.tracked_htlcs hc.keyed;
      exact = λ id.
          let known : quote_used_msat (track_accepted_htlc m quote_id htlc amt) id
              ≡ (if bytes_eq quote_id id then total else quote_used_msat c id) =
            used_of-insert_key id quote_id total c.used_msat in
          let added : held id (track_accepted_htlc m quote_id htlc amt).tracked_htlcs
              ≡ counts id (quote_id, amt) + held id c.tracked_htlcs =
            held-insert_key id htlc (quote_id, amt) c.tracked_htlcs (untracked m htlc) in
          elim (Bool-cases (bytes_eq quote_id id)) [
            | inl hit ↦
                let here : quote_used_msat c quote_id ≡ quote_used_msat c id =
                  ap (quote_used_msat c) (bytes_eq→eq quote_id id hit) in
                ground (arith, known, added, sum, here, hc.exact id, hit)
            | inr miss ↦ ground (arith, known, added, hc.exact id, miss)
          ];
    }

pub prune_expired-used :
    (m : QuoteManager) (now : ℕ) (id : Key)
    → quote_used_msat (prune_expired m now) id ≡ (
        if is_quoted (prune_expired m now).buy_quotes (prune_expired m now).sell_quotes id
        then quote_used_msat m id
        else 0)
unfolding prune_expired quote_used_msat
prune_expired-used m now id =
    let keep = is_quoted (prune_expired m now).buy_quotes (prune_expired m now).sell_quotes in
    ap (λ o. unwrap_or o 0) (get-retain_keys keep id m.used_msat)
    ∙ elim (Bool-cases (keep id)) [ inl kept ↦ rw kept refl | inr gone ↦ rw gone refl ]

pub prune_expired-IsAccounted :
    (m : QuoteManager) (now : ℕ) → IsAccounted m → IsAccounted (prune_expired m now)
unfolding prune_expired
prune_expired-IsAccounted m now h =
    let keep = is_quoted (prune_expired m now).buy_quotes (prune_expired m now).sell_quotes in
    record {
      keyed = retain-IsKeyed (λ htlc entry. keep entry.0) m.tracked_htlcs h.keyed;
      exact = λ id.
          prune_expired-used m now id
          ∙ ap (λ n. if keep id then n else 0) (h.exact id)
          ∙ sym (held-retain keep id m.tracked_htlcs);
    }
