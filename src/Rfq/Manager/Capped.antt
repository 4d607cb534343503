-- ===== src/Rfq/Manager/Capped.antt =====
-- The amounts in use, against the maximum of their quote.
use rust_tap.Common.{ℕ, ◌≤◌, ◌≡◌, refl, arith, Bool, false, ◌&&◌, ◌||◌, Option, none, some}
use rust_tap.Common.{Result, ok, if◌then◌else◌, leb, ensure, ok_or, bytes_eq, bytes_eq→eq}
use rust_tap.Common.{
  Bool-cases, Option-cases, inl, inr, subst, bind_parts, ensure-ok, ok_or-ok, leb→le,
}
use rust_tap.Rfq.Keyed.{Key, Keyed, IsKeyed, is_some, kept_of, get-insert_key_other, get-retain}
use rust_tap.Rfq.Keyed.{insert_key-IsKeyed, retain-IsKeyed}
unfoldable use rust_tap.Rfq.Keyed.{get, insert_key, retain, has_key}
use rust_tap.Rfq.Manager.{
  QuoteManager, AcceptedQuote, saturating_add, is_valid, RfqError, quote_not_found,
  quote_amount_exceeded,
}
unfoldable use rust_tap.Rfq.Manager.{get_quote}
unfoldable use rust_tap.Rfq.Manager.Tracking.{
  quote_used_msat, untrack_htlc, track_accepted_htlc, prune_expired, check_htlc_amount,
}
use rust_tap.Rfq.Manager.Accounting.{
  used_of, untrack_htlc-used, used_of-insert_key, prune_expired-used,
}

-- The maximum of a quote, from what stands under its id in the two maps; 0 where nothing stands.
abbrev pub max_of : Option AcceptedQuote → Option AcceptedQuote → ℕ
max_of (some q) sell = q.max_amount_msat
max_of none (some q) = q.max_amount_msat
max_of none none = 0

abbrev pub both : Option AcceptedQuote → Option AcceptedQuote → Bool
both buy sell = is_some buy && is_some sell

-- The quotes and the amounts in use: no quote is used beyond its maximum, and no id has two quotes.
pub record IsWithin (buy sell : Keyed AcceptedQuote) (used : Keyed ℕ) : Type 0 where
  pub keyed_buy : IsKeyed buy
  pub keyed_sell : IsKeyed sell
  pub disjoint : (id : Key) → both (get id buy) (get id sell) ≡ false
  pub within : (id : Key) → used_of id used ≤ max_of (get id buy) (get id sell)

unfoldable pub IsCapped : QuoteManager → Type 0
IsCapped m = IsWithin m.buy_quotes m.sell_quotes m.used_msat

pub insert_buy-IsWithin :
    (id : Key) (q : AcceptedQuote) (buy sell : Keyed AcceptedQuote) (used : Keyed ℕ)
    → get id buy ≡ none
    → get id sell ≡ none
    → IsWithin buy sell used
    → IsWithin (insert_key id q buy) sell used
insert_buy-IsWithin id q buy sell used no_buy no_sell h = record {
  keyed_buy = insert_key-IsKeyed id q buy h.keyed_buy;
  keyed_sell = h.keyed_sell;
  disjoint = λ k. elim (Bool-cases (bytes_eq id k)) [
    | inl hit ↦
        let none_here : get k sell ≡ none =
          subst (λ k. get k sell ≡ none) (bytes_eq→eq id k hit) no_sell in
        rw none_here (ground arith)
    | inr miss ↦ rw (get-insert_key_other id k q buy miss) (h.disjoint k)
  ];
  within = λ k. elim (Bool-cases (bytes_eq id k)) [
    | inl hit ↦
        let old : used_of k used ≤ 0 =
          subst (λ k. used_of k used ≤ 0) (bytes_eq→eq id k hit)
            (rw (no_buy, no_sell) at (h.within id)) in
        omega (arith, old)
    | inr miss ↦ rw (get-insert_key_other id k q buy miss) (h.within k)
  ];
}

pub insert_sell-IsWithin :
    (id : Key) (q : AcceptedQuote) (buy sell : Keyed AcceptedQuote) (used : Keyed ℕ)
    → get id buy ≡ none
    → get id sell ≡ none
    → IsWithin buy sell used
    → IsWithin buy (insert_key id q sell) used
insert_sell-IsWithin id q buy sell used no_buy no_sell h = record {
  keyed_buy = h.keyed_buy;
  keyed_sell = insert_key-IsKeyed id q sell h.keyed_sell;
  disjoint = λ k. elim (Bool-cases (bytes_eq id k)) [
    | inl hit ↦
        let none_here : get k buy ≡ none =
          subst (λ k. get k buy ≡ none) (bytes_eq→eq id k hit) no_buy in
        rw none_here refl
    | inr miss ↦ rw (get-insert_key_other id k q sell miss) (h.disjoint k)
  ];
  within = λ k. elim (Bool-cases (bytes_eq id k)) [
    | inl hit ↦
        let old : used_of k used ≤ 0 =
          subst (λ k. used_of k used ≤ 0) (bytes_eq→eq id k hit)
            (rw (no_buy, no_sell) at (h.within id)) in
        omega (arith, old)
    | inr miss ↦ rw (get-insert_key_other id k q sell miss) (h.within k)
  ];
}

less-IsWithin :
    (buy sell : Keyed AcceptedQuote) (used used' : Keyed ℕ)
    → ((id : Key) → used_of id used' ≤ used_of id used)
    → IsWithin buy sell used
    → IsWithin buy sell used'
less-IsWithin buy sell used used' less h = record {
  keyed_buy = h.keyed_buy;
  keyed_sell = h.keyed_sell;
  disjoint = h.disjoint;
  within = λ id. omega (arith, less id, h.within id);
}

-- Untracking leaves the quotes alone.
untrack_htlc-quotes :
    (m : QuoteManager) (htlc : Key)
    → ((untrack_htlc m htlc).buy_quotes ≡ m.buy_quotes)
      × ((untrack_htlc m htlc).sell_quotes ≡ m.sell_quotes)
unfolding untrack_htlc
untrack_htlc-quotes m htlc = elim (Option-cases (get htlc m.tracked_htlcs)) [
  | inl unknown ↦ rw (untrack_htlc, unknown) (refl, refl)
  | inr (entry, known) ↦ rw (untrack_htlc, known) (refl, refl)
]

pub untrack_htlc-IsCapped :
    (m : QuoteManager) (htlc : Key) → IsCapped m → IsCapped (untrack_htlc m htlc)
unfolding IsCapped quote_used_msat
untrack_htlc-IsCapped m htlc h =
    let (buy, sell) = untrack_htlc-quotes m htlc in
    rw (buy, sell)
      (less-IsWithin m.buy_quotes m.sell_quotes m.used_msat (untrack_htlc m htlc).used_msat
        (untrack_htlc-used m htlc) h)

max_of-get_quote :
    (m : QuoteManager) (id : Key) (q : AcceptedQuote)
    → get_quote m id ≡ some q
    → max_of (get id m.buy_quotes) (get id m.sell_quotes) ≡ q.max_amount_msat
unfolding get_quote
max_of-get_quote m id q e = elim (Option-cases (get id m.buy_quotes)) [
  | inl no_buy ↦
      let sell : get id m.sell_quotes ≡ some q = rw (get_quote, no_buy) at e in
      rw (no_buy, sell) refl
  | inr (b, buy) ↦ let same : b ≡ q = cc (rw (get_quote, buy) at e) in rw (buy, same) refl
]

check_htlc_amount_parts :
    (m : QuoteManager) (id : Key) (amt : ℕ)
    → check_htlc_amount m id amt ≡ ok tt
    → saturating_add (quote_used_msat m id) amt
      ≤ max_of (get id m.buy_quotes) (get id m.sell_quotes)
unfolding check_htlc_amount
check_htlc_amount_parts m id amt e =
    let test : AcceptedQuote → Result (Unit {0}) RfqError = λ q.
      ensure (leb (saturating_add (quote_used_msat m id) amt) q.max_amount_msat)
        (quote_amount_exceeded id (quote_used_msat m id) amt q.max_amount_msat) in
    let (q, found, e₁) = bind_parts (ok_or (get_quote m id) (quote_not_found id)) test tt e in
    let is_q : get_quote m id ≡ some q = ok_or-ok (get_quote m id) (quote_not_found id) q found in
    let fits = ensure-ok (leb (saturating_add (quote_used_msat m id) amt) q.max_amount_msat) _ e₁ in
    rw (max_of-get_quote m id q is_q) (leb→le _ _ fits)

pub track_accepted_htlc-IsCapped :
    (m : QuoteManager) (quote_id htlc : Key) (amt : ℕ)
    → check_htlc_amount m quote_id amt ≡ ok tt
    → IsCapped m
    → IsCapped (track_accepted_htlc m quote_id htlc amt)
unfolding IsCapped track_accepted_htlc
track_accepted_htlc-IsCapped m quote_id htlc amt checked h =
    let c = untrack_htlc m htlc in
    let (buy, sell) = untrack_htlc-quotes m htlc in
    let total = saturating_add (quote_used_msat c quote_id) amt in
    let fits : total ≤ max_of (get quote_id m.buy_quotes) (get quote_id m.sell_quotes) =
      omega (
        arith,
        check_htlc_amount_parts m quote_id amt checked,
        untrack_htlc-used m htlc quote_id,
      ) in
    let hc : IsWithin m.buy_quotes m.sell_quotes c.used_msat =
      rw (buy, sell) at (untrack_htlc-IsCapped m htlc h) in
    rw (buy, sell)
      (record {
        keyed_buy = h.keyed_buy;
        keyed_sell = h.keyed_sell;
        disjoint = h.disjoint;
        within = λ id.
            rw (used_of-insert_key id quote_id total c.used_msat)
              (elim (Bool-cases (bytes_eq quote_id id)) [
                | inl hit ↦ rw hit (
                    subst (λ k. total ≤ max_of (get k m.buy_quotes) (get k m.sell_quotes))
                      (bytes_eq→eq quote_id id hit) fits)
                | inr miss ↦ rw miss (hc.within id)
              ]);
      })

both-kept :
    (keep : Key → AcceptedQuote → Bool) (k : Key) (buy sell : Option AcceptedQuote)
    → both buy sell ≡ false
    → both (kept_of keep k buy) (kept_of keep k sell) ≡ false
both-kept keep k none sell h = refl
both-kept keep k (some b) none h = ground arith
both-kept keep k (some b) (some s) h = cc h

max_of-kept :
    (keep : Key → AcceptedQuote → Bool) (k : Key) (buy sell : Option AcceptedQuote) (n : ℕ)
    → both buy sell ≡ false
    → n ≤ max_of buy sell
    → (if is_some (kept_of keep k buy) || is_some (kept_of keep k sell) then n else 0)
      ≤ max_of (kept_of keep k buy) (kept_of keep k sell)
max_of-kept keep k none none n h le = ground arith
max_of-kept keep k none (some s) n h le = ground arith
max_of-kept keep k (some b) none n h le = ground arith
max_of-kept keep k (some b) (some s) n h le = cc h

pub prune_expired-IsCapped :
    (m : QuoteManager) (now : ℕ) → IsCapped m → IsCapped (prune_expired m now)
unfolding IsCapped prune_expired has_key quote_used_msat
prune_expired-IsCapped m now h =
    let keep : Key → AcceptedQuote → Bool = λ k q. is_valid q now in
    let buy = λ (id : Key). get-retain keep id m.buy_quotes h.keyed_buy in
    let sell = λ (id : Key). get-retain keep id m.sell_quotes h.keyed_sell in
    record {
      keyed_buy = retain-IsKeyed keep m.buy_quotes h.keyed_buy;
      keyed_sell = retain-IsKeyed keep m.sell_quotes h.keyed_sell;
      disjoint = λ id.
          rw (buy id, sell id)
            (both-kept keep id (get id m.buy_quotes) (get id m.sell_quotes) (h.disjoint id));
      within = λ id.
          let amount : used_of id (prune_expired m now).used_msat ≡ (
              if is_some (get id (retain keep m.buy_quotes))
                || is_some (get id (retain keep m.sell_quotes))
              then used_of id m.used_msat
              else 0) =
            prune_expired-used m now id in
          rw (amount, buy id, sell id)
            (max_of-kept keep id (get id m.buy_quotes) (get id m.sell_quotes)
              (used_of id m.used_msat) (h.disjoint id) (h.within id));
    }
