-- ===== src/Rfq/Manager/Expiry.antt =====
-- Fresh ids, and the quotes that are left after the expired ones are removed.
use rust_tap.Common.{
  ℕ, ◌≡◌, refl, arith, Bool, true, false, not, ◌&&◌, Option, none, some, ltb, List, [], ◌∷◌, ◌++◌,
}
use rust_tap.Common.{Bool-cases, Option-cases, inl, inr}
use mathlib.Core.List.{Memᴰ}
use rust_tap.Rfq.Keyed.{Key, is_some, kept_of, get-retain}
unfoldable use rust_tap.Rfq.Keyed.{get, has_key}
use rust_tap.Rfq.Manager.{QuoteManager, AcceptedQuote, is_unused}
unfoldable use rust_tap.Rfq.Manager.{next_quote_id, get_quote, is_valid}
unfoldable use rust_tap.Rfq.Manager.Tracking.{prune_expired}
use rust_tap.Rfq.Manager.Capped.{both}
unfoldable use rust_tap.Rfq.Manager.Capped.{IsCapped}

-- There is no quote of either kind, and no request, under the id.
pub record HasNothing (m : QuoteManager) (id : Key) : Type 0 where
  pub no_buy : get id m.buy_quotes ≡ none
  pub no_sell : get id m.sell_quotes ≡ none
  pub no_request : get id m.pending_requests ≡ none

is_some-false {ℓ} : {A : Type ℓ} (o : Option A) → not (is_some o) ≡ true → o ≡ none
is_some-false none h = refl
is_some-false (some a) h = cc h

and_parts : (b c : Bool) → (b && c) ≡ true → (b ≡ true) × (c ≡ true)
and_parts true c h = (refl, h)
and_parts false c h = cc h

is_unused-HasNothing : (m : QuoteManager) (id : Key) → is_unused m id ≡ true → HasNothing m id
unfolding has_key
is_unused-HasNothing m id h =
    let (quotes, request) = and_parts _ _ h in
    let (buy, sell) = and_parts _ _ quotes in
    record {
      no_buy = is_some-false (get id m.buy_quotes) buy;
      no_sell = is_some-false (get id m.sell_quotes) sell;
      no_request = is_some-false (get id m.pending_requests) request;
    }

HasNothing-is_unused : (m : QuoteManager) (id : Key) → HasNothing m id → is_unused m id ≡ true
unfolding has_key
HasNothing-is_unused m id h = rw (h.no_buy, h.no_sell, h.no_request) refl

-- When under one of the draws there is no quote of either kind and no request, `next_quote_id`
-- returns, with a draw under which there is no quote of either kind and no request.
pub next_quote_id-HasNothing :
    (m : QuoteManager) (earlier : List Key) (id : Key) (later : List Key)
    → HasNothing m id
    → (found : Key) × (next_quote_id m (earlier ++ (id ∷ later)) ≡ some found)
      × Memᴰ found (earlier ++ (id ∷ later))
      × HasNothing m found
unfolding next_quote_id
next_quote_id-HasNothing m [] id later h =
    (id, rw (HasNothing-is_unused m id h) refl, Memᴰ.head refl, h)
next_quote_id-HasNothing m (d ∷ earlier) id later h = elim (Bool-cases (is_unused m d)) [
  | inl unused ↦ (d, rw unused refl, Memᴰ.head refl, is_unused-HasNothing m d unused)
  | inr used ↦
      let (found, e, drawn, free) = next_quote_id-HasNothing m earlier id later h in
      (found, rw used e, Memᴰ.tail drawn, free)
]

abbrev quote_from : Option AcceptedQuote → Option AcceptedQuote → Option AcceptedQuote
quote_from (some q) sell = some q
quote_from none sell = sell

get_quote_from :
    (m : QuoteManager) (id : Key)
    → get_quote m id ≡ quote_from (get id m.buy_quotes) (get id m.sell_quotes)
unfolding get_quote
get_quote_from m id = elim (Option-cases (get id m.buy_quotes)) [
  | inl e ↦ rw (get_quote, e) refl
  | inr (q, e) ↦ rw (get_quote, e) refl
]

quote_from-kept :
    (keep : Key → AcceptedQuote → Bool) (id : Key) (buy sell : Option AcceptedQuote)
    → both buy sell ≡ false
    → quote_from (kept_of keep id buy) (kept_of keep id sell)
      ≡ kept_of keep id (quote_from buy sell)
quote_from-kept keep id none sell h = refl
quote_from-kept keep id (some q) none h = ground arith
quote_from-kept keep id (some q) (some r) h = cc h

-- After the expired quotes of a manager that keeps its maxima are removed, the lookup of an id finds
-- the quote that it found before if its expiry is after `now`, and nothing otherwise.
pub get_quote-prune_expired :
    (m : QuoteManager) (now : ℕ) (id : Key)
    → IsCapped m
    → get_quote (prune_expired m now) id ≡ kept_of (λ k q. ltb now q.expiry) id (get_quote m id)
unfolding IsCapped prune_expired is_valid
get_quote-prune_expired m now id h =
    let keep : Key → AcceptedQuote → Bool = λ k q. ltb now q.expiry in
    rw
      (
        get_quote_from (prune_expired m now) id,
        get-retain keep id m.buy_quotes h.keyed_buy,
        get-retain keep id m.sell_quotes h.keyed_sell,
        get_quote_from m id,
      )
      (quote_from-kept keep id (get id m.buy_quotes) (get id m.sell_quotes) (h.disjoint id))
