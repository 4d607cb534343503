-- ===== src/Rfq/Manager/Taken.antt =====
-- What an accept that was taken leaves behind.
use rust_tap.Common.{
  ℕ, ◌≤◌, ◌≡◌, refl, sym, ap, arith, min, Bool, true, false, Option, none, some, subst,
}
use rust_tap.Common.{ok, err, leb, leb→le, ◌⊎◌, inl, inr, Bool-cases, Result-cases}
use rust_tap.Rfq.FixedPoint.{FixedPoint, FixedPointError, units_to_milli_satoshi}
use rust_tap.Rfq.Keyed.{Key, get-remove_key, get-insert_key}
use rust_tap.Rfq.Keyed.{get}
use rust_tap.Rfq.Manager.{QuoteManager, AcceptedQuote, PendingRequest, RfqAccept}
unfoldable use rust_tap.Rfq.Manager.{get_quote, effective_max, unit_max_to_msat_cap}
unfoldable use rust_tap.Rfq.Manager.Quotes.{handle_buy_accept, handle_sell_accept}
use rust_tap.Rfq.Manager.Accepts.{
  Answers, quote_of, buy_max, sell_max, buy_accepted, handle_buy_accept_parts,
  handle_sell_accept_parts,
}

-- The lower of what was requested and of the fill, if there is one.
pub record IsLower (requested : ℕ) (fill : Option ℕ) (units : ℕ) : Type 0 where
  pub below_requested : units ≤ requested
  pub below_fill : (f : ℕ) → fill ≡ some f → units ≤ f
  pub attained : (units ≡ requested) ⊎ (fill ≡ some units)

-- What the units are worth at the rate, or 0 when the conversion fails.
pub data IsWorth (units : ℕ) (rate : FixedPoint) (msat : ℕ) : Type 0 where
  converted : units_to_milli_satoshi units rate ≡ ok msat → IsWorth units rate msat
  failed :
      (e : FixedPointError)
      → units_to_milli_satoshi units rate ≡ err e
      → msat ≡ 0
      → IsWorth units rate msat

min_left : (a b : ℕ) → leb b a ≡ false → min a b ≡ a
min_left a b h = ground arith

effective_max-IsLower :
    (requested : ℕ) (fill : Option ℕ) → IsLower requested fill (effective_max requested fill)
unfolding effective_max
effective_max-IsLower requested none = record {
  below_requested = omega arith;
  below_fill = λ f e. cc e;
  attained = inl refl;
}
effective_max-IsLower requested (some fill) = record {
  below_requested = omega arith;
  below_fill = λ f e. (let same : fill ≡ f = cc e in omega (arith, same));
  attained = elim (Bool-cases (leb requested fill)) [
    | inl low ↦ inl (omega (arith, leb→le requested fill low))
    | inr high ↦ inr (sym (ap some (min_left fill requested high)))
  ];
}

unit_max_to_msat_cap-IsWorth :
    (units : ℕ) (rate : FixedPoint) → IsWorth units rate (unit_max_to_msat_cap units rate)
unfolding unit_max_to_msat_cap
unit_max_to_msat_cap-IsWorth units rate = elim (Result-cases (units_to_milli_satoshi units rate)) [
  | inl (msat, e) ↦ converted (rw (unit_max_to_msat_cap, e) refl)
  | inr (fault, e) ↦ failed fault e (rw (unit_max_to_msat_cap, e) refl)
]

-- The terms of a quote for `request` that `accept`, from `peer`, has answered.
pub record HasTerms (accept : RfqAccept) (request : PendingRequest) (peer : Key) (buys : Bool)
    (q : AcceptedQuote) : Type 0 where
  pub id : q.id ≡ accept.accept_id
  pub asset_id : q.asset_id ≡ request.request_asset_id
  pub rate : q.rate ≡ accept.asset_rate
  pub expiry : q.expiry ≡ accept.accept_expiry
  pub peer_of : q.peer ≡ peer
  pub is_buy : q.is_buy ≡ buys

-- The request that `handle_buy_accept` took the quote from, and where the two stand afterwards.
pub record TakesBuy (m : QuoteManager) (accept : RfqAccept) (peer : Key) (now : ℕ)
    (r : QuoteManager × AcceptedQuote) : Type 0 where
  pub request : PendingRequest
  pub units : ℕ
  pub answers : Answers m accept peer now true request
  pub terms : HasTerms accept request peer true r.1
  pub lower : IsLower request.max_amount accept.max_in_asset units
  pub worth : IsWorth units accept.asset_rate r.1.max_amount_msat
  pub looked_up : get_quote r.0 accept.accept_id ≡ some r.1
  pub answered : get accept.accept_id r.0.pending_requests ≡ none

-- The maximum of a sell quote is in msat from the start.
pub record TakesSell (m : QuoteManager) (accept : RfqAccept) (peer : Key) (now : ℕ)
    (r : QuoteManager × AcceptedQuote) : Type 0 where
  pub request : PendingRequest
  pub answers : Answers m accept peer now false request
  pub terms : HasTerms accept request peer false r.1
  pub lower : IsLower request.max_amount accept.max_in_asset r.1.max_amount_msat
  pub stored : get accept.accept_id r.0.sell_quotes ≡ some r.1
  pub answered : get accept.accept_id r.0.pending_requests ≡ none

plain_terms :
    (accept : RfqAccept) (request : PendingRequest) (peer : Key) (buys : Bool) (max : ℕ)
    → HasTerms accept request peer buys (quote_of accept request peer buys max)
plain_terms accept request peer buys max = record {
  id = refl;
  asset_id = refl;
  rate = refl;
  expiry = refl;
  peer_of = refl;
  is_buy = refl;
}

get_quote-buy :
    (m : QuoteManager) (id : Key) (q : AcceptedQuote)
    → get id m.buy_quotes ≡ some q
    → get_quote m id ≡ some q
unfolding get_quote
get_quote-buy m id q e = rw (get_quote, e) refl

-- When `handle_buy_accept` takes an accept, a request was pending under its id, it was a buy request
-- made to the peer that the accept came from, and the accept had not expired; the quote has the asset
-- of that request, the rate and the expiry of the accept, and as its maximum what the lower of the two
-- maxima, in units, is worth at the rate in msat, or 0 if that conversion fails; afterwards the quote
-- is what is looked up under the id, and no request is pending under it.
pub handle_buy_accept-TakesBuy :
    (m : QuoteManager) (accept : RfqAccept) (peer : Key) (now : ℕ)
    (r : QuoteManager × AcceptedQuote)
    → handle_buy_accept m accept peer now ≡ ok r
    → TakesBuy m accept peer now r
handle_buy_accept-TakesBuy m accept peer now r e =
    let (request, a, same) = handle_buy_accept_parts m accept peer now r e in
    let quote = quote_of accept request peer true (buy_max accept request) in
    subst (TakesBuy m accept peer now) same (record {
      request = request;
      units = effective_max request.max_amount accept.max_in_asset;
      answers = a;
      terms = plain_terms accept request peer true (buy_max accept request);
      lower = effective_max-IsLower request.max_amount accept.max_in_asset;
      worth =
          unit_max_to_msat_cap-IsWorth (effective_max request.max_amount accept.max_in_asset)
            accept.asset_rate;
      looked_up =
          get_quote-buy (buy_accepted m accept quote) accept.accept_id quote
            (get-insert_key accept.accept_id quote m.buy_quotes);
      answered = get-remove_key accept.accept_id m.pending_requests;
    })

pub handle_sell_accept-TakesSell :
    (m : QuoteManager) (accept : RfqAccept) (peer : Key) (now : ℕ)
    (r : QuoteManager × AcceptedQuote)
    → handle_sell_accept m accept peer now ≡ ok r
    → TakesSell m accept peer now r
handle_sell_accept-TakesSell m accept peer now r e =
    let (request, a, same) = handle_sell_accept_parts m accept peer now r e in
    let quote = quote_of accept request peer false (sell_max accept request) in
    subst (TakesSell m accept peer now) same (record {
      request = request;
      answers = a;
      terms = plain_terms accept request peer false (sell_max accept request);
      lower = effective_max-IsLower request.max_amount accept.max_in_asset;
      stored = get-insert_key accept.accept_id quote m.sell_quotes;
      answered = get-remove_key accept.accept_id m.pending_requests;
    })
