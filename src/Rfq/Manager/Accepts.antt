-- ===== src/Rfq/Manager/Accepts.antt =====
-- What an accept that is taken says of the request that it answers.
use rust_tap.Common.{ℕ, ◌<◌, ◌≡◌, refl, arith, Bool, true, false, not, some}
use rust_tap.Common.{Result, ok, ensure, ok_or, ◌>>=◌, ◌>>◌, leb, bytes_eq, bytes_eq→eq}
use rust_tap.Common.{bind_parts, ensure_parts, ok_or-ok, ok_injective}
use rust_tap.Rfq.Keyed.{Key}
unfoldable use rust_tap.Rfq.Keyed.{get, remove_key, insert_key}
use rust_tap.Rfq.Manager.{QuoteManager, AcceptedQuote, PendingRequest, RfqAccept, RfqError}
use rust_tap.Rfq.Manager.{request_not_found, request_type_mismatch, peer_mismatch, quote_expired}
unfoldable use rust_tap.Rfq.Manager.{effective_max, unit_max_to_msat_cap}
unfoldable use rust_tap.Rfq.Manager.Quotes.{handle_buy_accept, handle_sell_accept}

-- The request `pending` is one that `accept`, from `peer` at `now`, may answer.
pub record Answers (m : QuoteManager) (accept : RfqAccept) (peer : Key) (now : ℕ) (is_buy : Bool)
    (pending : PendingRequest) : Type 0 where
  pub found : get accept.accept_id m.pending_requests ≡ some pending
  pub kind : pending.request_is_buy ≡ is_buy
  pub from_peer : pending.request_peer ≡ peer
  pub unexpired : now < accept.accept_expiry

-- The quote for `pending` at the terms of `accept`, with the given maximum.
abbrev pub quote_of : RfqAccept → PendingRequest → Key → Bool → ℕ → AcceptedQuote
quote_of accept pending peer is_buy max = record {
  id = accept.accept_id;
  asset_id = pending.request_asset_id;
  rate = accept.asset_rate;
  expiry = accept.accept_expiry;
  peer = peer;
  is_buy = is_buy;
  max_amount_msat = max;
}

abbrev pub buy_max : RfqAccept → PendingRequest → ℕ
buy_max accept pending =
    unit_max_to_msat_cap (effective_max pending.max_amount accept.max_in_asset) accept.asset_rate

abbrev pub sell_max : RfqAccept → PendingRequest → ℕ
sell_max accept pending = effective_max pending.max_amount accept.max_in_asset

abbrev pub buy_accepted : QuoteManager → RfqAccept → AcceptedQuote → QuoteManager
buy_accepted m accept quote = record m {
  pending_requests = remove_key accept.accept_id m.pending_requests;
  buy_quotes = insert_key accept.accept_id quote m.buy_quotes;
}

abbrev pub sell_accepted : QuoteManager → RfqAccept → AcceptedQuote → QuoteManager
sell_accepted m accept quote = record m {
  pending_requests = remove_key accept.accept_id m.pending_requests;
  sell_quotes = insert_key accept.accept_id quote m.sell_quotes;
}

-- The checks that both accepts make, before `finish`.
abbrev checks :
    {A : Type 0}
    → QuoteManager
    → RfqAccept
    → Key
    → ℕ
    → (Bool → Bool)
    → (PendingRequest → Result A RfqError)
    → PendingRequest
    → Result A RfqError
checks m accept peer now right finish pending =
    ensure (right pending.request_is_buy) (request_type_mismatch accept.accept_id)
    >> (ensure (bytes_eq pending.request_peer peer)
          (peer_mismatch accept.accept_id pending.request_peer peer)
        >> (ensure (not (leb accept.accept_expiry now))
              (quote_expired accept.accept_id accept.accept_expiry now)
            >> finish pending))

checks_parts :
    {A : Type 0} (m : QuoteManager) (accept : RfqAccept) (peer : Key) (now : ℕ)
    (right : Bool → Bool) (finish : PendingRequest → Result A RfqError) (r : A)
    → (ok_or (get accept.accept_id m.pending_requests) (request_not_found accept.accept_id)
        >>= checks m accept peer now right finish)
      ≡ ok r
    → (pending : PendingRequest) × Answers m accept peer now pending.request_is_buy pending
      × (right pending.request_is_buy ≡ true)
      × (finish pending ≡ ok r)
checks_parts m accept peer now right finish r e =
    let (pending, found, e₁) =
      bind_parts
        (ok_or (get accept.accept_id m.pending_requests) (request_not_found accept.accept_id))
        (checks m accept peer now right finish) r e in
    let (kind, e₂) =
      ensure_parts (right pending.request_is_buy) (request_type_mismatch accept.accept_id) _ r e₁ in
    let (same, e₃) =
      ensure_parts (bytes_eq pending.request_peer peer)
        (peer_mismatch accept.accept_id pending.request_peer peer) _ r e₂ in
    let (fresh, e₄) =
      ensure_parts (not (leb accept.accept_expiry now))
        (quote_expired accept.accept_id accept.accept_expiry now) (finish pending) r e₃ in
    (
      pending,
      record {
        found =
            ok_or-ok (get accept.accept_id m.pending_requests) (request_not_found accept.accept_id)
              pending found;
        kind = refl;
        from_peer = bytes_eq→eq pending.request_peer peer same;
        unexpired = ground (arith, fresh);
      },
      kind,
      e₄,
    )

pub handle_buy_accept_parts :
    (m : QuoteManager) (accept : RfqAccept) (peer : Key) (now : ℕ)
    (r : QuoteManager × AcceptedQuote)
    → handle_buy_accept m accept peer now ≡ ok r
    → (request : PendingRequest) × Answers m accept peer now true request
      × ((
        buy_accepted m accept (quote_of accept request peer true (buy_max accept request)),
        quote_of accept request peer true (buy_max accept request),
      )
          ≡ r)
unfolding handle_buy_accept
handle_buy_accept_parts m accept peer now r e =
    let quote : PendingRequest → AcceptedQuote =
      λ request. quote_of accept request peer true (buy_max accept request) in
    let (request, a, kind, e₁) =
      checks_parts m accept peer now (λ b. b)
        (λ request. ok (buy_accepted m accept (quote request), quote request)) r e in
    (
      request,
      record { found = a.found; kind = kind; from_peer = a.from_peer; unexpired = a.unexpired },
      ok_injective e₁,
    )

pub handle_sell_accept_parts :
    (m : QuoteManager) (accept : RfqAccept) (peer : Key) (now : ℕ)
    (r : QuoteManager × AcceptedQuote)
    → handle_sell_accept m accept peer now ≡ ok r
    → (request : PendingRequest) × Answers m accept peer now false request
      × ((
        sell_accepted m accept (quote_of accept request peer false (sell_max accept request)),
        quote_of accept request peer false (sell_max accept request),
      )
          ≡ r)
unfolding handle_sell_accept
handle_sell_accept_parts m accept peer now r e =
    let quote : PendingRequest → AcceptedQuote =
      λ request. quote_of accept request peer false (sell_max accept request) in
    let (request, a, kind, e₁) =
      checks_parts m accept peer now not
        (λ request. ok (sell_accepted m accept (quote request), quote request)) r e in
    (
      request,
      record {
        found = a.found;
        kind = ground (arith, kind);
        from_peer = a.from_peer;
        unexpired = a.unexpired;
      },
      ok_injective e₁,
    )
