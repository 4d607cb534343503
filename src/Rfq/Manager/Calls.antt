-- ===== src/Rfq/Manager/Calls.antt =====
-- What each call of the quote manager leaves as it is, and what it does to the maxima.
use rust_tap.Common.{ℕ, ◌≡◌, refl, leb, List}
use rust_tap.Common.{Bool-cases, Option-cases, Result-cases, inl, inr, subst, bytes_eq}
use rust_tap.Rfq.Keyed.{Key, Keyed, get}
use rust_tap.Rfq.Manager.{
  QuoteManager, AcceptedQuote, PendingRequest, AcceptWire, RfqAccept, RfqReject, RfqBuyRequest,
  RfqSellRequest,
}
use rust_tap.Rfq.Manager.{next_quote_id, peer_quote_count}
use rust_tap.Rfq.Manager.Quotes.{
  create_buy_request, create_sell_request, handle_buy_request, handle_sell_request,
}
use rust_tap.Rfq.Manager.Quotes.{handle_buy_accept, handle_sell_accept, handle_reject}
use rust_tap.Rfq.Manager.Tracking.{quote_used_msat}
use rust_tap.Rfq.Manager.Accounting.{IsAccounted}
use rust_tap.Rfq.Manager.Capped.{IsCapped, insert_buy-IsWithin, insert_sell-IsWithin}
use rust_tap.Rfq.Manager.Accepts.{handle_buy_accept_parts, handle_sell_accept_parts}
use rust_tap.Rfq.Manager.Runs.{IsFree, after, after_option, after_result}

-- Two states that track the same HTLCs and have the same amounts in use.
pub record TracksSame (m m' : QuoteManager) : Type 0 where
  tracked : m'.tracked_htlcs ≡ m.tracked_htlcs
  used : m'.used_msat ≡ m.used_msat

-- Two states that have the same quotes besides.
pub record QuotesSame (m m' : QuoteManager) : Type 0 where
  buy : m'.buy_quotes ≡ m.buy_quotes
  sell : m'.sell_quotes ≡ m.sell_quotes
  used : m'.used_msat ≡ m.used_msat

pub TracksSame-IsAccounted :
    (m m' : QuoteManager) → TracksSame m m' → IsAccounted m → IsAccounted m'
unfolding quote_used_msat
TracksSame-IsAccounted m m' s h = record {
  keyed = rw s.tracked h.keyed;
  exact = λ id. rw (s.tracked, s.used) (h.exact id);
}

pub QuotesSame-IsCapped : (m m' : QuoteManager) → QuotesSame m m' → IsCapped m → IsCapped m'
unfolding IsCapped
QuotesSame-IsCapped m m' s h = rw (s.buy, s.sell, s.used) h

-- Another set of pending requests changes neither.
unchanged :
    (m : QuoteManager) (pending : Keyed PendingRequest)
    → let m' = record m { pending_requests = pending } in TracksSame m m' × QuotesSame m m'
unchanged m pending =
    (record { tracked = refl; used = refl }, record { buy = refl; sell = refl; used = refl })

pub create_buy_same :
    (m : QuoteManager) (asset : Key) (max : ℕ) (peer : Key) (now : ℕ) (draws : List Key)
    → let m' = after_option m (create_buy_request m asset max peer now draws) in
      TracksSame m m' × QuotesSame m m'
unfolding create_buy_request
create_buy_same m asset max peer now draws = elim (Option-cases (next_quote_id m draws)) [
  | inl e ↦ rw (create_buy_request, e) (unchanged m _)
  | inr (id, e) ↦ rw (create_buy_request, e) (unchanged m _)
]

pub create_sell_same :
    (m : QuoteManager) (asset : Key) (max : ℕ) (peer : Key) (now : ℕ) (draws : List Key)
    → let m' = after_option m (create_sell_request m asset max peer now draws) in
      TracksSame m m' × QuotesSame m m'
unfolding create_sell_request
create_sell_same m asset max peer now draws = elim (Option-cases (next_quote_id m draws)) [
  | inl e ↦ rw (create_sell_request, e) (unchanged m _)
  | inr (id, e) ↦ rw (create_sell_request, e) (unchanged m _)
]

pub handle_reject_same :
    (m : QuoteManager) (r : RfqReject) (peer : Key)
    → TracksSame m (after m (handle_reject m r peer))
      × QuotesSame m (after m (handle_reject m r peer))
unfolding handle_reject
handle_reject_same m r peer = elim (Option-cases (get r.reject_id m.pending_requests)) [
  | inl e ↦ rw (handle_reject, e) (unchanged m _)
  | inr (p, e) ↦ elim (Bool-cases (bytes_eq p.request_peer peer)) [
    | inl same ↦ rw (handle_reject, e, same) (unchanged m _)
    | inr other ↦ rw (handle_reject, e, other) (unchanged m _)
  ]
]

module _ (wire : AcceptWire) where
  pub buy_request_same :
      (m : QuoteManager) (request : RfqBuyRequest) (peer : Key) (now lifetime : ℕ)
      → TracksSame m (handle_buy_request wire m request peer now lifetime).0
  unfolding handle_buy_request
  buy_request_same m request peer now lifetime =
      elim (Bool-cases (leb m.max_quotes_per_peer (peer_quote_count m peer))) [
        | inl full ↦ rw (handle_buy_request, full) (record { tracked = refl; used = refl })
        | inr room ↦
            elim (Result-cases (m.oracle.ask_price request.buy_asset_id request.asset_max_amount)) [
              | inl (rate, e) ↦
                  rw (handle_buy_request, room, e) (record { tracked = refl; used = refl })
              | inr (fault, e) ↦
                  rw (handle_buy_request, room, e) (record { tracked = refl; used = refl })
            ]
      ]

  pub sell_request_same :
      (m : QuoteManager) (request : RfqSellRequest) (peer : Key) (now lifetime : ℕ)
      → TracksSame m (handle_sell_request wire m request peer now lifetime).0
  unfolding handle_sell_request
  sell_request_same m request peer now lifetime =
      elim (Bool-cases (leb m.max_quotes_per_peer (peer_quote_count m peer))) [
        | inl full ↦ rw (handle_sell_request, full) (record { tracked = refl; used = refl })
        | inr room ↦
            elim (Result-cases
              (m.oracle.bid_price request.sell_asset_id request.payment_max_amt_msat)) [
                | inl (rate, e) ↦
                    rw (handle_sell_request, room, e) (record { tracked = refl; used = refl })
                | inr (fault, e) ↦
                    rw (handle_sell_request, room, e) (record { tracked = refl; used = refl })
              ]
      ]

  pub buy_request-IsCapped :
      (m : QuoteManager) (request : RfqBuyRequest) (peer : Key) (now lifetime : ℕ)
      → IsFree m request.buy_id
      → IsCapped m
      → IsCapped (handle_buy_request wire m request peer now lifetime).0
  unfolding IsCapped handle_buy_request
  buy_request-IsCapped m request peer now lifetime (no_buy, no_sell) h =
      elim (Bool-cases (leb m.max_quotes_per_peer (peer_quote_count m peer))) [
        | inl full ↦ rw (handle_buy_request, full) h
        | inr room ↦
            elim (Result-cases (m.oracle.ask_price request.buy_asset_id request.asset_max_amount)) [
              | inl (rate, e) ↦
                  rw (handle_buy_request, room, e)
                    (insert_sell-IsWithin request.buy_id _ m.buy_quotes m.sell_quotes m.used_msat
                      no_buy no_sell h)
              | inr (fault, e) ↦ rw (handle_buy_request, room, e) h
            ]
      ]

  pub sell_request-IsCapped :
      (m : QuoteManager) (request : RfqSellRequest) (peer : Key) (now lifetime : ℕ)
      → IsFree m request.sell_id
      → IsCapped m
      → IsCapped (handle_sell_request wire m request peer now lifetime).0
  unfolding IsCapped handle_sell_request
  sell_request-IsCapped m request peer now lifetime (no_buy, no_sell) h =
      elim (Bool-cases (leb m.max_quotes_per_peer (peer_quote_count m peer))) [
        | inl full ↦ rw (handle_sell_request, full) h
        | inr room ↦
            elim (Result-cases
              (m.oracle.bid_price request.sell_asset_id request.payment_max_amt_msat)) [
                | inl (rate, e) ↦
                    rw (handle_sell_request, room, e)
                      (insert_buy-IsWithin request.sell_id _ m.buy_quotes m.sell_quotes m.used_msat
                        no_buy no_sell h)
                | inr (fault, e) ↦ rw (handle_sell_request, room, e) h
              ]
      ]

pub buy_accept_same :
    (m : QuoteManager) (accept : RfqAccept) (peer : Key) (now : ℕ)
    → TracksSame m (after_result m (handle_buy_accept m accept peer now))
buy_accept_same m accept peer now = elim (Result-cases (handle_buy_accept m accept peer now)) [
  | inl (r, e) ↦
      let (_, _, same) = handle_buy_accept_parts m accept peer now r e in
      rw e (
        subst (λ (t : QuoteManager × AcceptedQuote). TracksSame m t.0) same
          (record { tracked = refl; used = refl }))
  | inr (fault, e) ↦ rw e (record { tracked = refl; used = refl })
]

pub sell_accept_same :
    (m : QuoteManager) (accept : RfqAccept) (peer : Key) (now : ℕ)
    → TracksSame m (after_result m (handle_sell_accept m accept peer now))
sell_accept_same m accept peer now = elim (Result-cases (handle_sell_accept m accept peer now)) [
  | inl (r, e) ↦
      let (_, _, same) = handle_sell_accept_parts m accept peer now r e in
      rw e (
        subst (λ (t : QuoteManager × AcceptedQuote). TracksSame m t.0) same
          (record { tracked = refl; used = refl }))
  | inr (fault, e) ↦ rw e (record { tracked = refl; used = refl })
]

pub buy_accept-IsCapped :
    (m : QuoteManager) (accept : RfqAccept) (peer : Key) (now : ℕ)
    → IsFree m accept.accept_id
    → IsCapped m
    → IsCapped (after_result m (handle_buy_accept m accept peer now))
unfolding IsCapped
buy_accept-IsCapped m accept peer now (no_buy, no_sell) h =
    elim (Result-cases (handle_buy_accept m accept peer now)) [
      | inl (r, e) ↦
          let (_, _, same) = handle_buy_accept_parts m accept peer now r e in
          rw e (
            subst (λ (t : QuoteManager × AcceptedQuote). IsCapped t.0) same
              (insert_buy-IsWithin accept.accept_id _ m.buy_quotes m.sell_quotes m.used_msat no_buy
                no_sell h))
      | inr (fault, e) ↦ rw e h
    ]

pub sell_accept-IsCapped :
    (m : QuoteManager) (accept : RfqAccept) (peer : Key) (now : ℕ)
    → IsFree m accept.accept_id
    → IsCapped m
    → IsCapped (after_result m (handle_sell_accept m accept peer now))
unfolding IsCapped
sell_accept-IsCapped m accept peer now (no_buy, no_sell) h =
    elim (Result-cases (handle_sell_accept m accept peer now)) [
      | inl (r, e) ↦
          let (_, _, same) = handle_sell_accept_parts m accept peer now r e in
          rw e (
            subst (λ (t : QuoteManager × AcceptedQuote). IsCapped t.0) same
              (insert_sell-IsWithin accept.accept_id _ m.buy_quotes m.sell_quotes m.used_msat no_buy
                no_sell h))
      | inr (fault, e) ↦ rw e h
    ]
