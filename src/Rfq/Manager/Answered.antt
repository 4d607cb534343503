-- ===== src/Rfq/Manager/Answered.antt =====
-- A request that was answered is not answered again.
use rust_tap.Common.{ℕ, ◌≡◌, ◌≢◌, refl, false, none, some, List, [], ◌∷◌, ok, err, All, subst}
use rust_tap.Common.{Bool-cases, Option-cases, Result-cases, inl, inr, leb, bytes_eq, bytes_eq→eq}
use rust_tap.Rfq.Keyed.{Key, get, get-insert_key_other, get-none-remove_key, get-none-retain}
use rust_tap.Rfq.Manager.{
  QuoteManager, AcceptedQuote, AcceptWire, RfqBuyRequest, RfqSellRequest, RfqAccept, RfqReject,
  request_not_found, peer_quote_count, is_unused,
}
unfoldable use rust_tap.Rfq.Manager.{next_quote_id}
unfoldable use rust_tap.Rfq.Manager.Quotes.{
  create_buy_request, create_sell_request, handle_buy_request, handle_sell_request,
  handle_buy_accept, handle_sell_accept, handle_reject,
}
unfoldable use rust_tap.Rfq.Manager.Tracking.{
  untrack_htlc, track_accepted_htlc, prune_expired, admit_htlc,
}
use rust_tap.Rfq.Manager.Runs.{
  Call, after, after_option, after_result, create_buy, create_sell, buy_request, sell_request,
  buy_accept, sell_accept, reject, admit, untrack, prune,
}
unfoldable use rust_tap.Rfq.Manager.Runs.{run}
use rust_tap.Rfq.Manager.Accepts.{handle_buy_accept_parts, handle_sell_accept_parts}
use rust_tap.Rfq.Manager.Reachable.{admit_htlc_parts}
use rust_tap.Rfq.Manager.Taken.{handle_buy_accept-TakesBuy, handle_sell_accept-TakesSell}

-- Nothing answers the request, and nothing changes when that is tried.
pub record Unanswerable (m : QuoteManager) (id : Key) : Type 0 where
  pub no_buy :
      (a : RfqAccept) (peer : Key) (now : ℕ)
      → handle_buy_accept m (record a { accept_id = id }) peer now ≡ err (request_not_found id)
  pub no_sell :
      (a : RfqAccept) (peer : Key) (now : ℕ)
      → handle_sell_accept m (record a { accept_id = id }) peer now ≡ err (request_not_found id)
  pub no_reject :
      (r : RfqReject) (peer : Key)
      → handle_reject m (record r { reject_id = id }) peer ≡ err (request_not_found id)

abbrev NotPending : Key → QuoteManager → Type 0
NotPending id m = get id m.pending_requests ≡ none

NotPending-Unanswerable : (m : QuoteManager) (id : Key) → NotPending id m → Unanswerable m id
unfolding handle_buy_accept handle_sell_accept handle_reject
NotPending-Unanswerable m id gone = record {
  no_buy = λ a peer now. rw gone refl;
  no_sell = λ a peer now. rw gone refl;
  no_reject = λ r peer. rw gone refl;
}

-- The random number generator does not draw the id again.
unfoldable pub DrawsOther : Key → Call → Type 0
DrawsOther id (create_buy asset max peer now draws) = All (λ d. d ≢ id) draws
DrawsOther id (create_sell asset max peer now draws) = All (λ d. d ≢ id) draws
DrawsOther id _ = Unit {0}

next_quote_id-other :
    (m : QuoteManager) (id k : Key) (draws : List Key)
    → All (λ d. d ≢ id) draws
    → next_quote_id m draws ≡ some k
    → bytes_eq k id ≡ false
unfolding next_quote_id
next_quote_id-other m id k [] h e = cc e
next_quote_id-other m id k (d ∷ draws) (h, hs) e = elim (Bool-cases (is_unused m d)) [
  | inl unused ↦ elim (Bool-cases (bytes_eq k id)) [
    | inr other ↦ other
    | inl same ↦
        let drawn : d ≡ k = cc (rw unused at e) in absurd (h (cc (drawn, bytes_eq→eq k id same)))
  ]
  | inr used ↦ next_quote_id-other m id k draws hs (rw used at e)
]

create_buy-NotPending :
    (m : QuoteManager) (id asset : Key) (max : ℕ) (peer : Key) (now : ℕ) (draws : List Key)
    → All (λ d. d ≢ id) draws
    → NotPending id m
    → NotPending id (after_option m (create_buy_request m asset max peer now draws))
unfolding create_buy_request
create_buy-NotPending m id asset max peer now draws others h =
    elim (Option-cases (next_quote_id m draws)) [
      | inl e ↦ rw (create_buy_request, e) h
      | inr (k, e) ↦
          rw
            (
              create_buy_request,
              e,
              get-insert_key_other k id _ m.pending_requests
                  (next_quote_id-other m id k draws others e),
            )
            h
    ]

create_sell-NotPending :
    (m : QuoteManager) (id asset : Key) (max : ℕ) (peer : Key) (now : ℕ) (draws : List Key)
    → All (λ d. d ≢ id) draws
    → NotPending id m
    → NotPending id (after_option m (create_sell_request m asset max peer now draws))
unfolding create_sell_request
create_sell-NotPending m id asset max peer now draws others h =
    elim (Option-cases (next_quote_id m draws)) [
      | inl e ↦ rw (create_sell_request, e) h
      | inr (k, e) ↦
          rw
            (
              create_sell_request,
              e,
              get-insert_key_other k id _ m.pending_requests
                  (next_quote_id-other m id k draws others e),
            )
            h
    ]

-- A request of a peer leaves the pending requests alone.
buy_request_pending :
    (wire : AcceptWire) (m : QuoteManager) (request : RfqBuyRequest) (peer : Key) (now lifetime : ℕ)
    → (handle_buy_request wire m request peer now lifetime).0.pending_requests ≡ m.pending_requests
unfolding handle_buy_request
buy_request_pending wire m request peer now lifetime =
    elim (Bool-cases (leb m.max_quotes_per_peer (peer_quote_count m peer))) [
      | inl full ↦ rw (handle_buy_request, full) refl
      | inr room ↦
          elim (Result-cases (m.oracle.ask_price request.buy_asset_id request.asset_max_amount)) [
            | inl (rate, e) ↦ rw (handle_buy_request, room, e) refl
            | inr (fault, e) ↦ rw (handle_buy_request, room, e) refl
          ]
    ]

sell_request_pending :
    (wire : AcceptWire) (m : QuoteManager) (request : RfqSellRequest) (peer : Key)
    (now lifetime : ℕ)
    → (handle_sell_request wire m request peer now lifetime).0.pending_requests ≡ m.pending_requests
unfolding handle_sell_request
sell_request_pending wire m request peer now lifetime =
    elim (Bool-cases (leb m.max_quotes_per_peer (peer_quote_count m peer))) [
      | inl full ↦ rw (handle_sell_request, full) refl
      | inr room ↦
          elim (Result-cases
            (m.oracle.bid_price request.sell_asset_id request.payment_max_amt_msat)) [
              | inl (rate, e) ↦ rw (handle_sell_request, room, e) refl
              | inr (fault, e) ↦ rw (handle_sell_request, room, e) refl
            ]
    ]

buy_accept-NotPending :
    (m : QuoteManager) (id : Key) (accept : RfqAccept) (peer : Key) (now : ℕ)
    → NotPending id m
    → NotPending id (after_result m (handle_buy_accept m accept peer now))
buy_accept-NotPending m id accept peer now h =
    elim (Result-cases (handle_buy_accept m accept peer now)) [
      | inr (fault, e) ↦ rw e h
      | inl (r, e) ↦
          let (request, a, same) = handle_buy_accept_parts m accept peer now r e in
          rw e (
            subst (λ (t : QuoteManager × AcceptedQuote). NotPending id t.0) same
              (get-none-remove_key accept.accept_id id m.pending_requests h))
    ]

sell_accept-NotPending :
    (m : QuoteManager) (id : Key) (accept : RfqAccept) (peer : Key) (now : ℕ)
    → NotPending id m
    → NotPending id (after_result m (handle_sell_accept m accept peer now))
sell_accept-NotPending m id accept peer now h =
    elim (Result-cases (handle_sell_accept m accept peer now)) [
      | inr (fault, e) ↦ rw e h
      | inl (r, e) ↦
          let (request, a, same) = handle_sell_accept_parts m accept peer now r e in
          rw e (
            subst (λ (t : QuoteManager × AcceptedQuote). NotPending id t.0) same
              (get-none-remove_key accept.accept_id id m.pending_requests h))
    ]

reject-NotPending :
    (m : QuoteManager) (id : Key) (r : RfqReject) (peer : Key)
    → NotPending id m
    → NotPending id (after m (handle_reject m r peer))
unfolding handle_reject
reject-NotPending m id r peer h = elim (Option-cases (get r.reject_id m.pending_requests)) [
  | inl e ↦ rw (handle_reject, e) h
  | inr (p, e) ↦ elim (Bool-cases (bytes_eq p.request_peer peer)) [
    | inl same ↦
        rw (handle_reject, e, same) (get-none-remove_key r.reject_id id m.pending_requests h)
    | inr other ↦ rw (handle_reject, e, other) h
  ]
]

untrack_pending :
    (m : QuoteManager) (htlc : Key) → (untrack_htlc m htlc).pending_requests ≡ m.pending_requests
unfolding untrack_htlc
untrack_pending m htlc = elim (Option-cases (get htlc m.tracked_htlcs)) [
  | inl unknown ↦ rw (untrack_htlc, unknown) refl
  | inr (entry, known) ↦ rw (untrack_htlc, known) refl
]

track_pending :
    (m : QuoteManager) (quote_id htlc : Key) (amt : ℕ)
    → (track_accepted_htlc m quote_id htlc amt).pending_requests ≡ m.pending_requests
unfolding track_accepted_htlc
track_pending m quote_id htlc amt = untrack_pending m htlc

admit-NotPending :
    (m : QuoteManager) (id quote_id htlc : Key) (amt : ℕ)
    → NotPending id m
    → NotPending id (after m (admit_htlc m quote_id htlc amt))
admit-NotPending m id quote_id htlc amt h = elim (Result-cases (admit_htlc m quote_id htlc amt)) [
  | inr (fault, e) ↦ rw e h
  | inl (m', e) ↦
      let (_, same) = admit_htlc_parts m quote_id htlc amt m' e in
      rw e (subst (NotPending id) same (rw (track_pending m quote_id htlc amt) h))
]

run-NotPending :
    (wire : AcceptWire) (id : Key) (c : Call) (m : QuoteManager)
    → DrawsOther id c
    → NotPending id m
    → NotPending id (run wire c m)
unfolding run DrawsOther prune_expired
run-NotPending wire id (create_buy asset max peer now draws) m p h =
    create_buy-NotPending m id asset max peer now draws p h
run-NotPending wire id (create_sell asset max peer now draws) m p h =
    create_sell-NotPending m id asset max peer now draws p h
run-NotPending wire id (buy_request request peer now lifetime) m p h =
    rw (buy_request_pending wire m request peer now lifetime) h
run-NotPending wire id (sell_request request peer now lifetime) m p h =
    rw (sell_request_pending wire m request peer now lifetime) h
run-NotPending wire id (buy_accept accept peer now) m p h =
    buy_accept-NotPending m id accept peer now h
run-NotPending wire id (sell_accept accept peer now) m p h =
    sell_accept-NotPending m id accept peer now h
run-NotPending wire id (reject r peer) m p h = reject-NotPending m id r peer h
run-NotPending wire id (admit quote_id htlc amt) m p h = admit-NotPending m id quote_id htlc amt h
run-NotPending wire id (untrack htlc) m p h = rw (untrack_pending m htlc) h
run-NotPending wire id (prune now) m p h = get-none-retain _ id m.pending_requests h

-- One call after the other.
unfoldable pub run_all : AcceptWire → List Call → QuoteManager → QuoteManager
run_all wire [] m = m
run_all wire (c ∷ cs) m = run_all wire cs (run wire c m)

run_all-NotPending :
    (wire : AcceptWire) (id : Key) (cs : List Call) (m : QuoteManager)
    → All (DrawsOther id) cs
    → NotPending id m
    → NotPending id (run_all wire cs m)
unfolding run_all
run_all-NotPending wire id [] m p h = h
run_all-NotPending wire id (c ∷ cs) m (p, ps) h =
    run_all-NotPending wire id cs (run wire c m) ps (run-NotPending wire id c m p h)

-- When a buy accept was taken, then after any calls that do not draw its id for a new request, every
-- accept and reject under the id is refused as one of a request that is not known, whatever else it
-- says and whichever peer it is from.
pub handle_buy_accept-Unanswerable :
    (wire : AcceptWire) (m : QuoteManager) (accept : RfqAccept) (peer : Key) (now : ℕ)
    (r : QuoteManager × AcceptedQuote) (cs : List Call)
    → handle_buy_accept m accept peer now ≡ ok r
    → All (DrawsOther accept.accept_id) cs
    → Unanswerable (run_all wire cs r.0) accept.accept_id
handle_buy_accept-Unanswerable wire m accept peer now r cs e others =
    NotPending-Unanswerable (run_all wire cs r.0) accept.accept_id (
      run_all-NotPending wire accept.accept_id cs r.0 others
        (handle_buy_accept-TakesBuy m accept peer now r e).answered)

-- When a sell accept was taken, then after any calls that do not draw its id for a new request, every
-- accept and reject under the id is refused as one of a request that is not known, whatever else it
-- says and whichever peer it is from.
pub handle_sell_accept-Unanswerable :
    (wire : AcceptWire) (m : QuoteManager) (accept : RfqAccept) (peer : Key) (now : ℕ)
    (r : QuoteManager × AcceptedQuote) (cs : List Call)
    → handle_sell_accept m accept peer now ≡ ok r
    → All (DrawsOther accept.accept_id) cs
    → Unanswerable (run_all wire cs r.0) accept.accept_id
handle_sell_accept-Unanswerable wire m accept peer now r cs e others =
    NotPending-Unanswerable (run_all wire cs r.0) accept.accept_id (
      run_all-NotPending wire accept.accept_id cs r.0 others
        (handle_sell_accept-TakesSell m accept peer now r e).answered)
