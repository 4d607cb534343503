-- ===== src/Rfq/Manager/Reachable.antt =====
-- What holds in every state of the quote manager that calls reach.
use rust_tap.Common.{ℕ, ◌≡◌, refl, arith, ok}
use rust_tap.Common.{Result-cases, inl, inr, subst, bind_parts, ok_injective}
use rust_tap.Rfq.Keyed.{Key}
unfoldable use rust_tap.Rfq.Keyed.{get}
use rust_tap.Rfq.Manager.{QuoteManager, AcceptWire}
unfoldable use rust_tap.Rfq.Manager.{new, with_max_quotes_per_peer}
unfoldable use rust_tap.Rfq.Manager.Tracking.{quote_used_msat, admit_htlc}
use rust_tap.Rfq.Manager.Tracking.{check_htlc_amount, track_accepted_htlc}
use rust_tap.Rfq.Manager.Accounting.{
  IsAccounted, untrack_htlc-IsAccounted, track_accepted_htlc-IsAccounted, prune_expired-IsAccounted,
}
unfoldable use rust_tap.Rfq.Manager.Accounting.{held}
unfoldable use rust_tap.Rfq.Manager.Capped.{IsCapped}
use rust_tap.Rfq.Manager.Capped.{
  untrack_htlc-IsCapped, track_accepted_htlc-IsCapped, prune_expired-IsCapped,
}
use rust_tap.Rfq.Manager.Calls.{
  TracksSame-IsAccounted, QuotesSame-IsCapped, create_buy_same, create_sell_same,
  handle_reject_same, buy_request_same, sell_request_same, buy_request-IsCapped,
  sell_request-IsCapped, buy_accept_same, sell_accept_same, buy_accept-IsCapped,
  sell_accept-IsCapped,
}
unfoldable use rust_tap.Rfq.Manager.Runs.{run, IsUnsaturated, HasFreeId}
use rust_tap.Rfq.Manager.Runs.{Call, Reach, start, step, after}
use rust_tap.Rfq.Manager.Runs.{
  create_buy, create_sell, buy_request, sell_request, buy_accept, sell_accept, reject, admit,
  untrack, prune,
}

pub admit_htlc_parts :
    (m : QuoteManager) (quote_id htlc : Key) (amt : ℕ) (m' : QuoteManager)
    → admit_htlc m quote_id htlc amt ≡ ok m'
    → (check_htlc_amount m quote_id amt ≡ ok tt) × (track_accepted_htlc m quote_id htlc amt ≡ m')
unfolding admit_htlc
admit_htlc_parts m quote_id htlc amt m' e =
    let (_, checked, e₁) =
      bind_parts (check_htlc_amount m quote_id amt)
        (λ _. ok (track_accepted_htlc m quote_id htlc amt)) m' e in
    (checked, ok_injective e₁)

-- An HTLC is admitted with its check, or nothing changes.
admit_cases :
    (P : QuoteManager → Type 0) (m : QuoteManager) (quote_id htlc : Key) (amt : ℕ)
    → (check_htlc_amount m quote_id amt ≡ ok tt → P (track_accepted_htlc m quote_id htlc amt))
    → P m
    → P (after m (admit_htlc m quote_id htlc amt))
admit_cases P m quote_id htlc amt taken refused =
    elim (Result-cases (admit_htlc m quote_id htlc amt)) [
      | inl (m', e) ↦
          let (checked, same) = admit_htlc_parts m quote_id htlc amt m' e in
          rw e (subst P same (taken checked))
      | inr (fault, e) ↦ rw e refused
    ]

run-IsAccounted :
    (wire : AcceptWire) (c : Call) (m : QuoteManager)
    → IsUnsaturated m c
    → IsAccounted m
    → IsAccounted (run wire c m)
unfolding run IsUnsaturated
run-IsAccounted wire (create_buy asset max peer now draws) m p h =
    TracksSame-IsAccounted m _ (create_buy_same m asset max peer now draws).0 h
run-IsAccounted wire (create_sell asset max peer now draws) m p h =
    TracksSame-IsAccounted m _ (create_sell_same m asset max peer now draws).0 h
run-IsAccounted wire (buy_request request peer now lifetime) m p h =
    TracksSame-IsAccounted m _ (buy_request_same wire m request peer now lifetime) h
run-IsAccounted wire (sell_request request peer now lifetime) m p h =
    TracksSame-IsAccounted m _ (sell_request_same wire m request peer now lifetime) h
run-IsAccounted wire (buy_accept accept peer now) m p h =
    TracksSame-IsAccounted m _ (buy_accept_same m accept peer now) h
run-IsAccounted wire (sell_accept accept peer now) m p h =
    TracksSame-IsAccounted m _ (sell_accept_same m accept peer now) h
run-IsAccounted wire (reject r peer) m p h =
    TracksSame-IsAccounted m _ (handle_reject_same m r peer).0 h
run-IsAccounted wire (admit quote_id htlc amt) m p h =
    admit_cases IsAccounted m quote_id htlc amt
      (λ _. track_accepted_htlc-IsAccounted m quote_id htlc amt p h) h
run-IsAccounted wire (untrack htlc) m p h = untrack_htlc-IsAccounted m htlc h
run-IsAccounted wire (prune now) m p h = prune_expired-IsAccounted m now h

-- In every state that calls reach from a new manager, where every HTLC is admitted while the amounts
-- in use and its own stay below 2 ^ 64, no HTLC is tracked twice, and the amount in use that is
-- recorded for an id is the sum of the amounts of the HTLCs that are tracked against it.
pub Reach-IsAccounted :
    (wire : AcceptWire) (m : QuoteManager) → Reach wire IsUnsaturated m → IsAccounted m
unfolding new with_max_quotes_per_peer quote_used_msat held
Reach-IsAccounted wire m (start oracle limit) = record { keyed = tt; exact = λ id. refl }
Reach-IsAccounted wire m (step {m = q} r c p) =
    run-IsAccounted wire c q p (Reach-IsAccounted wire q r)

run-IsCapped :
    (wire : AcceptWire) (c : Call) (m : QuoteManager)
    → HasFreeId m c
    → IsCapped m
    → IsCapped (run wire c m)
unfolding run HasFreeId
run-IsCapped wire (create_buy asset max peer now draws) m p h =
    QuotesSame-IsCapped m _ (create_buy_same m asset max peer now draws).1 h
run-IsCapped wire (create_sell asset max peer now draws) m p h =
    QuotesSame-IsCapped m _ (create_sell_same m asset max peer now draws).1 h
run-IsCapped wire (buy_request request peer now lifetime) m p h =
    buy_request-IsCapped wire m request peer now lifetime p h
run-IsCapped wire (sell_request request peer now lifetime) m p h =
    sell_request-IsCapped wire m request peer now lifetime p h
run-IsCapped wire (buy_accept accept peer now) m p h = buy_accept-IsCapped m accept peer now p h
run-IsCapped wire (sell_accept accept peer now) m p h = sell_accept-IsCapped m accept peer now p h
run-IsCapped wire (reject r peer) m p h = QuotesSame-IsCapped m _ (handle_reject_same m r peer).1 h
run-IsCapped wire (admit quote_id htlc amt) m p h =
    admit_cases IsCapped m quote_id htlc amt
      (λ checked. track_accepted_htlc-IsCapped m quote_id htlc amt checked h) h
run-IsCapped wire (untrack htlc) m p h = untrack_htlc-IsCapped m htlc h
run-IsCapped wire (prune now) m p h = prune_expired-IsCapped m now h

-- In every state that calls reach from a new manager, where every request and accept that is handled
-- has an id under which there is no quote yet, no id has two quotes, and the amount in use under an id
-- is at most the maximum of its quote, and 0 if there is none.
pub Reach-IsCapped : (wire : AcceptWire) (m : QuoteManager) → Reach wire HasFreeId m → IsCapped m
unfolding new with_max_quotes_per_peer IsCapped get
Reach-IsCapped wire m (start oracle limit) = record {
  keyed_buy = tt;
  keyed_sell = tt;
  disjoint = λ id. refl;
  within = λ id. omega arith;
}
Reach-IsCapped wire m (step {m = q} r c p) = run-IsCapped wire c q p (Reach-IsCapped wire q r)
