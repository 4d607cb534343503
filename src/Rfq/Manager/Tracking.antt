-- ===== src/Rfq/Manager/Tracking.antt =====
-- tap-ldk/src/rfq/manager.rs: the amounts in flight against a quote, and the end of quotes; and the
-- lines of tap-ldk/src/ldk/mod.rs that admit an intercepted HTLC.
use rust_tap.Common.{ℕ, ◌-◌, Bool, ◌||◌, none, some}
use rust_tap.Common.{Result, ok, ensure, ok_or, ◌>>=◌, ◌>>◌, unwrap_or}
use rust_tap.Common.{ltb, leb, ◌==◌, if◌then◌else◌}
use rust_tap.Rfq.Keyed.{Key, Keyed}
unfoldable use rust_tap.Rfq.Keyed.{get, has_key, insert_key, remove_key, retain}
use rust_tap.Rfq.Manager.{
  QuoteManager, AcceptedQuote, PendingRequest, RfqError, quote_not_found, quote_amount_exceeded,
}
use rust_tap.Rfq.Manager.{default_quote_lifetime_secs, saturating_add, add_wrapping}
unfoldable use rust_tap.Rfq.Manager.{get_quote, is_valid}

unfoldable pub quote_used_msat : QuoteManager → Key → ℕ
unfolding get
quote_used_msat m id = unwrap_or (get id m.used_msat) 0

unfoldable pub check_htlc_amount : QuoteManager → Key → ℕ → Result (Unit {0}) RfqError
unfolding get_quote quote_used_msat
check_htlc_amount m id amt_msat = do
  quote ← ok_or (get_quote m id) (quote_not_found id)
  let current = quote_used_msat m id
  ensure (leb (saturating_add current amt_msat) quote.max_amount_msat)
      (quote_amount_exceeded id current amt_msat quote.max_amount_msat)

-- The `if let` on the entry of the quote.
unfoldable pub release : Key → ℕ → Keyed ℕ → Keyed ℕ
unfolding get insert_key remove_key
release quote_id amt_msat used = elim (get quote_id used) [
  | none ↦ used
  | some u ↦
      if u - amt_msat == 0
      then remove_key quote_id used
      else insert_key quote_id (u - amt_msat) used
]

unfoldable pub untrack_htlc : QuoteManager → Key → QuoteManager
unfolding get remove_key release
untrack_htlc m htlc_id = elim (get htlc_id m.tracked_htlcs) [
  | none ↦ m
  | some entry ↦ record m {
    tracked_htlcs = remove_key htlc_id m.tracked_htlcs;
    used_msat = release entry.0 entry.1 m.used_msat;
  }
]

unfoldable pub track_accepted_htlc : QuoteManager → Key → Key → ℕ → QuoteManager
unfolding untrack_htlc insert_key quote_used_msat
track_accepted_htlc m quote_id htlc_id amt_msat =
    let cleared = untrack_htlc m htlc_id in
    record cleared {
      tracked_htlcs = insert_key htlc_id (quote_id, amt_msat) cleared.tracked_htlcs;
      used_msat =
          insert_key quote_id (saturating_add (quote_used_msat cleared quote_id) amt_msat)
            cleared.used_msat;
    }

-- The check and the tracking under one lock: `handle_intercepted_htlc` of tap-ldk/src/ldk/mod.rs.
unfoldable pub admit_htlc : QuoteManager → Key → Key → ℕ → Result QuoteManager RfqError
unfolding check_htlc_amount track_accepted_htlc
admit_htlc m quote_id htlc_id amt_msat = do
  check_htlc_amount m quote_id amt_msat
  ok (track_accepted_htlc m quote_id htlc_id amt_msat)

abbrev pub is_quoted : Keyed AcceptedQuote → Keyed AcceptedQuote → Key → Bool
is_quoted buy sell id = has_key id buy || has_key id sell

unfoldable pub prune_expired : QuoteManager → ℕ → QuoteManager
unfolding retain has_key is_valid
prune_expired m now =
    let buy = retain (λ k q. is_valid q now) m.buy_quotes in
    let sell = retain (λ k q. is_valid q now) m.sell_quotes in
    record m {
      buy_quotes = buy;
      sell_quotes = sell;
      pending_requests =
          retain
            (λ k (p : PendingRequest).
              ltb now (add_wrapping p.created_at default_quote_lifetime_secs))
            m.pending_requests;
      tracked_htlcs = retain (λ k (entry : Key × ℕ). is_quoted buy sell entry.0) m.tracked_htlcs;
      used_msat = retain (λ k used. is_quoted buy sell k) m.used_msat;
    }
