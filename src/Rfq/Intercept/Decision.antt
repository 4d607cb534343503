-- ===== src/Rfq/Intercept/Decision.antt =====
-- The branches of the code that handles an intercepted asset HTLC.
use rust_tap.Common.{ℕ, ◌≡◌, refl, sym, ap, max, true, Option, none, some, [], ◌∷◌, ◌⊎◌, inl, inr}
use rust_tap.Common.{
  Result, ok, err, ensure, ok_or, ◌>>◌, Option-cases, Result-cases, bind_parts, ensure_parts,
  ok_or-ok, ok_injective, subst,
}
use rust_tap.Rfq.Keyed.{Key}
use rust_tap.Rfq.Manager.{
  QuoteManager, AcceptedQuote, RfqError, get_quote, is_valid, quote_not_found, quote_expired,
}
use rust_tap.Rfq.Manager.Tracking.{check_htlc_amount, track_accepted_htlc, admit_htlc}
use rust_tap.Rfq.Manager.Reachable.{admit_htlc_parts}
use rust_tap.Rfq.Intercept.{
  AssetHtlcData, LdkChannelOps, InterceptFault, Outcome, forward_call, fail_call, ldk_failed,
  missing_rfq_id, quote_invalid, conversion_failed, exceeds_max,
}
use rust_tap.Rfq.Intercept.{
  sum_balances, value_msat_of, default_on_chain_htlc_msat, release_if_failed,
}
unfoldable use rust_tap.Rfq.Intercept.{
  valid_quote, fail_back, forward_tracked, admit_value, convert_value, with_rfq_id, intercept_asset,
  handle_intercepted_htlc,
}

module _ (ldk : LdkChannelOps) where
  -- The HTLC was failed back: the quotes are as they were, and the answer is an error.
  pub record IsFailed (m : QuoteManager) (htlc : Key) (o : Outcome) : Type 0 where
    pub kept : o.rfq ≡ m
    pub called : o.calls ≡ fail_call htlc ∷ []
    pub fault : InterceptFault
    pub answered : o.answer ≡ err fault

  -- The HTLC was forwarded, after these tests.
  pub record IsRouted (m : QuoteManager) (asset_data : AssetHtlcData) (htlc : Key) (scid : ℕ)
      (node : Key) (now : ℕ) (o : Outcome) : Type 0 where
    pub id : Key
    pub quote : AcceptedQuote
    pub value_msat : ℕ
    pub named : asset_data.rfq_id ≡ some id
    pub quoted : get_quote m id ≡ some quote
    pub unexpired : is_valid quote now ≡ true
    pub valued : value_msat_of (sum_balances asset_data) quote ≡ ok value_msat
    pub fits : check_htlc_amount m id value_msat ≡ ok tt
    pub called :
        o.calls ≡ forward_call htlc scid node (max value_msat default_on_chain_htlc_msat) ∷ []
    pub tracked :
        o.rfq
        ≡ release_if_failed ldk (track_accepted_htlc m id htlc value_msat) htlc (
            ldk.forward_intercepted_htlc htlc scid node (max value_msat default_on_chain_htlc_msat))

  fail_back-IsFailed :
      (m : QuoteManager) (htlc : Key) (fault : InterceptFault)
      → IsFailed m htlc (fail_back ldk m htlc fault)
  unfolding fail_back
  fail_back-IsFailed m htlc fault = elim (Result-cases (ldk.fail_intercepted_htlc htlc)) [
    | inl (u, e) ↦ record {
      kept = refl;
      called = refl;
      fault = fault;
      answered = rw (fail_back, e) refl;
    }
    | inr (text, e) ↦ record {
      kept = refl;
      called = refl;
      fault = ldk_failed text;
      answered = rw (fail_back, e) refl;
    }
  ]

  valid_quote_parts :
      (m : QuoteManager) (id : Key) (now : ℕ) (quote : AcceptedQuote)
      → valid_quote m id now ≡ ok quote
      → (get_quote m id ≡ some quote) × (is_valid quote now ≡ true)
  unfolding valid_quote
  valid_quote_parts m id now quote e =
      let test : AcceptedQuote → Result AcceptedQuote RfqError =
        λ q. ensure (is_valid q now) (quote_expired id q.expiry now) >> ok q in
      let (q, found, e₁) = bind_parts (ok_or (get_quote m id) (quote_not_found id)) test quote e in
      let (valid, e₂) =
        ensure_parts (is_valid q now) (quote_expired id q.expiry now) (ok q) quote e₁ in
      subst (λ q. (get_quote m id ≡ some q) × (is_valid q now ≡ true)) (ok_injective e₂)
        (ok_or-ok (get_quote m id) (quote_not_found id) q found, valid)

  module _ (m : QuoteManager) (asset_data : AssetHtlcData) (htlc : Key) (scid : ℕ) (node : Key)
      (now : ℕ) where
    abbrev IsDecided : Outcome → Type 0
    IsDecided o = IsFailed m htlc o ⊎ IsRouted m asset_data htlc scid node now o

    admit_value-IsDecided :
        (id : Key) (quote : AcceptedQuote) (value_msat : ℕ)
        → asset_data.rfq_id ≡ some id
        → get_quote m id ≡ some quote
        → is_valid quote now ≡ true
        → value_msat_of (sum_balances asset_data) quote ≡ ok value_msat
        → IsDecided (admit_value ldk m id htlc scid node value_msat)
    unfolding admit_value forward_tracked
    admit_value-IsDecided id quote value_msat named quoted unexpired valued =
        elim (Result-cases (admit_htlc m id htlc value_msat)) [
          | inr (fault, e) ↦
              rw (admit_value, e) (inl (fail_back-IsFailed m htlc (exceeds_max fault)))
          | inl (m', e) ↦
              let (fits, same) = admit_htlc_parts m id htlc value_msat m' e in
              rw (admit_value, e)
                (inr (record {
                  id = id;
                  quote = quote;
                  value_msat = value_msat;
                  named = named;
                  quoted = quoted;
                  unexpired = unexpired;
                  valued = valued;
                  fits = fits;
                  called = refl;
                  tracked =
                      ap
                        (λ q. release_if_failed ldk q htlc (
                          ldk.forward_intercepted_htlc htlc scid node
                            (max value_msat default_on_chain_htlc_msat)))
                        (sym same);
                }))
        ]

    convert_value-IsDecided :
        (id : Key) (quote : AcceptedQuote)
        → asset_data.rfq_id ≡ some id
        → get_quote m id ≡ some quote
        → is_valid quote now ≡ true
        → IsDecided (convert_value ldk m id quote htlc scid node (sum_balances asset_data))
    unfolding convert_value
    convert_value-IsDecided id quote named quoted unexpired =
        elim (Result-cases (value_msat_of (sum_balances asset_data) quote)) [
          | inr (fault, e) ↦
              rw (convert_value, e) (inl (fail_back-IsFailed m htlc (conversion_failed fault)))
          | inl (v, e) ↦
              rw (convert_value, e) (admit_value-IsDecided id quote v named quoted unexpired e)
        ]

    with_rfq_id-IsDecided :
        (id : Key)
        → asset_data.rfq_id ≡ some id
        → IsDecided (with_rfq_id ldk m id htlc scid node (sum_balances asset_data) now)
    unfolding with_rfq_id
    with_rfq_id-IsDecided id named = elim (Result-cases (valid_quote m id now)) [
      | inr (fault, e) ↦ rw (with_rfq_id, e) (inl (fail_back-IsFailed m htlc (quote_invalid fault)))
      | inl (quote, e) ↦
          let (quoted, unexpired) = valid_quote_parts m id now quote e in
          rw (with_rfq_id, e) (convert_value-IsDecided id quote named quoted unexpired)
    ]

    intercept_asset-IsDecided : IsDecided (intercept_asset ldk m asset_data htlc scid node now)
    unfolding intercept_asset
    intercept_asset-IsDecided =
        let go : Option Key → Outcome = λ o. elim o [
          | none ↦ fail_back ldk m htlc missing_rfq_id
          | some id ↦ with_rfq_id ldk m id htlc scid node (sum_balances asset_data) now
        ] in
        elim (Option-cases asset_data.rfq_id) [
          | inl unnamed ↦
              subst IsDecided (sym (ap go unnamed)) (inl (fail_back-IsFailed m htlc missing_rfq_id))
          | inr (id, named) ↦ subst IsDecided (sym (ap go named)) (with_rfq_id-IsDecided id named)
        ]

  -- Either branch of the handler, with what its tests have found.
  pub handle_intercepted_htlc-IsDecided :
      (m : QuoteManager) (asset_data : AssetHtlcData) (htlc : Key) (scid : ℕ) (node : Key)
      (amt_msat now : ℕ)
      → IsFailed m htlc
          (handle_intercepted_htlc ldk m (some asset_data) htlc scid node amt_msat now)
        ⊎ IsRouted m asset_data htlc scid node now
            (handle_intercepted_htlc ldk m (some asset_data) htlc scid node amt_msat now)
  unfolding handle_intercepted_htlc
  handle_intercepted_htlc-IsDecided m asset_data htlc scid node amt_msat now =
      intercept_asset-IsDecided m asset_data htlc scid node now
