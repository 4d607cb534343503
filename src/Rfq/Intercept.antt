-- ===== src/Rfq/Intercept.antt =====
-- tap-ldk/src/ldk/mod.rs: what becomes of an intercepted HTLC.
pub mod Decision
pub mod Tracked
pub mod Outcomes
mod Examples
use rust_tap.Common.{ℕ, ◌+◌, ◌%◌, ◌^◌, max, Bool, true, false, Option, none, some, List, [], ◌∷◌}
use rust_tap.Common.{Result, ok, err, ensure, ok_or, ◌>>=◌, ◌>>◌, ◌==◌, if◌then◌else◌}
use rust_tap.Rfq.FixedPoint.{FixedPointError}
unfoldable use rust_tap.Rfq.FixedPoint.{units_to_milli_satoshi}
use rust_tap.Rfq.Keyed.{Key}
use rust_tap.Rfq.Manager.{QuoteManager, AcceptedQuote, RfqError, quote_not_found, quote_expired}
unfoldable use rust_tap.Rfq.Manager.{get_quote, is_valid}
unfoldable use rust_tap.Rfq.Manager.Tracking.{admit_htlc, untrack_htlc}

abbrev pub default_on_chain_htlc_msat : ℕ
default_on_chain_htlc_msat = 354_000

pub record AssetBalance : Type 0 where
  pub balance_asset_id : Key
  pub balance_amount : ℕ

pub record AssetHtlcData : Type 0 where
  pub balances : List AssetBalance
  pub rfq_id : Option Key

abbrev pub add_balances : List AssetBalance → ℕ
add_balances [] = 0
add_balances (b ∷ rest) = b.balance_amount + add_balances rest

-- The sum of `u64`s wraps around in a release build.
unfoldable pub sum_balances : AssetHtlcData → ℕ
sum_balances data_of = add_balances data_of.balances % 2 ^ 64

-- The trait `LdkChannelOps`: what LDK answers to a call.
pub record LdkChannelOps : Type 0 where
  pub forward_intercepted_htlc : Key → ℕ → Key → ℕ → Result (Unit {0}) (List ℕ)
  pub fail_intercepted_htlc : Key → Result (Unit {0}) (List ℕ)

-- A call that was made to LDK.
pub data LdkCall : Type 0 where
  forward_call : Key → ℕ → Key → ℕ → LdkCall
  fail_call : Key → LdkCall

-- What the error string says.
pub data InterceptFault : Type 0 where
  ldk_failed : List ℕ → InterceptFault
  missing_rfq_id : InterceptFault
  quote_invalid : RfqError → InterceptFault
  conversion_failed : FixedPointError → InterceptFault
  exceeds_max : RfqError → InterceptFault

-- The quotes afterwards, the calls made, and the answer.
pub record Outcome : Type 0 where
  pub rfq : QuoteManager
  pub calls : List LdkCall
  pub answer : Result (Unit {0}) InterceptFault

unfoldable pub valid_quote : QuoteManager → Key → ℕ → Result AcceptedQuote RfqError
unfolding get_quote is_valid
valid_quote m id now = do
  quote ← ok_or (get_quote m id) (quote_not_found id)
  ensure (is_valid quote now) (quote_expired id quote.expiry now)
  ok quote

unfoldable pub value_msat_of : ℕ → AcceptedQuote → Result ℕ FixedPointError
value_msat_of asset_amount quote =
    if asset_amount == 0 then ok 0 else units_to_milli_satoshi asset_amount quote.rate

abbrev pub or_ldk_failed :
    Result (Unit {0}) (List ℕ) → Result (Unit {0}) InterceptFault → Result (Unit {0}) InterceptFault
or_ldk_failed (ok u) later = later
or_ldk_failed (err e) later = err (ldk_failed e)

module _ (ldk : LdkChannelOps) where
  -- The HTLC is failed, and the error returned.
  unfoldable pub fail_back : QuoteManager → Key → InterceptFault → Outcome
  fail_back m htlc fault = record {
    rfq = m;
    calls = fail_call htlc ∷ [];
    answer = or_ldk_failed (ldk.fail_intercepted_htlc htlc) (err fault);
  }

  abbrev pub release_if_failed : QuoteManager → Key → Result (Unit {0}) (List ℕ) → QuoteManager
  release_if_failed m htlc (ok u) = m
  release_if_failed m htlc (err e) = untrack_htlc m htlc

  -- The HTLC is tracked already: its amount is released if the forward fails.
  unfoldable pub forward_tracked : QuoteManager → Key → ℕ → Key → ℕ → Outcome
  unfolding untrack_htlc
  forward_tracked m htlc scid node amt = record {
    rfq = release_if_failed m htlc (ldk.forward_intercepted_htlc htlc scid node amt);
    calls = forward_call htlc scid node amt ∷ [];
    answer = or_ldk_failed (ldk.forward_intercepted_htlc htlc scid node amt) (ok tt);
  }

  unfoldable pub admit_value : QuoteManager → Key → Key → ℕ → Key → ℕ → Outcome
  unfolding admit_htlc fail_back forward_tracked
  admit_value m id htlc scid node value_msat = elim (admit_htlc m id htlc value_msat) [
    | err e ↦ fail_back m htlc (exceeds_max e)
    | ok m' ↦ forward_tracked m' htlc scid node (max value_msat default_on_chain_htlc_msat)
  ]

  unfoldable pub convert_value : QuoteManager → Key → AcceptedQuote → Key → ℕ → Key → ℕ → Outcome
  unfolding value_msat_of fail_back admit_value
  convert_value m id quote htlc scid node asset_amount = elim (value_msat_of asset_amount quote) [
    | err e ↦ fail_back m htlc (conversion_failed e)
    | ok value_msat ↦ admit_value m id htlc scid node value_msat
  ]

  unfoldable pub with_rfq_id : QuoteManager → Key → Key → ℕ → Key → ℕ → ℕ → Outcome
  unfolding valid_quote fail_back convert_value
  with_rfq_id m id htlc scid node asset_amount now = elim (valid_quote m id now) [
    | err e ↦ fail_back m htlc (quote_invalid e)
    | ok quote ↦ convert_value m id quote htlc scid node asset_amount
  ]

  unfoldable pub intercept_asset : QuoteManager → AssetHtlcData → Key → ℕ → Key → ℕ → Outcome
  unfolding fail_back with_rfq_id sum_balances
  intercept_asset m asset_data htlc scid node now = elim asset_data.rfq_id [
    | none ↦ fail_back m htlc missing_rfq_id
    | some id ↦ with_rfq_id m id htlc scid node (sum_balances asset_data) now
  ]

  -- The custom records are given as what `AssetHtlcData::from_custom_tlvs` reads in them.
  unfoldable pub handle_intercepted_htlc :
      QuoteManager → Option AssetHtlcData → Key → ℕ → Key → ℕ → ℕ → Outcome
  unfolding intercept_asset
  handle_intercepted_htlc m none htlc scid node amt_msat now = record {
    rfq = m;
    calls = forward_call htlc scid node amt_msat ∷ [];
    answer = or_ldk_failed (ldk.forward_intercepted_htlc htlc scid node amt_msat) (ok tt);
  }
  handle_intercepted_htlc m (some asset_data) htlc scid node amt_msat now =
      intercept_asset m asset_data htlc scid node now
