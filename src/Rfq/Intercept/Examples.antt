-- ===== src/Rfq/Intercept/Examples.antt =====
-- The theorem on intercepted HTLCs at a concrete input.
use rust_tap.Common.{ℕ, ◌≡◌, refl, none, some, [], ◌∷◌, ok, bytes_eq}
use rust_tap.Rfq.FixedPoint.{FixedPoint, units_to_milli_satoshi, pow10, checked_mul, try_u64}
use rust_tap.Rfq.Manager.{QuoteManager, PriceOracle, AcceptWire, with_max_quotes_per_peer}
use rust_tap.Rfq.Manager.Quotes.{handle_buy_request}
use rust_tap.Rfq.Intercept.{
  AssetHtlcData, LdkChannelOps, Outcome, handle_intercepted_htlc, forward_call, fail_call,
}

abbrev rate : FixedPoint
rate = record { coefficient = 100_000; scale = 0 }

abbrev oracle : PriceOracle
oracle = record { ask_price = λ id amount. ok rate; bid_price = λ id amount. ok rate }

abbrev wire : AcceptWire
wire = record { encode_buy_accept = λ a. ok []; encode_sell_accept = λ a. ok [] }

abbrev quoted : QuoteManager
quoted =
    (handle_buy_request wire (with_max_quotes_per_peer oracle 2)
      (record {
        buy_id = 1 ∷ [];
        buy_asset_id = 5 ∷ [];
        asset_max_amount = 3;
        buy_group_key = none;
        buy_expiry = 900;
        buy_rate_hint = none;
      })
      (9 ∷ []) 100 600).0

abbrev ldk : LdkChannelOps
ldk = record {
  forward_intercepted_htlc = λ htlc scid node amt. ok tt;
  fail_intercepted_htlc = λ htlc. ok tt;
}

abbrev units : ℕ → AssetHtlcData
units n = record {
  balances = record { balance_asset_id = 5 ∷ []; balance_amount = n } ∷ [];
  rfq_id = some (1 ∷ []);
}

abbrev intercepted : ℕ → Outcome
intercepted n = handle_intercepted_htlc ldk quoted (some (units n)) (7 ∷ []) 42 (8 ∷ []) 500 200

forwarded : (intercepted 3).calls ≡ forward_call (7 ∷ []) 42 (8 ∷ []) 3_000_000 ∷ []
unfolding handle_intercepted_htlc handle_buy_request with_max_quotes_per_peer bytes_eq
    units_to_milli_satoshi pow10 checked_mul try_u64
forwarded = refl

too_many : (intercepted 4).calls ≡ fail_call (7 ∷ []) ∷ []
unfolding handle_intercepted_htlc handle_buy_request with_max_quotes_per_peer bytes_eq
    units_to_milli_satoshi pow10 checked_mul try_u64
too_many = refl
