-- ===== src/Rfq/Intercept/Tracked.antt =====
-- A new HTLC that is tracked, and one that is released again.
use rust_tap.Common.{ℕ, ◌+◌, ◌<◌, ◌^◌, ◌≡◌, refl, ◌∙◌, arith, false, none, some, inl, inr, subst}
use rust_tap.Common.{Bool-cases, bytes_eq, bytes_eq→eq}
use rust_tap.Rfq.Keyed.{Key, get, get-insert_key, get-insert_key_other, get-remove_key}
use rust_tap.Rfq.Manager.{QuoteManager, saturating_add}
use rust_tap.Rfq.Manager.Tracking.{release}
unfoldable use rust_tap.Rfq.Manager.Tracking.{track_accepted_htlc, untrack_htlc, quote_used_msat}
use rust_tap.Rfq.Manager.Accounting.{used_of-release_here, used_of-release_other}

module _ (m : QuoteManager) (id htlc : Key) (v : ℕ) (fresh : get htlc m.tracked_htlcs ≡ none)
    (small : quote_used_msat m id + v < 2 ^ 64) where
  pub track_entry : get htlc (track_accepted_htlc m id htlc v).tracked_htlcs ≡ some (id, v)
  unfolding track_accepted_htlc
  track_entry = get-insert_key htlc (id, v) (untrack_htlc m htlc).tracked_htlcs

  untrack_fresh : untrack_htlc m htlc ≡ m
  unfolding untrack_htlc
  untrack_fresh = rw (untrack_htlc, fresh) refl

  pub track_used : quote_used_msat (track_accepted_htlc m id htlc v) id ≡ quote_used_msat m id + v
  unfolding track_accepted_htlc quote_used_msat
  track_used =
      rw (untrack_fresh, get-insert_key id (saturating_add (quote_used_msat m id) v) m.used_msat)
        (omega (arith, small))

  track_used_other :
      (k : Key)
      → bytes_eq id k ≡ false
      → quote_used_msat (track_accepted_htlc m id htlc v) k ≡ quote_used_msat m k
  unfolding track_accepted_htlc quote_used_msat
  track_used_other k other =
      rw
        (
          untrack_fresh,
          get-insert_key_other id k (saturating_add (quote_used_msat m id) v) m.used_msat other,
        )
        refl

  pub untrack_track :
      let t = track_accepted_htlc m id htlc v in
      (get htlc (untrack_htlc t htlc).tracked_htlcs ≡ none)
      × ((k : Key) → quote_used_msat (untrack_htlc t htlc) k ≡ quote_used_msat m k)
  unfolding untrack_htlc quote_used_msat
  untrack_track =
      let t = track_accepted_htlc m id htlc v in
      rw (untrack_htlc, track_entry)
        (
          get-remove_key htlc t.tracked_htlcs,
          λ k. elim (Bool-cases (bytes_eq id k)) [
            | inl same ↦
                subst
                  (λ j.
                    quote_used_msat (record t { used_msat = release id v t.used_msat }) j
                    ≡ quote_used_msat m j)
                  (bytes_eq→eq id k same)
                  (used_of-release_here id v t.used_msat ∙ omega (arith, track_used))
            | inr other ↦ used_of-release_other k id v t.used_msat other ∙ track_used_other k other
          ],
        )
