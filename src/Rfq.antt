-- ===== src/Rfq.antt =====
-- tap-ldk/src/rfq: requests for quotes, their arithmetic and the quotes that are held.
pub mod FixedPoint
pub mod Keyed
pub mod Manager
pub mod Intercept
