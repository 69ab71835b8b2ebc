-- ===== src/Representative.antt =====
-- The human representative: src/representative-core.ts, src/representative-store.ts and
-- src/representative-delivery-store.ts.
pub mod Ledger
pub mod Point
pub mod Delivery
pub mod Binding
pub mod Send
pub mod Read
pub mod Start
pub mod Push
