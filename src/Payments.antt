-- ===== src/Payments.antt =====
-- The payments app: payment records, the gateway webhook, initiation and reconciliation.
pub mod Records
pub mod Webhook
pub mod Reconcile
pub mod Initiate
pub mod Json
pub mod Paymob
pub mod Views
mod Tests
