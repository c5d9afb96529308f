-- ===== src/Tests.antt =====
-- Concrete inputs, and the theorems at them.
mod Samples
mod Billing
mod Ledgers
mod Guards
mod Periods
mod Requests
mod Accounts
mod Streams
mod Upstream
mod Chat
mod Images
mod Webhooks
mod SignIns
mod Tiers
mod Sessions
mod Signatures
mod Me
mod Exchange
mod Reports
