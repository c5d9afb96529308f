-- ===== src/Gateway.antt =====
-- evren-backend/app/routers/gateway.py: the OpenAI-compatible chat endpoint.
pub mod Response
pub mod World
pub mod Reserve
pub mod Finalize
pub mod Scanner
pub mod Charges
pub mod Chat
