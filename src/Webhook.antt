-- ===== src/Webhook.antt =====
-- backend/src/webhook: the signature of an incoming webhook and the processing of its event.
pub mod Secrets
pub mod Processor
mod Tests
