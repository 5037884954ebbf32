-- ===== src/Webhook.antt =====
-- Outgoing webhooks: worker/src/security/ssrfGuard.js, worker/src/services/webhookRetryService.js and
-- worker/src/events/webhookDispatcher.js.
pub mod Guard
pub mod Retry
pub mod Dispatcher
mod Tests
