-- ===== src/OperatorReply.antt =====
-- The delivery of operator replies: provider status callbacks
-- (supabase/functions/_shared/whatsappOperatorReplyStatus.ts) and the dispatch of queued replies
-- (supabase/functions/_shared/whatsappOperatorReplyDispatch.ts).
pub mod Status
pub mod Delivery
pub mod Reconcile
pub mod Dispatch
