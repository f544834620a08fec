-- ===== src/Webhook.antt =====
-- The WhatsApp webhook's boundary: authentication, status decoding, isolation of inbound messages and
-- durable persistence (supabase/functions/_shared/whatsappWebhook*.ts and
-- supabase/functions/whatsapp-webhook/inboundPayloadUtils.ts).
pub mod Security
pub mod Statuses
pub mod Inbound
