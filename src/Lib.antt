-- ===== src/Lib.antt =====
-- Verification of the messaging and integration core of oasis-supabase-core: the TypeScript that
-- its Supabase edge functions and front ends share, in `supabase/functions/_shared` and
-- `contracts/point23`.
--
-- How the parts interact. The WhatsApp webhook authenticates and parses a request (Webhook) and
-- hands the provider statuses that it finds to the status batch (OperatorReply.Delivery), which
-- records each in the database or quarantines it, and splits its messages (Webhook.Inbound). A
-- scheduled worker reconciles the quarantined statuses later (OperatorReply.Reconcile), and another
-- claims queued replies and dispatches them to the provider (OperatorReply.Dispatch). An inbound
-- message is attributed to a company through the governed resolver (Company). Messages are gathered
-- in packets; a worker leases a packet, has a model interpret it with its media, keeps of the
-- answer what cites the packet's messages (Interpret), and writes the case, the completion or the
-- retry (Packet). Sign-in by a verified phone goes through the session bridge (Bridge), and user
-- accounts are provisioned by an administrator (Provision), and financial ledgers are generated for
-- who is entitled (Ledger). The retry contract (Retry) bounds calls of integrations, and the
-- realtime contract (Realtime) decides what a subscriber may apply.
--
-- Which file models which part. A function of the source has its name here in lower case with
-- underscores.
--   Prelude: the shared names; lists and tests over the native numbers; strings (Strings), parsed
--     JSON (Json), signed integers (Int), and code that changes a store and may throw (Exec).
--   Retry: `executeWithBoundedRetry` of supabase/functions/_shared/integrationRetryContract.ts,
--     with its policy checks. Its clock, operation, classifier and sleep are the environment `Env`.
--   OperatorReply.Status, .Delivery and .Reconcile:
--     supabase/functions/_shared/whatsappOperatorReplyStatus.ts. The database client is the
--     record `Admin`, or `Ledger` for reconciliation, over any store.
--   OperatorReply.Dispatch: supabase/functions/_shared/whatsappOperatorReplyDispatch.ts and
--     whatsappProviderAcceptance.ts. The queue's RPCs and the call of the provider are the record
--     `Queue`.
--   Realtime: contracts/point23/realtimeChannelContract.ts: the governed contracts, the order of
--     versions (Versions) and the consumer's session (Session).
--   Webhook.Security and Webhook.Statuses: supabase/functions/_shared/whatsappWebhookSecurity.ts
--     and whatsappWebhookBoundary.ts. Webhook.Inbound:
--     supabase/functions/whatsapp-webhook/inboundPayloadUtils.ts.
--   Bridge and Bridge.Session: supabase/functions/_shared/msg91SessionBridge.ts.
--   Provision: supabase/functions/_shared/adminProvisionUser.ts.
--   Company: supabase/functions/_shared/wa-governance/resolveWebhookCompany.ts.
--   Interpret: supabase/functions/whatsapp-content-interpret/sanitize.ts, with the facts, lines and
--     corrections in Interpret.Conclusion.
--   Packet: supabase/functions/whatsapp-packet-ai-worker/index.ts: the messages and the checks on
--     large packets here, the request with its media (Content), the interpretation and its one
--     re-ask (Answer), the database calls (Queue, Queue.Calls), a run under a lease (Run) and the
--     HTTP request (Request). Consumer: whatsapp-packet-ai-consumer/index.ts beside it, which has
--     the worker take jobs until there is none. The client is the record `Admin`, the rest of the
--     worker's environment `WorkerDeps`. Packet.Provider:
--     supabase/functions/_shared/geminiProvider.ts.
--   Media: supabase/functions/_shared/whatsappGovernedMediaFetch.ts, which is the download that
--     Packet.Content is given.
--   Ledger: supabase/functions/_shared/financialLedgerAuthority.ts.
-- The other modules below these hold proofs, and each Tests module holds runs at concrete inputs.
--
-- How the source is rendered. A string is the list of its UTF-16 code units. Where the source
-- changes the case of a string only to compare it with ASCII words, the case mapping here covers
-- the units whose image is ASCII; elsewhere it is a parameter. An `await` is a step on the state of
-- the party that is called, so the calls stand in the source's order. A rejected promise is the
-- result `thrown` beside the state that was reached. JSON numbers are kept as the text that they
-- print as.
--
-- Parameters stand for what is not in this repository: the database client and its RPCs, SHA-256
-- and HMAC-SHA-256, `fetch`, `JSON.parse` and `JSON.stringify`, `Date.parse` and `Number` on a
-- string, `toLowerCase` where its result is kept, regular expressions that pick a name or a tax
-- number out of a message, the clock and the text encoder, the download of a medium, the system
-- prompt and base64. A law that a theorem needs of one is a named hypothesis: `IsHmac` (an HMAC of
-- 32 bytes) and `IsDirectory` (a list served in pages).
--
-- Loops and fuel. Loops over arrays are structural. The retry loop runs on the number of attempts
-- that its policy allows, the provider's loop on its three attempts, and a consumer on the number
-- of replies or jobs that it may take, as the source's loops do. Only the scan of the user list has no
-- bound in the source: it takes fuel, and one page more than there are users is enough.
--
-- Not modelled: the SQL migrations, the workflows and the shell and Python scripts around them; the
-- handlers that only wire these parts to HTTP; logging, message texts, the system prompt and the
-- response schema of the packet worker; the confidence of an interpretation, a float; the product
-- resolver of `supabase/functions/_shared/runtime` and the certification runners.
pub mod Prelude
pub mod Retry
pub mod OperatorReply
pub mod Realtime
pub mod Webhook
pub mod Bridge
pub mod Company
pub mod Provision
pub mod Interpret
pub mod Packet
pub mod Media
pub mod Ledger
