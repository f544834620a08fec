-- ===== src/Packet/Tests.antt =====
-- A photograph and texts, a provider that fails once, and a queue with one packet.
use oasis_supabase_core.Prelude.Json.{number}
use oasis_supabase_core.Packet.Consumer.Http.{
  verified, ConsumerDeps, ConsumerRequest, handle_consumer_request,
}
use oasis_supabase_core.Packet.Consumer.Authorized.{IsGuarded, handle_consumer_request-IsGuarded}
use oasis_supabase_core.Interpret.Conclusion.{sanitize_conclusion}
use oasis_supabase_core.Interpret.Conclusion.{sanitize_interpret_result}
use oasis_supabase_core.Interpret.{safe_string}
use oasis_supabase_core.Prelude.{to_upper}
use oasis_supabase_core.Packet.Answer.{allowed_intents}
use oasis_supabase_core.Packet.Answer.{sanitize_interpretation}
use oasis_supabase_core.Packet.Answer.{after_second}
use oasis_supabase_core.Packet.Answer.{has_lease_room}
use oasis_supabase_core.Packet.Answer.{is_recoverable}
use oasis_supabase_core.Packet.Answer.{read_json}
use oasis_supabase_core.Packet.Answer.{build_gemini_request}
use oasis_supabase_core.Packet.Answer.{attempt_interpretation}
use oasis_supabase_core.Packet.Answer.{after_first}
use oasis_supabase_core.Packet.Provider.{strip_optional_json_fence}
use oasis_supabase_core.Prelude.Json.{as_text}
use oasis_supabase_core.Prelude.{trim}
use oasis_supabase_core.Packet.{set_count}
use oasis_supabase_core.Packet.Content.{add_media}
use oasis_supabase_core.Packet.Content.{add_text}
use oasis_supabase_core.Packet.{count_processed}
use oasis_supabase_core.Packet.{missing_from}
use oasis_supabase_core.Packet.{assert_oversized_media_complete}
use oasis_supabase_core.Prelude.Json.{get}
use oasis_supabase_core.Prelude.Json.{as_array}
use oasis_supabase_core.Interpret.{elements}
use oasis_supabase_core.Packet.Answer.{is_record}
use oasis_supabase_core.Packet.Provider.{parse_gemini_json_text}
use oasis_supabase_core.Packet.Provider.{gemini_retry_delays_ms}
use oasis_supabase_core.Packet.Provider.{retry_delay}
use oasis_supabase_core.Retry.{is_transient_http_status}
use oasis_supabase_core.Packet.Provider.{is_transient_gemini_status}
use oasis_supabase_core.OperatorReply.Dispatch.{is_ok_status}
use oasis_supabase_core.Packet.Provider.{step_of}
use oasis_supabase_core.Packet.Provider.{after_step}
use oasis_supabase_core.Packet.Provider.{gemini_attempts}
use oasis_supabase_core.Packet.Content.{check_complete}
use oasis_supabase_core.Packet.Content.{no_content}
use oasis_supabase_core.Packet.{mime_allowlist}
use oasis_supabase_core.Packet.{validate_mime}
use oasis_supabase_core.Packet.Content.{after_mime}
use oasis_supabase_core.Packet.Content.{after_download}
use oasis_supabase_core.Packet.Content.{fetch_media}
use oasis_supabase_core.Packet.{media_types}
use oasis_supabase_core.Packet.{is_media}
use oasis_supabase_core.Packet.Content.{prepare_message}
use oasis_supabase_core.Packet.Content.{prepare_messages}
use oasis_supabase_core.Packet.Content.{prepare_from}
use oasis_supabase_core.Packet.Content.{format_knowledge_snapshot_context}
use oasis_supabase_core.Prelude.{
  ℕ, zero, suc, ◌+◌, ◌≤◌, ◌≡◌, refl, true, Option, none, some, List, [], ◌∷◌, ◌++◌, Text, codes,
  text_eq, length, ◌==◌, if◌then◌else◌, ◌⊎◌,
}
use oasis_supabase_core.Prelude.Int.{pos}
use oasis_supabase_core.Prelude.Json.{
  Json, null, boolean, string, array, object, field, end, cons, nil,
}
use oasis_supabase_core.Prelude.Exec.{Result, ok, thrown}
use oasis_supabase_core.OperatorReply.Delivery.{gives}
use oasis_supabase_core.Packet.{
  LoadedMessage, media_of, max_packet_media_bytes, legacy_packet_messages,
}
use oasis_supabase_core.Packet.Content.{
  KnowledgeSnapshot, ContentDeps, Prepared, Part, text_part, prepare_content,
}
use oasis_supabase_core.Packet.Complete.Prepare.{attached_bytes, attached_media, ids}
use oasis_supabase_core.Packet.Complete.Whole.{processed_media_ids-prepare_content}
use oasis_supabase_core.Packet.Answer.{GeminiRequest, AiAttemptDeps, interpret_with_recovery}
use oasis_supabase_core.Packet.Answer.Recovery.{
  IsBoundedRun, logged, interpret_with_recovery-IsBoundedRun,
}
use oasis_supabase_core.Packet.Provider.{
  response, ProviderDeps, call_gemini_generate_content, gemini_timeout_ms, gemini_max_attempts,
}
use oasis_supabase_core.Packet.Provider.Deadline.{Call, Calls, call_gemini_generate_content-Calls}
use oasis_supabase_core.Packet.Provider.Deadline as Deadline
use oasis_supabase_core.Packet.Queue.{Admin, DispatchLease, packet}
use oasis_supabase_core.Packet.Run.{WorkerDeps, run_lease, Answer}
use oasis_supabase_core.Packet.Run.Trace as Trace
use oasis_supabase_core.Packet.Run.Answered.{IsAnswered, run_lease-IsAnswered}

abbrev message : Text → Text → LoadedMessage
message id type = record {
  provider_message_id = id;
  content = codes "two boxes";
  message_type = type;
  media_url = codes "https://media";
  timestamp = [];
}

abbrev texts : ℕ → List LoadedMessage
texts zero = []
texts (suc n) = message (codes "t") (codes "text") ∷ texts n

-- above the legacy size, with one photograph
abbrev messages : List LoadedMessage
messages = message (codes "m1") (codes "image") ∷ texts 16

abbrev snapshot : KnowledgeSnapshot
snapshot = record {
  id = codes "k1";
  schema_version = codes "1";
  content_checksum = codes "c";
  knowledge = object end;
}

-- the store is a clock
abbrev content : ContentDeps ℕ
content = record {
  system_prompt = codes "p";
  stringify = λ v. codes "{}";
  download =
      λ url size time s. (ok (record { bytes = 1 ∷ 2 ∷ []; mime = codes "image/png" }), s + 1);
  now = λ s. (s, s);
}

abbrev no_request : Prepared
no_request = record {
  parts = [];
  warnings = [];
  processed_media_ids = [];
  failure_codes = [];
  packet_bytes = 0;
}

abbrev result_of : Result Prepared → Prepared
result_of (ok p) = p
result_of (thrown e) = no_request

abbrev prepared : Prepared
prepared = result_of (prepare_content content messages snapshot 0).0

prepared_ids : prepared.processed_media_ids ≡ codes "m1" ∷ []
unfolding prepare_content format_knowledge_snapshot_context codes prepare_from prepare_messages
    prepare_message is_media media_types text_eq fetch_media after_download after_mime validate_mime
    mime_allowlist no_content check_complete assert_oversized_media_complete missing_from media_of
    count_processed add_text add_media set_count
prepared_ids = refl

processed_media_ids-prepare_content_example :
    (attached_bytes prepared.parts ≤ max_packet_media_bytes)
    × (attached_media prepared.parts ≡ length prepared.processed_media_ids)
    × ((length messages ≤ legacy_packet_messages)
        ⊎ (prepared.processed_media_ids ≡ ids (media_of messages)))
unfolding prepare_content format_knowledge_snapshot_context codes prepare_from prepare_messages
    prepare_message is_media media_types text_eq fetch_media after_download after_mime validate_mime
    mime_allowlist no_content check_complete assert_oversized_media_complete missing_from media_of
    count_processed add_text add_media set_count
processed_media_ids-prepare_content_example =
    processed_media_ids-prepare_content content messages snapshot 0 prepared refl

abbrev answer : Json
answer = object (
    field (codes "conclusion")
      (object (
        field (codes "intent") (string (codes "ENQUIRY")) (
          field (codes "summary") (string (codes "s"))
            (field (codes "recommended_action") (string (codes "a")) end))))
      end)

abbrev parse : Text → Option Json
parse text = if text_eq text (codes "{}") then some answer else none

-- the first answer is no JSON
abbrev ai : AiAttemptDeps ℕ
ai = record {
  generate = λ request s. (ok (if s == 0 then codes "x" else codes "{}"), s + 1);
  parse_json = parse;
  now = λ s. (s, s);
  lease_started_at = 0;
}

abbrev parts : List Part
parts = text_part (codes "q") ∷ []

interpret_with_recovery-IsBoundedRun_example :
    IsBoundedRun ai messages [] parts 0 []
      (interpret_with_recovery (logged ai) messages [] parts (0, []))
interpret_with_recovery-IsBoundedRun_example =
    interpret_with_recovery-IsBoundedRun ai messages [] parts 0 []

asked_twice_test : length (interpret_with_recovery (logged ai) messages [] parts (0, [])).1.1 ≡ 2
unfolding interpret_with_recovery after_first attempt_interpretation build_gemini_request read_json
    text_eq codes is_recoverable has_lease_room after_second sanitize_interpretation is_record get
    allowed_intents to_upper safe_string trim sanitize_interpret_result sanitize_conclusion
asked_twice_test = refl

abbrev candidate : Json
candidate = object (
    field (codes "candidates")
      (array (
        cons
          (object (
            field (codes "content")
              (object (
                field (codes "parts")
                  (array (cons (object (field (codes "text") (string (codes "{}")) end)) nil)) end))
              end))
          nil))
      end)

-- unavailable at first
abbrev provider : ProviderDeps ℕ
provider = record {
  fetch = λ request timeout s.
      (if s == 0 then response 503 none else response 200 (some candidate), s + 1);
  sleep = λ delay s. s + delay;
  now = λ s. (s, s);
}

abbrev request : GeminiRequest
request = record { parts = parts }

abbrev no_calls : List Call
no_calls = []

called : (call_gemini_generate_content provider (codes "k") request 0) ≡ (ok (codes "{}"), 752)
unfolding call_gemini_generate_content codes gemini_attempts after_step step_of is_ok_status
    is_transient_gemini_status is_transient_http_status retry_delay gemini_retry_delays_ms
    parse_gemini_json_text is_record elements as_array get text_eq trim as_text
    strip_optional_json_fence
called = refl

call_gemini_generate_content-Calls_example :
    (new : List Call) × ((call_gemini_generate_content
        (Deadline.logged provider)
        (codes "k")
        request
        (0, 0, no_calls)).1.2
      ≡ no_calls ++ new)
    × Calls (gemini_timeout_ms + (provider.now 0).0) gemini_max_attempts new
call_gemini_generate_content-Calls_example =
    call_gemini_generate_content-Calls provider (codes "k") request 0 0 no_calls

abbrev row : Json
row = object (
    field (codes "provider_message_id") (string (codes "m1"))
      (field (codes "content") (string (codes "hello")) end))

abbrev sixty_four : ℕ → Text
sixty_four zero = []
sixty_four (suc n) = b'a' ∷ sixty_four n

abbrev admin : Admin ℕ
admin = record {
  claim = λ id s. (gives null, s);
  continuation = λ id revision s. (gives null, s);
  job_state = λ id s. (gives null, s);
  packet_row = λ id s. (gives (object (field (codes "id") (string id) end)), s);
  packet_messages = λ id s. (gives (array (cons row nil)), s);
  case_messages = λ id s. (gives null, s);
  active_snapshot = λ s. (
    gives (
        object (
          field (codes "id") (string (codes "k")) (
            field (codes "schema_version") (string (codes "1")) (
              field (codes "content_checksum") (string (sixty_four 64))
                (field (codes "knowledge") (object end) end))))),
    s,
  );
  cached_interpretation = λ id fingerprint s. (gives null, s);
  complete_media = λ id fingerprint s. (gives tt, s);
  persist = λ args s. (gives (string (codes "i1")), s);
  materialize = λ args s. (
    gives (
        object (
          field (codes "case_id") (string (codes "c1"))
            (field (codes "case_type") (string (codes "enquiry")) end))),
    s,
  );
  govern = λ args s. (gives null, s);
  complete = λ args s. (gives (boolean true), s);
  retry = λ args s. (gives tt, s);
  to_lower_case = λ s. s;
  to_safe_integer = λ v. some (pos 1);
}

abbrev worker : WorkerDeps ℕ
worker = record {
  admin = admin;
  content = content;
  provider = provider;
  parse_json = parse;
  api_key = some (codes "k");
  sha256 = λ s. codes "f";
}

abbrev lease : DispatchLease
lease = record {
  id = codes "j";
  packet_id = codes "p";
  packet_revision = 1;
  lease_token = codes "t";
  execution_kind = packet;
  case_id = none;
  context_revision = none;
}

abbrev no_events : List Trace.Event
no_events = []

abbrev run : Answer × (ℕ × List Trace.Event)
run = run_lease (Trace.logged worker) 0 lease (0, no_events)

run_lease-IsAnswered_example : IsAnswered worker lease 0 no_events run.0 run.1.1
run_lease-IsAnswered_example = run_lease-IsAnswered worker lease 0 0 no_events

abbrev consumer : ConsumerDeps ℕ
consumer = record {
  worker = worker;
  verify_secret = λ candidate s. (ok (verified (boolean (text_eq candidate (codes "s")))), s);
  integer_of = λ n. if text_eq n (codes "2") then some (pos 2) else none;
}

abbrev consumer_request : ConsumerRequest
consumer_request = record {
  method = codes "POST";
  worker_secret = some (codes " s ");
  body = some (object (field (codes "max_jobs") (number (codes "2")) end));
  supabase_url = codes "u";
  service_role_key = codes "r";
}

handle_consumer_request-IsGuarded_example :
    IsGuarded consumer consumer_request 0 (handle_consumer_request consumer consumer_request 0)
handle_consumer_request-IsGuarded_example =
    handle_consumer_request-IsGuarded consumer consumer_request 0
