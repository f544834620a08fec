-- ===== src/Packet/Content.antt =====
-- supabase/functions/whatsapp-packet-ai-worker/index.ts: the model request is prepared from the messages
-- of a packet. The system prompt, `JSON.stringify`, the download and the clock are parameters.
use oasis_supabase_core.Prelude.{
  ℕ, ◌+◌, ◌-◌, ◌&&◌, not, List, [], ◌∷◌, ◌++◌, Text, codes, text_eq, nonempty, length, ltb, leb,
  if◌then◌else◌,
}
use oasis_supabase_core.Prelude.Json.{Json}
use oasis_supabase_core.Prelude.Exec.{Exec, Result, ok, thrown, ◌>>=◌, continue, pure}
use oasis_supabase_core.Packet.{
  LoadedMessage, is_media, max_bytes, validate_mime, media_phase_budget_ms, max_packet_media_bytes,
  legacy_packet_messages, assert_oversized_media_complete,
}

pub record KnowledgeSnapshot : Type 0 where
  pub id : Text
  pub schema_version : Text
  pub content_checksum : Text
  pub knowledge : Json

pub record Media : Type 0 where
  pub bytes : List ℕ
  pub mime : Text

pub data Part : Type 0 where
  text_part : Text → Part
  inline_media_part : List ℕ → Text → Part

-- `download` takes the URL, the largest size and the time that is left.
pub record ContentDeps (S : Type 0) : Type 0 where
  pub system_prompt : Text
  pub stringify : Json → Text
  pub download : Text → ℕ → ℕ → Exec S Media
  pub now : S → ℕ × S

pub record Prepared : Type 0 where
  pub parts : List Part
  pub warnings : List Text
  pub processed_media_ids : List Text
  pub failure_codes : List Text
  pub packet_bytes : ℕ

abbrev pub max_knowledge_context_chars : ℕ
max_knowledge_context_chars = 12000

unfoldable pub format_knowledge_snapshot_context : (Json → Text) → KnowledgeSnapshot → Result Text
format_knowledge_snapshot_context stringify s =
    let json = stringify s.knowledge in
    if ltb max_knowledge_context_chars (length json)
    then thrown (codes "KNOWLEDGE_SNAPSHOT_CONTEXT_TOO_LARGE")
    else ok (
        codes "Governed intelligence knowledge snapshot\nschema_version="
        ++ (s.schema_version
            ++ (codes "\ncontent_checksum="
                ++ (s.content_checksum ++ (codes "\nknowledge=" ++ json)))))

time_label : Text → Text
time_label [] = []
time_label (c ∷ s) = codes " time=" ++ (c ∷ s)

unfoldable pub evidence_label : LoadedMessage → Text → Text
unfolding time_label
evidence_label m extra =
    codes "[evidence provider_message_id="
    ++ (m.provider_message_id
        ++ (codes " type=" ++ (m.message_type ++ (time_label m.timestamp ++ (extra ++ codes "]")))))

or_text : Text → Text → Text
or_text [] d = d
or_text (c ∷ s) d = c ∷ s

caption : Text → Text
caption [] = []
caption (c ∷ s) = codes "\nCAPTION: " ++ (c ∷ s)

labelled : LoadedMessage → Text → Text → Part
labelled m extra absent = text_part (evidence_label m extra ++ (b'\n' ∷ or_text m.content absent))

-- a message that is no medium
unfoldable pub add_text : LoadedMessage → Prepared → Prepared
unfolding labelled or_text
add_text m p = record p { parts = p.parts ++ labelled m [] (codes "[empty text]") ∷ [] }

unfoldable pub add_unavailable : LoadedMessage → Prepared → Prepared
unfolding labelled or_text
add_unavailable m p = record p {
  parts =
      p.parts ++ labelled m (codes " media_unavailable=true") (codes "[media unavailable]") ∷ [];
  warnings =
      p.warnings
      ++ (m.provider_message_id
          ++ (codes ": " ++ (m.message_type ++ codes " has no retrievable media URL")))
        ∷ [];
  failure_codes = p.failure_codes ++ codes "MEDIA_URL_MISSING" ∷ [];
}

-- the end of the `try` block
unfoldable pub add_media : LoadedMessage → Media → Prepared → Prepared
unfolding caption
add_media m media p = record p {
  parts =
      p.parts
      ++ text_part (evidence_label m [] ++ caption m.content)
        ∷ inline_media_part media.bytes media.mime
        ∷ [];
  processed_media_ids = p.processed_media_ids ++ m.provider_message_id ∷ [];
}

unfoldable pub add_failure : LoadedMessage → Text → Prepared → Prepared
unfolding labelled or_text
add_failure m code p = record p {
  parts =
      p.parts
      ++ labelled m (codes " media_processing_failed=true")
          (codes "[media could not be interpreted]")
        ∷ [];
  warnings = p.warnings ++ (m.provider_message_id ++ (codes ": " ++ code)) ∷ [];
  failure_codes = p.failure_codes ++ code ∷ [];
}

-- the `catch` block, where `total` is the number of messages
unfoldable pub on_media_error : ℕ → LoadedMessage → Text → Prepared → Result Prepared
on_media_error total m code p =
    if text_eq code (codes "PACKET_MEDIA_TOO_LARGE") && ltb legacy_packet_messages total
    then thrown code
    else ok (add_failure m code p)

-- what follows the check of the media type; the bytes are counted before their limit is tested
unfoldable pub after_mime :
    ℕ → LoadedMessage → Media → Prepared → Result (Unit {0}) → Result Prepared
after_mime total m media p (thrown code) = on_media_error total m code p
after_mime total m media p (ok u) =
    let counted = record p { packet_bytes = p.packet_bytes + length media.bytes } in
    if ltb max_packet_media_bytes (p.packet_bytes + length media.bytes)
    then on_media_error total m (codes "PACKET_MEDIA_TOO_LARGE") counted
    else ok (add_media m media counted)

unfoldable pub after_download : ℕ → LoadedMessage → Prepared → Result Media → Result Prepared
after_download total m p (thrown code) = on_media_error total m code p
after_download total m p (ok media) =
    after_mime total m media p (validate_mime m.message_type media.mime)

unfoldable pub no_content : Text → Prepared
no_content prompt = record {
  parts = text_part prompt ∷ [];
  warnings = [];
  processed_media_ids = [];
  failure_codes = [];
  packet_bytes = 0;
}

module _ {S : Type 0} (deps : ContentDeps S) where
  -- `started` is the clock at the start of the media phase
  unfoldable pub fetch_media : ℕ → ℕ → LoadedMessage → Prepared → Exec S Prepared
  fetch_media started total m p s =
      let (time, s') = deps.now s in
      let answer =
        deps.download m.media_url (max_bytes m.message_type)
          (media_phase_budget_ms + started - time) s' in
      if leb (media_phase_budget_ms + started) time
      then (on_media_error total m (codes "MEDIA_PHASE_BUDGET_EXCEEDED") p, s')
      else (after_download total m p answer.0, answer.1)

  -- the body of the loop
  unfoldable pub prepare_message : ℕ → ℕ → LoadedMessage → Prepared → Exec S Prepared
  prepare_message started total m p s =
      let fetched = fetch_media started total m p s in
      if not (is_media m)
      then (ok (add_text m p), s)
      else if not (nonempty m.media_url)
      then (ok (add_unavailable m p), s)
      else fetched

  unfoldable pub prepare_messages : ℕ → ℕ → List LoadedMessage → Prepared → Exec S Prepared
  prepare_messages started total [] p = pure p
  prepare_messages started total (m ∷ ms) p =
      prepare_message started total m p >>= λ p'. prepare_messages started total ms p'

  unfoldable pub check_complete : List LoadedMessage → Prepared → Exec S Prepared
  check_complete messages p s =
      continue (assert_oversized_media_complete messages p.processed_media_ids p.failure_codes)
        (λ u. pure p) s

  unfoldable pub prepare_from : List LoadedMessage → Text → Exec S Prepared
  prepare_from messages context s =
      let (started, s') = deps.now s in
      (prepare_messages started (length messages) messages
            (no_content (deps.system_prompt ++ (codes "\n\n" ++ context)))
          >>= λ p. check_complete messages p)
        s'

  unfoldable pub prepare_content : List LoadedMessage → KnowledgeSnapshot → Exec S Prepared
  prepare_content messages snapshot s =
      continue (format_knowledge_snapshot_context deps.stringify snapshot)
        (λ context. prepare_from messages context) s
