-- ===== src/Packet.antt =====
-- supabase/functions/whatsapp-packet-ai-worker/index.ts: the messages of a packet, and the checks on
-- packets above the legacy size.
pub mod Content
pub mod Complete
pub mod Answer
pub mod Provider
pub mod Queue
pub mod Run
pub mod Request
pub mod Consumer
mod Tests
use oasis_supabase_core.Prelude.{
  ℕ, suc, ◌+◌, ◌-◌, Bool, true, false, ◌&&◌, ◌||◌, not, Option, none, some, List, [], ◌∷◌, ◌++◌,
  Text, codes, text_eq, nonempty, any, to_upper, list_contains, distinct, decimal, take, length,
  ltb, leb, ◌==◌, if◌then◌else◌,
}
use oasis_supabase_core.Prelude.Json.{Json, get}
use oasis_supabase_core.Prelude.Exec.{Result, ok, thrown}
use oasis_supabase_core.Interpret.{safe_string}

abbrev pub legacy_packet_messages : ℕ
legacy_packet_messages = 16

abbrev pub max_packet_messages : ℕ
max_packet_messages = 32

abbrev pub media_phase_budget_ms : ℕ
media_phase_budget_ms = 25000

abbrev pub max_image_bytes : ℕ
max_image_bytes = 8388608

abbrev pub max_media_bytes : ℕ
max_media_bytes = 15728640

abbrev pub max_packet_media_bytes : ℕ
max_packet_media_bytes = 25165824

unfoldable pub media_types : List Text
media_types = codes "image" ∷ codes "audio" ∷ codes "video" ∷ codes "document" ∷ []

image_mime : List Text
image_mime = codes "image/jpeg" ∷ codes "image/png" ∷ codes "image/webp" ∷ codes "image/gif" ∷ []

audio_mime : List Text
audio_mime =
    codes "audio/mpeg"
    ∷ codes "audio/mp3"
    ∷ codes "audio/mp4"
    ∷ codes "audio/x-m4a"
    ∷ codes "audio/ogg"
    ∷ codes "audio/wav"
    ∷ codes "audio/x-wav"
    ∷ codes "audio/webm"
    ∷ []

video_mime : List Text
video_mime = codes "video/mp4" ∷ codes "video/webm" ∷ codes "video/quicktime" ∷ []

-- `MIME_ALLOWLIST_BY_TYPE`
unfoldable pub mime_allowlist : Text → Option (List Text)
unfolding image_mime audio_mime video_mime
mime_allowlist type =
    if text_eq type (codes "image")
    then some image_mime
    else if text_eq type (codes "audio")
    then some audio_mime
    else if text_eq type (codes "video")
    then some video_mime
    else if text_eq type (codes "document")
    then some (codes "application/pdf" ∷ [])
    else none

check_mime : Text → Text → Option (List Text) → Result (Unit {0})
check_mime type mime none = ok tt
check_mime type mime (some allowed) =
    if list_contains allowed mime
    then ok tt
    else thrown (codes "UNSUPPORTED_" ++ (to_upper type ++ codes "_TYPE"))

unfoldable pub validate_mime : Text → Text → Result (Unit {0})
unfolding check_mime
validate_mime type mime = check_mime type mime (mime_allowlist type)

unfoldable pub max_bytes : Text → ℕ
max_bytes type = if text_eq type (codes "image") then max_image_bytes else max_media_bytes

pub record LoadedMessage : Type 0 where
  pub provider_message_id : Text
  pub content : Text
  pub message_type : Text
  pub media_url : Text
  pub timestamp : Text

unfoldable pub is_media : LoadedMessage → Bool
is_media m = list_contains media_types m.message_type

or_text : Text → Text → Text
or_text [] d = d
or_text (c ∷ s) d = c ∷ s

-- a row of `whatsapp_messages`, in its bounded form
unfoldable pub message_of : (Text → Text) → Json → LoadedMessage
unfolding or_text
message_of to_lower_case row = record {
  provider_message_id = safe_string (get (codes "provider_message_id") row) 240;
  content = safe_string (get (codes "content") row) 6000;
  message_type =
      or_text (to_lower_case (safe_string (get (codes "message_type") row) 40)) (codes "text");
  media_url = safe_string (get (codes "media_url") row) 5000;
  timestamp = safe_string (get (codes "message_timestamp") row) 80;
}

-- `.map(...).filter((row) => Boolean(row.providerMessageId))`
unfoldable pub messages_of : (Text → Text) → List Json → List LoadedMessage
messages_of to_lower_case [] = []
messages_of to_lower_case (row ∷ rows) =
    let rest = messages_of to_lower_case rows in
    let m = message_of to_lower_case row in
    if nonempty m.provider_message_id then m ∷ rest else rest

unfoldable pub assert_packet_message_count : ℕ → Result (Unit {0})
assert_packet_message_count n =
    if ltb max_packet_messages n then thrown (codes "INTERPRETATION_PACKET_TOO_LARGE") else ok tt

lacks_id : Json → Bool
lacks_id row = not (nonempty (safe_string (get (codes "provider_message_id") row) 240))

unfoldable pub assert_provider_ids_present : List Json → Result (Unit {0})
unfolding lacks_id
assert_provider_ids_present rows =
    if leb (length rows) legacy_packet_messages
    then ok tt
    else if any lacks_id rows
    then thrown (codes "PACKET_MESSAGE_ID_MISSING")
    else ok tt

-- `Map<string, number>`, with `get(id) ?? 0`
abbrev pub Counts : Type 0
Counts = Text → ℕ

unfoldable pub set_count : Counts → Text → ℕ → Counts
set_count counts id n = λ k. if text_eq k id then n else counts k

unfoldable pub count_processed : Counts → List Text → Counts
count_processed counts [] = counts
count_processed counts (id ∷ ids) = count_processed (set_count counts id (counts id + 1)) ids

unfoldable pub media_of : List LoadedMessage → List LoadedMessage
media_of [] = []
media_of (m ∷ ms) = let rest = media_of ms in if is_media m then m ∷ rest else rest

-- the filter whose test takes one from a count
unfoldable pub missing_from : Counts → List LoadedMessage → List LoadedMessage
missing_from counts [] = []
missing_from counts (m ∷ ms) =
    let lost = m ∷ missing_from counts ms in
    let found =
      missing_from (set_count counts m.provider_message_id (counts m.provider_message_id - 1)) ms in
    if counts m.provider_message_id == 0 then lost else found

unfoldable pub join : Text → List Text → Text
join sep [] = []
join sep (x ∷ []) = x
join sep (x ∷ y ∷ xs) = x ++ (sep ++ join sep (y ∷ xs))

with_reasons : Text → Text
with_reasons [] = []
with_reasons (c ∷ s) = codes " reasons=" ++ (c ∷ s)

incomplete : List LoadedMessage → List LoadedMessage → List Text → Text
incomplete missing media failures =
    codes "OVERSIZED_PACKET_MEDIA_INCOMPLETE:missing="
    ++ (decimal (length missing)
        ++ (b'/'
            ∷ (decimal (length media)
                ++ with_reasons (join (codes ",") (take 3 (distinct [] failures))))))

unfoldable pub assert_oversized_media_complete :
    List LoadedMessage → List Text → List Text → Result (Unit {0})
unfolding incomplete with_reasons join
assert_oversized_media_complete messages processed failures =
    if leb (length messages) legacy_packet_messages
    then ok tt
    else let media = media_of messages in
      let missing = missing_from (count_processed (λ id. 0) processed) media in
      if ltb 0 (length missing) then thrown (incomplete missing media failures) else ok tt
