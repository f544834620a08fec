-- ===== src/Media.antt =====
-- supabase/functions/_shared/whatsappGovernedMediaFetch.ts: the download of a medium. The URL parser,
-- `fetch`, `Number` of a header and the lower-case function are parameters; the body of a response is the
-- finite list of what its reader gives.
pub mod Governed
mod Tests
use oasis_supabase_core.Prelude.{
  ℕ, ◌+◌, ◌-◌, min, max, Bool, true, false, ◌&&◌, ◌||◌, not, Option, none, some, List, [], ◌∷◌,
  ◌++◌, Text, codes, text_eq, nonempty, any, trim, distinct, decimal, take, drop, length, ltb, leb,
  ◌==◌, if◌then◌else◌,
}
use oasis_supabase_core.Prelude.Exec.{Exec, Result, ok, thrown, continue}
use oasis_supabase_core.OperatorReply.Dispatch.{is_ok_status}
use oasis_supabase_core.Packet.Content.{Media}

unfoldable pub default_host_suffixes : List Text
default_host_suffixes = codes "click2api.in" ∷ codes "lookaside.fbsbx.com" ∷ []

abbrev pub default_media_fetch_timeout_ms : ℕ
default_media_fetch_timeout_ms = 20000

pub record Url : Type 0 where
  pub href : Text
  pub protocol : Text
  pub username : Text
  pub password : Text
  pub hostname : Text

pub record ProviderHeaders : Type 0 where
  pub apikey : Option Text
  pub authorization : Option Text

-- What a reader gives: chunks, then the end or an error.
pub data Stream : Type 0 where
  ended : Stream
  broken : Text → Stream
  chunk : List ℕ → Stream → Stream

pub data Fetched : Type 0 where
  fetch_failed : Text → Fetched
  response : ℕ → Option Text → Option Text → Option Stream → Fetched

-- The environment's variables are empty texts where they are not set. `number` is the least whole number
-- that is not below the value of a header, where that is finite.
pub record MediaDeps (S : Type 0) : Type 0 where
  pub parse_url : Text → Option Url
  pub to_lower_case : Text → Text
  pub number : Option Text → Option ℕ
  pub supabase_url : Text
  pub allowed_hosts : Text
  pub api_key : Text
  pub access_token : Text
  pub fetch : Url → ProviderHeaders → ℕ → S → Fetched × S

unfoldable pub ends_with : Text → Text → Bool
ends_with s suffix =
    leb (length suffix) (length s) && text_eq (drop (length s - length suffix) s) suffix

-- `replace(/\.$/, "")`
without_last_dot : Text → Text
unfolding ends_with
without_last_dot s = if ends_with s (codes ".") then take (length s - 1) s else s

-- `replace(/^\.+/, "")`
without_first_dots : Text → Text
without_first_dots [] = []
without_first_dots (c ∷ s) = let rest = without_first_dots s in if c == b'.' then rest else c ∷ s

-- `split(",")`
split_commas : Text → List Text
split_commas [] = [] ∷ []
split_commas (c ∷ s) = if c == b',' then [] ∷ split_commas s else onto c (split_commas s)
  where
    onto : ℕ → List Text → List Text
    onto c [] = (c ∷ []) ∷ []
    onto c (part ∷ parts) = (c ∷ part) ∷ parts

present_hosts : (Text → Text) → List Text → List Text
unfolding without_first_dots
present_hosts to_lower_case [] = []
present_hosts to_lower_case (h ∷ hs) =
    let host = without_first_dots (to_lower_case (trim h)) in
    let rest = present_hosts to_lower_case hs in if nonempty host then host ∷ rest else rest

host_or_none : (Text → Text) → Option Url → List Text
unfolding without_last_dot
host_or_none to_lower_case none = []
host_or_none to_lower_case (some url) =
    let host = without_last_dot (to_lower_case url.hostname) in
    if nonempty host then host ∷ [] else []

-- the host, or a subdomain of it, is listed
unfoldable pub is_listed : List Text → Text → Bool
is_listed suffixes hostname =
    any (λ suffix. text_eq hostname suffix || ends_with hostname (b'.' ∷ suffix)) suffixes

unfoldable pub read_chunks : ℕ → ℕ → List ℕ → Stream → Result (List ℕ)
read_chunks max_bytes total bytes ended =
    if total == 0 then thrown (codes "EMPTY_MEDIA") else ok bytes
read_chunks max_bytes total bytes (broken message) = thrown message
read_chunks max_bytes total bytes (chunk [] rest) = read_chunks max_bytes total bytes rest
read_chunks max_bytes total bytes (chunk (b ∷ bs) rest) =
    let more = read_chunks max_bytes (total + length (b ∷ bs)) (bytes ++ b ∷ bs) rest in
    if ltb max_bytes (total + length (b ∷ bs)) then thrown (codes "MEDIA_TOO_LARGE") else more

unfoldable pub read_bounded_response_body : ℕ → Option Stream → Result (List ℕ)
read_bounded_response_body max_bytes none = thrown (codes "EMPTY_MEDIA")
read_bounded_response_body max_bytes (some stream) = read_chunks max_bytes 0 [] stream

some_nonempty : Text → Option Text
some_nonempty [] = none
some_nonempty (c ∷ s) = some (c ∷ s)

bearer : Text → Option Text
bearer [] = none
bearer (c ∷ s) = some (codes "Bearer " ++ (c ∷ s))

before_semicolon : Text → Text
before_semicolon [] = []
before_semicolon (c ∷ s) = let rest = before_semicolon s in if c == b';' then [] else c ∷ rest

or_octets : Option Text → Text
or_octets none = codes "application/octet-stream"
or_octets (some []) = codes "application/octet-stream"
or_octets (some (c ∷ s)) = c ∷ s

is_above : Option ℕ → ℕ → Bool
is_above none max_bytes = false
is_above (some n) max_bytes = ltb max_bytes n

with_bytes : Text → Result (List ℕ) → Result Media
with_bytes mime (ok bytes) = ok (record { bytes = bytes; mime = mime })
with_bytes mime (thrown message) = thrown message

module _ {S : Type 0} (deps : MediaDeps S) where
  open deps use {
    parse_url, to_lower_case, number, supabase_url, allowed_hosts, api_key, access_token,
  }

  unfoldable pub configured_host_suffixes : List Text
  unfolding host_or_none present_hosts split_commas
  configured_host_suffixes = distinct [] (
      default_host_suffixes
      ++ (host_or_none to_lower_case (parse_url supabase_url)
          ++ present_hosts to_lower_case (split_commas allowed_hosts)))

  checked_url : Option Url → Result Url
  unfolding without_last_dot
  checked_url none = thrown (codes "MEDIA_URL_INVALID")
  checked_url (some url) =
      if not (text_eq url.protocol (codes "https:"))
      then thrown (codes "MEDIA_URL_PROTOCOL_NOT_ALLOWED")
      else if nonempty url.username || nonempty url.password
      then thrown (codes "MEDIA_URL_CREDENTIALS_NOT_ALLOWED")
      else if is_listed configured_host_suffixes (without_last_dot (to_lower_case url.hostname))
      then ok url
      else thrown (codes "MEDIA_HOST_NOT_ALLOWED")

  unfoldable pub parse_governed_whatsapp_media_url : Text → Result Url
  unfolding checked_url
  parse_governed_whatsapp_media_url media_url = checked_url (parse_url media_url)

  unfoldable pub is_click2api_media_host : Text → Bool
  is_click2api_media_host hostname =
      let host = to_lower_case hostname in
      text_eq host (codes "click2api.in") || ends_with host (codes ".click2api.in")

  unfoldable pub headers_for : Text → ProviderHeaders
  unfolding some_nonempty bearer
  headers_for hostname =
      if is_click2api_media_host hostname
      then record { apikey = some_nonempty api_key; authorization = bearer access_token }
      else record { apikey = none; authorization = none }

  -- what follows the fetch
  unfoldable pub after_fetch : ℕ → Fetched → Result Media
  unfolding before_semicolon or_octets is_above with_bytes
  after_fetch max_bytes (fetch_failed message) = thrown message
  after_fetch max_bytes (response status content_length content_type body) =
      if leb 300 status && ltb status 400
      then thrown (codes "MEDIA_REDIRECT_NOT_ALLOWED")
      else if not (is_ok_status status)
      then thrown (codes "MEDIA_DOWNLOAD_" ++ decimal status)
      else if is_above (number content_length) max_bytes
      then thrown (codes "MEDIA_TOO_LARGE")
      else with_bytes (to_lower_case (trim (before_semicolon (or_octets content_type))))
          (read_bounded_response_body max_bytes body)

  -- the fetch, with its own check of the host, which keeps a last dot
  unfoldable pub fetch_validated : Url → ℕ → ℕ → Exec S Media
  fetch_validated url max_bytes timeout_ms s =
      let answer =
        deps.fetch url (headers_for url.hostname)
          (max 1 (min timeout_ms default_media_fetch_timeout_ms)) s in
      if not (is_listed configured_host_suffixes (to_lower_case url.hostname))
        || not (text_eq url.protocol (codes "https:"))
      then (thrown (codes "MEDIA_HOST_NOT_ALLOWED"), s)
      else (after_fetch max_bytes answer.0, answer.1)

  unfoldable pub download_governed_whatsapp_media : Text → ℕ → ℕ → Exec S Media
  download_governed_whatsapp_media media_url max_bytes timeout_ms s =
      continue (parse_governed_whatsapp_media_url media_url)
        (λ url. fetch_validated url max_bytes timeout_ms) s
