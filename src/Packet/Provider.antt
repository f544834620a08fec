-- ===== src/Packet/Provider.antt =====
-- supabase/functions/_shared/geminiProvider.ts: the call of the model's provider, with its bounded
-- retries and the reading of its answer. `fetch`, the sleep and the clock are parameters; cancelling the
-- body of a response that is retried is left out.
pub mod Deadline
use oasis_supabase_core.Prelude.{
  ℕ, zero, suc, ◌+◌, ◌-◌, Bool, true, false, ◌&&◌, ◌||◌, not, Option, none, some, List, [], ◌∷◌,
  ◌++◌, Text, codes, text_eq, nonempty, trim, to_lower, starts_with, decimal, take, drop, length,
  get_elem?, leb, if◌then◌else◌,
}
use oasis_supabase_core.Prelude.Json.{Json, get, as_array, as_text}
use oasis_supabase_core.Prelude.Exec.{Exec, Result, ok, thrown}
use oasis_supabase_core.Interpret.{elements}
use oasis_supabase_core.Retry.{is_transient_http_status}
use oasis_supabase_core.OperatorReply.Dispatch.{is_ok_status}
use oasis_supabase_core.Packet.Answer.{GeminiRequest, is_record}

abbrev pub gemini_timeout_ms : ℕ
gemini_timeout_ms = 90000

abbrev pub gemini_max_attempts : ℕ
gemini_max_attempts = 3

unfoldable pub gemini_retry_delays_ms : List ℕ
gemini_retry_delays_ms = 750 ∷ 2000 ∷ []

-- the end of a text after its first `n` units
last_units : ℕ → Text → Text
last_units n s = drop (length s - n) s

without_json : Text → Text
without_json s = if text_eq (to_lower (take 4 s)) (codes "json") then drop 4 s else s

-- the regular expression takes three backticks from each end, and `json` after the first
unfoldable pub strip_optional_json_fence : Text → Text
unfolding last_units without_json
strip_optional_json_fence value =
    let trimmed = trim value in
    if leb 6 (length trimmed)
      && starts_with trimmed (codes "```")
      && text_eq (last_units 3 trimmed) (codes "```")
    then trim (without_json (take (length trimmed - 6) (drop 3 trimmed)))
    else trimmed

text_or_empty : Option Text → Text
text_or_empty none = []
text_or_empty (some s) = s

part_text : Json → Text
unfolding text_or_empty
part_text part = if is_record part then text_or_empty (as_text (get (codes "text") part)) else []

parts_text : List Json → Text
unfolding part_text
parts_text [] = []
parts_text (part ∷ parts) = part_text part ++ parts_text parts

first_of : List Json → Json
first_of [] = Json.undefined
first_of (v ∷ vs) = v

nonempty_answer : Text → Result Text
nonempty_answer [] = thrown (codes "INTERPRETER_EMPTY_RESPONSE")
nonempty_answer (c ∷ s) = ok (c ∷ s)

-- the text of the first candidate's parts
unfoldable pub parse_gemini_json_text : Json → Result Text
unfolding parts_text first_of nonempty_answer
parse_gemini_json_text payload =
    let candidate = first_of (elements (as_array (get (codes "candidates") payload))) in
    let content = get (codes "content") candidate in
    let text = trim (parts_text (elements (as_array (get (codes "parts") content)))) in
    if not (is_record payload)
    then thrown (codes "INTERPRETER_PROVIDER_MALFORMED")
    else if not (is_record candidate)
    then thrown (codes "INTERPRETER_EMPTY_RESPONSE")
    else if not (is_record content)
    then thrown (codes "INTERPRETER_PROVIDER_MALFORMED")
    else if not (nonempty text)
    then thrown (codes "INTERPRETER_EMPTY_RESPONSE")
    else nonempty_answer (strip_optional_json_fence text)

unfoldable pub is_transient_gemini_status : ℕ → Bool
is_transient_gemini_status status = is_transient_http_status status

-- How `fetch` ends; a body that is no JSON is none.
pub data Fetched : Type 0 where
  timed_out transport_failed : Fetched
  response : ℕ → Option Json → Fetched

pub record ProviderDeps (S : Type 0) : Type 0 where
  pub fetch : GeminiRequest → ℕ → S → Fetched × S
  pub sleep : ℕ → S → S
  pub now : S → ℕ × S

unfoldable pub provider_error : ℕ → Text
provider_error status = codes "INTERPRETER_PROVIDER_" ++ decimal status

-- the error of the last transient status, or another
unfoldable pub last_error : Text → Option ℕ → Text
last_error other none = other
last_error other (some status) = provider_error status

read_body : Option Json → Result Text
read_body none = thrown (codes "INTERPRETER_PROVIDER_MALFORMED")
read_body (some payload) = parse_gemini_json_text payload

-- What an answer means: the call ends, or its status may be retried.
pub data Step : Type 0 where
  ended : Result Text → Step
  transient : ℕ → Step

unfoldable pub step_of : ℕ → Fetched → Step
unfolding read_body
step_of attempt timed_out = ended (thrown (codes "INTERPRETER_PROVIDER_TIMEOUT"))
step_of attempt transport_failed = ended (thrown (codes "INTERPRETER_PROVIDER_TRANSPORT"))
step_of attempt (response status body) =
    if is_ok_status status
    then ended (read_body body)
    else if not (is_transient_gemini_status status)
    then ended (thrown (provider_error status))
    else if leb (gemini_max_attempts - 1) attempt
    then ended (thrown (provider_error status))
    else transient status

some_or : ℕ → Option ℕ → ℕ
some_or d none = d
some_or d (some n) = n

-- the delay of an attempt, or the last one
unfoldable pub retry_delay : ℕ → ℕ
unfolding some_or
retry_delay attempt = some_or 2000 (get_elem? gemini_retry_delays_ms attempt)

module _ {S : Type 0} (deps : ProviderDeps S) (request : GeminiRequest) (started : ℕ) where
  -- what follows the answer of an attempt, where `again` is the next one
  unfoldable pub after_step : ℕ → Step → (ℕ → Exec S Text) → Exec S Text
  after_step attempt (ended r) again s = (r, s)
  after_step attempt (transient status) again s =
      let (time, s') = deps.now s in
      let retried = again status (deps.sleep (retry_delay attempt) s') in
      if leb (gemini_timeout_ms + started) (time + retry_delay attempt)
      then (thrown (provider_error status), s')
      else retried

  -- the loop: how many attempts are left, the number of this one, and the last transient status
  unfoldable pub gemini_attempts : ℕ → ℕ → Option ℕ → Exec S Text
  gemini_attempts zero attempt last s =
      (thrown (last_error (codes "INTERPRETER_PROVIDER_TRANSPORT") last), s)
  gemini_attempts (suc left) attempt last s =
      let (time, s') = deps.now s in
      let answer = deps.fetch request (gemini_timeout_ms + started - time) s' in
      let answered =
        after_step attempt (step_of attempt answer.0)
          (λ status. gemini_attempts left (suc attempt) (some status)) answer.1 in
      if leb (gemini_timeout_ms + started) time
      then (thrown (last_error (codes "INTERPRETER_PROVIDER_TIMEOUT") last), s')
      else answered

unfoldable pub call_gemini_generate_content :
    {S : Type 0} → ProviderDeps S → Text → GeminiRequest → Exec S Text
call_gemini_generate_content deps api_key request s =
    let (started, s') = deps.now s in
    let answer = gemini_attempts deps request started gemini_max_attempts 0 none s' in
    if nonempty api_key then answer else (thrown (codes "WORKER_NOT_CONFIGURED"), s)
