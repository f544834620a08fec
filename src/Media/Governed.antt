-- ===== src/Media/Governed.antt =====
-- What a download asks for and what it returns.
use oasis_supabase_core.Prelude.{
  ℕ, ◌+◌, ◌≤◌, ◌<◌, ◌≡◌, refl, ap, subst, min, max, true, false, ◌&&◌, ◌||◌, not, Option, none,
  some, List, [], ◌∷◌, ◌++◌, Text, codes, text_eq, text_eq_iff, nonempty, length, length-append,
  ltb, leb, ◌==◌, arith, Bool-cases, ◌⊎◌, inl, inr,
}
use oasis_supabase_core.Prelude.Exec.{Result, ok, thrown, continue}
use oasis_supabase_core.OperatorReply.Dispatch.{is_ok_status}
use oasis_supabase_core.Packet.Content.{Media}
use oasis_supabase_core.Media.{
  Url, ProviderHeaders, Stream, ended, broken, chunk, Fetched, fetch_failed, response, MediaDeps,
  is_listed, read_chunks, read_bounded_response_body, configured_host_suffixes, checked_url,
  without_last_dot, parse_governed_whatsapp_media_url, is_click2api_media_host, headers_for,
  after_fetch, fetch_validated, download_governed_whatsapp_media, default_media_fetch_timeout_ms,
  is_above, with_bytes,
}

-- A call of `fetch`.
pub record Call : Type 0 where
  pub url : Url
  pub headers : ProviderHeaders
  pub timeout : ℕ

-- `fetch` with a log of its calls beside the store
abbrev pub logged : {S : Type 0} → MediaDeps S → MediaDeps (S × List Call)
logged deps = record {
  parse_url = deps.parse_url;
  to_lower_case = deps.to_lower_case;
  number = deps.number;
  supabase_url = deps.supabase_url;
  allowed_hosts = deps.allowed_hosts;
  api_key = deps.api_key;
  access_token = deps.access_token;
  fetch = λ url headers timeout s.
      let r = deps.fetch url headers timeout s.0 in
      (r.0, (r.1, s.1 ++ record { url = url; headers = headers; timeout = timeout } ∷ []));
}

abbrev pub no_headers : ProviderHeaders
no_headers = record { apikey = none; authorization = none }

-- A call goes over HTTPS, without credentials, to a listed host; the provider's keys go only to the
-- provider; and it ends in 20 seconds at most.
pub record IsGovernedCall {S : Type 0} (deps : MediaDeps S) (c : Call) : Type 0 where
  pub secure : c.url.protocol ≡ codes "https:"
  pub anonymous : (c.url.username ≡ []) × (c.url.password ≡ [])
  pub listed : is_listed (configured_host_suffixes deps) (deps.to_lower_case c.url.hostname) ≡ true
  pub keyed : (is_click2api_media_host deps c.url.hostname ≡ true) ⊎ (c.headers ≡ no_headers)
  pub timely : (1 ≤ c.timeout) × (c.timeout ≤ default_media_fetch_timeout_ms)

abbrev pub IsWithin : ℕ → Result Media → Type 0
IsWithin max_bytes (ok media) = (0 < length media.bytes) × (length media.bytes ≤ max_bytes)
IsWithin max_bytes (thrown message) = Unit

abbrev BytesWithin : ℕ → Result (List ℕ) → Type 0
BytesWithin max_bytes (ok bytes) = (0 < length bytes) × (length bytes ≤ max_bytes)
BytesWithin max_bytes (thrown message) = Unit

read_chunks-BytesWithin :
    (max_bytes total : ℕ) (bytes : List ℕ) (stream : Stream)
    → length bytes ≡ total
    → total ≤ max_bytes
    → BytesWithin max_bytes (read_chunks max_bytes total bytes stream)
unfolding read_chunks
read_chunks-BytesWithin max_bytes total bytes ended e small = elim (Bool-cases (total == 0)) [
  | inl nothing ↦ rw nothing tt
  | inr something ↦ rw something (ground arith, omega (arith, e, small))
]
read_chunks-BytesWithin max_bytes total bytes (broken message) e small = tt
read_chunks-BytesWithin max_bytes total bytes (chunk [] rest) e small =
    read_chunks-BytesWithin max_bytes total bytes rest e small
read_chunks-BytesWithin max_bytes total bytes (chunk (b ∷ bs) rest) e small =
    elim (Bool-cases (ltb max_bytes (total + length (b ∷ bs)))) [
      | inl large ↦ rw large tt
      | inr fits ↦ rw fits (
          read_chunks-BytesWithin max_bytes (total + length (b ∷ bs)) (bytes ++ b ∷ bs) rest
            (omega (arith, e, length-append bytes (b ∷ bs))) (ground arith))
    ]

read_body-BytesWithin :
    (max_bytes : ℕ) (body : Option Stream)
    → BytesWithin max_bytes (read_bounded_response_body max_bytes body)
unfolding read_bounded_response_body
read_body-BytesWithin max_bytes none = tt
read_body-BytesWithin max_bytes (some stream) =
    read_chunks-BytesWithin max_bytes 0 [] stream refl (omega arith)

abbrev IsSafe : Url → Type 0
IsSafe url = (url.protocol ≡ codes "https:") × (url.username ≡ []) × (url.password ≡ [])

nonempty-nil : (s : Text) → nonempty s ≡ false → s ≡ []
nonempty-nil [] e = refl
nonempty-nil (c ∷ s) e = cc

module _ {S : Type 0} (deps : MediaDeps S) where
  with_bytes-IsWithin :
      (max_bytes : ℕ) (mime : Text) (r : Result (List ℕ))
      → BytesWithin max_bytes r
      → IsWithin max_bytes (with_bytes mime r)
  unfolding with_bytes
  with_bytes-IsWithin max_bytes mime (ok bytes) h = h
  with_bytes-IsWithin max_bytes mime (thrown message) h = tt

  after_fetch-IsWithin :
      (max_bytes : ℕ) (fetched : Fetched) → IsWithin max_bytes (after_fetch deps max_bytes fetched)
  unfolding after_fetch
  after_fetch-IsWithin max_bytes (fetch_failed message) = tt
  after_fetch-IsWithin max_bytes (response status content_length content_type body) =
      elim (Bool-cases (leb 300 status && ltb status 400)) [
        | inl redirect ↦ rw redirect tt
        | inr direct ↦ elim (Bool-cases (is_ok_status status)) [
          | inr bad ↦ rw (direct, bad) tt
          | inl good ↦ elim (Bool-cases (is_above (deps.number content_length) max_bytes)) [
            | inl above ↦ rw (direct, good, above) tt
            | inr below ↦
                rw (direct, good, below)
                  (with_bytes-IsWithin max_bytes _ (read_bounded_response_body max_bytes body)
                    (read_body-BytesWithin max_bytes body))
          ]
        ]
      ]

  checked_url-IsSafe :
      (parsed : Option Url) (url : Url)
      → checked_url deps parsed ≡ ok url
      → (parsed ≡ some url) × IsSafe url
  unfolding checked_url
  checked_url-IsSafe none url e = absurd (ground arith)
  checked_url-IsSafe (some u) url e =
      let hosts = configured_host_suffixes deps in
      let host = without_last_dot (deps.to_lower_case u.hostname) in
      elim (Bool-cases (text_eq u.protocol (codes "https:"))) [
        | inr p ↦ absurd (ground arith)
        | inl p ↦ elim (Bool-cases (nonempty u.username || nonempty u.password)) [
          | inl c ↦ absurd (ground arith)
          | inr c ↦ elim (Bool-cases (is_listed hosts host)) [
            | inr h ↦ absurd (ground arith)
            | inl h ↦
                let same : u ≡ url = ground arith in
                (
                  ap some same,
                  subst IsSafe same (
                    (text_eq_iff u.protocol (codes "https:")).0 p,
                    nonempty-nil u.username (ground arith),
                    nonempty-nil u.password (ground arith),
                  ),
                )
          ]
        ]
      ]

  headers_for-keyed :
      (hostname : Text)
      → (is_click2api_media_host deps hostname ≡ true) ⊎ (headers_for deps hostname ≡ no_headers)
  unfolding headers_for
  headers_for-keyed hostname = elim (Bool-cases (is_click2api_media_host deps hostname)) [
    | inl provider ↦ inl provider
    | inr other ↦ rw other (inr refl)
  ]

-- What a download did: it called `fetch` at most once, for the URL that it was given, as governed.
abbrev pub IsGoverned :
    {S : Type 0} → MediaDeps S → Text → ℕ → List Call → Result Media × (S × List Call) → Type 0
IsGoverned deps media_url max_bytes log run =
    ((run.1.1 ≡ log)
      ⊎ ((c : Call) × (run.1.1 ≡ log ++ c ∷ [])
          × (deps.parse_url media_url ≡ some c.url)
          × IsGovernedCall deps c))
    × IsWithin max_bytes run.0

module _ {S : Type 0} (deps : MediaDeps S) (media_url : Text) (max_bytes timeout : ℕ) where
  fetch_validated-IsGoverned :
      (url : Url) (s : S) (log : List Call)
      → deps.parse_url media_url ≡ some url
      → IsSafe url
      → IsGoverned deps media_url max_bytes log
          (fetch_validated (logged deps) url max_bytes timeout (s, log))
  unfolding fetch_validated is_listed configured_host_suffixes headers_for is_click2api_media_host
  fetch_validated-IsGoverned url s log parsed (secure, username, password) =
      elim (Bool-cases (
        not (is_listed (configured_host_suffixes deps) (deps.to_lower_case url.hostname))
        || not (text_eq url.protocol (codes "https:")))) [
          | inl refused ↦ rw refused (inl refl, tt)
          | inr fine ↦
              let time = max 1 (min timeout default_media_fetch_timeout_ms) in
              let answer = deps.fetch url (headers_for deps url.hostname) time s in
              let call : Call = record {
                url = url;
                headers = headers_for deps url.hostname;
                timeout = time;
              } in
              let good : IsGovernedCall deps call = record {
                secure = secure;
                anonymous = (username, password);
                listed = ground arith;
                keyed = headers_for-keyed deps url.hostname;
                timely = (omega arith, omega arith);
              } in
              rw fine (
                inr (call, refl, parsed, good),
                after_fetch-IsWithin (logged deps) max_bytes answer.0,
              )
        ]

  continue-IsGoverned :
      (r : Result Url) (s : S) (log : List Call)
      → parse_governed_whatsapp_media_url deps media_url ≡ r
      → IsGoverned deps media_url max_bytes log
          (continue r (λ url t. fetch_validated (logged deps) url max_bytes timeout t) (s, log))
  unfolding parse_governed_whatsapp_media_url
  continue-IsGoverned (thrown message) s log e = (inl refl, tt)
  continue-IsGoverned (ok url) s log e =
      let (parsed, safe) = checked_url-IsSafe deps (deps.parse_url media_url) url e in
      fetch_validated-IsGoverned url s log parsed safe

  -- A download calls `fetch` at most once, for the URL that it was given: over HTTPS, without credentials
  -- in the URL, to a listed host or a subdomain of one, with the provider's keys only when the host is the
  -- provider's, and with a limit of 20 seconds at most. A medium that it returns is not empty and has no
  -- more bytes than asked for.
  pub download_governed_whatsapp_media-IsGoverned :
      (s : S) (log : List Call)
      → IsGoverned deps media_url max_bytes log
          (download_governed_whatsapp_media (logged deps) media_url max_bytes timeout (s, log))
  unfolding download_governed_whatsapp_media parse_governed_whatsapp_media_url fetch_validated
      configured_host_suffixes
  download_governed_whatsapp_media-IsGoverned s log =
      continue-IsGoverned (parse_governed_whatsapp_media_url deps media_url) s log refl
