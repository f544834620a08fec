-- ===== src/Media/Tests.antt =====
-- A medium of the provider's host in two chunks, one that is too large, and a host with a last dot.
use oasis_supabase_core.Prelude.{trim}
use oasis_supabase_core.OperatorReply.Dispatch.{is_ok_status}
use oasis_supabase_core.Media.{after_fetch}
use oasis_supabase_core.Media.{fetch_validated}
use oasis_supabase_core.Media.{default_host_suffixes}
use oasis_supabase_core.Prelude.{distinct}
use oasis_supabase_core.Media.{configured_host_suffixes}
use oasis_supabase_core.Media.{is_listed}
use oasis_supabase_core.Media.{parse_governed_whatsapp_media_url}
use oasis_supabase_core.Media.{read_chunks}
use oasis_supabase_core.Prelude.{ℕ, ◌+◌, ◌≡◌, refl, none, some, List, [], ◌∷◌, Text, codes, text_eq}
use oasis_supabase_core.Prelude.Exec.{ok, thrown}
use oasis_supabase_core.Media.{
  Url, Stream, ended, chunk, response, MediaDeps, download_governed_whatsapp_media,
  read_bounded_response_body,
}
use oasis_supabase_core.Media.Governed.{
  Call, logged, IsGoverned, download_governed_whatsapp_media-IsGoverned,
}

abbrev url_of : Text → Url
url_of host = record {
  href = host;
  protocol = codes "https:";
  username = [];
  password = [];
  hostname = host;
}

abbrev body : Stream
body = chunk (1 ∷ 2 ∷ []) (chunk [] (chunk (3 ∷ []) ended))

-- a URL is parsed as its host
abbrev deps : MediaDeps ℕ
deps = record {
  parse_url = λ text. some (url_of text);
  to_lower_case = λ s. s;
  number = λ header. none;
  supabase_url = codes "p.supabase.co";
  allowed_hosts = codes " .cdn.example ,";
  api_key = codes "k";
  access_token = [];
  fetch = λ url headers timeout s.
      (response 200 none (some (codes "image/png; q=1")) (some body), s + 1);
}

body_test : read_bounded_response_body 3 (some body) ≡ ok (1 ∷ 2 ∷ 3 ∷ [])
unfolding read_bounded_response_body read_chunks
body_test = refl

large_test : read_bounded_response_body 2 (some body) ≡ thrown (codes "MEDIA_TOO_LARGE")
unfolding read_bounded_response_body read_chunks
large_test = refl

download_test :
    download_governed_whatsapp_media deps (codes "m.click2api.in") 10 500 0
    ≡ (ok (record { bytes = 1 ∷ 2 ∷ 3 ∷ []; mime = codes "image/png" }), 1)
unfolding download_governed_whatsapp_media parse_governed_whatsapp_media_url text_eq codes is_listed
    configured_host_suffixes distinct default_host_suffixes fetch_validated after_fetch is_ok_status
    read_bounded_response_body read_chunks trim
download_test = refl

last_dot_test :
    download_governed_whatsapp_media deps (codes "click2api.in.") 10 500 0
    ≡ (thrown (codes "MEDIA_HOST_NOT_ALLOWED"), 0)
unfolding download_governed_whatsapp_media parse_governed_whatsapp_media_url text_eq codes is_listed
    configured_host_suffixes distinct default_host_suffixes fetch_validated trim
last_dot_test = refl

abbrev no_calls : List Call
no_calls = []

download_governed_whatsapp_media-IsGoverned_example :
    IsGoverned deps
      (codes "m.click2api.in")
      10
      no_calls
      (download_governed_whatsapp_media (logged deps) (codes "m.click2api.in") 10 500 (0, no_calls))
download_governed_whatsapp_media-IsGoverned_example =
    download_governed_whatsapp_media-IsGoverned deps (codes "m.click2api.in") 10 500 0 no_calls
