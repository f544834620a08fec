-- ===== src/Packet/Complete/Prepare.antt =====
-- What is kept while the media of a packet are attached, for one message.
use oasis_supabase_core.Prelude.{
  ℕ, suc, ◌+◌, ◌≤◌, ◌≡◌, refl, ap, ◌&&◌, List, [], ◌∷◌, ◌++◌, Text, codes, text_eq, length,
  length-append, ltb, arith, Bool-cases, inl, inr,
}
use oasis_supabase_core.Prelude.Exec.{Result, ok, thrown}
use oasis_supabase_core.Packet.{
  LoadedMessage, legacy_packet_messages, max_packet_media_bytes, validate_mime,
}
use oasis_supabase_core.Packet.Content.{
  Media, Part, text_part, inline_media_part, Prepared, add_text, add_unavailable, add_media,
  add_failure, on_media_error, after_mime, after_download,
}

abbrev pub ids : List LoadedMessage → List Text
ids [] = []
ids (m ∷ ms) = m.provider_message_id ∷ ids ms

pub length-ids : (ms : List LoadedMessage) → length (ids ms) ≡ length ms
length-ids [] = refl
length-ids (m ∷ ms) = omega (arith, length-ids ms)

-- the bytes and the number of the media in a request
abbrev pub attached_bytes : List Part → ℕ
attached_bytes [] = 0
attached_bytes (text_part t ∷ ps) = attached_bytes ps
attached_bytes (inline_media_part bytes mime ∷ ps) = length bytes + attached_bytes ps

abbrev pub attached_media : List Part → ℕ
attached_media [] = 0
attached_media (text_part t ∷ ps) = attached_media ps
attached_media (inline_media_part bytes mime ∷ ps) = suc (attached_media ps)

attached_bytes-append :
    (ps qs : List Part) → attached_bytes (ps ++ qs) ≡ attached_bytes ps + attached_bytes qs
attached_bytes-append [] qs = omega arith
attached_bytes-append (text_part t ∷ ps) qs = attached_bytes-append ps qs
attached_bytes-append (inline_media_part b mime ∷ ps) qs =
    omega (arith, attached_bytes-append ps qs)

attached_media-append :
    (ps qs : List Part) → attached_media (ps ++ qs) ≡ attached_media ps + attached_media qs
attached_media-append [] qs = omega arith
attached_media-append (text_part t ∷ ps) qs = attached_media-append ps qs
attached_media-append (inline_media_part b mime ∷ ps) qs =
    omega (arith, attached_media-append ps qs)

-- A request made from messages whose media have these ids.
pub record Tracks (media : List Text) (p : Prepared) : Type 0 where
  pub fewer : length p.processed_media_ids ≤ length media
  pub whole : length p.processed_media_ids ≡ length media → p.processed_media_ids ≡ media
  pub counted : attached_bytes p.parts ≤ p.packet_bytes
  pub bounded : attached_bytes p.parts ≤ max_packet_media_bytes
  pub attached : attached_media p.parts ≡ length p.processed_media_ids

same-Tracks :
    (media : List Text) (p q : Prepared)
    → Tracks media p
    → q.parts ≡ p.parts
    → q.processed_media_ids ≡ p.processed_media_ids
    → p.packet_bytes ≤ q.packet_bytes
    → Tracks media q
same-Tracks media p q h parts processed bytes = record {
  fewer = rw processed h.fewer;
  whole = rw processed h.whole;
  counted = rw parts (omega (arith, h.counted));
  bounded = rw parts h.bounded;
  attached = rw (parts, processed) h.attached;
}

-- a text is added, and no more bytes are counted than before or than are there
text-Tracks :
    (media : List Text) (p q : Prepared) (t : Text)
    → Tracks media p
    → q.parts ≡ p.parts ++ text_part t ∷ []
    → q.processed_media_ids ≡ p.processed_media_ids
    → p.packet_bytes ≤ q.packet_bytes
    → Tracks media q
text-Tracks media p q t h parts processed bytes = record {
  fewer = rw processed h.fewer;
  whole = rw processed h.whole;
  counted = rw (parts, attached_bytes-append p.parts (text_part t ∷ [])) (omega (arith, h.counted));
  bounded = rw (parts, attached_bytes-append p.parts (text_part t ∷ [])) (omega (arith, h.bounded));
  attached =
      rw (parts, processed, attached_media-append p.parts (text_part t ∷ []))
        (omega (arith, h.attached));
}

-- a medium is attached and its bytes are counted, under the limit
media-Tracks :
    (media : List Text) (id : Text) (p q : Prepared) (t : Text) (file : Media)
    → Tracks media p
    → q.parts ≡ p.parts ++ text_part t ∷ inline_media_part file.bytes file.mime ∷ []
    → q.processed_media_ids ≡ p.processed_media_ids ++ id ∷ []
    → q.packet_bytes ≡ p.packet_bytes + length file.bytes
    → q.packet_bytes ≤ max_packet_media_bytes
    → Tracks (media ++ id ∷ []) q
media-Tracks media id p q t file h parts processed bytes small =
    let new : List Part = text_part t ∷ inline_media_part file.bytes file.mime ∷ [] in
    let more = length-append p.processed_media_ids (id ∷ []) in
    let size = attached_bytes-append p.parts new in
    record {
      fewer = rw processed (omega (arith, h.fewer, more, length-append media (id ∷ [])));
      whole = rw processed (λ e.
          ap (λ l. l ++ id ∷ []) (h.whole (omega (arith, e, more, length-append media (id ∷ [])))));
      counted = rw parts (omega (arith, size, bytes, h.counted));
      bounded = rw parts (omega (arith, size, bytes, h.counted, small));
      attached =
          rw (parts, processed)
            (omega (arith, attached_media-append p.parts new, h.attached, more));
    }

-- a medium that is not attached
skipped-Tracks :
    (media : List Text) (id : Text) (p : Prepared) → Tracks media p → Tracks (media ++ id ∷ []) p
skipped-Tracks media id p h = record {
  fewer = omega (arith, h.fewer, length-append media (id ∷ []));
  whole = λ e. absurd (omega (arith, h.fewer, length-append media (id ∷ [])));
  counted = h.counted;
  bounded = h.bounded;
  attached = h.attached;
}

module _ (media : List Text) (m : LoadedMessage) (p : Prepared) (t : Tracks media p) where
  pub add_text-Tracks : Tracks media (add_text m p)
  unfolding add_text
  add_text-Tracks = text-Tracks media p (add_text m p) _ t refl refl (omega arith)

  pub add_unavailable-Tracks : Tracks (media ++ m.provider_message_id ∷ []) (add_unavailable m p)
  unfolding add_unavailable
  add_unavailable-Tracks =
      skipped-Tracks media m.provider_message_id (add_unavailable m p)
        (text-Tracks media p (add_unavailable m p) _ t refl refl (omega arith))

  -- `q` is the request so far, with the bytes of the medium counted or not
  add_failure-Tracks :
      (code : Text) (q : Prepared)
      → q.parts ≡ p.parts
      → q.processed_media_ids ≡ p.processed_media_ids
      → p.packet_bytes ≤ q.packet_bytes
      → Tracks (media ++ m.provider_message_id ∷ []) (add_failure m code q)
  unfolding add_failure
  add_failure-Tracks code q parts processed bytes =
      skipped-Tracks media m.provider_message_id (add_failure m code q) (
        text-Tracks media q (add_failure m code q) _ (same-Tracks media p q t parts processed bytes)
          refl refl (omega arith))

  pub on_media_error-Tracks :
      (total : ℕ) (code : Text) (q r : Prepared)
      → q.parts ≡ p.parts
      → q.processed_media_ids ≡ p.processed_media_ids
      → p.packet_bytes ≤ q.packet_bytes
      → on_media_error total m code q ≡ ok r
      → Tracks (media ++ m.provider_message_id ∷ []) r
  unfolding on_media_error
  on_media_error-Tracks total code q r parts processed bytes e =
      elim (Bool-cases
        (text_eq code (codes "PACKET_MEDIA_TOO_LARGE") && ltb legacy_packet_messages total)) [
          | inl h ↦ absurd (ground arith)
          | inr h ↦
              let same : add_failure m code q ≡ r = ground arith in
              rw (← same) (add_failure-Tracks code q parts processed bytes)
        ]

  add_media-Tracks :
      (file : Media)
      → p.packet_bytes + length file.bytes ≤ max_packet_media_bytes
      → Tracks
          (media ++ m.provider_message_id ∷ [])
          (add_media m file (record p { packet_bytes = p.packet_bytes + length file.bytes }))
  unfolding add_media
  add_media-Tracks file small =
      media-Tracks media m.provider_message_id p
        (add_media m file (record p { packet_bytes = p.packet_bytes + length file.bytes })) _ file t
        refl refl refl small

  after_mime-Tracks :
      (total : ℕ) (file : Media) (mime : Result (Unit {0})) (r : Prepared)
      → after_mime total m file p mime ≡ ok r
      → Tracks (media ++ m.provider_message_id ∷ []) r
  unfolding after_mime
  after_mime-Tracks total file (thrown code) r e =
      on_media_error-Tracks total code p r refl refl (omega arith) e
  after_mime-Tracks total file (ok u) r e =
      let q : Prepared = record p { packet_bytes = p.packet_bytes + length file.bytes } in
      elim (Bool-cases (ltb max_packet_media_bytes (p.packet_bytes + length file.bytes))) [
        | inl h ↦
            on_media_error-Tracks total (codes "PACKET_MEDIA_TOO_LARGE") q r refl refl (omega arith)
              (rw h at e)
        | inr h ↦
            let same : add_media m file q ≡ r = ground arith in
            rw (← same) (add_media-Tracks file (ground arith))
      ]

  pub after_download-Tracks :
      (total : ℕ) (file : Result Media) (r : Prepared)
      → after_download total m p file ≡ ok r
      → Tracks (media ++ m.provider_message_id ∷ []) r
  unfolding after_download
  after_download-Tracks total (thrown code) r e =
      on_media_error-Tracks total code p r refl refl (omega arith) e
  after_download-Tracks total (ok file) r e =
      after_mime-Tracks total file (validate_mime m.message_type file.mime) r e
