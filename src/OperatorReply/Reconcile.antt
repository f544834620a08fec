-- ===== src/OperatorReply/Reconcile.antt =====
-- Reconciling pending unmatched receipts, of whatsappOperatorReplyStatus.ts. The reads and writes of
-- `debug_webhooks` are calls of the database client, which is a parameter.
pub mod Totals
mod Tests
use oasis_supabase_core.Prelude.{◌++◌}
use oasis_supabase_core.Prelude.{
  ℕ, zero, suc, ◌+◌, Bool, true, false, ◌&&◌, ◌||◌, not, Option, none, some, List, [], ◌∷◌, Text,
  codes, nonempty, length, last?, leb, ltb, min, max, if◌then◌else◌,
}
use oasis_supabase_core.Prelude.Int.{ℤ, pos, negsuc}
use oasis_supabase_core.Prelude.Json.{
  Json, undefined, null, boolean, number, string, array, object, as_text, get, Items, nil, cons,
}
use oasis_supabase_core.Prelude.Exec.{Result, ok, thrown, Exec, pure, throw}
use oasis_supabase_core.OperatorReply.Status.{
  BoundedProviderStatus, normalize_operator_reply_provider_status,
}
use oasis_supabase_core.OperatorReply.Delivery.{
  Admin, Reply, gives, fails, rejects, ProviderStatusEvent, PersistOutcome, text_or_empty,
  persist_operator_reply_provider_status,
}

-- A pending row as it is read: each column is a JSON value.
pub record PendingRow : Type 0 where
  pub id : Json
  pub wamid : Json
  pub raw_payload : Json

-- The calls on `debug_webhooks`: the payload of the cursor row, a page of pending rows after an id
-- (`none` from the start) with a limit, the mark on a row, and the write of the cursor.
pub record Ledger {ℓ} (Db : Type ℓ) : Type ℓ where
  pub read_cursor : Db → Reply Json
  pub read_page : Option Text → ℕ → Db → Reply (List PendingRow)
  pub mark_processed : Text → Db → Reply (Unit {0}) × Db
  pub write_cursor : Text → Db → Reply (Unit {0}) × Db

pub record Report : Type 0 where
  pub checked : ℕ
  pub recovered : ℕ
  pub pending : ℕ
  pub errors : ℕ

-- `none` is a number that is no integer
unfoldable pub page_limit : Option ℤ → ℕ
page_limit none = 10
page_limit (some (pos n)) = max 1 (min n 20)
page_limit (some (negsuc n)) = 1

-- `typeof value === "string" ? value : ""`
text_of : Json → Text
unfolding as_text text_or_empty
text_of v = text_or_empty (as_text v)

unfoldable mutual
  -- `String(value ?? "")`
  pub string_or_empty : Json → Text
  string_or_empty undefined = []
  string_or_empty null = []
  string_or_empty (boolean true) = codes "true"
  string_or_empty (boolean false) = codes "false"
  string_or_empty (number n) = n
  string_or_empty (string s) = s
  string_or_empty (array xs) = joined xs
  string_or_empty (object _) = codes "[object Object]"

  -- the elements of an array, between commas
  pub joined : Items → Text
  joined nil = []
  joined (cons x nil) = string_or_empty x
  joined (cons x (cons y ys)) = string_or_empty x ++ (codes "," ++ joined (cons y ys))

is_none {ℓ} : {A : Type ℓ} → Option A → Bool
is_none none = true
is_none (some _) = false

-- the counts of the loop
pub record Tally : Type 0 where
  pub recovered : ℕ
  pub pending : ℕ
  pub errors : ℕ

unfoldable pub count_error : Tally → Tally
count_error t = record t { errors = t.errors + 1 }

module _ {ℓ} {Db : Type ℓ} (admin : Admin Db) (ledger : Ledger Db) where
  open ledger use {read_cursor, read_page, mark_processed, write_cursor}

  unfoldable pub event_of_row : PendingRow → ProviderStatusEvent
  unfolding text_of
  event_of_row row = record {
    status = text_of (get (codes "provider_status") row.raw_payload);
    provider_message_id = some (text_of row.wamid);
    provider_error_code = as_text (get (codes "provider_error_code") row.raw_payload);
  }

  after_mark : Tally → Reply (Unit {0}) → Tally
  unfolding count_error
  after_mark t (gives _) = record t { recovered = t.recovered + 1 }
  after_mark t (fails _ _) = count_error t
  after_mark t (rejects _) = count_error t

  after_persist : Text → Tally → Result PersistOutcome → Db → Tally × Db
  unfolding after_mark count_error
  after_persist id t (thrown _) s = (count_error t, s)
  after_persist id t (ok outcome) s =
      if not outcome.matched
      then (record t { pending = t.pending + 1 }, s)
      else let marked = mark_processed id s in (after_mark t marked.0, marked.1)

  -- the body of the loop
  unfoldable pub reconcile_row : PendingRow → Tally → Db → Tally × Db
  unfolding after_persist event_of_row text_of is_none count_error
  reconcile_row row t s =
      let id = text_of row.id in
      let event = event_of_row row in
      if not (nonempty id)
        || not (nonempty (text_of row.wamid))
        || is_none (normalize_operator_reply_provider_status event.status)
      then (count_error t, s)
      else let answer = persist_operator_reply_provider_status admin event s in
        after_persist id t answer.0 answer.1

  unfoldable pub reconcile_rows : List PendingRow → Tally → Db → Tally × Db
  reconcile_rows [] t s = (t, s)
  reconcile_rows (row ∷ rows) t s =
      let next = reconcile_row row t s in reconcile_rows rows next.0 next.1

  -- The page after the cursor, or the first page where that is empty.
  wrap_page : Text → ℕ → List PendingRow → Exec Db (List PendingRow)
  wrap_page last_id limit (row ∷ rows) s = pure (row ∷ rows) s
  wrap_page last_id limit [] s =
      if nonempty last_id
      then elim (read_page none limit s) [
        | gives rows ↦ pure rows s
        | fails _ _ ↦ throw (codes "WA_STATUS_RECONCILE_WRAP_READ_FAILED") s
        | rejects e ↦ throw e s
      ]
      else pure [] s

  after_id : Text → Option Text
  after_id [] = none
  after_id (c ∷ s) = some (c ∷ s)

  unfoldable pub next_rows : Text → ℕ → Exec Db (List PendingRow)
  unfolding wrap_page after_id
  next_rows last_id limit s = elim (read_page (after_id last_id) limit s) [
    | gives rows ↦ wrap_page last_id limit rows s
    | fails _ _ ↦ throw (codes "WA_STATUS_RECONCILE_READ_FAILED") s
    | rejects e ↦ throw e s
  ]

  report : List PendingRow → Tally → Report
  report rows t = record {
    checked = length rows;
    recovered = t.recovered;
    pending = t.pending;
    errors = t.errors;
  }

  -- The loop over a page, and the cursor moved to the last row of the page.
  unfoldable pub reconcile_page : List PendingRow → Exec Db Report
  unfolding string_or_empty report
  reconcile_page rows s =
      let done = reconcile_rows rows (record { recovered = 0; pending = 0; errors = 0 }) s in
      elim (last? rows) [
        | none ↦ pure (report rows done.0) done.1
        | some row ↦
            (let written = write_cursor (string_or_empty row.id) done.1 in
              elim written.0 [
                | gives _ ↦ pure (report rows done.0) written.1
                | fails _ _ ↦ throw (codes "WA_STATUS_RECONCILE_CURSOR_WRITE_FAILED") written.1
                | rejects e ↦ throw e written.1
              ])
      ]

  after_rows : Result (List PendingRow) → Exec Db Report
  unfolding reconcile_page
  after_rows (ok rows) s = reconcile_page rows s
  after_rows (thrown e) s = throw e s

  after_cursor : Option ℤ → Reply Json → Exec Db Report
  unfolding after_rows next_rows page_limit text_of
  after_cursor max_events (gives payload) s =
      let page =
        next_rows (text_of (get (codes "last_scanned_id") payload)) (page_limit max_events) s in
      after_rows page.0 page.1
  after_cursor max_events (fails _ _) s = throw (codes "WA_STATUS_RECONCILE_CURSOR_READ_FAILED") s
  after_cursor max_events (rejects e) s = throw e s

  unfoldable pub reconcile_unmatched_operator_reply_statuses : Option ℤ → Exec Db Report
  unfolding after_cursor
  reconcile_unmatched_operator_reply_statuses max_events s =
      after_cursor max_events (read_cursor s) s
