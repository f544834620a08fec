-- ===== src/OperatorReply/Reconcile/Totals.antt =====
-- What a reconciliation reports.
use oasis_supabase_core.Prelude.{
  codes, ℕ, ◌+◌, ◌≤◌, ◌≡◌, refl, Option, none, List, [], ◌∷◌, Text, length, arith,
}
use oasis_supabase_core.Prelude.Int.{ℤ}
use oasis_supabase_core.Prelude.Json.{Json, get}
use oasis_supabase_core.Prelude.Exec.{Result, ok, thrown}
use oasis_supabase_core.OperatorReply.Delivery.{Admin, Reply, gives, fails, rejects}
use oasis_supabase_core.OperatorReply.Reconcile.{
  PendingRow, Ledger, Report, Tally, page_limit, reconcile_row, reconcile_rows, next_rows,
  wrap_page, reconcile_page, reconcile_unmatched_operator_reply_statuses, after_rows, after_id,
  text_of, after_cursor,
}

abbrev total : Tally → ℕ
total t = t.recovered + t.pending + t.errors

module _ {ℓ} {Db : Type ℓ} (admin : Admin Db) (ledger : Ledger Db) where
  total-reconcile_row :
      (row : PendingRow) (t : Tally) (s : Db)
      → total (reconcile_row admin ledger row t s).0 ≡ total t + 1
  unfolding reconcile_row
  total-reconcile_row row t s = ground arith

  total-reconcile_rows :
      (rows : List PendingRow) (t : Tally) (s : Db)
      → total (reconcile_rows admin ledger rows t s).0 ≡ total t + length rows
  unfolding reconcile_rows
  total-reconcile_rows [] t s = omega arith
  total-reconcile_rows (row ∷ rows) t s =
      let next = reconcile_row admin ledger row t s in
      omega (arith, total-reconcile_rows rows next.0 next.1, total-reconcile_row row t s)

  reconcile_page_report :
      (rows : List PendingRow) (s s' : Db) (r : Report)
      → reconcile_page admin ledger rows s ≡ (ok r, s')
      → (r.checked ≡ length rows) × (r.checked ≡ r.recovered + r.pending + r.errors)
  unfolding reconcile_page
  reconcile_page_report rows s s' r h =
      ground
        (arith, total-reconcile_rows rows (record { recovered = 0; pending = 0; errors = 0 }) s)

  -- A page has no more rows than its limit.
  abbrev pub IsLimited : Type ℓ
  IsLimited =
      (after : Option Text) (limit : ℕ) (s : Db) (rows : List PendingRow)
      → ledger.read_page after limit s ≡ gives rows
      → length rows ≤ limit

  page_limit_bounds : (n : Option ℤ) → (1 ≤ page_limit n) × (page_limit n ≤ 20)
  unfolding page_limit
  page_limit_bounds n = ground arith

  wrap_page_limited :
      (last : Text) (limit : ℕ) (rows : List PendingRow) (s s' : Db) (out : List PendingRow)
      → IsLimited
      → length rows ≤ limit
      → wrap_page admin ledger last limit rows s ≡ (ok out, s')
      → length out ≤ limit
  unfolding wrap_page
  wrap_page_limited last limit (row ∷ rows) s s' out lim h e = ground arith
  wrap_page_limited last limit [] s s' out lim h e = ground (arith, lim none limit s out)

  after_page :
      (last : Text) (limit : ℕ) (s s' : Db) (rows : List PendingRow)
      (page : Reply (List PendingRow))
      → IsLimited
      → ledger.read_page (after_id admin ledger last) limit s ≡ page
      → next_rows admin ledger last limit s ≡ (ok rows, s')
      → length rows ≤ limit
  unfolding next_rows
  after_page last limit s s' rows (gives page) lim e h =
      wrap_page_limited last limit page s s' rows lim (lim _ limit s page e)
        (rw (e, next_rows) at h)
  after_page last limit s s' rows (fails _ _) lim e h = ground arith
  after_page last limit s s' rows (rejects _) lim e h = ground arith

  after_rows_report :
      (limit : ℕ) (answer : Result (List PendingRow)) (s s' : Db) (r : Report)
      → ((rows : List PendingRow) → answer ≡ ok rows → length rows ≤ limit)
      → after_rows admin ledger answer s ≡ (ok r, s')
      → (r.checked ≤ limit) × (r.checked ≡ r.recovered + r.pending + r.errors)
  unfolding after_rows
  after_rows_report limit (ok rows) s s' r lim h =
      ground (arith, lim rows refl, reconcile_page_report rows s s' r)
  after_rows_report limit (thrown e) s s' r lim h = cc

  after_cursor_report :
      (max_events : Option ℤ) (cursor : Reply Json) (s s' : Db) (r : Report)
      → IsLimited
      → after_cursor admin ledger max_events cursor s ≡ (ok r, s')
      → (r.checked ≤ 20) × (r.checked ≡ r.recovered + r.pending + r.errors)
  unfolding after_cursor
  after_cursor_report max_events (gives payload) s s' r lim h =
      let last = text_of (get (codes "last_scanned_id") payload) in
      let limit = page_limit max_events in
      let page = next_rows admin ledger last limit s in
      let (few, sum) =
        after_rows_report limit page.0 page.1 s' r
          (λ rows e. after_page last limit s page.1 rows _ lim refl (λ i. (e i, page.1))) h in
      (omega (arith, few, page_limit_bounds max_events), sum)
  after_cursor_report max_events (fails _ _) s s' r lim h = ground arith
  after_cursor_report max_events (rejects _) s s' r lim h = ground arith

  -- A reconciliation that does not throw has put each row of its page under exactly one of recovered,
  -- pending and errors, and has checked at most 20 rows, given that a page read respects its limit.
  pub reconcile_report :
      (max_events : Option ℤ) (s s' : Db) (r : Report)
      → IsLimited
      → reconcile_unmatched_operator_reply_statuses admin ledger max_events s ≡ (ok r, s')
      → (r.checked ≤ 20) × (r.checked ≡ r.recovered + r.pending + r.errors)
  unfolding reconcile_unmatched_operator_reply_statuses
  reconcile_report max_events s s' r lim h =
      after_cursor_report max_events (ledger.read_cursor s) s s' r lim h
