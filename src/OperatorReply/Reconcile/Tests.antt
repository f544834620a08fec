-- ===== src/OperatorReply/Reconcile/Tests.antt =====
-- Reconciling three pending receipts: one that the outbox has by now, one that it has not, and one
-- that names no message.
use oasis_supabase_core.OperatorReply.Delivery.{persist_operator_reply_provider_status}
use oasis_supabase_core.Prelude.Json.{get}
use oasis_supabase_core.Prelude.{trim}
use oasis_supabase_core.Prelude.{to_lower}
use oasis_supabase_core.OperatorReply.Status.{normalize_operator_reply_provider_status}
use oasis_supabase_core.OperatorReply.Reconcile.{reconcile_row}
use oasis_supabase_core.Prelude.{
  ℕ, ◌+◌, ◌≤◌, ◌≡◌, refl, Bool, some, List, [], ◌∷◌, Text, codes, length, text_eq, take,
  length-take-le, subst,
}
use oasis_supabase_core.Prelude.Int.{pos}
use oasis_supabase_core.Prelude.Json.{Json, object, field, end, string, null, boolean}
use oasis_supabase_core.Prelude.Exec.{ok}
use oasis_supabase_core.OperatorReply.Delivery.{Admin, gives}
use oasis_supabase_core.OperatorReply.Reconcile.{
  PendingRow, Ledger, Report, reconcile_unmatched_operator_reply_statuses, reconcile_rows,
}
use oasis_supabase_core.OperatorReply.Reconcile.Totals.{IsLimited, reconcile_report}

abbrev known : Bool → Json
known b = object (field (codes "matched") (boolean b) end)

abbrev outbox : Admin Text
outbox = record {
  persist_rpc = λ args s. (gives (known (text_eq args.provider_message_id (codes "w1"))), s);
  insert_unmatched = λ row s. (gives tt, s);
  digest = λ _. [];
}

abbrev pending_row : Text → Json → PendingRow
pending_row id wamid = record {
  id = string id;
  wamid = wamid;
  raw_payload = object (field (codes "provider_status") (string (codes "read")) end);
}

abbrev pending_rows : List PendingRow
pending_rows =
    pending_row (codes "a") (string (codes "w1"))
    ∷ pending_row (codes "b") (string (codes "w2"))
    ∷ pending_row (codes "c") null
    ∷ []

-- the store is the cursor
abbrev ledger : Ledger Text
ledger = record {
  read_cursor = λ s. gives null;
  read_page = λ after limit s. gives (take limit pending_rows);
  mark_processed = λ id s. (gives tt, s);
  write_cursor = λ id s. (gives tt, id);
}

abbrev three_checked : Report
three_checked = record { checked = 3; recovered = 1; pending = 1; errors = 1 }

reconcile_run :
    reconcile_unmatched_operator_reply_statuses outbox ledger (some (pos 50)) []
    ≡ (ok three_checked, codes "c")
unfolding reconcile_unmatched_operator_reply_statuses reconcile_rows reconcile_row codes
    normalize_operator_reply_provider_status text_eq to_lower trim get
    persist_operator_reply_provider_status
reconcile_run = refl

gives-injective : {xs ys : List PendingRow} → gives xs ≡ gives ys → xs ≡ ys
gives-injective h = cc

ledger-IsLimited : IsLimited outbox ledger
ledger-IsLimited after limit s rows h =
    subst (λ (l : List PendingRow). length l ≤ limit) (gives-injective h)
      (length-take-le limit pending_rows)

reconcile_report_example : (◌≤◌ 3 20) × (◌≡◌ {A = ℕ} 3 (1 + 1 + 1))
reconcile_report_example =
    reconcile_report outbox ledger (some (pos 50)) [] (codes "c") three_checked ledger-IsLimited
      reconcile_run
