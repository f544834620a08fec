-- ===== src/Webhook/Inbound/Whole.antt =====
-- Splitting a payload keeps its messages, in their order.
use mathlib.Core.List.{map}
use oasis_supabase_core.Prelude.{◌++◌, ◌≡◌, List, [], ◌∷◌, codes, All}
use oasis_supabase_core.Prelude.Json.{Json, get, as_array}
use oasis_supabase_core.Interpret.{elements}
use oasis_supabase_core.Webhook.Inbound.Split.{message_in, IsIsolated}

-- the messages of a payload, in its order
abbrev pub messages_of_changes : List Json → List Json
messages_of_changes [] = []
messages_of_changes (c ∷ cs) =
    elements (as_array (get (codes "messages") (get (codes "value") c))) ++ messages_of_changes cs

abbrev pub messages_of_entries : List Json → List Json
messages_of_entries [] = []
messages_of_entries (e ∷ es) =
    messages_of_changes (elements (as_array (get (codes "changes") e))) ++ messages_of_entries es

abbrev pub messages_of_payload : Json → List Json
messages_of_payload payload =
    messages_of_entries (elements (as_array (get (codes "entry") payload)))

-- All the messages of all its changes of all its entries are its first one alone.
abbrev pub IsSingle : Json → Type 0
IsSingle payload = messages_of_payload payload ≡ message_in payload ∷ []

-- The payloads hold these messages, one each, and nothing of another message.
abbrev pub Holds : List Json → List Json → Type 0
Holds messages singles =
    (map message_in singles ≡ messages) × All IsSingle singles × All IsIsolated singles
