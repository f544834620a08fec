-- ===== src/Provision.antt =====
-- supabase/functions/_shared/adminProvisionUser.ts: reading a provisioning request, and the scan of the
-- paginated user list. `toLowerCase` and the page loader are the platform's.
pub mod Pages
mod Tests
use oasis_supabase_core.Prelude.{
  ℕ, zero, suc, ◌+◌, Bool, true, false, ◌&&◌, ◌||◌, not, Option, none, some, List, [], ◌∷◌, Text,
  codes, text_eq, nonempty, trim, is_space, length, ltb, leb, ◌==◌, if◌then◌else◌,
}
use oasis_supabase_core.Prelude.Int.{ℤ, pos, negsuc}
use oasis_supabase_core.Prelude.Json.{Json, undefined, null, string, object, array, get, as_text}
use oasis_supabase_core.Prelude.Exec.{Result, ok, thrown}

pub data ProvisionMode : Type 0 where
  invite service_credential : ProvisionMode

pub record ProvisionRequest : Type 0 where
  pub email : Text
  pub display_name : Option Text
  pub role_key : Text
  pub department : Option Text
  pub designation : Option Text
  pub mode : ProvisionMode

pub record ListedUser : Type 0 where
  pub id : Text
  pub email : Option Text

pub record ListedUserPage : Type 0 where
  pub users : List ListedUser
  pub total : Option ℤ

-- `EMAIL_PATTERN`: `[^\s@]`
is_plain : ℕ → Bool
is_plain c = not (is_space c) && not (c == b'@')

-- a dot that is neither the first unit nor the last, among plain units
dot_inside : Text → Bool
dot_inside [] = false
dot_inside (c ∷ []) = false
dot_inside (c ∷ d ∷ s) = c == b'.' || dot_inside (d ∷ s)

all_plain : Text → Bool
all_plain [] = true
all_plain (c ∷ s) = is_plain c && all_plain s

is_domain : Text → Bool
is_domain [] = false
is_domain (c ∷ s) = all_plain (c ∷ s) && dot_inside s

-- the rest of the local part, then `@`
after_local : Text → Bool
after_local [] = false
after_local (c ∷ s) =
    let rest = after_local s in if c == b'@' then is_domain s else is_plain c && rest

unfoldable pub is_email : Text → Bool
unfolding is_plain after_local is_domain dot_inside all_plain
is_email [] = false
is_email (c ∷ s) = is_plain c && after_local s

text_or_empty : Option Text → Text
text_or_empty none = []
text_or_empty (some s) = s

-- an array passes as an object whose members are absent
unfoldable pub require_payload_object : Json → Option Json
require_payload_object (object fs) = some (object fs)
require_payload_object (array xs) = some (array xs)
require_payload_object _ = none

unfoldable pub read_string_field : Json → Text → Option Text
read_string_field payload field = as_text (get field payload)

unfoldable pub require_email : Json → Result Text
unfolding text_or_empty read_string_field
require_email payload =
    let email = trim (text_or_empty (read_string_field payload (codes "email"))) in
    if not (nonempty email) || not (is_email email)
    then thrown (codes "a valid email is required")
    else ok email

mode_of_text : Text → Result ProvisionMode
mode_of_text s =
    if text_eq s (codes "invite")
    then ok invite
    else if text_eq s (codes "service_credential")
    then ok service_credential
    else thrown (codes "mode must be \"invite\" or \"service_credential\"")

mode_of : Json → Result ProvisionMode
unfolding mode_of_text
mode_of undefined = ok invite
mode_of null = ok invite
mode_of (string s) = mode_of_text s
mode_of _ = thrown (codes "mode must be \"invite\" or \"service_credential\"")

unfoldable pub read_mode : Json → Result ProvisionMode
unfolding mode_of
read_mode payload = mode_of (get (codes "mode") payload)

module _ {ℓ κ} {A : Type ℓ} {B : Type κ} where
  abbrev pub then_do : Result A → (A → Result B) → Result B
  then_do (thrown e) f = thrown e
  then_do (ok a) f = f a

total_reached : ℕ → Option ℤ → Bool
total_reached inspected none = false
total_reached inspected (some (pos n)) = leb n inspected
total_reached inspected (some (negsuc n)) = false

module _ (to_lower_case : Text → Text) where
  unfoldable pub require_role_key : Json → Result Text
  unfolding text_or_empty read_string_field
  require_role_key payload =
      let role_key =
        to_lower_case (trim (text_or_empty (read_string_field payload (codes "roleKey")))) in
      if not (nonempty role_key) then thrown (codes "roleKey is required") else ok role_key

  parse_payload : Option Json → Result ProvisionRequest
  unfolding require_email require_role_key read_mode read_string_field
  parse_payload none = thrown (codes "request body must be a JSON object")
  parse_payload (some payload) = then_do (require_email payload) (λ email.
      then_do (require_role_key payload) (λ role_key. then_do (read_mode payload) (λ mode.
        ok (record {
          email = email;
          display_name = read_string_field payload (codes "displayName");
          role_key = role_key;
          department = read_string_field payload (codes "department");
          designation = read_string_field payload (codes "designation");
          mode = mode;
        }))))

  unfoldable pub parse_request : Json → Result ProvisionRequest
  unfolding parse_payload require_payload_object
  parse_request body = parse_payload (require_payload_object body)

  unfoldable pub has_email : Text → Option Text → Bool
  has_email target none = false
  has_email target (some email) = text_eq (to_lower_case email) target

  unfoldable pub find_user : Text → List ListedUser → Option Text
  unfolding has_email
  find_user target [] = none
  find_user target (u ∷ us) =
      let rest = find_user target us in if has_email target u.email then some u.id else rest

  -- the end of an iteration without a match
  unfoldable pub next_page :
      ℕ → ℕ → ListedUserPage → Option (Result (Option Text)) → Option (Result (Option Text))
  unfolding total_reached
  next_page per_page inspected page rest =
      if ltb (length page.users) per_page
      then some (ok none)
      else if total_reached inspected page.total
      then some (ok none)
      else rest

  -- one iteration, after the search of its page
  unfoldable pub after_search :
      Option Text
      → ℕ
      → ℕ
      → ListedUserPage
      → (ℕ → Option (Result (Option Text)))
      → Option (Result (Option Text))
  after_search (some id) per_page inspected page rest = some (ok (some id))
  after_search none per_page inspected page rest =
      next_page per_page (inspected + length page.users) page (rest (inspected + length page.users))

  unfoldable pub after_page :
      Text
      → ℕ
      → ℕ
      → Result ListedUserPage
      → (ℕ → Option (Result (Option Text)))
      → Option (Result (Option Text))
  unfolding after_search
  after_page target per_page inspected (thrown e) rest = some (thrown e)
  after_page target per_page inspected (ok page) rest =
      after_search (find_user target page.users) per_page inspected page rest

  -- the loop, which asks for at most `fuel` pages; none when it is not done by then
  unfoldable pub find_from :
      (ℕ → ℕ → Result ListedUserPage) → ℕ → Text → ℕ → ℕ → ℕ → Option (Result (Option Text))
  unfolding after_page next_page
  find_from list_page zero target per_page page inspected = none
  find_from list_page (suc fuel) target per_page page inspected =
      after_page target per_page inspected (list_page page per_page)
        (λ seen. find_from list_page fuel target per_page (page + 1) seen)

  unfoldable pub find_existing_user_across_pages :
      (ℕ → ℕ → Result ListedUserPage) → ℕ → Text → ℕ → Option (Result (Option Text))
  unfolding find_from
  find_existing_user_across_pages list_page fuel email per_page =
      find_from list_page fuel (to_lower_case email) per_page 1 0

unfoldable pub allowed_origin : Option Text → Option Text → Option Text
unfolding text_or_empty
allowed_origin configured none = none
allowed_origin configured (some origin) =
    let trimmed = trim (text_or_empty configured) in
    if not (nonempty trimmed) || not (nonempty origin) || not (text_eq origin trimmed)
    then none
    else some origin
