-- ===== src/Provision/Tests.antt =====
-- Two pages of a directory of three users, and requests that are refused.
use oasis_supabase_core.Prelude.{
  text_eq, trim, is_space, ◌≡◌, refl, ℕ, ◌*◌, ◌-◌, some, none, List, [], ◌∷◌, Text, codes, to_lower,
  take, drop, arith, inr, true, false,
}
use oasis_supabase_core.Prelude.Int.{pos}
use oasis_supabase_core.Prelude.Json.{as_text, get, string, object, field, end, null}
use oasis_supabase_core.Prelude.Exec.{Result, ok, thrown}
use oasis_supabase_core.Provision.{
  ListedUser, ListedUserPage, find_existing_user_across_pages, find_user, parse_request, is_email,
  service_credential, allowed_origin,
}
use oasis_supabase_core.Provision.Pages.{IsDirectory, find_existing_user_complete}

abbrev user : Text → Text → ListedUser
user id email = record { id = id; email = some email }

abbrev three : List ListedUser
three =
    user (codes "1") (codes "a@x.in")
    ∷ user (codes "2") (codes "b@x.in")
    ∷ user (codes "3") (codes "C@x.in")
    ∷ []

abbrev serve : ℕ → ℕ → Result ListedUserPage
serve page per_page =
    ok (record { users = take per_page (drop ((page - 1) * per_page) three); total = some (pos 3) })

previous : (n : ℕ) → ℕ.suc n - 1 ≡ n
previous n = omega arith

three-IsDirectory : IsDirectory three serve
three-IsDirectory = record {
  total = some (pos 3);
  exact = inr refl;
  page_of = λ page per_page. rw (previous page) refl;
}

finds_test :
    find_existing_user_across_pages to_lower serve 4 (codes "c@X.in") 2
    ≡ some (ok (some (codes "3")))
unfolding find_existing_user_across_pages find_user text_eq to_lower codes
finds_test = refl

email_test : is_email (codes "a.b@x.co.in") ≡ true
unfolding is_email codes is_space
email_test = refl

no_dot_test : is_email (codes "a@xin.") ≡ false
unfolding is_email codes is_space
no_dot_test = refl

parse_test :
    parse_request to_lower (
      object (
        field (codes "email") (string (codes " a@x.in ")) (
          field
            (codes "roleKey")
            (string (codes "Ops"))
            (field (codes "mode") (string (codes "service_credential")) end))))
    ≡ ok (record {
      email = codes "a@x.in";
      display_name = none;
      role_key = codes "ops";
      department = none;
      designation = none;
      mode = service_credential;
    })
unfolding parse_request trim as_text get text_eq codes is_email to_lower
parse_test = refl

null_test : parse_request to_lower null ≡ thrown (codes "request body must be a JSON object")
unfolding parse_request
null_test = refl

origin_test :
    allowed_origin (some (codes " https://a.in ")) (some (codes "https://a.in"))
    ≡ some (codes "https://a.in")
unfolding allowed_origin trim codes text_eq
origin_test = refl

find_existing_user_complete_example :
    find_existing_user_across_pages to_lower serve 4 (codes "c@X.in") 2
    ≡ some (ok (find_user to_lower (to_lower (codes "c@X.in")) three))
find_existing_user_complete_example =
    find_existing_user_complete to_lower three serve three-IsDirectory (codes "c@X.in") 2 4
      (omega arith) (omega arith)
