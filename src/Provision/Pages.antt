-- ===== src/Provision/Pages.antt =====
-- The scan of the pages of a directory, against a search of the whole directory.
use oasis_supabase_core.Prelude.{
  ℕ, zero, suc, ◌+◌, ◌-◌, ◌*◌, ◌≤◌, ◌<◌, ◌≡◌, refl, sym, ◌∙◌, ap, Option, none, some, List, [], ◌∷◌,
  Text, length, take, drop, leb, arith, Bool-cases, Option-cases, inl, inr, ◌⊎◌,
}
use oasis_supabase_core.Prelude.Int.{ℤ, pos}
use oasis_supabase_core.Prelude.Exec.{Result, ok}
use oasis_supabase_core.Provision.{
  ListedUser, ListedUserPage, find_user, next_page, after_page, after_search, find_from,
  find_existing_user_across_pages, total_reached,
}

suc_plus : (m n : ℕ) → suc m + n ≡ suc (m + n)
suc_plus m n = omega arith

plus_one : (n : ℕ) → suc n + 1 ≡ suc (suc n)
plus_one n = omega arith

zero_times : (n : ℕ) → 0 * n ≡ 0
zero_times n = omega arith

times : (m n : ℕ) → suc m * n ≡ m * n + n
times m n = omega arith

module _ {ℓ} {A : Type ℓ} where
  length-take : (n : ℕ) (xs : List A) → n ≤ length xs → length (take n xs) ≡ n
  length-take zero xs h = refl
  length-take (suc n) [] h = absurd (omega arith)
  length-take (suc n) (x ∷ xs) h = omega (arith, length-take n xs)

  take_all : (n : ℕ) (xs : List A) → length xs ≤ n → take n xs ≡ xs
  take_all zero [] h = refl
  take_all zero (x ∷ xs) h = absurd (omega arith)
  take_all (suc n) [] h = refl
  take_all (suc n) (x ∷ xs) h = ap (λ r. x ∷ r) (take_all n xs (omega arith))

  length-drop : (n : ℕ) (xs : List A) → length (drop n xs) ≡ length xs - n
  length-drop zero xs = omega arith
  length-drop (suc n) [] = omega arith
  length-drop (suc n) (x ∷ xs) = omega (arith, length-drop n xs)

  drop_nil : (n : ℕ) → drop {A = A} n [] ≡ []
  drop_nil zero = refl
  drop_nil (suc n) = refl

  drop-drop : (n m : ℕ) (xs : List A) → drop n (drop m xs) ≡ drop (m + n) xs
  drop-drop n zero xs = ground arith
  drop-drop n (suc m) [] = rw (drop_nil n, drop_nil (suc m + n)) refl
  drop-drop n (suc m) (x ∷ xs) = rw (suc_plus m n) (drop-drop n m xs)

-- A directory of users served in pages, with the number of users or without it.
pub record IsDirectory (users : List ListedUser) (list_page : ℕ → ℕ → Result ListedUserPage)
    : Type 0 where
  pub total : Option ℤ
  pub exact : (total ≡ none) ⊎ (total ≡ some (pos (length users)))
  pub page_of :
      (page per_page : ℕ)
      → list_page (suc page) per_page
        ≡ ok (record { users = take per_page (drop (page * per_page) users); total = total })

module _ (to_lower_case : Text → Text) where
  find_take :
      (target : Text) (n : ℕ) (us : List ListedUser) (id : Text)
      → find_user to_lower_case target (take n us) ≡ some id
      → find_user to_lower_case target us ≡ some id
  unfolding find_user
  find_take target zero us id e = cc
  find_take target (suc n) [] id e = cc
  find_take target (suc n) (u ∷ us) id e = ground (arith, find_take target n us id)

  find_drop :
      (target : Text) (n : ℕ) (us : List ListedUser)
      → find_user to_lower_case target (take n us) ≡ none
      → find_user to_lower_case target us ≡ find_user to_lower_case target (drop n us)
  unfolding find_user
  find_drop target zero us e = refl
  find_drop target (suc n) [] e = refl
  find_drop target (suc n) (u ∷ us) e = ground (arith, find_drop target n us)

  module _ (target : Text) (n inspected : ℕ) (page : ListedUserPage)
      (rest : ℕ → Option (Result (Option Text))) where
    page_missed :
        find_user to_lower_case target page.users ≡ none
        → after_page to_lower_case target n inspected (ok page) rest
          ≡ next_page to_lower_case n
              (inspected + length page.users)
              page
              (rest (inspected + length page.users))
    unfolding after_page after_search
    page_missed e = rw e refl

    page_found :
        (id : Text)
        → find_user to_lower_case target page.users ≡ some id
        → after_page to_lower_case target n inspected (ok page) rest ≡ some (ok (some id))
    unfolding after_page after_search
    page_found id e = rw e refl

  drop_empty :
      (target : Text) (n : ℕ) (us : List ListedUser)
      → length us ≤ n
      → find_user to_lower_case target (drop n us) ≡ none
  unfolding find_user
  drop_empty target zero [] h = refl
  drop_empty target zero (u ∷ us) h = absurd (omega arith)
  drop_empty target (suc n) [] h = refl
  drop_empty target (suc n) (u ∷ us) h = drop_empty target n us (omega arith)

  next_scan :
      (target : Text) (n inspected : ℕ) (rest : List ListedUser) (total : Option ℤ)
      (o : Option (Result (Option Text)))
      → find_user to_lower_case target (take n rest) ≡ none
      → (total ≡ none) ⊎ (total ≡ some (pos (inspected + length rest)))
      → (n ≤ length rest → o ≡ some (ok (find_user to_lower_case target (drop n rest))))
      → next_page to_lower_case n
          (inspected + length (take n rest))
          (record { users = take n rest; total = total })
          o
        ≡ some (ok (find_user to_lower_case target rest))
  unfolding next_page total_reached
  next_scan target n inspected rest total o e exact more = elim (Bool-cases (leb n (length rest))) [
    | inl full ↦
        rw (find_drop target n rest e, length-take n rest (ground arith))
          (elim exact [
            | inl t ↦ rw t (ground (arith, more))
            | inr t ↦ rw t (ground (arith, more, drop_empty target n rest))
          ])
    | inr short ↦
        rw
          (
            find_drop target n rest e,
            drop_empty target n rest (ground arith),
            take_all n rest (ground arith),
          )
          (ground arith)
  ]

  module _ (users : List ListedUser) (list_page : ℕ → ℕ → Result ListedUserPage)
      (dir : IsDirectory users list_page) (per_page : ℕ) (some_per_page : 0 < per_page) where
    find_scan :
        (target : Text) (fuel page : ℕ)
        → length users < page * per_page + fuel
        → page * per_page ≤ length users
        → find_from to_lower_case list_page fuel target per_page (suc page) (page * per_page)
          ≡ some (ok (find_user to_lower_case target (drop (page * per_page) users)))
    unfolding find_from after_page
    find_scan target zero page enough inside = absurd (omega arith)
    find_scan target (suc fuel) page enough inside =
        let rest = drop (page * per_page) users in
        let here : ListedUserPage = record { users = take per_page rest; total = dir.total } in
        let more = λ (seen : ℕ).
          find_from to_lower_case list_page fuel target per_page (suc page + 1) seen in
        rw (dir.page_of page per_page)
          (elim (Option-cases (find_user to_lower_case target (take per_page rest))) [
            | inl none_here ↦
                page_missed target per_page (page * per_page) here more none_here
                ∙ next_scan target per_page (page * per_page) rest dir.total
                    (more (page * per_page + length (take per_page rest))) none_here
                    (elim dir.exact [
                      | inl t ↦ inl t
                      | inr t ↦ inr (
                          t
                          ∙ ap (λ n. some (pos n))
                              (omega (arith, length-drop (page * per_page) users)))
                    ])
                    (λ full.
                      rw
                        (
                          length-take per_page rest full,
                          ← times page per_page,
                          plus_one page,
                          drop-drop per_page (page * per_page) users,
                          ← times page per_page,
                        )
                        (find_scan target fuel (suc page) (omega (arith, times page per_page)) (
                          omega (
                            arith,
                            times page per_page,
                            length-drop (page * per_page) users,
                            full,
                          ))))
            | inr (id, found) ↦
                page_found target per_page (page * per_page) here more id found
                ∙ rw (find_take target per_page rest id found) refl
          ])

    find_scan_at :
        (target : Text) (fuel page seen : ℕ)
        → seen ≡ page * per_page
        → length users < seen + fuel
        → seen ≤ length users
        → find_from to_lower_case list_page fuel target per_page (suc page) seen
          ≡ some (ok (find_user to_lower_case target (drop seen users)))
    find_scan_at target fuel page seen e enough inside =
        rw e (find_scan target fuel page (omega arith) (omega arith))

  -- The scan of a directory served in pages of at least one user, with the number of its users or without
  -- it, finds the user that a search of the whole directory finds, or none if that finds none;
  -- as many pages as the directory has users, and one more, are enough.
  pub find_existing_user_complete :
      (users : List ListedUser) (list_page : ℕ → ℕ → Result ListedUserPage)
      → IsDirectory users list_page
      → (email : Text) (per_page fuel : ℕ) → 0 < per_page
      → length users < fuel
      → find_existing_user_across_pages to_lower_case list_page fuel email per_page
        ≡ some (ok (find_user to_lower_case (to_lower_case email) users))
  unfolding find_existing_user_across_pages
  find_existing_user_complete users list_page dir email per_page fuel some_per_page enough =
      find_scan_at users list_page dir per_page some_per_page (to_lower_case email) fuel 0 0
        (sym (zero_times per_page)) (omega arith) (omega arith)
