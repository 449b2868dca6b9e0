-- ===== src/Accounts/Agreed.antt =====
-- Who is asked for the terms of service.
use aurweb.Prelude.{
  ℕ, ◌==◌, Bool, true, false, some, List, [], ◌∷◌, Bool-cases, inl, inr, ◌≡◌, arith, refl, Distinct,
  All, filter, ◌≢◌, ==_refl, All-map, append-nil, String, str_eq, ◌≤◌, length, count, ==_sound, not,
  ltb, ◌&&◌,
}
use aurweb.Accounts.Terms.{
  Term, terms_of_service, terms_of_service_post, is_unaccepted, is_outdated, accept_each,
  AcceptedTerm, is_accepted_by, count_accepted, check_terms_of_service,
}

filter-none {ℓ} :
    {A : Type ℓ} (p : A → Bool) (xs : List A) → All (λ x. p x ≡ false) xs → filter p xs ≡ []
filter-none p [] h = refl
filter-none p (x ∷ xs) h = rw h.0 (filter-none p xs h.1)

filter-all {ℓ} :
    {A : Type ℓ} (p : A → Bool) (xs : List A) → All (λ x. p x ≡ true) xs → filter p xs ≡ xs
filter-all p [] h = refl
filter-all p (x ∷ xs) h = rw (h.0, filter-all p xs h.1) refl

accepted : (uid : ℕ) (ts : List Term) → All (λ t. is_unaccepted (accept_each uid ts) t ≡ false) ts
accepted uid [] = tt
accepted uid (x ∷ xs) = (
  ground (arith, ==_refl x.id),
  All-map (λ t. is_unaccepted (accept_each uid xs) t ≡ false)
      (λ t. is_unaccepted (accept_each uid (x ∷ xs)) t ≡ false) xs (λ t h. ground (arith, h))
      (accepted uid xs),
)

no_row_of :
    (uid : ℕ) (x : Term) (ts : List Term)
    → All (λ y. x.id ≢ y.id) ts
    → is_outdated (accept_each uid ts) x ≡ false
no_row_of uid x [] h = refl
no_row_of uid x (y ∷ ys) h = elim (Bool-cases (y.id == x.id)) [
  | inl e ↦ absurd (h.0 (ground (arith, e)))
  | inr e ↦ rw e (no_row_of uid x ys h.1)
]

up_to_date :
    (uid : ℕ) (ts : List Term)
    → Distinct (λ t. t.id) ts
    → All (λ t. is_outdated (accept_each uid ts) t ≡ false) ts
up_to_date uid [] d = tt
up_to_date uid (x ∷ xs) d =
    (ground (arith, no_row_of uid x xs d.0), rest xs d.0 (up_to_date uid xs d.1))
  where
    rest :
        (ys : List Term)
        → All (λ y. x.id ≢ y.id) ys
        → All (λ t. is_outdated (accept_each uid xs) t ≡ false) ys
        → All (λ t. is_outdated (accept_each uid (x ∷ xs)) t ≡ false) ys
    rest [] k l = tt
    rest (y ∷ ys) k l = (
      elim (Bool-cases (x.id == y.id)) [
        | inl e ↦ absurd (k.0 (ground (arith, e)))
        | inr e ↦ rw e l.0
      ],
      rest ys k.1 l.1,
    )

not_accepted : (ts : List Term) → All (λ t. is_unaccepted [] t ≡ true) ts
not_accepted [] = tt
not_accepted (x ∷ xs) = (refl, not_accepted xs)

not_outdated : (ts : List Term) → All (λ t. is_outdated [] t ≡ false) ts
not_outdated [] = tt
not_outdated (x ∷ xs) = (refl, not_outdated xs)

-- The rows of one user are no other's.
none_of_other :
    (uid other : ℕ) (t : Term) (ts : List Term)
    → uid ≢ other
    → count (is_accepted_by other t) (accept_each uid ts) ≡ 0
none_of_other uid other t [] h = refl
none_of_other uid other t (x ∷ xs) h = elim (Bool-cases (uid == other)) [
  | inl e ↦ absurd (h (==_sound uid other e))
  | inr e ↦ rw e (none_of_other uid other t xs h)
]

count_accepted-other :
    (uid other : ℕ) (ts us : List Term)
    → uid ≢ other
    → count_accepted other ts (accept_each uid us) ≡ 0
count_accepted-other uid other [] us h = refl
count_accepted-other uid other (t ∷ ts) us h =
    omega (arith, none_of_other uid other t us h, count_accepted-other uid other ts us h)

-- More rows are accepted at least as often.
count_accepted-cons :
    (uid : ℕ) (ts : List Term) (r : AcceptedTerm) (rows : List AcceptedTerm)
    → count_accepted uid ts rows ≤ count_accepted uid ts (r ∷ rows)
count_accepted-cons uid [] r rows = omega arith
count_accepted-cons uid (t ∷ ts) r rows = ground (arith, count_accepted-cons uid ts r rows)

count_accepted-own :
    (uid : ℕ) (ts : List Term) → length ts ≤ count_accepted uid ts (accept_each uid ts)
count_accepted-own uid [] = omega arith
count_accepted-own uid (t ∷ ts) =
    let row : AcceptedTerm = record { users_id = uid; terms_id = t.id; revision = t.revision } in
    let more = count_accepted-cons uid ts row (accept_each uid ts) in
    ground (arith, count_accepted-own uid ts, more, ==_refl uid, ==_refl t.id)

redirects_not :
    (path : String) (n m : ℕ) → m ≤ n → (true && not (str_eq path "/tos") && ltb n m) ≡ false
redirects_not path n m h = ground (arith, h)

redirects :
    (uid : ℕ) (path : String) (term : Term) (terms : List Term) (rows : List AcceptedTerm)
    → str_eq path "/tos" ≡ false
    → count_accepted uid (term ∷ terms) rows ≡ 0
    → check_terms_of_service true uid path (term ∷ terms) rows ≡ true
unfolding check_terms_of_service
redirects uid path term terms rows page none_yet = rw page (ground (arith, none_yet))

-- After the first user accepted, the page and the form have no term left.
nothing_left :
    (uid other : ℕ) (terms : List Term)
    → Distinct (λ t. t.id) terms
    → (terms_of_service_post uid true terms [] ≡ some (accept_each uid terms))
      × (terms_of_service terms (accept_each uid terms) ≡ some [])
      × (terms_of_service_post other true terms (accept_each uid terms)
          ≡ some (accept_each uid terms))
unfolding terms_of_service terms_of_service_post
nothing_left uid other terms d =
    let none_new = filter-none (is_unaccepted (accept_each uid terms)) terms (accepted uid terms) in
    let none_old =
      filter-none (is_outdated (accept_each uid terms)) terms (up_to_date uid terms d) in
    let all_new = filter-all (is_unaccepted []) terms (not_accepted terms) in
    let old_before = filter-none (is_outdated []) terms (not_outdated terms) in
    (
      rw (old_before, terms_of_service_post) (rw all_new refl),
      rw (none_new, none_old) refl,
      rw (none_old, terms_of_service_post)
          (rw none_new (rw (append-nil (accept_each uid terms)) refl)),
    )

-- The first user who accepts the terms of service shuts all others out. That user is then sent to
-- /tos from no page. Any other user who is logged in is sent there from every other page; but the page
-- asks for nothing, and accepting writes no row, so that this stays. No two terms have one ID.
pub terms_of_service_post-first :
    (uid other : ℕ) (path : String) (term : Term) (terms : List Term)
    → Distinct (λ t. t.id) (term ∷ terms)
    → uid ≢ other
    → str_eq path "/tos" ≡ false
    → (rows : List AcceptedTerm) × (terms_of_service_post uid true (term ∷ terms) [] ≡ some rows)
      × (check_terms_of_service true uid path (term ∷ terms) rows ≡ false)
      × (check_terms_of_service true other path (term ∷ terms) rows ≡ true)
      × (terms_of_service (term ∷ terms) rows ≡ some [])
      × (terms_of_service_post other true (term ∷ terms) rows ≡ some rows)
unfolding check_terms_of_service
terms_of_service_post-first uid other path term terms d differ page =
    let left = nothing_left uid other (term ∷ terms) d in
    let own = count_accepted-own uid (term ∷ terms) in
    let others = count_accepted-other uid other (term ∷ terms) (term ∷ terms) differ in
    (
      accept_each uid (term ∷ terms),
      left.0,
      redirects_not path _ _ own,
      redirects other path term terms (accept_each uid (term ∷ terms)) page others,
      left.1,
      left.2,
    )
