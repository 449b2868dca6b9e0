-- ===== src/Accounts/Terms.antt =====
-- The form for the terms of service in aurweb/routers/accounts.py, and the middleware of
-- aurweb/asgi.py that sends users to it.
use aurweb.Prelude.{
  ℕ, Bool, true, false, not, ◌&&◌, Option, none, some, List, [], ◌∷◌, ◌++◌, ltb, ◌==◌,
  if◌then◌else◌, any, filter, update_where, leb, count, length, ◌+◌, String, str_eq,
}

pub record Term : Type 0 where
  pub id : ℕ
  pub revision : ℕ

pub record AcceptedTerm : Type 0 where
  pub users_id : ℕ
  pub terms_id : ℕ
  pub revision : ℕ

-- A row for the term, of whatever user, at an older revision.
abbrev pub is_outdated : List AcceptedTerm → Term → Bool
is_outdated rows t = any (λ r. r.terms_id == t.id && ltb r.revision t.revision) rows

abbrev pub is_unaccepted : List AcceptedTerm → Term → Bool
is_unaccepted rows t = not (any (λ r. r.terms_id == t.id) rows)

abbrev row_for : ℕ → Term → AcceptedTerm → Bool
row_for uid t r = r.users_id == uid && r.terms_id == t.id

-- The user's own row for a term; where it has none, an attribute of None is set, and that raises.
abbrev renew : ℕ → Term → List AcceptedTerm → Option (List AcceptedTerm)
renew uid t rows =
    if any (row_for uid t) rows
    then some (update_where (row_for uid t) (λ r. record r { revision = t.revision }) rows)
    else none

abbrev renew_all : ℕ → List Term → List AcceptedTerm → Option (List AcceptedTerm)
renew_all uid [] rows = some rows
renew_all uid (t ∷ ts) rows = elim (renew uid t rows) [
  | none ↦ none
  | some rows' ↦ renew_all uid ts rows'
]

abbrev pub accept_each : ℕ → List Term → List AcceptedTerm
accept_each uid [] = []
accept_each uid (t ∷ ts) =
    record { users_id = uid; terms_id = t.id; revision = t.revision } ∷ accept_each uid ts

-- What the page and the form are about, for whatever user.
abbrev pub outstanding : List Term → List AcceptedTerm → List Term
outstanding terms rows = filter (is_unaccepted rows) terms ++ filter (is_outdated rows) terms

-- `sorted` of rows, which have no order: it raises if it has two to compare.
abbrev sorted : List Term → Option (List Term)
sorted [] = some []
sorted (t ∷ []) = some (t ∷ [])
sorted (t ∷ u ∷ ts) = none

-- The terms on the page, or `none` if the handler raises. The user is not read.
unfoldable pub terms_of_service : List Term → List AcceptedTerm → Option (List Term)
terms_of_service terms rows = sorted (outstanding terms rows)

abbrev unless_raised : Option (List Term) → List AcceptedTerm → Option (List AcceptedTerm)
unless_raised none rows = none
unless_raised (some ts) rows = some rows

-- `none` if the handler raises; then nothing is written.
unfoldable pub terms_of_service_post :
    ℕ → Bool → List Term → List AcceptedTerm → Option (List AcceptedTerm)
terms_of_service_post uid false terms rows = unless_raised (sorted (outstanding terms rows)) rows
terms_of_service_post uid true terms rows =
    elim (renew_all uid (filter (is_outdated rows) terms) rows) [
      | none ↦ none
      | some renewed ↦ some (renewed ++ accept_each uid (filter (is_unaccepted rows) terms))
    ]

abbrev pub is_accepted_by : ℕ → Term → AcceptedTerm → Bool
is_accepted_by uid t r = r.users_id == uid && r.terms_id == t.id && leb t.revision r.revision

-- The rows of the join of the terms with those that the user accepted.
abbrev pub count_accepted : ℕ → List Term → List AcceptedTerm → ℕ
count_accepted uid [] rows = 0
count_accepted uid (t ∷ ts) rows = count (is_accepted_by uid t) rows + count_accepted uid ts rows

-- Whether the middleware of aurweb/asgi.py sends a request of the user to /tos.
unfoldable pub check_terms_of_service : Bool → ℕ → String → List Term → List AcceptedTerm → Bool
check_terms_of_service authenticated uid path terms rows =
    authenticated && not (str_eq path "/tos") && ltb (count_accepted uid terms rows) (length terms)
