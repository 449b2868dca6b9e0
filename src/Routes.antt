-- ===== src/Routes.antt =====
-- The forms of aurweb/routers/pkgbase.py with the checks of aurweb/pkgbase/validate.py. A handler
-- takes the request, whose user is logged in, and the fields of the form, and returns the response
-- and the database. A page is its template and its status; what the template shows is left out. The
-- rendering of comments, which writes a column that is not modelled, is left out.
pub mod Comments
pub mod Ownership
pub mod Comaintaining
pub mod Closing
pub mod Rights
pub mod Undoing
mod Tests
use aurweb.Prelude.{
  ℕ, Bool, true, false, not, ◌&&◌, ◌||◌, String, Option, none, some, List, [], ◌∷◌, ◌==◌,
  if◌then◌else◌, leb, any, is_some, str_eq, f_string, text_length,
}
use aurweb.Models.{
  Db, PackageBase, Request, adoption, Notification, flag_notification, send, update_base,
  base_of_name,
}
use aurweb.Creds.{pkgbase_flag, has_credential}
use aurweb.Requests.{Failure, is_pending_of}
use aurweb.Votes.{vote, unvote}
use aurweb.Actions.{pkgbase_notify_instance, pkgbase_unnotify_instance, pkgbase_unflag_instance}

-- `failed` is an exception that no handler catches.
pub data Response : Type 0 where
  redirect : String → Response
  page : (template : String) (status : ℕ) → Response
  http_exception : (status : ℕ) → Response
  failed : Failure → Response

abbrev pub pkgbase_path : String → String
pkgbase_path name = f_string ("/pkgbase/" ∷ name ∷ [])

-- `next or f"/pkgbase/{name}"`
abbrev pub next_or : String → String → String
next_or next path = if str_eq next "" then path else next

abbrev pub or_404 {ℓ} : {A : Type ℓ} → Option A → Db → (A → Response × Db) → Response × Db
or_404 none db k = (http_exception 404, db)
or_404 (some a) db k = k a

-- `get_pkg_or_base`, and the rest of the handler.
abbrev pub with_pkgbase : String → Db → (PackageBase → Response × Db) → Response × Db
with_pkgbase name db k = or_404 (base_of_name name db) db k

-- `validate.comment`: the error, if any.
unfoldable pub validate_comment : ℕ → String → Option String
validate_comment max_chars comment =
    if str_eq comment ""
    then some "The comment field must not be empty."
    else if leb (text_length comment) max_chars
    then none
    else some "Maximum number of characters for comment exceeded."

-- `validate.comment_raise_http_ex`, and the rest of the handler.
abbrev pub with_comment : Request → String → Db → Response × Db → Response × Db
with_comment req comment db k =
    if is_some (validate_comment req.config.max_chars_comment comment)
    then (http_exception 400, db)
    else k

abbrev pub with_optional_comment : Request → String → Db → Response × Db → Response × Db
with_optional_comment req comment db k =
    if str_eq comment "" then k else with_comment req comment db k

abbrev validate_merge : PackageBase → String → Db → Option String
validate_merge pkgbase merge_into db =
    if str_eq merge_into ""
    then some "The \"Merge into\" field must not be empty."
    else elim (base_of_name merge_into db) [
      | none ↦ some "The package base you want to merge into does not exist."
      | some target ↦
          if target.id == pkgbase.id
          then some "You cannot merge a package base into itself."
          else none
    ]

abbrev validate_adoption : PackageBase → Db → Option String
validate_adoption pkgbase db =
    if is_some pkgbase.maintainer_uid
    then some "You cannot request adoption of a package base that already has a maintainer."
    else if any (is_pending_of pkgbase.id adoption) db.requests
    then some "There is already a pending adoption request for this package base."
    else none

-- `validate.request`: the error, if any. A field that is not given is the empty text.
unfoldable pub validate_request :
    Request → PackageBase → String → String → String → Db → Option String
unfolding validate_comment
validate_request req pkgbase type comments merge_into db =
    elim (validate_comment req.config.max_chars_comment comments) [
      | some e ↦ some e
      | none ↦
          if str_eq type "merge"
          then validate_merge pkgbase merge_into db
          else if str_eq type "adoption"
          then validate_adoption pkgbase db
          else none
    ]

abbrev flag_row : Request → String → PackageBase → PackageBase
flag_row req comments p = record p {
  out_of_date_ts = some req.now;
  flagger_uid = some req.user.id;
  flagger_comment = comments;
}

-- A column that is NULL or 0.
abbrev pub is_unset : Option ℕ → Bool
is_unset none = true
is_unset (some n) = n == 0

unfoldable pub pkgbase_flag_post : Request → String → String → Db → Response × Db
unfolding validate_comment has_credential
pkgbase_flag_post req name comments db = with_pkgbase name db (λ pkgbase.
    if str_eq comments ""
    then (page "pkgbase/flag.html" 400, db)
    else with_comment req comments db (
      redirect (pkgbase_path name),
      if has_credential req.user pkgbase_flag [] && is_unset pkgbase.out_of_date_ts
          then send (flag_notification req.user.id pkgbase.id ∷ [])
              (update_base pkgbase.id (flag_row req comments) db)
          else db,
    ))

unfoldable pub pkgbase_vote : Request → String → Db → Response × Db
unfolding vote
pkgbase_vote req name db =
    with_pkgbase name db (λ pkgbase. (redirect (pkgbase_path name), vote req pkgbase db))

unfoldable pub pkgbase_unvote : Request → String → Db → Response × Db
unfolding unvote
pkgbase_unvote req name db =
    with_pkgbase name db (λ pkgbase. (redirect (pkgbase_path name), unvote req pkgbase db))

unfoldable pub pkgbase_notify : Request → String → Db → Response × Db
unfolding pkgbase_notify_instance
pkgbase_notify req name db =
    with_pkgbase name db
      (λ pkgbase. (redirect (pkgbase_path name), pkgbase_notify_instance req pkgbase db))

unfoldable pub pkgbase_unnotify : Request → String → Db → Response × Db
unfolding pkgbase_unnotify_instance
pkgbase_unnotify req name db =
    with_pkgbase name db
      (λ pkgbase. (redirect (pkgbase_path name), pkgbase_unnotify_instance req pkgbase db))

unfoldable pub pkgbase_unflag : Request → String → Db → Response × Db
unfolding pkgbase_unflag_instance
pkgbase_unflag req name db =
    with_pkgbase name db
      (λ pkgbase. (redirect (pkgbase_path name), pkgbase_unflag_instance req pkgbase db))
