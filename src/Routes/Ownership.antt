-- ===== src/Routes/Ownership.antt =====
-- The forms of aurweb/routers/pkgbase.py that disown, adopt, request, delete and merge.
use aurweb.Prelude.{
  ℕ, ◌+◌, ◌-◌, Bool, false, not, ◌&&◌, ◌||◌, String, Option, none, some, [], ◌∷◌, ◌++◌, ◌==◌,
  if◌then◌else◌, leb, contains, find?, holds, is_some, str_eq, update_where,
}
use aurweb.Models.{
  Db, PackageBase, PackageRequest, ReqType, deletion, orphan, merge, adoption, pending, accepted,
  Request, request_open_notification, request_close_notification, send, update_base, base_of_name,
}
use aurweb.Creds.{pkgbase_disown, pkgbase_adopt, pkgbase_delete, pkgbase_merge, has_credential}
use aurweb.Comaintainers.{of_base}
use aurweb.Requests.{
  invariant_error, not_implemented_error, attribute_error, multiple_results_found, Result, ok,
  raise, is_pending_of, insert_request, update_closure_comment, set_closure_comment,
}
use aurweb.Actions.{
  approved, users_of, set_maintainer, pkgbase_disown_instance, pkgbase_adopt_instance,
  pkgbase_delete_instance, pkgbase_merge_instance, send_all,
}
use aurweb.Routes.{
  Response, redirect, page, failed, pkgbase_path, next_or, with_pkgbase, with_optional_comment,
  validate_comment, validate_request,
}

-- A database after an update that may have raised, and the rest of the handler.
abbrev pub with_updated : Db → Result Db → (Db → Response × Db) → Response × Db
with_updated db (raise e) k = (failed e, db)
with_updated db (ok updated) k = k updated

-- The response after an action; an `InvariantError` shows the form again.
abbrev answer_disown : String → Result (Unit {0}) × Db → Response × Db
answer_disown path (ok _, db) = (redirect path, db)
answer_disown path (raise (invariant_error name), db) = (page "pkgbase/disown.html" 400, db)
answer_disown path (raise not_implemented_error, db) = (failed not_implemented_error, db)
answer_disown path (raise attribute_error, db) = (failed attribute_error, db)
answer_disown path (raise multiple_results_found, db) = (failed multiple_results_found, db)

unfoldable pub pkgbase_disown_post : Request → String → String → Bool → String → Db → Response × Db
unfolding has_credential update_closure_comment pkgbase_disown_instance validate_comment
pkgbase_disown_post req name comments confirm next db = with_pkgbase name db (λ pkgbase.
    with_optional_comment req comments db (
      let comaints = users_of (of_base pkgbase.id db.comaintainers) in
      let has_cred =
        has_credential req.user pkgbase_disown (approved pkgbase.maintainer_uid ++ comaints) in
      let other =
        not (holds pkgbase.maintainer_uid req.user.id) && not (contains comaints req.user.id) in
      if not has_cred
      then (redirect (pkgbase_path name), db)
      else if not confirm
      then (page "pkgbase/disown.html" 400, db)
      else with_updated db
          (if other then update_closure_comment pkgbase orphan comments none db else ok db)
          (λ updated.
            answer_disown (next_or next (pkgbase_path name))
              (pkgbase_disown_instance req pkgbase updated))))

-- A `via` of 0 stands for none.
unfoldable pub pending_adoption_request : PackageBase → ℕ → Db → Option PackageRequest
pending_adoption_request pkgbase via db =
    if via == 0
    then none
    else find? (λ r. is_pending_of pkgbase.id adoption r && r.id == via) db.requests

abbrev pub answer : String → Result (Unit {0}) × Db → Response × Db
answer path (ok _, db) = (redirect path, db)
answer path (raise e, db) = (failed e, db)

unfoldable pub pkgbase_adopt_post : Request → String → String → ℕ → Db → Response × Db
unfolding has_credential pending_adoption_request pkgbase_adopt_instance
pkgbase_adopt_post req name next via db = with_pkgbase name db (λ pkgbase.
    let has_cred = has_credential req.user pkgbase_adopt [] in
    let path = next_or next (pkgbase_path name) in
    if has_cred || not (is_some pkgbase.maintainer_uid)
    then answer path (
        pkgbase_adopt_instance req pkgbase
          (if has_cred then pending_adoption_request pkgbase via db else none) db)
    else (redirect path, db))

abbrev pub types : String → Option ReqType
types type =
    if str_eq type "deletion"
    then some deletion
    else if str_eq type "merge"
    then some merge
    else if str_eq type "orphan"
    then some orphan
    else if str_eq type "adoption"
    then some adoption
    else none

-- A field that is not given is the empty text.
abbrev merge_name : String → Option String
merge_name merge_into = if str_eq merge_into "" then none else some merge_into

abbrev pub submitted_request :
    Request → ReqType → PackageBase → String → String → ℕ → PackageRequest
submitted_request req reqtype pkgbase merge_into comments id = record {
  id = id;
  req_type = reqtype;
  package_base_id = some pkgbase.id;
  package_base_name = pkgbase.name;
  merge_base_name = merge_name merge_into;
  users_id = some req.user.id;
  comments = comments;
  closure_comment = "";
  request_ts = req.now;
  closed_ts = none;
  closed_uid = none;
  status = pending;
}

abbrev pub is_flagged_long : Request → PackageBase → Bool
is_flagged_long req pkgbase = elim pkgbase.out_of_date_ts [
  | none ↦ false
  | some ts ↦ not (ts == 0) && leb (ts + req.config.auto_orphan_age) req.now
]

abbrev pub is_submitted_lately : Request → PackageBase → Bool
is_submitted_lately req pkgbase = leb (req.now - pkgbase.submitted_ts) req.config.auto_delete_age

-- A request for a disown that is accepted at once.
unfoldable pub auto_orphan : Request → PackageBase → ℕ → Db → Db
auto_orphan req pkgbase reqid db =
    send (request_close_notification req.user.id reqid accepted ∷ [])
      (record (update_base pkgbase.id (set_maintainer none) db) {
        requests =
            update_where (λ r. r.id == reqid) (λ r. record r { status = accepted }) db.requests;
      })

-- After the request is there.
abbrev auto_close : Request → ReqType → PackageBase → String → ℕ → Db → Response × Db
auto_close req orphan pkgbase comments reqid db = (
  redirect "/packages",
  if is_flagged_long req pkgbase then auto_orphan req pkgbase reqid db else db,
)
auto_close req deletion pkgbase comments reqid db =
    if holds pkgbase.maintainer_uid req.user.id && is_submitted_lately req pkgbase
    then answer "/packages" (send_all [] (pkgbase_delete_instance req pkgbase comments db))
    else (redirect "/packages", db)
auto_close req merge pkgbase comments reqid db = (redirect "/packages", db)
auto_close req adoption pkgbase comments reqid db = (redirect "/packages", db)

unfoldable pub file_request : Request → ReqType → PackageBase → String → String → Db → Response × Db
unfolding auto_orphan pkgbase_delete_instance
file_request req reqtype pkgbase merge_into comments db =
    let reqid = db.next_request_id in
    let opened =
      request_open_notification req.user.id reqid reqtype pkgbase.id (merge_name merge_into) in
    auto_close req reqtype pkgbase comments reqid (
      send (opened ∷ [])
        (insert_request (submitted_request req reqtype pkgbase merge_into comments reqid) db))

unfoldable pub pkgbase_request_post :
    Request → String → String → String → String → Db → Response × Db
unfolding validate_request file_request
pkgbase_request_post req name type merge_into comments db = with_pkgbase name db (λ pkgbase.
    elim (types type) [
      | none ↦ (page "pkgbase/request.html" 400, db)
      | some reqtype ↦ elim (validate_request req pkgbase type comments merge_into db) [
        | some error ↦ (page "pkgbase/request.html" 200, db)
        | none ↦ file_request req reqtype pkgbase merge_into comments db
      ]
    ])

unfoldable pub pkgbase_delete_post : Request → String → Bool → String → String → Db → Response × Db
unfolding has_credential validate_comment pkgbase_delete_instance
pkgbase_delete_post req name confirm comments next db = with_pkgbase name db (λ pkgbase.
    if not (has_credential req.user pkgbase_delete [])
    then (redirect (pkgbase_path name), db)
    else if not confirm
    then (page "pkgbase/delete.html" 400, db)
    else with_optional_comment req comments db (
        let updated =
          if str_eq comments ""
          then db
          else set_closure_comment comments (is_pending_of pkgbase.id deletion) db in
        answer next (send_all [] (pkgbase_delete_instance req pkgbase comments updated))))

unfoldable pub pkgbase_merge_post :
    Request → String → String → String → Bool → String → Db → Response × Db
unfolding has_credential validate_comment update_closure_comment pkgbase_merge_instance
pkgbase_merge_post req name into comments confirm next db = with_pkgbase name db (λ pkgbase.
    if not (has_credential req.user pkgbase_merge [])
    then (page "pkgbase/merge.html" 401, db)
    else if not confirm
    then (page "pkgbase/merge.html" 400, db)
    else elim (base_of_name into db) [
      | none ↦ (page "pkgbase/merge.html" 400, db)
      | some target ↦
          if pkgbase.id == target.id
          then (page "pkgbase/merge.html" 400, db)
          else with_optional_comment req comments db (
              with_updated db (update_closure_comment pkgbase merge comments (some target) db)
                (λ updated.
                  answer (next_or next (pkgbase_path target.name))
                    (pkgbase_merge_instance req pkgbase target comments updated)))
    ])
