-- ===== src/Actions.antt =====
-- aurweb/pkgbase/actions.py: what the website does to a package base. A function takes the row of
-- the package base as it was loaded. A deadlock, on which `retry_deadlock` runs a step again, does
-- not occur here.
pub mod Ownership
pub mod Merging
pub mod Counters
mod Tests
use aurweb.Prelude.{
  ℕ, ◌+◌, Bool, true, false, not, ◌&&◌, ◌||◌, String, Option, none, some, List, [], ◌∷◌, ◌++◌, ◌==◌,
  if◌then◌else◌, any, filter, find?, head?, map, is_some, holds, update_where, delete_where,
}
use aurweb.Models.{
  Db, User, PackageBase, PackageComaintainer, PackageRequest, PackageVote, PackageNotification,
  deletion, orphan, merge, adoption, pending, Request, Notification, adopt_notification,
  disown_notification, delete_notification, request_open_notification, send, update_base,
}
use aurweb.Creds.{pkgbase_adopt, pkgbase_disown, pkgbase_notify, pkgbase_unflag, has_credential}
use aurweb.Comaintainers.{of_base, in_line, remove_comaintainer}
use aurweb.Requests.{
  Result, ok, raise, multiple_results_found, is_pending_of, update_closure_comment, insert_request,
  handle_request,
}
use aurweb.Votes.{votes_for, run_single}

-- A nullable user in a list of approved users.
abbrev pub approved : Option ℕ → List ℕ
approved none = []
approved (some u) = u ∷ []

abbrev pub users_of : List PackageComaintainer → List ℕ
users_of [] = []
users_of (c ∷ cs) = c.users_id ∷ users_of cs

abbrev pub notifies : ℕ → ℕ → PackageNotification → Bool
notifies u b n = n.user_id == u && n.package_base_id == b

unfoldable pub pkgbase_notify_instance : Request → PackageBase → Db → Db
unfolding has_credential
pkgbase_notify_instance req pkgbase db =
    if has_credential req.user pkgbase_notify []
      && not (any (notifies req.user.id pkgbase.id) db.notifications)
    then record db {
      notifications =
          db.notifications ++ record { package_base_id = pkgbase.id; user_id = req.user.id } ∷ [];
    }
    else db

unfoldable pub pkgbase_unnotify_instance : Request → PackageBase → Db → Db
unfolding has_credential
pkgbase_unnotify_instance req pkgbase db =
    if has_credential req.user pkgbase_notify []
      && any (notifies req.user.id pkgbase.id) db.notifications
    then record db {
      notifications = delete_where (notifies req.user.id pkgbase.id) db.notifications;
    }
    else db

abbrev pub unflag : PackageBase → PackageBase
unflag p = record p { out_of_date_ts = none; flagger_uid = none; flagger_comment = "" }

unfoldable pub pkgbase_unflag_instance : Request → PackageBase → Db → Db
unfolding has_credential
pkgbase_unflag_instance req pkgbase db =
    if has_credential req.user pkgbase_unflag (
      approved pkgbase.flagger_uid
      ++ approved pkgbase.maintainer_uid
      ++ users_of (of_base pkgbase.id db.comaintainers))
    then update_base pkgbase.id unflag db
    else db

abbrev pub set_maintainer : Option ℕ → PackageBase → PackageBase
set_maintainer m p = record p { maintainer_uid = m }

-- SQLAlchemy's `one_or_none`.
abbrev pub one_or_none : List PackageComaintainer → Result (Option PackageComaintainer)
one_or_none [] = ok none
one_or_none (c ∷ []) = ok (some c)
one_or_none (c ∷ d ∷ cs) = raise multiple_results_found

-- The branch of the maintainer, given the next in line.
disown_maintained : PackageBase → Option PackageComaintainer → Db → List Notification × Db
disown_maintained pkgbase none db = ([], update_base pkgbase.id (set_maintainer none) db)
disown_maintained pkgbase (some c) db =
    let (notif, removed) =
      remove_comaintainer c (update_base pkgbase.id (set_maintainer (some c.users_id)) db) in
    (notif ∷ [], removed)

-- The branch of a privileged user, after `handle_request`.
disown_orphaned : PackageBase → Result (List Notification) × Db → Result (List Notification) × Db
disown_orphaned pkgbase (raise e, db) = (raise e, db)
disown_orphaned pkgbase (ok notifs, db) = (
  ok notifs,
  record (update_base pkgbase.id (set_maintainer none) db) {
    comaintainers = delete_where (λ c. c.package_base_id == pkgbase.id) db.comaintainers;
  },
)

disown_other : Request → PackageBase → Db → Result (List Notification) × Db
unfolding handle_request has_credential disown_orphaned
disown_other req pkgbase db =
    if has_credential req.user pkgbase_disown []
    then disown_orphaned pkgbase (handle_request req orphan pkgbase none "" none db)
    else (ok [], db)

disown_as :
    Request
    → PackageBase
    → Result (Option PackageComaintainer)
    → Db
    → Result (List Notification) × Db
unfolding disown_maintained disown_other remove_comaintainer
disown_as req pkgbase (raise e) db = (raise e, db)
disown_as req pkgbase (ok comaint) db =
    if holds pkgbase.maintainer_uid req.user.id
    then (let (notifs, after) =
          disown_maintained pkgbase (head? (in_line pkgbase.id db.comaintainers)) db in
        (ok notifs, after))
    else elim comaint [
      | some c ↦ let (notif, removed) = remove_comaintainer c db in (ok (notif ∷ []), removed)
      | none ↦ disown_other req pkgbase db
    ]

unfoldable pub retry_disown : Request → PackageBase → Db → Result (List Notification) × Db
unfolding disown_as
retry_disown req pkgbase db =
    disown_as req pkgbase
      (one_or_none (filter (λ c. c.users_id == req.user.id) (of_base pkgbase.id db.comaintainers)))
      db

-- `util.apply_all(notifs, lambda n: n.send())`, after a step that may have raised.
abbrev pub send_all : List Notification → Result (List Notification) × Db → Result (Unit {0}) × Db
send_all first (raise e, db) = (raise e, db)
send_all first (ok notifs, db) = (ok tt, send (first ++ notifs) db)

unfoldable pub pkgbase_disown_instance : Request → PackageBase → Db → Result (Unit {0}) × Db
unfolding retry_disown
pkgbase_disown_instance req pkgbase db =
    send_all (disown_notification req.user.id pkgbase.id ∷ []) (retry_disown req pkgbase db)

abbrev pub adoption_request : Request → PackageBase → ℕ → PackageRequest
adoption_request req pkgbase id = record {
  id = id;
  req_type = adoption;
  package_base_id = some pkgbase.id;
  package_base_name = pkgbase.name;
  merge_base_name = none;
  users_id = some req.user.id;
  comments = "Autogenerated by aurweb.";
  closure_comment = "";
  request_ts = req.now;
  closed_ts = none;
  closed_uid = none;
  status = pending;
}

-- The new maintainer and the requests to accept: those of the request that is granted, if any.
abbrev pub grant : Request → Option PackageRequest → ℕ × List ℕ
grant req none = (req.user.id, [])
grant req (some r) = elim r.users_id [ none ↦ (req.user.id, []) | some u ↦ (u, r.id ∷ []) ]

abbrev then_notify :
    Notification → Result (List Notification) × Db → Result (List Notification) × Db
then_notify n (raise e, db) = (raise e, db)
then_notify n (ok notifs, db) = (ok (notifs ++ n ∷ []), db)

adopt_privileged : Request → PackageBase → ℕ × List ℕ → Db → Result (Unit {0}) × Db
unfolding handle_request
adopt_privileged req pkgbase (new_maintainer, accept_ids) db = send_all [] (
    then_notify (adopt_notification new_maintainer pkgbase.id) (
      handle_request req adoption pkgbase none "" (some accept_ids)
        (update_base pkgbase.id (set_maintainer (some new_maintainer)) db)))

unfoldable pub request_adoption : Request → PackageBase → Db → Db
request_adoption req pkgbase db =
    let opened =
      request_open_notification req.user.id db.next_request_id adoption pkgbase.id none in
    if any (is_pending_of pkgbase.id adoption) db.requests
    then db
    else send (opened ∷ []) (insert_request (adoption_request req pkgbase db.next_request_id) db)

unfoldable pub pkgbase_adopt_instance :
    Request → PackageBase → Option PackageRequest → Db → Result (Unit {0}) × Db
unfolding adopt_privileged request_adoption has_credential
pkgbase_adopt_instance req pkgbase pkgreq db =
    if has_credential req.user pkgbase_adopt []
    then adopt_privileged req pkgbase (grant req pkgreq) db
    else (ok tt, request_adoption req pkgbase db)

abbrev forget_base : ℕ → PackageRequest → PackageRequest
forget_base b r = record r {
  package_base_id = if holds r.package_base_id b then none else r.package_base_id;
}

-- `db.delete(pkgbase)`: the rows that belong to the package base go with it, by the cascades of the
-- models; its requests stay, with no package base.
unfoldable pub delete_base : ℕ → Db → Db
delete_base b db = record db {
  package_bases = delete_where (λ p. p.id == b) db.package_bases;
  packages = delete_where (λ p. p.package_base_id == b) db.packages;
  comaintainers = delete_where (λ c. c.package_base_id == b) db.comaintainers;
  requests = map (forget_base b) db.requests;
  votes = delete_where (votes_for b) db.votes;
  notifications = delete_where (λ n. n.package_base_id == b) db.notifications;
  comments = delete_where (λ c. c.package_base_id == b) db.comments;
  keywords = delete_where (λ k. k.package_base_id == b) db.keywords;
}

-- The transaction of `_retry_delete`.
abbrev pub delete_updated : ℕ → Result Db → Db → Result (Unit {0}) × Db
delete_updated b (raise e) db = (raise e, db)
delete_updated b (ok updated) db = (ok tt, delete_base b updated)

abbrev pub after_delete :
    List Notification → Result (Unit {0}) × Db → Result (List Notification) × Db
after_delete notifs (raise e, db) = (raise e, db)
after_delete notifs (ok _, db) = (ok notifs, db)

abbrev pub delete_handled :
    Request
    → PackageBase
    → String
    → Result (List Notification) × Db
    → Result (List Notification) × Db
delete_handled req pkgbase comments (raise e, db) = (raise e, db)
delete_handled req pkgbase comments (ok notifs, db) =
    after_delete (notifs ++ delete_notification req.user.id pkgbase.id ∷ [])
      (delete_updated pkgbase.id (update_closure_comment pkgbase deletion comments none db) db)

unfoldable pub pkgbase_delete_instance :
    Request → PackageBase → String → Db → Result (List Notification) × Db
unfolding handle_request update_closure_comment delete_base
pkgbase_delete_instance req pkgbase comments db =
    delete_handled req pkgbase comments (handle_request req deletion pkgbase none comments none db)

abbrev pub has_vote : ℕ → ℕ → Db → Bool
has_vote u b db = any (λ v. v.users_id == u && v.package_base_id == b) db.votes

abbrev pub has_notification : ℕ → ℕ → Db → Bool
has_notification u b db = any (notifies u b) db.notifications

-- The first transaction of `_retry_merge`; the tests are on the votes and notifications that the
-- target had before.
unfoldable pub move_to : ℕ → ℕ → Db → Db
move_to b target db = record db {
  comments =
      update_where (λ c. c.package_base_id == b) (λ c. record c { package_base_id = target })
        db.comments;
  notifications =
      update_where (λ n. n.package_base_id == b && not (has_notification n.user_id target db))
        (λ n. record n { package_base_id = target }) db.notifications;
  votes =
      update_where (λ v. v.package_base_id == b && not (has_vote v.users_id target db))
        (λ v. record v { package_base_id = target }) db.votes;
}

unfoldable pub retry_merge : PackageBase → PackageBase → Db → Db
unfolding move_to run_single delete_base
retry_merge pkgbase target db =
    delete_base pkgbase.id (run_single target.id (move_to pkgbase.id target.id db))

abbrev pub merge_handled :
    PackageBase → PackageBase → Result (List Notification) × Db → Result (List Notification) × Db
merge_handled pkgbase target (raise e, db) = (raise e, db)
merge_handled pkgbase target (ok notifs, db) = (ok notifs, retry_merge pkgbase target db)

unfoldable pub pkgbase_merge_instance :
    Request → PackageBase → PackageBase → String → Db → Result (Unit {0}) × Db
unfolding handle_request retry_merge
pkgbase_merge_instance req pkgbase target comments db =
    send_all [] (
      merge_handled pkgbase target
        (handle_request req merge pkgbase (some target) comments none db))
