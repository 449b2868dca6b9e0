-- ===== src/Requests.antt =====
-- aurweb/packages/requests.py: package requests, and what an action on a package base does to them.
-- A failure is the exception that the code raises; the state beside it is what was committed. The
-- retries of aurweb/db.py on a deadlock are left out: no statement fails here.
pub mod Tables
pub mod Closing
pub mod Choice
pub mod Handling
pub mod Created
pub mod Outcome
pub mod Pending
mod Tests
use aurweb.Prelude.{
  ℕ, ◌+◌, ◌-◌, Bool, true, false, not, ◌&&◌, String, Option, none, some, List, [], ◌∷◌, ◌++◌, map,
  ◌==◌, if◌then◌else◌, ltb, filter, any, contains, holds, str_eq, update_where, f_string,
}
use aurweb.Models.{
  Db, User, PackageBase, PackageRequest, ReqType, deletion, orphan, merge, adoption, Status,
  pending, accepted, rejected, Request, Notification, request_close_notification, same_req_type,
  same_status,
}

pub data Failure : Type 0 where
  invariant_error : String → Failure
  not_implemented_error attribute_error multiple_results_found : Failure

pub data Result {ℓ} (A : Type ℓ) : Type ℓ where
  ok : A → Result A
  raise : Failure → Result A

infixl 5 ◌>>=◌
abbrev pub ◌>>=◌ {ℓ κ} : {A : Type ℓ} {B : Type κ} → Result A → (A → Result B) → Result B
ok a >>= f = f a
raise e >>= f = raise e

-- `getattr` finds the method of `ClosureFactory` by the name of the request type, behind `_rejected`
-- if the request is rejected; the methods for merge requests read the target's name.
unfoldable pub get_closure : ReqType → PackageBase → Option PackageBase → Status → Result String
get_closure adoption pkgbase target rejected =
    ok (f_string ("[Autogenerated] Rejected adoption for " ∷ pkgbase.name ∷ "." ∷ []))
get_closure merge pkgbase none rejected = raise attribute_error
get_closure merge pkgbase (some target) rejected = ok (
    f_string (
      "[Autogenerated] Another request to merge " ∷ pkgbase.name ∷ " into " ∷ target.name
      ∷ " has rendered this request invalid." ∷ []))
get_closure deletion pkgbase target rejected = raise not_implemented_error
get_closure orphan pkgbase target rejected = raise not_implemented_error
get_closure deletion pkgbase target status =
    ok (f_string ("[Autogenerated] Accepted deletion for " ∷ pkgbase.name ∷ "." ∷ []))
get_closure merge pkgbase none status = raise attribute_error
get_closure merge pkgbase (some target) status = ok (
    f_string
      ("[Autogenerated] Accepted merge for " ∷ pkgbase.name ∷ " into " ∷ target.name ∷ "." ∷ []))
get_closure orphan pkgbase target status =
    ok (f_string ("[Autogenerated] Accepted orphan for " ∷ pkgbase.name ∷ "." ∷ []))
get_closure adoption pkgbase target status =
    ok (f_string ("[Autogenerated] Accepted adoption for " ∷ pkgbase.name ∷ "." ∷ []))

-- The requests of a package base, of a type, that are pending.
abbrev pub is_pending_of : ℕ → ReqType → PackageRequest → Bool
is_pending_of b reqtype r =
    holds r.package_base_id b && same_req_type r.req_type reqtype && same_status r.status pending

abbrev pub merges_into : PackageBase → PackageRequest → Bool
merges_into target r = elim r.merge_base_name [ none ↦ false | some name ↦ str_eq name target.name ]

abbrev pub set_closure_comment : String → (PackageRequest → Bool) → Db → Db
set_closure_comment comments p db = record db {
  requests = update_where p (λ r. record r { closure_comment = comments }) db.requests;
}

-- A merge request without a target is an error only where comments are given.
unfoldable pub update_closure_comment :
    PackageBase → ReqType → String → Option PackageBase → Db → Result Db
update_closure_comment pkgbase merge comments none db =
    if str_eq comments "" then ok db else raise attribute_error
update_closure_comment pkgbase merge comments (some target) db =
    if str_eq comments ""
    then ok db
    else ok (
        set_closure_comment comments (λ r. is_pending_of pkgbase.id merge r && merges_into target r)
          db)
update_closure_comment pkgbase reqtype comments target db =
    if str_eq comments ""
    then ok db
    else ok (set_closure_comment comments (is_pending_of pkgbase.id reqtype) db)

-- The test of the loop in `verify_orphan_request`.
abbrev pub is_due : Request → PackageRequest → Bool
is_due req r =
    same_status r.status pending && ltb req.config.request_idle_time (req.now - r.request_ts)

unfoldable pub verify_orphan_request : Request → PackageBase → Db → Bool
verify_orphan_request req pkgbase db = any (is_due req) (
    filter (λ r. holds r.package_base_id pkgbase.id && same_req_type r.req_type orphan) db.requests)

abbrev pub closed_by : Request → Status → String → PackageRequest → PackageRequest
closed_by req status comment r = record r {
  status = status;
  closed_uid = some req.user.id;
  closure_comment = comment;
  closed_ts = some req.now;
}

unfoldable pub close_pkgreq :
    Request → PackageBase → Option PackageBase → Status → PackageRequest → Result PackageRequest
close_pkgreq req pkgbase target status r = do
  comment ←
      if str_eq r.closure_comment ""
      then get_closure r.req_type pkgbase target status
      else ok r.closure_comment
  ok (closed_by req status comment r)

abbrev pub same_id : PackageRequest → PackageRequest → Bool
same_id p r = r.id == p.id

-- `util.apply_all` with `close_pkgreq` over rows that were read before.
pub close_each :
    (PackageRequest → Result PackageRequest)
    → List PackageRequest
    → List PackageRequest
    → Result (List PackageRequest)
close_each close [] table = ok table
close_each close (p ∷ ps) table = do
  p' ← close p
  close_each close ps (update_where (same_id p) (λ _. p') table)

-- The base query of `handle_request`.
abbrev pub in_query : PackageBase → ReqType → PackageRequest → Bool
in_query pkgbase reqtype r =
    is_pending_of pkgbase.id reqtype r && str_eq r.package_base_name pkgbase.name

-- What `accept_query` adds to the base query.
abbrev pub is_acceptable : Option PackageBase → Option (List ℕ) → PackageRequest → Bool
is_acceptable (some target) accept_ids r = merges_into target r
is_acceptable none none r = true
is_acceptable none (some ids) r = contains ids r.id

abbrev pub ids : List PackageRequest → List ℕ
ids [] = []
ids (r ∷ rs) = r.id ∷ ids rs

-- The request that is created where none can be accepted.
pub new_request :
    Request → ReqType → PackageBase → Option PackageBase → String → ℕ → Result PackageRequest
new_request req merge pkgbase none comments id = raise attribute_error
new_request req merge pkgbase (some target) comments id = ok (record {
  id = id;
  req_type = merge;
  package_base_id = some pkgbase.id;
  package_base_name = pkgbase.name;
  merge_base_name = some target.name;
  users_id = some req.user.id;
  comments = "Autogenerated by aurweb.";
  closure_comment = comments;
  request_ts = req.now;
  closed_ts = none;
  closed_uid = none;
  status = pending;
})
new_request req reqtype pkgbase target comments id = ok (record {
  id = id;
  req_type = reqtype;
  package_base_id = some pkgbase.id;
  package_base_name = pkgbase.name;
  merge_base_name = none;
  users_id = some req.user.id;
  comments = "Autogenerated by aurweb.";
  closure_comment = comments;
  request_ts = req.now;
  closed_ts = none;
  closed_uid = none;
  status = pending;
})

abbrev pub close_notifications : Request → Status → List PackageRequest → List Notification
close_notifications req status [] = []
close_notifications req status (r ∷ rs) =
    request_close_notification req.user.id r.id status ∷ close_notifications req status rs

-- The body of `retry_closures`, on the table of requests.
pub close_both :
    Request
    → PackageBase
    → Option PackageBase
    → List PackageRequest
    → List PackageRequest
    → List PackageRequest
    → Result (List PackageRequest)
unfolding close_each
close_both req pkgbase target to_accept to_reject table = do
  accepted_table ← close_each (close_pkgreq req pkgbase target accepted) to_accept table
  close_each (close_pkgreq req pkgbase target rejected) to_reject accepted_table

-- It is one transaction: an exception undoes it.
pub close_all :
    Request
    → PackageBase
    → Option PackageBase
    → List PackageRequest
    → List PackageRequest
    → Db
    → Result (List Notification) × Db
unfolding close_both
close_all req pkgbase target to_accept to_reject db =
    elim (close_both req pkgbase target to_accept to_reject db.requests) [
      | ok table ↦ (
        ok (
            close_notifications req accepted to_accept
            ++ close_notifications req rejected to_reject),
        record db { requests = table },
      )
      | raise e ↦ (raise e, db)
    ]

abbrev pub insert_request : PackageRequest → Db → Db
insert_request r db = record db {
  requests = db.requests ++ r ∷ [];
  next_request_id = db.next_request_id + 1;
}

-- From the lists of requests to accept and to reject on.
pub close_or_create :
    Request
    → ReqType
    → PackageBase
    → Option PackageBase
    → String
    → List PackageRequest
    → List PackageRequest
    → Db
    → Result (List Notification) × Db
unfolding close_all new_request
close_or_create req reqtype pkgbase target comments [] to_reject db =
    elim (new_request req reqtype pkgbase target comments db.next_request_id) [
      | raise e ↦ (raise e, db)
      | ok r ↦ close_all req pkgbase target (r ∷ []) to_reject (insert_request r db)
    ]
close_or_create req reqtype pkgbase target comments (p ∷ ps) to_reject db =
    close_all req pkgbase target (p ∷ ps) to_reject db

abbrev pub needs_orphan_request : ReqType → Bool
needs_orphan_request orphan = true
needs_orphan_request _ = false

unfoldable pub handle_request :
    Request
    → ReqType
    → PackageBase
    → Option PackageBase
    → String
    → Option (List ℕ)
    → Db
    → Result (List Notification) × Db
unfolding verify_orphan_request close_or_create
handle_request req reqtype pkgbase target comments accept_ids db =
    let query = filter (in_query pkgbase reqtype) db.requests in
    let to_accept = filter (is_acceptable target accept_ids) query in
    let to_reject = filter (λ r. not (contains (ids to_accept) r.id)) query in
    if needs_orphan_request reqtype && not (verify_orphan_request req pkgbase db)
    then (raise (invariant_error pkgbase.name), db)
    else close_or_create req reqtype pkgbase target comments to_accept to_reject db
