-- ===== src/Requests/Pending.antt =====
-- The requests that are pending after `handle_request` of aurweb/packages/requests.py.
use aurweb.Prelude.{
  holds, str_eq, ◌<◌, ◌≡◌, refl, ap, ◌∙◌, Bool, true, false, not, ◌&&◌, ◌||◌, String, List, [], ◌∷◌,
  map, ◌==◌, if◌then◌else◌, any, arith, All, Distinct,
}
use aurweb.Models.{
  same_status, same_req_type, Db, PackageBase, PackageRequest, pending, accepted, rejected, Request,
}
use aurweb.Requests.{needs_orphan_request, verify_orphan_request, handle_request}
use aurweb.Requests.Closing.{id_of}
use aurweb.Requests.Handling.{
  Action, req_type_of, target_of, accept_ids_of, is_queried, is_accepted, settle, closed_row,
}
use aurweb.Requests.Created.{with_new, accepts, rejects}
use aurweb.Requests.Outcome.{handle_request-Settles}

and_false : (b c e : Bool) {d : Bool} → d ≡ false → ((b && c && d) && e) ≡ false
and_false b c e h = ground (arith, h)

or_false : {b c : Bool} → b ≡ false → c ≡ false → (b || c) ≡ false
or_false h k = ground (arith, h, k)

is_queried-closed :
    (pkgbase : PackageBase) (a : Action) (r : PackageRequest)
    → same_status r.status pending ≡ false
    → is_queried pkgbase a r ≡ false
is_queried-closed pkgbase a r h =
    and_false (holds r.package_base_id pkgbase.id) (same_req_type r.req_type (req_type_of a))
      (str_eq r.package_base_name pkgbase.name) h

any-choice :
    (q : PackageRequest → Bool) (x y z : PackageRequest) (b c : Bool)
    → q x ≡ b
    → q y ≡ false
    → q z ≡ false
    → q (if b && not c then y else if b && c then z else x) ≡ false
any-choice q x y z true true ex ey ez = ez
any-choice q x y z true false ex ey ez = ey
any-choice q x y z false c ex ey ez = ex

any-settle :
    (req : Request) (pkgbase : PackageBase) (a : Action) (db : Db) (xs : List PackageRequest)
    → any
        (is_queried pkgbase a)
        (map (settle req pkgbase a (accepts pkgbase a db) (rejects pkgbase a db)) xs)
      ≡ false
any-settle req pkgbase a db [] = refl
any-settle req pkgbase a db (x ∷ xs) =
    or_false
      (any-choice (is_queried pkgbase a) x (closed_row req pkgbase a rejected x)
        (closed_row req pkgbase a accepted x) (is_queried pkgbase a x)
        (is_accepted a x || x.id == db.next_request_id) refl
        (is_queried-closed pkgbase a (closed_row req pkgbase a rejected x) refl)
        (is_queried-closed pkgbase a (closed_row req pkgbase a accepted x) refl))
      (any-settle req pkgbase a db xs)

-- After `handle_request`, as an action calls it, no request of its type is pending for the package base under its name. The
-- requests must have distinct IDs below the next one, and a call for a disown must find a request
-- that is due.
pub handle_request-none_pending :
    (req : Request) (pkgbase : PackageBase) (a : Action) (comments : String) (db : Db)
    → Distinct id_of db.requests
    → All (λ r. r.id < db.next_request_id) db.requests
    → (needs_orphan_request (req_type_of a) && not (verify_orphan_request req pkgbase db)) ≡ false
    → any
        (is_queried pkgbase a)
        (handle_request req
          (req_type_of a)
          pkgbase
          (target_of a)
          comments
          (accept_ids_of a)
          db).1.requests
      ≡ false
handle_request-none_pending req pkgbase a comments db d below due =
    let (_, table) = handle_request-Settles req pkgbase a comments db d below due in
    ap (any (is_queried pkgbase a)) table
    ∙ any-settle req pkgbase a db (with_new req pkgbase a comments db)
