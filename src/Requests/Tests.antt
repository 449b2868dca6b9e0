-- ===== src/Requests/Tests.antt =====
-- Handling a request in the sample database.
use aurweb.Prelude.{◌≡◌, ◌<◌, refl, false, none, arith, All, Distinct, map, filter, any, ◌++◌}
use aurweb.Models.{orphan, accepted, rejected}
use aurweb.Requests.{ok, handle_request, verify_orphan_request, close_notifications}
use aurweb.Requests.Closing.{id_of}
use aurweb.Requests.Handling.{to_disown, is_queried, settle}
use aurweb.Requests.Created.{accepts, rejects, with_new}
use aurweb.Requests.Pending.{handle_request-none_pending}
use aurweb.Requests.Outcome.{handle_request-Settles}
use aurweb.Samples.{db, foo, carol, request_by}

Distinct-requests : Distinct id_of db.requests
Distinct-requests = ((ground arith, tt), (tt, tt))

below : All (λ r. r.id < db.next_request_id) db.requests
below = (omega arith, (omega arith, tt))

-- The request to disown is due, so a disown accepts it.
handle_request-Settles_example :
    ((handle_request (request_by carol 900) orphan foo none "" none db).0
      ≡ ok (
          close_notifications (request_by carol 900) accepted (
            filter (accepts foo to_disown db) (with_new (request_by carol 900) foo to_disown "" db))
          ++ close_notifications (request_by carol 900) rejected (
              filter
                (rejects foo to_disown db)
                (with_new (request_by carol 900) foo to_disown "" db))))
    × ((handle_request (request_by carol 900) orphan foo none "" none db).1.requests
        ≡ map
            (settle
              (request_by carol 900)
              foo
              to_disown
              (accepts foo to_disown db)
              (rejects foo to_disown db))
            (with_new (request_by carol 900) foo to_disown "" db))
unfolding verify_orphan_request
handle_request-Settles_example =
    handle_request-Settles (request_by carol 900) foo to_disown "" db Distinct-requests below refl

handle_request-none_pending_example :
    any
      (is_queried foo to_disown)
      (handle_request (request_by carol 900) orphan foo none "" none db).1.requests
    ≡ false
unfolding verify_orphan_request
handle_request-none_pending_example =
    handle_request-none_pending (request_by carol 900) foo to_disown "" db Distinct-requests below
      refl
