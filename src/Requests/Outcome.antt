-- ===== src/Requests/Outcome.antt =====
-- What `handle_request` of aurweb/packages/requests.py does to the table of requests.
use aurweb.Prelude.{
  ◌<◌, ◌≡◌, ◌≢◌, refl, sym, ap, ap₂, ◌∙◌, subst, Bool, true, false, not, ◌&&◌, String, List, [],
  ◌∷◌, ◌++◌, map, if◌then◌else◌, filter, any, contains, arith, All, filter-append, Distinct,
  Bool-cases, inl, inr, append-nil,
}
use aurweb.Models.{Db, PackageBase, PackageRequest, accepted, rejected, Request, Notification}
use aurweb.Requests.{
  Result, ok, close_all, ids, close_or_create, insert_request, needs_orphan_request,
  verify_orphan_request, handle_request, close_notifications,
}
use aurweb.Requests.Closing.{id_of}
use aurweb.Requests.Choice.{filter_congr, filter-filter, rejected_rows}
use aurweb.Requests.Handling.{
  Action, req_type_of, target_of, accept_ids_of, is_queried, is_accepted, settle, close_both_lem,
  is_acceptable-is_accepted,
}
use aurweb.Requests.Created.{
  new_row, with_new, accepts, rejects, new_request-new_row, is_queried-new_row, filter-nil,
  filter-ne_nil, All-accepts, All-rejects, Distinct-snoc, All-accepts_queried, All-rejects_queried,
}

module _ (req : Request) (pkgbase : PackageBase) (a : Action) (comments : String) (db : Db)
    (d : Distinct id_of db.requests)
    (below : All (λ r. r.id < db.next_request_id) db.requests) where
  abbrev fits : PackageRequest → Bool
  fits r = is_queried pkgbase a r && is_accepted a r

  abbrev query : List PackageRequest
  query = filter (is_queried pkgbase a) db.requests

  abbrev to_accept : List PackageRequest
  to_accept = filter (is_accepted a) query

  abbrev to_reject : List PackageRequest
  to_reject = filter (λ r. not (contains (ids to_accept) r.id)) query

  -- The table and the notifications that the calls leave on `table`.
  abbrev Settles : Result (List Notification) × Db → List PackageRequest → Type 0
  Settles out table =
      (out.0
        ≡ ok (
            close_notifications req accepted (filter (accepts pkgbase a db) table)
            ++ close_notifications req rejected (filter (rejects pkgbase a db) table)))
      × (out.1.requests
          ≡ map (settle req pkgbase a (accepts pkgbase a db) (rejects pkgbase a db)) table)

  to_accept-filter : to_accept ≡ filter (accepts pkgbase a db) db.requests
  to_accept-filter =
      filter-filter (is_accepted a) (is_queried pkgbase a) db.requests
      ∙ filter_congr fits (accepts pkgbase a db) db.requests
          (All-accepts (is_queried pkgbase a) (is_accepted a) db.next_request_id db.requests below)

  to_reject-filter : to_reject ≡ filter (rejects pkgbase a db) db.requests
  to_reject-filter =
      rejected_rows (is_queried pkgbase a) (is_accepted a) db.requests d
      ∙ filter_congr _ (rejects pkgbase a db) db.requests
          (All-rejects (is_queried pkgbase a) (is_accepted a) db.next_request_id db.requests below)

  -- The transaction on a table whose rows to close are those that `accepts` and `rejects` tell.
  close_all-Settles :
      (db' : Db)
      → Distinct id_of db'.requests
      → Settles
          (close_all req pkgbase
            (target_of a)
            (filter (accepts pkgbase a db) db'.requests)
            (filter (rejects pkgbase a db) db'.requests)
            db')
          db'.requests
  unfolding close_all
  close_all-Settles db' d' =
      let both =
        close_both_lem req pkgbase a (accepts pkgbase a db) (rejects pkgbase a db) db'.requests d'
          (All-accepts_queried pkgbase a db db'.requests)
          (All-rejects_queried pkgbase a db db'.requests) in
      rw (both, close_all) (refl, refl)

  create_nothing :
      (l : List PackageRequest)
      → l ≢ []
      → close_or_create req (req_type_of a) pkgbase (target_of a) comments l to_reject db
        ≡ close_all req pkgbase (target_of a) l to_reject db
  unfolding close_or_create
  create_nothing [] h = absurd (h refl)
  create_nothing (r ∷ l) h = refl

  create_one :
      close_or_create req (req_type_of a) pkgbase (target_of a) comments [] to_reject db
      ≡ close_all req pkgbase
          (target_of a)
          (new_row req pkgbase a comments db.next_request_id ∷ [])
          to_reject
          (insert_request (new_row req pkgbase a comments db.next_request_id) db)
  unfolding close_or_create
  create_one = rw (new_request-new_row req pkgbase a comments db.next_request_id, close_or_create)

  abbrev created : PackageRequest
  created = new_row req pkgbase a comments db.next_request_id

  close_old :
      any fits db.requests ≡ true
      → Settles
          (close_or_create req
            (req_type_of a)
            pkgbase
            (target_of a)
            comments
            to_accept
            to_reject
            db)
          db.requests
  close_old some_fit =
      let nonempty : to_accept ≢ [] = λ e.
        filter-ne_nil fits db.requests some_fit
          (sym (filter-filter (is_accepted a) (is_queried pkgbase a) db.requests) ∙ e) in
      rw (create_nothing to_accept nonempty) (
        subst (λ l. Settles (close_all req pkgbase (target_of a) l to_reject db) db.requests)
          (sym to_accept-filter)
          (subst
            (λ l.
              Settles
                (close_all req pkgbase (target_of a) (filter (accepts pkgbase a db) db.requests) l
                  db)
                db.requests)
            (sym to_reject-filter) (close_all-Settles db d)))

  accepts-created : accepts pkgbase a db created ≡ true
  accepts-created = ground (arith, is_queried-new_row req pkgbase a comments db.next_request_id)

  rejects-created : rejects pkgbase a db created ≡ false
  rejects-created = ground (arith, is_queried-new_row req pkgbase a comments db.next_request_id)

  close_new :
      any fits db.requests ≡ false
      → Settles
          (close_or_create req
            (req_type_of a)
            pkgbase
            (target_of a)
            comments
            to_accept
            to_reject
            db)
          (db.requests ++ created ∷ [])
  close_new none_fits =
      let none_accepted : to_accept ≡ [] =
        filter-filter (is_accepted a) (is_queried pkgbase a) db.requests
        ∙ filter-nil fits db.requests none_fits in
      let table = db.requests ++ created ∷ [] in
      let accept_path : filter (accepts pkgbase a db) table ≡ created ∷ [] =
        filter-append (accepts pkgbase a db) db.requests (created ∷ [])
        ∙ ap₂ (λ l b. l ++ (if b then created ∷ [] else [])) (sym to_accept-filter ∙ none_accepted)
            accepts-created in
      let reject_path : filter (rejects pkgbase a db) table ≡ to_reject =
        filter-append (rejects pkgbase a db) db.requests (created ∷ [])
        ∙ ap₂ (λ l b. l ++ (if b then created ∷ [] else [])) (sym to_reject-filter) rejects-created
        ∙ append-nil to_reject in
      let after = insert_request created db in
      let path =
        ap (λ l. close_or_create req (req_type_of a) pkgbase (target_of a) comments l to_reject db)
          none_accepted
        ∙ create_one
        ∙ ap₂ (λ l m. close_all req pkgbase (target_of a) l m after) (sym accept_path)
            (sym reject_path) in
      subst (λ out. Settles out table) (sym path)
        (close_all-Settles after (Distinct-snoc created db.requests d below))

-- What one call does to the requests, for each way in which the actions call it. It returns the
-- notifications of the requests that it accepts and of those that it rejects. A pending request of
-- the type, for the package base and under its name, is accepted if it fits the call, and rejected
-- if not; if none fits, one is created and accepted; the others do not change. The requests must
-- have distinct IDs below the next one, and a call for a disown must find a request that is due.
pub handle_request-Settles :
    (req : Request) (pkgbase : PackageBase) (a : Action) (comments : String) (db : Db)
    → Distinct id_of db.requests
    → All (λ r. r.id < db.next_request_id) db.requests
    → (needs_orphan_request (req_type_of a) && not (verify_orphan_request req pkgbase db)) ≡ false
    → ((handle_request req (req_type_of a) pkgbase (target_of a) comments (accept_ids_of a) db).0
        ≡ ok (
            close_notifications req accepted
              (filter (accepts pkgbase a db) (with_new req pkgbase a comments db))
            ++ close_notifications req rejected
                (filter (rejects pkgbase a db) (with_new req pkgbase a comments db))))
      × ((handle_request req
            (req_type_of a)
            pkgbase
            (target_of a)
            comments
            (accept_ids_of a)
            db).1.requests
          ≡ map
              (settle req pkgbase a (accepts pkgbase a db) (rejects pkgbase a db))
              (with_new req pkgbase a comments db))
unfolding handle_request
handle_request-Settles req pkgbase a comments db d below due =
    elim (Bool-cases (any (λ r. is_queried pkgbase a r && is_accepted a r) db.requests)) [
      | inl e ↦
          rw (due, is_acceptable-is_accepted a, e) (close_old req pkgbase a comments db d below e)
      | inr e ↦
          rw (due, is_acceptable-is_accepted a, e) (close_new req pkgbase a comments db d below e)
    ]
