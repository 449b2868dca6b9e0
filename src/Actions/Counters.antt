-- ===== src/Actions/Counters.antt =====
-- The vote counters under the actions of aurweb/pkgbase/actions.py that delete package bases.
use aurweb.Prelude.{ℕ, ◌≡◌, sym, subst, false, String, none, some, List, [], ◌==◌, All, count}
use aurweb.Models.{Db, PackageBase, deletion, merge, Request, Notification}
use aurweb.Requests.{Result, ok, raise, handle_request, update_closure_comment}
use aurweb.Requests.Tables.{
  tallies, KeepsTallies, update_closure_comment-KeepsTallies, handle_request-tallies,
}
use aurweb.Votes.{votes_for}
use aurweb.Votes.Counting.{IsCounted, IsCounted-CountedBut}
use aurweb.Actions.{
  delete_base, delete_updated, after_delete, delete_handled, pkgbase_delete_instance, merge_handled,
  send_all, pkgbase_merge_instance,
}
use aurweb.Actions.Merging.{remaining, retry_merge-IsCounted}

-- What the counters depend on.
pub IsCounted-tallies : (db db' : Db) → tallies db' ≡ tallies db → IsCounted db → IsCounted db'
IsCounted-tallies db db' e h =
    subst (λ t. All (λ p. p.num_votes ≡ count (votes_for p.id) t.1) t.0) (sym e) h

send_all-IsCounted :
    (first : List Notification) (r : Result (List Notification) × Db)
    → IsCounted r.1
    → IsCounted (send_all first r).1
send_all-IsCounted first (raise e, db) h = h
send_all-IsCounted first (ok notifs, db) h = h

merge_handled-IsCounted :
    (pkgbase target : PackageBase) (r : Result (List Notification) × Db)
    → (pkgbase.id == target.id) ≡ false
    → IsCounted r.1
    → IsCounted (merge_handled pkgbase target r).1
merge_handled-IsCounted pkgbase target (raise e, db) other h = h
merge_handled-IsCounted pkgbase target (ok notifs, db) other h =
    retry_merge-IsCounted pkgbase target db other h

-- Merging a package base into another keeps the vote counters right, whether it returns or raises.
pub pkgbase_merge_instance-IsCounted :
    (req : Request) (pkgbase target : PackageBase) (comments : String) (db : Db)
    → (pkgbase.id == target.id) ≡ false
    → IsCounted db
    → IsCounted (pkgbase_merge_instance req pkgbase target comments db).1
unfolding pkgbase_merge_instance
pkgbase_merge_instance-IsCounted req pkgbase target comments db other h =
    let handled = handle_request req merge pkgbase (some target) comments none db in
    send_all-IsCounted [] (merge_handled pkgbase target handled) (
      merge_handled-IsCounted pkgbase target handled other (
        IsCounted-tallies db handled.1
          (handle_request-tallies req merge pkgbase (some target) comments none db) h))

delete_base-IsCounted : (b : ℕ) (db : Db) → IsCounted db → IsCounted (delete_base b db)
unfolding delete_base
delete_base-IsCounted b db h =
    remaining b db.votes db.package_bases (IsCounted-CountedBut b db.votes db.package_bases h)

delete_updated-IsCounted :
    (b : ℕ) (r : Result Db) (db : Db)
    → KeepsTallies db r
    → IsCounted db
    → IsCounted (delete_updated b r db).1
delete_updated-IsCounted b (raise e) db same h = h
delete_updated-IsCounted b (ok updated) db same h =
    delete_base-IsCounted b updated (IsCounted-tallies db updated same h)

after_delete-IsCounted :
    (notifs : List Notification) (r : Result (Unit {0}) × Db)
    → IsCounted r.1
    → IsCounted (after_delete notifs r).1
after_delete-IsCounted notifs (raise e, db) h = h
after_delete-IsCounted notifs (ok _, db) h = h

delete_handled-IsCounted :
    (req : Request) (pkgbase : PackageBase) (comments : String)
    (r : Result (List Notification) × Db)
    → IsCounted r.1
    → IsCounted (delete_handled req pkgbase comments r).1
delete_handled-IsCounted req pkgbase comments (raise e, db) h = h
delete_handled-IsCounted req pkgbase comments (ok notifs, db) h =
    let updated = update_closure_comment pkgbase deletion comments none db in
    after_delete-IsCounted _ (delete_updated pkgbase.id updated db) (
      delete_updated-IsCounted pkgbase.id updated db
        (update_closure_comment-KeepsTallies pkgbase deletion comments none db) h)

-- Deleting a package base keeps the vote counters of the others right, whether it returns or
-- raises.
pub pkgbase_delete_instance-IsCounted :
    (req : Request) (pkgbase : PackageBase) (comments : String) (db : Db)
    → IsCounted db
    → IsCounted (pkgbase_delete_instance req pkgbase comments db).1
unfolding pkgbase_delete_instance
pkgbase_delete_instance-IsCounted req pkgbase comments db h =
    let handled = handle_request req deletion pkgbase none comments none db in
    delete_handled-IsCounted req pkgbase comments handled (
      IsCounted-tallies db handled.1
        (handle_request-tallies req deletion pkgbase none comments none db) h)
