-- ===== src/Votes.antt =====
-- The votes for package bases: aurweb/scripts/popupdate.py, and the routes of
-- aurweb/routers/pkgbase.py that vote. Popularity, a decimal, is no column
-- here; that it is counted anew is in the list `refreshed` of the database.
pub mod Counting
mod Tests
use aurweb.Prelude.{
  ℕ, Bool, not, ◌&&◌, List, [], ◌∷◌, ◌++◌, ◌==◌, if◌then◌else◌, any, count, update_where,
  delete_where,
}
use aurweb.Models.{Db, PackageBase, PackageVote, Request, update_base}
use aurweb.Creds.{pkgbase_vote, has_credential}

abbrev pub votes_for : ℕ → PackageVote → Bool
votes_for b v = v.package_base_id == b

abbrev pub is_vote : ℕ → ℕ → PackageVote → Bool
is_vote u b v = v.users_id == u && v.package_base_id == b

-- `run_variable` with one package base, which is refreshed whatever its age. The decimal Popularity and
-- its time are not columns of the model: `refreshed` tells that they are set, from the votes and the time.
unfoldable pub run_single : ℕ → Db → Db
run_single b db =
    record (update_base b (λ p. record p { num_votes = count (votes_for b) db.votes }) db) {
      refreshed = db.refreshed ++ b ∷ [];
    }

abbrev pub insert_vote : PackageVote → Db → Db
insert_vote v db = record db { votes = db.votes ++ v ∷ [] }

-- `pkgbase_vote` and `pkgbase_unvote`, from the package base on.
unfoldable pub vote : Request → PackageBase → Db → Db
unfolding run_single has_credential
vote req pkgbase db =
    if has_credential req.user pkgbase_vote []
      && not (any (is_vote req.user.id pkgbase.id) db.votes)
    then run_single pkgbase.id (
        insert_vote
          (record { users_id = req.user.id; package_base_id = pkgbase.id; vote_ts = req.now }) db)
    else db

unfoldable pub unvote : Request → PackageBase → Db → Db
unfolding run_single has_credential
unvote req pkgbase db =
    if has_credential req.user pkgbase_vote [] && any (is_vote req.user.id pkgbase.id) db.votes
    then run_single pkgbase.id
        (record db { votes = delete_where (is_vote req.user.id pkgbase.id) db.votes })
    else db
