-- ===== src/Maintenance.antt =====
-- The scripts that run at intervals: aurweb/scripts/accountmaint.py, requestmaint.py, usermaint.py and
-- votereminder.py. The time of a run is an argument, also where accountmaint reads the clock again to
-- issue a token; times are seconds. The token of the verification of an address is a random text and
-- is left out; its expiry is modelled.
pub mod Accounts
pub mod Requests
pub mod Warnings
pub mod Deletions
mod Tests
use aurweb.Prelude.{
  ℕ, ◌+◌, Bool, true, false, not, ◌&&◌, ◌||◌, Option, none, some, List, [], ◌∷◌, any, holds, ltb,
  leb, ◌==◌,
}
use aurweb.Models.{Db, User}
use aurweb.Proposals.{VoteInfo, Vote}

-- The database with the tables of the proposals.
pub record World : Type 0 where
  pub main : Db
  pub voteinfos : List VoteInfo
  pub proposal_votes : List Vote

-- `owns_content`: the columns of CONTENT_COLUMNS, in its order.
unfoldable pub owns_content : ℕ → World → Bool
owns_content u w =
    let db = w.main in
    any (λ c. holds c.users_id u) db.comments
    || any (λ c. holds c.edited_users_id u) db.comments
    || any (λ c. holds c.del_users_id u) db.comments
    || any (λ p. holds p.maintainer_uid u) db.package_bases
    || any (λ p. holds p.submitter_uid u) db.package_bases
    || any (λ p. holds p.packager_uid u) db.package_bases
    || any (λ p. holds p.flagger_uid u) db.package_bases
    || any (λ v. v.users_id == u) db.votes
    || any (λ c. c.users_id == u) db.comaintainers
    || any (λ r. holds r.users_id u) db.requests
    || any (λ r. holds r.closed_uid u) db.requests
    || any (λ n. n.user_id == u) db.notifications
    || any (λ v. v.submitter_id == u) w.voteinfos
    || any (λ v. v.user_id == u) w.proposal_votes
