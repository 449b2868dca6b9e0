-- ===== src/Serve/Agreement.antt =====
-- Voting over SSH against voting on the website: aurweb/git/serve.py and aurweb/routers/pkgbase.py.
use aurweb.Prelude.{
  ℕ, ◌+◌, ◌-◌, ◌≡◌, refl, sym, ap, ap₂, ◌∙◌, true, false, String, some, List, [], ◌∷◌, ◌++◌, ◌==◌,
  any, count, update_where, delete_where, arith, All, count-append, ==_sound, ==_refl, Bool-cases,
  inl, inr, if◌then◌else◌,
}
use aurweb.Models.{Db, User, PackageBase, PackageVote, Config, base_of_name, user_of_name}
use aurweb.Creds.{pkgbase_vote as voting, has_credential}
use aurweb.Votes.{votes_for, is_vote, vote, unvote, run_single}
use aurweb.Votes.Counting.{IsCounted}
use aurweb.Serve.{Session, require_pkgbase, require_user}
use aurweb.Serve.Commands.{pkgbase_vote, pkgbase_unvote}
use aurweb.Serve.Voting.{count-withdrawn, OncePerUser}

-- Counting up or down is counting anew, where the counters are right.
recount :
    (b n : ℕ) (f : ℕ → ℕ) (vs : List PackageVote) (ps : List PackageBase)
    → f (count (votes_for b) vs) ≡ n
    → All (λ p. p.num_votes ≡ count (votes_for p.id) vs) ps
    → update_where (λ p. p.id == b) (λ p. record p { num_votes = f p.num_votes }) ps
      ≡ update_where (λ p. p.id == b) (λ p. record p { num_votes = n }) ps
recount b n f vs [] e h = refl
recount b n f vs (p ∷ ps) e h = elim (Bool-cases (p.id == b)) [
  | inl is ↦ rw is (
      ap₂ (λ m l. record p { num_votes = m } ∷ l)
        (ap f h.0 ∙ ap (λ a. f (count (votes_for a) vs)) (==_sound p.id b is) ∙ e)
        (recount b n f vs ps e h.1))
  | inr is ↦ rw is (ap (λ l. p ∷ l) (recount b n f vs ps e h.1))
]

count-inserted_vote :
    (u b now : ℕ) (vs : List PackageVote)
    → count (votes_for b) vs + 1
      ≡ count (votes_for b) (vs ++ record { users_id = u; package_base_id = b; vote_ts = now } ∷ [])
count-inserted_vote u b now vs = sym (count-append (votes_for b) vs _ ∙ ground arith)

-- A vote over SSH leaves the votes, the counters NumVotes and all other tables as the same vote on the
-- website does, by a user that may vote there and where the counters are right; but it leaves Popularity
-- alone, which a new vote on the website sets anew for the package base. The package base and the user
-- are found by their names, and their IDs are not 0.
pub pkgbase_vote-vote :
    (s : Session) (pkgbase : String) (config : Config) (p : PackageBase) (u : User) (db : Db)
    → base_of_name pkgbase db ≡ some p
    → (p.id == 0) ≡ false
    → user_of_name s.user db ≡ some u
    → (u.id == 0) ≡ false
    → has_credential u voting [] ≡ true
    → IsCounted db
    → let site = vote (record { user = u; now = s.now; config = config }) p db in
      ((pkgbase_vote s pkgbase db).1 ≡ record site { refreshed = db.refreshed })
      × (site.refreshed
          ≡ (if any (is_vote u.id p.id) db.votes then db.refreshed else db.refreshed ++ p.id ∷ []))
unfolding pkgbase_vote vote require_pkgbase require_user run_single
pkgbase_vote-vote s pkgbase config p u db found nonzero known real cred h =
    elim (Bool-cases (any (is_vote u.id p.id) db.votes)) [
      | inl v ↦ rw (found, nonzero, known, real, cred, v) (refl, refl)
      | inr v ↦
          rw (found, nonzero, known, real, cred, v)
            (
              ap
                  (λ bases. record db {
                    package_bases = bases;
                    votes =
                        db.votes
                        ++ record { users_id = u.id; package_base_id = p.id; vote_ts = s.now } ∷ [];
                  })
                  (recount p.id _ (λ n. n + 1) db.votes db.package_bases
                    (count-inserted_vote u.id p.id s.now db.votes) h),
              refl,
            )
    ]

-- Withdrawing a vote over SSH leaves the database as withdrawing it on the website does, Popularity
-- apart, by a user that may vote there, where the counters are right and each user voted at most once for a package
-- base. The package base and the user are found by their names, and their IDs are not 0.
pub pkgbase_unvote-unvote :
    (s : Session) (pkgbase : String) (config : Config) (p : PackageBase) (u : User) (db : Db)
    → base_of_name pkgbase db ≡ some p
    → (p.id == 0) ≡ false
    → user_of_name s.user db ≡ some u
    → (u.id == 0) ≡ false
    → has_credential u voting [] ≡ true
    → OncePerUser db.votes
    → IsCounted db
    → (pkgbase_unvote s pkgbase db).1
      ≡ record (unvote (record { user = u; now = s.now; config = config }) p db) {
        refreshed = db.refreshed;
      }
unfolding pkgbase_unvote unvote require_pkgbase require_user run_single
pkgbase_unvote-unvote s pkgbase config p u db found nonzero known real cred once h =
    elim (Bool-cases (any (is_vote u.id p.id) db.votes)) [
      | inr v ↦ rw (found, nonzero, known, real, cred, v) refl
      | inl v ↦
          rw (found, nonzero, known, real, cred, v)
            (ap
              (λ bases. record db {
                package_bases = bases;
                votes = delete_where (is_vote u.id p.id) db.votes;
              })
              (recount p.id _ (λ n. n - 1) db.votes db.package_bases
                (sym (
                  rw (==_refl p.id) at
                    (count-withdrawn u.id p.id p.id db.votes (once u.id p.id) v)))
                h))
    ]
