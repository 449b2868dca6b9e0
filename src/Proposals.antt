-- ===== src/Proposals.antt =====
-- The proposals of the package maintainers: aurweb/routers/package_maintainer.py and
-- aurweb/models/voteinfo.py. A handler takes the request, whose user is logged in, and returns the
-- response and the tables. A quorum is in hundredths, as in ADDVOTE_SPECIFICS; the quotients of
-- counts that the source compares as floats are compared by products. The texts of the pages are left
-- out, but for the error that one shows.
pub mod Posts
pub mod Listings
pub mod Tally
pub mod Running
mod Tests
use aurweb.Prelude.{
  ℕ, ◌+◌, ◌*◌, Bool, true, false, not, ◌&&◌, ◌||◌, String, Option, none, some, List, [], ◌∷◌, ◌++◌,
  ltb, ◌==◌, any, count, find?, str_eq, f_string, contains,
}
use aurweb.Models.{User}
use aurweb.Creds.{package_maintainer_id, package_maintainer_and_dev_id}

pub record VoteInfo : Type 0 where
  pub id : ℕ
  pub agenda : String
  pub user : String
  pub submitted : ℕ
  pub ends : ℕ
  pub quorum : ℕ
  pub submitter_id : ℕ
  pub yes : ℕ
  pub nay : ℕ
  pub abstain : ℕ
  pub active_users : ℕ

pub record Vote : Type 0 where
  pub vote_id : ℕ
  pub user_id : ℕ

pub record Tables : Type 0 where
  pub users : List User
  pub voteinfos : List VoteInfo
  pub votes : List Vote
  pub next_voteinfo_id : ℕ

-- The page that shows a proposal has an error or none.
pub data Response : Type 0 where
  redirect : String → Response
  redirect_to_proposal : (id : ℕ) → Response
  show : (error : Option String) (status : ℕ) → Response
  addvote : (error : String) (status : ℕ) → Response
  invalid_decision not_found : Response

abbrev pub is_running : ℕ → VoteInfo → Bool
is_running now v = ltb now v.ends

abbrev pub total_votes : VoteInfo → ℕ
total_votes v = v.yes + v.nay + v.abstain

-- `participation > Quorum`: with no active users the participation is 0.
abbrev pub meets_quorum : VoteInfo → Bool
meets_quorum v = ltb 0 v.active_users && ltb (v.quorum * v.active_users) (100 * total_votes v)

-- Whether `render_proposal` shows it as accepted.
unfoldable pub is_accepted : VoteInfo → Bool
is_accepted v = ltb v.active_users (2 * v.yes) || (meets_quorum v && ltb v.nay v.yes)

abbrev pub is_vote_of : ℕ → ℕ → Vote → Bool
is_vote_of u v r = r.vote_id == v && r.user_id == u

abbrev pub proposal_of_id : ℕ → Tables → Option VoteInfo
proposal_of_id id t = find? (λ v. v.id == id) t.voteinfos

abbrev pub day : ℕ
day = 86400

-- The types of proposals, with their duration and quorum.
pub record Specifics : Type 0 where
  pub duration : ℕ
  pub quorum : ℕ

abbrev pub addvote_specifics : List (String × Specifics)
addvote_specifics =
    ("add_pm", record { duration = 7 * day; quorum = 66 })
    ∷ ("remove_pm", record { duration = 7 * day; quorum = 75 })
    ∷ ("remove_inactive_pm", record { duration = 5 * day; quorum = 66 })
    ∷ ("bylaws", record { duration = 7 * day; quorum = 75 })
    ∷ []

abbrev pub value : Option (String × Specifics) → Option Specifics
value none = none
value (some e) = some (e.1)

abbrev pub specifics_of : String → Option Specifics
specifics_of type = value (find? (λ e. str_eq e.0 type) addvote_specifics)

abbrev pub is_maintainer_type : User → Bool
is_maintainer_type u =
    contains (package_maintainer_id ∷ package_maintainer_and_dev_id ∷ []) u.account_type_id

-- `populate_package_maintainer_counts`: all the package maintainers, and the active ones.
unfoldable pub populate_package_maintainer_counts : List User → ℕ × ℕ
populate_package_maintainer_counts users = (
  count is_maintainer_type users,
  count (λ u. is_maintainer_type u && u.inactivity_ts == 0) users,
)

-- The active users that a new proposal is given. `InactivityTS.isnot(None)` holds of every row, since
-- the column is not nullable.
unfoldable pub active_pms : List User → ℕ
active_pms users = count (λ u. is_maintainer_type u && not u.suspended) users
