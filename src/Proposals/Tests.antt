-- ===== src/Proposals/Tests.antt =====
-- A proposal about bob, on which carol, a package maintainer, votes.
use aurweb.Prelude.{ℕ, ◌≤◌, ◌<◌, ◌+◌, true, [], ◌∷◌, ◌≡◌, refl, arith, count, length}
use aurweb.Creds.{has_credential, cred_filters}
use aurweb.Samples.{alice, bob, carol, request_by}
use aurweb.Proposals.{VoteInfo, Tables, is_accepted, is_vote_of, active_pms, redirect_to_proposal}
use aurweb.Proposals.Posts.{
  Form, is_about, has_voted, package_maintainer_proposal_post, package_maintainer_addvote_post,
}
use aurweb.Proposals.Tally.{
  IsTallied, MayVote, proposal_post-IsTallied, addvote_post-IsTallied, is_accepted-majority,
}
use aurweb.Proposals.Running.{
  proposal_post-has_voted, proposal_post-refused, addvote_post-OneRunning,
  package_maintainer-counts,
}
use aurweb.Proposals.Listings.{package_maintainer}

-- It is over at 800.
abbrev about_bob : VoteInfo
about_bob = record {
  id = 1;
  agenda = "Bob.";
  user = "bob";
  submitted = 100;
  ends = 800;
  quorum = 66;
  submitter_id = 3;
  yes = 1;
  nay = 0;
  abstain = 0;
  active_users = 2;
}

abbrev tables : Tables
tables = record {
  users = alice ∷ bob ∷ carol ∷ [];
  voteinfos = about_bob ∷ [];
  votes = record { vote_id = 1; user_id = 9 } ∷ [];
  next_voteinfo_id = 2;
}

abbrev form : Form
form = record {
  user = "bob";
  type = "remove_pm";
  agenda = "Again.";
  escaped_agenda = "Again.";
  escaped_user = "bob";
}

one_vote : (u v : ℕ) → count (is_vote_of u v) tables.votes ≤ 1
one_vote u v = ground arith

tallied : IsTallied tables
tallied = (((refl, omega arith), tt), (omega arith, tt), one_vote)

proposal_post-IsTallied_example :
    IsTallied (package_maintainer_proposal_post (request_by carol 500) 1 "No" tables).1
proposal_post-IsTallied_example =
    proposal_post-IsTallied (request_by carol 500) 1 "No" tables tallied

addvote_post-IsTallied_example :
    IsTallied (package_maintainer_addvote_post (request_by carol 900) form tables).1
addvote_post-IsTallied_example = addvote_post-IsTallied (request_by carol 900) form tables tallied

carol_may : MayVote (request_by carol 900) about_bob tables
unfolding has_credential cred_filters
carol_may = (refl, refl, refl)

-- Carol votes after the end.
proposal_post-has_voted_example :
    has_voted 3 1 (package_maintainer_proposal_post (request_by carol 900) 1 "Yes" tables).1 ≡ true
proposal_post-has_voted_example =
    proposal_post-has_voted (request_by carol 900) 1 "Yes" about_bob tables refl carol_may refl

proposal_post-refused_example :
    (package_maintainer_proposal_post (request_by carol 500) 1 "Maybe" tables).1 ≡ tables
proposal_post-refused_example =
    proposal_post-refused (request_by carol 500) 1 "Maybe" about_bob tables refl
      (λ h. let clash = h.1 in cc)

addvote_post-OneRunning_example :
    count
      (is_about "bob" 900)
      (package_maintainer_addvote_post (request_by carol 900) form tables).1.voteinfos
    ≤ 1
addvote_post-OneRunning_example =
    addvote_post-OneRunning (request_by carol 900) form "bob" tables refl (omega arith)

addvote_adds :
    (package_maintainer_addvote_post (request_by carol 900) form tables).0 ≡ redirect_to_proposal 2
unfolding package_maintainer_addvote_post has_credential cred_filters active_pms
addvote_adds = refl

abbrev won : VoteInfo
won = record about_bob { yes = 2 }

won-is_accepted : is_accepted won ≡ true
unfolding is_accepted
won-is_accepted = refl

is_accepted-majority_example : 0 < 2
is_accepted-majority_example = is_accepted-majority won (omega arith) won-is_accepted

package_maintainer-counts_example :
    let l = package_maintainer 900 "desc" 0 "asc" 0 (about_bob ∷ []) in
    (l.current_votes_count + l.past_votes_count ≡ 1)
    × (length l.current_votes ≤ 10)
    × (length l.past_votes ≤ 10)
package_maintainer-counts_example = package_maintainer-counts 900 "desc" 0 "asc" 0 (about_bob ∷ [])
