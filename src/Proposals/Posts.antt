-- ===== src/Proposals/Posts.antt =====
-- The forms: to vote on a proposal, and to make one.
use aurweb.Prelude.{
  ℕ, ◌+◌, Bool, ◌&&◌, String, Option, none, some, [], ◌∷◌, ◌++◌, ◌==◌, if◌then◌else◌, any, str_eq,
  f_string, not, update_where,
}
use aurweb.Models.{Request}
use aurweb.Creds.{pm_add_vote, pm_list_votes, pm_vote, has_credential}
use aurweb.Proposals.{
  VoteInfo, Tables, Response, redirect, redirect_to_proposal, show, addvote, invalid_decision,
  not_found, is_running, is_vote_of, proposal_of_id, Specifics, specifics_of, active_pms,
}

-- A vote counts in the column of its name.
abbrev pub count_decision : String → Option (VoteInfo → VoteInfo)
count_decision decision =
    if str_eq decision "Yes"
    then some (λ v. record v { yes = v.yes + 1 })
    else if str_eq decision "No"
    then some (λ v. record v { nay = v.nay + 1 })
    else if str_eq decision "Abstain"
    then some (λ v. record v { abstain = v.abstain + 1 })
    else none

abbrev pub has_voted : ℕ → ℕ → Tables → Bool
has_voted u v t = any (is_vote_of u v) t.votes

-- The page's error: that of the caller, unless the proposal is over.
abbrev pub render_proposal : Request → VoteInfo → Option String → ℕ → Response
render_proposal req v error status =
    show (if is_running req.now v then error else some "Voting is closed for this proposal.") status

-- Why a user may not vote, with the status.
unfoldable pub refusal : Request → VoteInfo → Tables → Option (String × ℕ)
refusal req v t =
    if not (has_credential req.user pm_vote [])
    then some ("Only Package Maintainers are allowed to vote.", 401)
    else if str_eq v.user req.user.username
    then some ("You cannot vote in an proposal about you.", 400)
    else if has_voted req.user.id v.id t
    then some ("You've already voted for this proposal.", 400)
    else none

abbrev pub insert_vote : ℕ → VoteInfo → (VoteInfo → VoteInfo) → Tables → Tables
insert_vote u v f t = record t {
  voteinfos = update_where (λ w. w.id == v.id) f t.voteinfos;
  votes = t.votes ++ record { vote_id = v.id; user_id = u } ∷ [];
}

abbrev pub decide : Request → VoteInfo → Option (VoteInfo → VoteInfo) → Tables → Response × Tables
decide req v none t = (invalid_decision, t)
decide req v (some f) t = (
  render_proposal req (f v) (some "You've already voted for this proposal.") 200,
  insert_vote req.user.id v f t,
)

abbrev pub vote_unless :
    Request → VoteInfo → String → Option (String × ℕ) → Tables → Response × Tables
vote_unless req v decision (some e) t = (render_proposal req v (some e.0) e.1, t)
vote_unless req v decision none t = decide req v (count_decision decision) t

abbrev pub vote_on : Request → String → Option VoteInfo → Tables → Response × Tables
vote_on req decision none t = (not_found, t)
vote_on req decision (some v) t = vote_unless req v decision (refusal req v t) t

unfoldable pub package_maintainer_proposal_post : Request → ℕ → String → Tables → Response × Tables
package_maintainer_proposal_post req proposal decision t =
    if has_credential req.user pm_list_votes []
    then vote_on req decision (proposal_of_id proposal t) t
    else (redirect "/package-maintainer", t)

-- The page of a proposal: its error.
abbrev pub show_error : Request → VoteInfo → Tables → Option String
show_error req v t =
    if str_eq v.user req.user.username
    then some "You cannot vote in an proposal about you."
    else if has_voted req.user.id v.id t
    then some "You've already voted for this proposal."
    else if has_credential req.user pm_vote []
    then none
    else some "Only Package Maintainers are allowed to vote."

abbrev pub show_found : Request → Option VoteInfo → Tables → Response
show_found req none t = not_found
show_found req (some v) t = render_proposal req v (show_error req v t) 200

unfoldable pub package_maintainer_proposal : Request → ℕ → Tables → Response
package_maintainer_proposal req proposal t =
    if has_credential req.user pm_list_votes []
    then show_found req (proposal_of_id proposal t) t
    else redirect "/package-maintainer"

-- The fields of the form, and what `html.escape` makes of the agenda and of the user's name.
pub record Form : Type 0 where
  pub user : String
  pub type : String
  pub agenda : String
  pub escaped_agenda : String
  pub escaped_user : String

abbrev pub is_about : String → ℕ → VoteInfo → Bool
is_about user now v = str_eq v.user user && is_running now v

-- The checks of the user that a proposal is about.
abbrev pub addvote_error : Request → Form → Tables → Option (String × ℕ)
addvote_error req form t =
    if not (any (λ u. str_eq u.username form.user) t.users)
    then some ("Username does not exist.", 404)
    else if any (is_about form.user req.now) t.voteinfos
    then some (f_string (form.escaped_user ∷ " already has proposal running for them." ∷ []), 400)
    else none

abbrev pub new_proposal : Request → Form → Specifics → Tables → VoteInfo
new_proposal req form s t = record {
  id = t.next_voteinfo_id;
  agenda = form.escaped_agenda;
  user = form.user;
  submitted = req.now;
  ends = req.now + s.duration;
  quorum = s.quorum;
  submitter_id = req.user.id;
  yes = 0;
  nay = 0;
  abstain = 0;
  active_users = active_pms t.users;
}

abbrev pub create_proposal : Request → Form → Option Specifics → Tables → Response × Tables
create_proposal req form none t = (addvote "Invalid type." 400, t)
create_proposal req form (some s) t =
    if str_eq form.agenda "" then (addvote "Proposal cannot be empty." 400, t) else (
      redirect_to_proposal t.next_voteinfo_id,
      record t {
        voteinfos = t.voteinfos ++ new_proposal req form s t ∷ [];
        next_voteinfo_id = t.next_voteinfo_id + 1;
      },
    )

abbrev pub create_unless : Request → Form → Option (String × ℕ) → Tables → Response × Tables
create_unless req form (some e) t = (addvote e.0 e.1, t)
create_unless req form none t = create_proposal req form (specifics_of form.type) t

unfoldable pub package_maintainer_addvote_post : Request → Form → Tables → Response × Tables
package_maintainer_addvote_post req form t =
    if not (has_credential req.user pm_add_vote [])
    then (redirect "/package-maintainer", t)
    else create_unless req form
        (if str_eq form.type "bylaws" then none else addvote_error req form t) t
