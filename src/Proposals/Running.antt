-- ===== src/Proposals/Running.antt =====
-- Who can vote, when a proposal can be made, and the list of proposals.
use aurweb.Prelude.{
  ℕ, ◌+◌, ◌≤◌, true, false, String, Option, none, some, List, [], ◌∷◌, ◌≡◌, refl, zero, suc, leb,
  any, count, count-append, any-append, count-any-false, length, filter, str_eq, eq_iff, arith,
  Bool-cases, Option-cases, inl, inr, subst, ==_refl, drop, is_some, length-append, order_by,
}
use aurweb.Models.{User, Request}
use aurweb.Creds.{pm_add_vote, pm_list_votes, pm_vote, has_credential}
use aurweb.Proposals.{
  VoteInfo, Vote, Tables, is_running, is_vote_of, proposal_of_id, Specifics, specifics_of,
}
use aurweb.Proposals.Posts.{
  count_decision, has_voted, refusal, decide, package_maintainer_proposal_post, Form, is_about,
  new_proposal, create_proposal, package_maintainer_addvote_post,
}
use aurweb.Proposals.Listings.{take, reversed, page, package_maintainer, latest_first}
use aurweb.Proposals.Tally.{MayVote, refusal-MayVote}

-- Who may vote may see the proposals.
pm_list_votes-pm_vote :
    (u : User) → has_credential u pm_vote [] ≡ true → has_credential u pm_list_votes [] ≡ true
unfolding has_credential
pm_list_votes-pm_vote u h = ground (arith, h)

decide-has_voted :
    (req : Request) (v : VoteInfo) (o : Option (VoteInfo → VoteInfo)) (t : Tables)
    → is_some o ≡ true
    → has_voted req.user.id v.id (decide req v o t).1 ≡ true
decide-has_voted req v none t h = cc
decide-has_voted req v (some f) t h =
    let row : Vote = record { vote_id = v.id; user_id = req.user.id } in
    rw (any-append (is_vote_of req.user.id v.id) t.votes (row ∷ []))
      (ground (arith, ==_refl v.id, ==_refl req.user.id))

-- A package maintainer whom the proposal is not about and who has not voted on it votes with Yes, No
-- or Abstain, whether the proposal runs or is over.
pub proposal_post-has_voted :
    (req : Request) (proposal : ℕ) (decision : String) (v : VoteInfo) (t : Tables)
    → proposal_of_id proposal t ≡ some v
    → MayVote req v t
    → is_some (count_decision decision) ≡ true
    → has_voted req.user.id v.id (package_maintainer_proposal_post req proposal decision t).1 ≡ true
unfolding package_maintainer_proposal_post
proposal_post-has_voted req proposal decision v t found may valid =
    rw (pm_list_votes-pm_vote req.user may.0, found, (refusal-MayVote req v t).1 may)
      (decide-has_voted req v (count_decision decision) t valid)

-- Anyone else leaves the tables as they are.
pub proposal_post-refused :
    (req : Request) (proposal : ℕ) (decision : String) (v : VoteInfo) (t : Tables)
    → proposal_of_id proposal t ≡ some v
    → ¬ (MayVote req v t × (is_some (count_decision decision) ≡ true))
    → (package_maintainer_proposal_post req proposal decision t).1 ≡ t
unfolding package_maintainer_proposal_post
proposal_post-refused req proposal decision v t found no_vote =
    elim (Bool-cases (has_credential req.user pm_list_votes [])) [
      | inr e ↦ rw e refl
      | inl e ↦ elim (Option-cases (refusal req v t)) [
        | inr (r, k) ↦ rw (e, found, k) refl
        | inl k ↦ elim (Option-cases (count_decision decision)) [
          | inl d ↦ rw (e, found, k, d) refl
          | inr (f, d) ↦
              let valid : is_some (count_decision decision) ≡ true = rw d refl in
              let clash = no_vote ((refusal-MayVote req v t).0 k, valid) in elim clash [ ]
        ]
      ]
    ]

create_proposal-OneRunning :
    (req : Request) (form : Form) (o : Option Specifics) (user : String) (t : Tables)
    → any (is_about form.user req.now) t.voteinfos ≡ false
    → count (is_about user req.now) t.voteinfos ≤ 1
    → count (is_about user req.now) (create_proposal req form o t).1.voteinfos ≤ 1
create_proposal-OneRunning req form none user t a h = h
create_proposal-OneRunning req form (some s) user t a h =
    let new = new_proposal req form s t in
    let more = count-append (is_about user req.now) t.voteinfos (new ∷ []) in
    elim (Bool-cases (str_eq form.agenda "")) [
      | inl e ↦ rw e h
      | inr e ↦ elim (Bool-cases (str_eq form.user user)) [
        | inl k ↦
            let zero = count-any-false (is_about form.user req.now) t.voteinfos a in
            let zero' =
              subst (λ u. count (is_about u req.now) t.voteinfos ≡ 0) ((eq_iff form.user user).0 k)
                zero in
            rw e (ground (arith, more, zero', k))
        | inr k ↦ rw e (ground (arith, more, h, k))
      ]
    ]

-- A user has at most one proposal that runs: a post of a new one, unless it is on the bylaws, keeps
-- it so for every name, at the time of the post.
pub addvote_post-OneRunning :
    (req : Request) (form : Form) (user : String) (t : Tables)
    → str_eq form.type "bylaws" ≡ false
    → count (is_about user req.now) t.voteinfos ≤ 1
    → count (is_about user req.now) (package_maintainer_addvote_post req form t).1.voteinfos ≤ 1
unfolding package_maintainer_addvote_post
addvote_post-OneRunning req form user t b h =
    elim (Bool-cases (has_credential req.user pm_add_vote [])) [
      | inr e ↦ rw e h
      | inl e ↦ elim (Bool-cases (any (λ u. str_eq u.username form.user) t.users)) [
        | inr u ↦ rw (e, b, u) h
        | inl u ↦ elim (Bool-cases (any (is_about form.user req.now) t.voteinfos)) [
          | inl a ↦ rw (e, b, u, a) h
          | inr a ↦
              rw (e, b, u, a)
                (create_proposal-OneRunning req form (specifics_of form.type) user t a h)
        ]
      ]
    ]

length-take : (n : ℕ) (vs : List VoteInfo) → length (take n vs) ≤ n
length-take zero vs = omega arith
length-take (suc n) [] = omega arith
length-take (suc n) (v ∷ vs) = omega (arith, length-take n vs)

length-reversed : (vs : List VoteInfo) → length (reversed vs) ≡ length vs
length-reversed [] = refl
length-reversed (v ∷ vs) = omega (arith, length-append (reversed vs) (v ∷ []), length-reversed vs)

length-page :
    (direction : String) (off : ℕ) (vs : List VoteInfo) → length (page direction off vs) ≤ 10
length-page direction off vs =
    let shown = take 10 (drop off (order_by latest_first vs)) in
    elim (Bool-cases (str_eq direction "asc")) [
      | inl e ↦ rw (e, length-reversed shown) (length-take 10 (drop off (order_by latest_first vs)))
      | inr e ↦ rw e (length-take 10 (drop off (order_by latest_first vs)))
    ]

length-filters :
    (now : ℕ) (vs : List VoteInfo)
    → length (filter (is_running now) vs) + length (filter (λ v. leb v.ends now) vs) ≡ length vs
length-filters now [] = refl
length-filters now (v ∷ vs) = ground (arith, length-filters now vs)

-- At any time a proposal either runs or is over: the two counts of the list add up to all of them.
-- Neither table shows more than ten.
pub package_maintainer-counts :
    (now : ℕ) (current_by : String) (current_off : ℕ) (past_by : String) (past_off : ℕ)
    (vs : List VoteInfo)
    → let l = package_maintainer now current_by current_off past_by past_off vs in
      (l.current_votes_count + l.past_votes_count ≡ length vs)
      × (length l.current_votes ≤ 10)
      × (length l.past_votes ≤ 10)
unfolding package_maintainer
package_maintainer-counts now current_by current_off past_by past_off vs = (
  length-filters now vs,
  length-page current_by current_off (filter (is_running now) vs),
  length-page past_by past_off (filter (λ v. leb v.ends now) vs),
)
