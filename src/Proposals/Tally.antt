-- ===== src/Proposals/Tally.antt =====
-- The counts of a proposal and its votes.
use aurweb.Prelude.{
  ℕ, ◌+◌, ◌<◌, ◌≤◌, Bool, true, false, ◌&&◌, String, Option, none, some, List, [], ◌∷◌, ◌++◌, ◌≡◌,
  refl, ◌==◌, if◌then◌else◌, All, All-append, count, count-append, count-any-false, find?-All,
  str_eq, update_where, arith, Bool-cases, inl, inr, subst,
}
use aurweb.Prelude.{==_sound, ◌↔◌, sym}
use aurweb.Models.{Request}
use aurweb.Creds.{pm_add_vote, pm_list_votes, pm_vote, has_credential}
use aurweb.Proposals.{
  VoteInfo, Vote, Tables, total_votes, is_accepted, is_vote_of, proposal_of_id, Specifics,
  specifics_of,
}
use aurweb.Proposals.Posts.{
  count_decision, has_voted, refusal, insert_vote, decide, vote_unless, vote_on,
  package_maintainer_proposal_post, Form, addvote_error, new_proposal, create_proposal,
  create_unless, package_maintainer_addvote_post,
}

-- The columns of a proposal add up to its votes, and its ID is below the next one.
abbrev pub IsTalliedBy : List Vote → ℕ → VoteInfo → Type 0
IsTalliedBy votes next v = (total_votes v ≡ count (λ r. r.vote_id == v.id) votes) × (v.id < next)

abbrev pub IsTallied : Tables → Type 0
IsTallied t =
    All (IsTalliedBy t.votes t.next_voteinfo_id) t.voteinfos
    × All (λ r. r.vote_id < t.next_voteinfo_id) t.votes
    × ((u v : ℕ) → count (is_vote_of u v) t.votes ≤ 1)

some_inj : {A : Type 0} (a b : A) → some a ≡ some b → a ≡ b
some_inj a b h = cc

-- A decision counts one vote, in one of the columns.
Counts : (VoteInfo → VoteInfo) → Type 0
Counts f = (v : VoteInfo) → (total_votes (f v) ≡ total_votes v + 1) × ((f v).id ≡ v.id)

one_column :
    (a b c : Bool) (f : VoteInfo → VoteInfo)
    → (if a
        then some (λ v. record v { yes = v.yes + 1 })
        else if b
        then some (λ v. record v { nay = v.nay + 1 })
        else if c
        then some (λ v. record v { abstain = v.abstain + 1 })
        else none)
      ≡ some f
    → Counts f
unfolding Counts
one_column true b c f h =
    subst Counts (some_inj (λ v. record v { yes = v.yes + 1 }) f h) (λ v. (omega arith, refl))
one_column false true c f h =
    subst Counts (some_inj (λ v. record v { nay = v.nay + 1 }) f h) (λ v. (omega arith, refl))
one_column false false true f h =
    subst Counts (some_inj (λ v. record v { abstain = v.abstain + 1 }) f h)
      (λ v. (omega arith, refl))
one_column false false false f h = cc

count_decision-Counts :
    (decision : String) (f : VoteInfo → VoteInfo) → count_decision decision ≡ some f → Counts f
count_decision-Counts decision f h =
    one_column (str_eq decision "Yes") (str_eq decision "No") (str_eq decision "Abstain") f h

tallied_one :
    (votes : List Vote) (next id u : ℕ) (f : VoteInfo → VoteInfo) (v : VoteInfo)
    → Counts f
    → IsTalliedBy votes next v
    → IsTalliedBy
        (votes ++ record { vote_id = id; user_id = u } ∷ [])
        next
        (if v.id == id then f v else v)
unfolding Counts
tallied_one votes next id u f v c h =
    let row : Vote = record { vote_id = id; user_id = u } in
    let more = count-append (λ r. r.vote_id == v.id) votes (row ∷ []) in
    elim (Bool-cases (v.id == id)) [
      | inl e ↦ rw (e, (c v).1) (ground (arith, (c v).0, more, h.0, e), h.1)
      | inr e ↦ rw e (ground (arith, more, h.0, e), h.1)
    ]

IsTalliedBy-update_where :
    (votes : List Vote) (next id u : ℕ) (f : VoteInfo → VoteInfo) (vs : List VoteInfo)
    → Counts f
    → All (IsTalliedBy votes next) vs
    → All
        (IsTalliedBy (votes ++ record { vote_id = id; user_id = u } ∷ []) next)
        (update_where (λ w. w.id == id) f vs)
unfolding Counts
IsTalliedBy-update_where votes next id u f [] c h = tt
IsTalliedBy-update_where votes next id u f (v ∷ vs) c h =
    (tallied_one votes next id u f v c h.0, IsTalliedBy-update_where votes next id u f vs c h.1)

insert_vote-IsTallied :
    (u : ℕ) (v : VoteInfo) (f : VoteInfo → VoteInfo) (t : Tables)
    → Counts f
    → v.id < t.next_voteinfo_id
    → has_voted u v.id t ≡ false
    → IsTallied t
    → IsTallied (insert_vote u v f t)
insert_vote-IsTallied u v f t c below new h =
    let row : Vote = record { vote_id = v.id; user_id = u } in
    (
      IsTalliedBy-update_where t.votes t.next_voteinfo_id v.id u f t.voteinfos c h.0,
      All-append (λ r. r.vote_id < t.next_voteinfo_id) t.votes (row ∷ []) h.1 (below, tt),
      λ u' v'.
          let more = count-append (is_vote_of u' v') t.votes (row ∷ []) in
          let none_yet = count-any-false (is_vote_of u v.id) t.votes new in
          one_more u v.id u' v' t.votes none_yet (h.2 u' v') more,
    )
  where
    one_more :
        (u v u' v' : ℕ) (votes : List Vote)
        → count (is_vote_of u v) votes ≡ 0
        → count (is_vote_of u' v') votes ≤ 1
        → count (is_vote_of u' v') (votes ++ record { vote_id = v; user_id = u } ∷ [])
          ≡ count (is_vote_of u' v') votes
            + count (is_vote_of u' v') (record { vote_id = v; user_id = u } ∷ [])
        → count (is_vote_of u' v') (votes ++ record { vote_id = v; user_id = u } ∷ []) ≤ 1
    one_more u v u' v' votes a b e = elim (Bool-cases (v == v' && u == u')) [
      | inl k ↦
          let same_v = ==_sound v v' (ground (arith, k)) in
          let same_u = ==_sound u u' (ground (arith, k)) in
          let a' = subst (λ x. count (is_vote_of u x) votes ≡ 0) same_v a in
          let a'' = subst (λ x. count (is_vote_of x v') votes ≡ 0) same_u a' in
          ground (arith, e, a'', k)
      | inr k ↦ ground (arith, e, b, k)
    ]

-- Who may vote: a package maintainer whom the proposal is not about and who has not voted.
abbrev pub MayVote : Request → VoteInfo → Tables → Type 0
MayVote req v t =
    (has_credential req.user pm_vote [] ≡ true)
    × (str_eq v.user req.user.username ≡ false)
    × (has_voted req.user.id v.id t ≡ false)

pub refusal-MayVote :
    (req : Request) (v : VoteInfo) (t : Tables) → (refusal req v t ≡ none) ↔ MayVote req v t
unfolding refusal
refusal-MayVote req v t = elim (Bool-cases (has_credential req.user pm_vote [])) [
  | inl a ↦ elim (Bool-cases (str_eq v.user req.user.username)) [
    | inl b ↦ rw (a, b) ((λ h. cc), λ h. cc)
    | inr b ↦ elim (Bool-cases (has_voted req.user.id v.id t)) [
      | inl c ↦ rw (a, b, c) ((λ h. cc), λ h. cc)
      | inr c ↦ rw (a, b, c) ((λ h. (refl, refl, refl)), λ h. refl)
    ]
  ]
  | inr a ↦ rw a ((λ h. cc), λ h. cc)
]

decide-IsTallied :
    (req : Request) (v : VoteInfo) (decision : String) (o : Option (VoteInfo → VoteInfo))
    (t : Tables)
    → count_decision decision ≡ o
    → v.id < t.next_voteinfo_id
    → has_voted req.user.id v.id t ≡ false
    → IsTallied t
    → IsTallied (decide req v o t).1
decide-IsTallied req v decision none t e below new h = h
decide-IsTallied req v decision (some f) t e below new h =
    insert_vote-IsTallied req.user.id v f t (count_decision-Counts decision f e) below new h

vote_unless-IsTallied :
    (req : Request) (v : VoteInfo) (decision : String) (o : Option (String × ℕ)) (t : Tables)
    → refusal req v t ≡ o
    → v.id < t.next_voteinfo_id
    → IsTallied t
    → IsTallied (vote_unless req v decision o t).1
vote_unless-IsTallied req v decision (some e) t r below h = h
vote_unless-IsTallied req v decision none t r below h =
    let (a, b, new) = (refusal-MayVote req v t).0 r in
    decide-IsTallied req v decision (count_decision decision) t refl below new h

vote_on-IsTallied :
    (req : Request) (proposal : ℕ) (decision : String) (o : Option VoteInfo) (t : Tables)
    → proposal_of_id proposal t ≡ o
    → IsTallied t
    → IsTallied (vote_on req decision o t).1
vote_on-IsTallied req proposal decision none t e h = h
vote_on-IsTallied req proposal decision (some v) t e h =
    let (found, same) =
      find?-All (IsTalliedBy t.votes t.next_voteinfo_id) (λ w. w.id == proposal) v t.voteinfos e
        h.0 in
    vote_unless-IsTallied req v decision (refusal req v t) t refl found.1 h

-- A vote that is posted keeps the counts: for each proposal, Yes, No and Abstain add up to its
-- votes; no user has two votes on one proposal; and the IDs of the proposals and of the votes are
-- below the next one. All of it must hold before.
pub proposal_post-IsTallied :
    (req : Request) (proposal : ℕ) (decision : String) (t : Tables)
    → IsTallied t
    → IsTallied (package_maintainer_proposal_post req proposal decision t).1
unfolding package_maintainer_proposal_post
proposal_post-IsTallied req proposal decision t h =
    elim (Bool-cases (has_credential req.user pm_list_votes [])) [
      | inl e ↦ rw e (vote_on-IsTallied req proposal decision (proposal_of_id proposal t) t refl h)
      | inr e ↦ rw e h
    ]

IsTalliedBy-next :
    (votes : List Vote) (next : ℕ) (vs : List VoteInfo)
    → All (IsTalliedBy votes next) vs
    → All (IsTalliedBy votes (next + 1)) vs
IsTalliedBy-next votes next [] h = tt
IsTalliedBy-next votes next (v ∷ vs) h =
    ((h.0.0, omega (arith, h.0.1)), IsTalliedBy-next votes next vs h.1)

-- No vote has an ID that is still to come.
count-next :
    (votes : List Vote) (next : ℕ)
    → All (λ r. r.vote_id < next) votes
    → (count (λ r. r.vote_id == next) votes ≡ 0) × All (λ r. r.vote_id < next + 1) votes
count-next [] next h = (refl, tt)
count-next (r ∷ votes) next h =
    let rest = count-next votes next h.1 in
    (ground (arith, h.0, rest.0), (omega (arith, h.0), rest.1))

create_proposal-IsTallied :
    (req : Request) (form : Form) (o : Option Specifics) (t : Tables)
    → IsTallied t
    → IsTallied (create_proposal req form o t).1
create_proposal-IsTallied req form none t h = h
create_proposal-IsTallied req form (some s) t h =
    let fresh = count-next t.votes t.next_voteinfo_id h.1 in
    elim (Bool-cases (str_eq form.agenda "")) [
      | inl e ↦ rw e h
      | inr e ↦ rw e (
        All-append (IsTalliedBy t.votes (t.next_voteinfo_id + 1)) t.voteinfos
            (new_proposal req form s t ∷ [])
            (IsTalliedBy-next t.votes t.next_voteinfo_id t.voteinfos h.0)
            ((sym fresh.0, omega arith), tt),
        fresh.1,
        h.2,
      )
    ]

create_unless-IsTallied :
    (req : Request) (form : Form) (o : Option (String × ℕ)) (t : Tables)
    → IsTallied t
    → IsTallied (create_unless req form o t).1
create_unless-IsTallied req form (some e) t h = h
create_unless-IsTallied req form none t h =
    create_proposal-IsTallied req form (specifics_of form.type) t h

-- A new proposal keeps the counts too: its own are 0, and it has no vote.
pub addvote_post-IsTallied :
    (req : Request) (form : Form) (t : Tables)
    → IsTallied t
    → IsTallied (package_maintainer_addvote_post req form t).1
unfolding package_maintainer_addvote_post
addvote_post-IsTallied req form t h = elim (Bool-cases (has_credential req.user pm_add_vote [])) [
  | inl e ↦ rw e (
      create_unless-IsTallied req form
        (if str_eq form.type "bylaws" then none else addvote_error req form t) t h)
  | inr e ↦ rw e h
]

-- Where no more users have voted than there are active ones, a proposal that is shown as accepted has
-- more votes for it than against it.
pub is_accepted-majority :
    (v : VoteInfo) → total_votes v ≤ v.active_users → is_accepted v ≡ true → v.nay < v.yes
unfolding is_accepted
is_accepted-majority v h a = ground (arith, h, a)
