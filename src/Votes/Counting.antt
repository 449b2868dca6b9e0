-- ===== src/Votes/Counting.antt =====
-- NumVotes agrees with the rows of PackageVotes: the routes that vote, in aurweb/routers/pkgbase.py,
-- and aurweb/scripts/popupdate.py.
use aurweb.Prelude.{
  ℕ, ◌≡◌, refl, sym, ◌∙◌, Bool, true, false, not, ◌&&◌, List, [], ◌∷◌, ◌++◌, ◌==◌, any, count,
  update_where, delete_where, arith, All, count-append, Bool-cases, inl, inr,
}
use aurweb.Models.{Db, PackageBase, PackageVote, Request}
use aurweb.Creds.{pkgbase_vote, has_credential}
use aurweb.Votes.{votes_for, is_vote, run_single, insert_vote, vote, unvote}

-- The counter of each package base is the number of its votes.
abbrev pub IsCounted : Db → Type 0
IsCounted db = All (λ p. p.num_votes ≡ count (votes_for p.id) db.votes) db.package_bases

-- The same, but for the package bases with one ID.
abbrev pub CountedBut : ℕ → List PackageVote → List PackageBase → Type 0
CountedBut b vs = All (λ p. (p.id == b) ≡ false → p.num_votes ≡ count (votes_for p.id) vs)

pub count-delete_where_other {ℓ} :
    {A : Type ℓ} (q p : A → Bool) (xs : List A)
    → ((x : A) → p x ≡ true → q x ≡ false)
    → count q (delete_where p xs) ≡ count q xs
count-delete_where_other q p [] h = refl
count-delete_where_other q p (x ∷ xs) h = ground (arith, h x, count-delete_where_other q p xs h)

-- A step that changes no count of the other package bases.
pub CountedBut-step :
    (b : ℕ) (vs vs' : List PackageVote) (ps : List PackageBase)
    → ((a : ℕ) → (a == b) ≡ false → count (votes_for a) vs' ≡ count (votes_for a) vs)
    → CountedBut b vs ps
    → CountedBut b vs' ps
CountedBut-step b vs vs' [] same h = tt
CountedBut-step b vs vs' (p ∷ ps) same h =
    ((λ e. h.0 e ∙ sym (same p.id e)), CountedBut-step b vs vs' ps same h.1)

pub IsCounted-CountedBut :
    (b : ℕ) (vs : List PackageVote) (ps : List PackageBase)
    → All (λ p. p.num_votes ≡ count (votes_for p.id) vs) ps
    → CountedBut b vs ps
IsCounted-CountedBut b vs [] h = tt
IsCounted-CountedBut b vs (p ∷ ps) h = ((λ _. h.0), IsCounted-CountedBut b vs ps h.1)

recounted :
    (b : ℕ) (vs : List PackageVote) (ps : List PackageBase)
    → CountedBut b vs ps
    → All
        (λ p. p.num_votes ≡ count (votes_for p.id) vs)
        (update_where (λ p. p.id == b) (λ p. record p { num_votes = count (votes_for b) vs }) ps)
recounted b vs [] h = tt
recounted b vs (p ∷ ps) h = (ground arith, recounted b vs ps h.1)

pub run_single-IsCounted :
    (b : ℕ) (db : Db) → CountedBut b db.votes db.package_bases → IsCounted (run_single b db)
unfolding run_single
run_single-IsCounted b db h = recounted b db.votes db.package_bases h

count-insert_vote :
    (v : PackageVote) (vs : List PackageVote) (a : ℕ)
    → (a == v.package_base_id) ≡ false
    → count (votes_for a) (vs ++ v ∷ []) ≡ count (votes_for a) vs
count-insert_vote v vs a h = count-append (votes_for a) vs (v ∷ []) ∙ ground arith

-- Voting on the website keeps the counters right, whether or not a vote is added.
pub vote-IsCounted :
    (req : Request) (pkgbase : PackageBase) (db : Db)
    → IsCounted db
    → IsCounted (vote req pkgbase db)
unfolding vote
vote-IsCounted req pkgbase db h =
    let b = pkgbase.id in
    let v : PackageVote = record {
      users_id = req.user.id;
      package_base_id = b;
      vote_ts = req.now;
    } in
    let but = IsCounted-CountedBut b db.votes db.package_bases h in
    elim (Bool-cases
      (has_credential req.user pkgbase_vote [] && not (any (is_vote req.user.id b) db.votes))) [
        | inl e ↦ rw e (
            run_single-IsCounted b (insert_vote v db) (
              CountedBut-step b db.votes (db.votes ++ v ∷ []) db.package_bases
                (count-insert_vote v db.votes) but))
        | inr e ↦ rw e h
      ]

-- Withdrawing a vote on the website keeps the counters right, whether or not a vote is deleted.
pub unvote-IsCounted :
    (req : Request) (pkgbase : PackageBase) (db : Db)
    → IsCounted db
    → IsCounted (unvote req pkgbase db)
unfolding unvote
unvote-IsCounted req pkgbase db h =
    let b = pkgbase.id in
    let left = delete_where (is_vote req.user.id b) db.votes in
    let but = IsCounted-CountedBut b db.votes db.package_bases h in
    elim (Bool-cases
      (has_credential req.user pkgbase_vote [] && any (is_vote req.user.id b) db.votes)) [
        | inl e ↦ rw e (
            run_single-IsCounted b (record db { votes = left })
              (CountedBut-step b db.votes left db.package_bases
                (λ a other.
                  count-delete_where_other (votes_for a) (is_vote req.user.id b) db.votes
                    (λ v is. ground arith))
                but))
        | inr e ↦ rw e h
      ]

delete_where-snoc {ℓ} :
    {A : Type ℓ} (p : A → Bool) (x : A) (xs : List A)
    → any p xs ≡ false
    → p x ≡ true
    → delete_where p (xs ++ x ∷ []) ≡ xs
delete_where-snoc p x [] h k = rw k
delete_where-snoc p x (y ∷ xs) h k = ground (arith, delete_where-snoc p x xs)

any-snoc {ℓ} :
    {A : Type ℓ} (p : A → Bool) (x : A) (xs : List A) → p x ≡ true → any p (xs ++ x ∷ []) ≡ true
any-snoc p x [] k = rw k
any-snoc p x (y ∷ xs) k = ground (arith, any-snoc p x xs k)

-- A user with the credential to vote who has not voted for the package base, votes for it and
-- withdraws the vote, leaves the votes as they were.
pub unvote-vote :
    (req : Request) (pkgbase : PackageBase) (db : Db)
    → has_credential req.user pkgbase_vote [] ≡ true
    → any (is_vote req.user.id pkgbase.id) db.votes ≡ false
    → (unvote req pkgbase (vote req pkgbase db)).votes ≡ db.votes
unfolding unvote vote
unvote-vote req pkgbase db cred absent =
    let u = req.user.id in
    let v : PackageVote = record {
      users_id = u;
      package_base_id = pkgbase.id;
      vote_ts = req.now;
    } in
    let is : is_vote u pkgbase.id v ≡ true = ground arith in
    ground (
      arith,
      cred,
      absent,
      any-snoc (is_vote u pkgbase.id) v db.votes is,
      delete_where-snoc (is_vote u pkgbase.id) v db.votes absent is,
    )
