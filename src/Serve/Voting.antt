-- ===== src/Serve/Voting.antt =====
-- Votes over SSH, in aurweb/git/serve.py, which counts up and down where the website counts anew.
use aurweb.Prelude.{
  ℕ, ◌+◌, ◌-◌, ◌≤◌, ◌≡◌, refl, ap, ◌∙◌, true, false, String, List, [], ◌∷◌, ◌++◌, ◌==◌,
  if◌then◌else◌, any, count, update_where, delete_where, arith, All, count-append, ==_sound,
  ==_refl, subst, Bool-cases, inl, inr,
}
use aurweb.Models.{Db, PackageBase, PackageVote}
use aurweb.Votes.{votes_for, is_vote}
use aurweb.Votes.Counting.{IsCounted, count-delete_where_other}
use aurweb.Serve.{Session}
use aurweb.Serve.Steps.{require_pkgbase-IsReading, require_user-IsReading}
use aurweb.Serve.Commands.{pkgbase_vote, pkgbase_unvote}

-- Rows that each add to, or take from, the counter of one package base.
incremented :
    (b : ℕ) (f : ℕ → ℕ) (vs vs' : List PackageVote) (ps : List PackageBase)
    → ((a : ℕ)
        → count (votes_for a) vs'
          ≡ (if a == b then f (count (votes_for a) vs) else count (votes_for a) vs))
    → All (λ p. p.num_votes ≡ count (votes_for p.id) vs) ps
    → All
        (λ p. p.num_votes ≡ count (votes_for p.id) vs')
        (update_where (λ p. p.id == b) (λ p. record p { num_votes = f p.num_votes }) ps)
incremented b f vs vs' [] same h = tt
incremented b f vs vs' (p ∷ ps) same h = (
  elim (Bool-cases (p.id == b)) [
    | inl e ↦ ground (arith, e, ap f h.0, same p.id)
    | inr e ↦ ground (arith, e, h.0, same p.id)
  ],
  incremented b f vs vs' ps same h.1,
)

count-inserted :
    (u b now a : ℕ) (vs : List PackageVote)
    → count (votes_for a) (vs ++ record { users_id = u; package_base_id = b; vote_ts = now } ∷ [])
      ≡ (if a == b then count (votes_for a) vs + 1 else count (votes_for a) vs)
count-inserted u b now a vs = count-append (votes_for a) vs _ ∙ ground arith

-- Voting over SSH keeps the counters right, whether the command returns or raises.
pub pkgbase_vote-IsCounted :
    (s : Session) (pkgbase : String) (db : Db)
    → IsCounted db
    → IsCounted (pkgbase_vote s pkgbase db).1
unfolding pkgbase_vote
pkgbase_vote-IsCounted s pkgbase db h = elim (require_pkgbase-IsReading pkgbase db) [
  | inr (x, e) ↦ rw e h
  | inl (b, e) ↦ elim (require_user-IsReading s.user db) [
    | inr (x, f) ↦ rw (e, f) h
    | inl (u, f) ↦ elim (Bool-cases (any (is_vote u b) db.votes)) [
      | inl v ↦ rw (e, f, v) h
      | inr v ↦
          rw (e, f, v)
            (incremented b (λ n. n + 1) db.votes _ db.package_bases
              (λ a. count-inserted u b s.now a db.votes) h)
    ]
  ]
]

-- A user votes for a package base at most once.
abbrev pub OncePerUser : List PackageVote → Type 0
OncePerUser vs = (u b : ℕ) → count (is_vote u b) vs ≤ 1

count-voted :
    (u b : ℕ) (vs : List PackageVote) → any (is_vote u b) vs ≡ true → 1 ≤ count (is_vote u b) vs
count-voted u b [] h = ground (arith, h)
count-voted u b (v ∷ vs) h = ground (arith, count-voted u b vs)

count-deleted :
    (u b : ℕ) (vs : List PackageVote)
    → count (votes_for b) (delete_where (is_vote u b) vs) + count (is_vote u b) vs
      ≡ count (votes_for b) vs
count-deleted u b [] = refl
count-deleted u b (v ∷ vs) = ground (arith, count-deleted u b vs)

pub count-withdrawn :
    (u b a : ℕ) (vs : List PackageVote)
    → count (is_vote u b) vs ≤ 1
    → any (is_vote u b) vs ≡ true
    → count (votes_for a) (delete_where (is_vote u b) vs)
      ≡ (if a == b then count (votes_for a) vs - 1 else count (votes_for a) vs)
count-withdrawn u b a vs once voted = elim (Bool-cases (a == b)) [
  | inl e ↦
      rw (==_sound a b e, ==_refl)
        (let one = count-voted u b vs voted in let sum = count-deleted u b vs in omega arith)
  | inr e ↦
      rw e (count-delete_where_other (votes_for a) (is_vote u b) vs (λ v is. ground (arith, is, e)))
]

-- Withdrawing a vote over SSH keeps the counters right, whether the command returns or raises, if
-- each user voted at most once for a package base.
pub pkgbase_unvote-IsCounted :
    (s : Session) (pkgbase : String) (db : Db)
    → OncePerUser db.votes
    → IsCounted db
    → IsCounted (pkgbase_unvote s pkgbase db).1
unfolding pkgbase_unvote
pkgbase_unvote-IsCounted s pkgbase db once h = elim (require_pkgbase-IsReading pkgbase db) [
  | inr (x, e) ↦ rw e h
  | inl (b, e) ↦ elim (require_user-IsReading s.user db) [
    | inr (x, f) ↦ rw (e, f) h
    | inl (u, f) ↦ elim (Bool-cases (any (is_vote u b) db.votes)) [
      | inl v ↦
          rw (e, f, v)
            (incremented b (λ n. n - 1) db.votes _ db.package_bases
              (λ a. count-withdrawn u b a db.votes (once u b) v) h)
      | inr v ↦ rw (e, f, v) h
    ]
  ]
]

count-absent :
    (u b : ℕ) (vs : List PackageVote) → any (is_vote u b) vs ≡ false → count (is_vote u b) vs ≡ 0
count-absent u b [] h = refl
count-absent u b (v ∷ vs) h = ground (arith, count-absent u b vs)

once_inserted :
    (u b now : ℕ) (vs : List PackageVote)
    → any (is_vote u b) vs ≡ false
    → OncePerUser vs
    → OncePerUser (vs ++ record { users_id = u; package_base_id = b; vote_ts = now } ∷ [])
once_inserted u b now vs new once w a =
    let sum =
      count-append (is_vote w a) vs
        (record { users_id = u; package_base_id = b; vote_ts = now } ∷ []) in
    elim (Bool-cases (is_vote w a (record { users_id = u; package_base_id = b; vote_ts = now }))) [
      | inl e ↦
          let user : u ≡ w = ground (arith, e) in
          let base : b ≡ a = ground (arith, e) in
          let absent : count (is_vote w a) vs ≡ 0 =
            subst (λ n. count (is_vote n a) vs ≡ 0) user
              (subst (λ n. count (is_vote u n) vs ≡ 0) base (count-absent u b vs new)) in
          ground (arith, e, sum, absent)
      | inr e ↦ ground (arith, e, sum, once w a)
    ]

-- A user votes at most once for a package base, after a vote over SSH as before it.
pub pkgbase_vote-OncePerUser :
    (s : Session) (pkgbase : String) (db : Db)
    → OncePerUser db.votes
    → OncePerUser (pkgbase_vote s pkgbase db).1.votes
unfolding pkgbase_vote
pkgbase_vote-OncePerUser s pkgbase db once = elim (require_pkgbase-IsReading pkgbase db) [
  | inr (x, e) ↦ rw e once
  | inl (b, e) ↦ elim (require_user-IsReading s.user db) [
    | inr (x, f) ↦ rw (e, f) once
    | inl (u, f) ↦ elim (Bool-cases (any (is_vote u b) db.votes)) [
      | inl v ↦ rw (e, f, v) once
      | inr v ↦ rw (e, f, v) (once_inserted u b s.now db.votes v once)
    ]
  ]
]
