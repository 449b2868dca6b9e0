-- ===== src/Actions/Merging.antt =====
-- `_retry_merge` of aurweb/pkgbase/actions.py: what a merge does with the votes, the notifications and
-- the comments.
use aurweb.Prelude.{
  ℕ, ◌+◌, ◌≡◌, refl, sym, ap, ◌∙◌, Bool, true, false, not, ◌&&◌, List, [], ◌∷◌, ◌==◌, if◌then◌else◌,
  any, count, update_where, delete_where, arith, All, ==_sound, Bool-cases, inl, inr,
}
use aurweb.Models.{Db, PackageBase, PackageVote, PackageNotification}
use aurweb.Votes.{votes_for, is_vote}
use aurweb.Votes.Counting.{IsCounted, CountedBut, count-delete_where_other}
use aurweb.Actions.{has_vote, has_notification, notifies, retry_merge}

count-zero {ℓ} : {A : Type ℓ} (p : A → Bool) (xs : List A) → any p xs ≡ false → count p xs ≡ 0
count-zero p [] h = refl
count-zero p (x ∷ xs) h = ground (arith, count-zero p xs)

-- The update of one table: rows of `b` move to `t` unless the target had one of the same user.
module _ (b t : ℕ) (other : (b == t) ≡ false) (had : ℕ → Bool) where
  abbrev moved_votes : List PackageVote → List PackageVote
  moved_votes vs =
      update_where (λ v. v.package_base_id == b && not (had v.users_id))
        (λ v. record v { package_base_id = t }) vs

  count-moved_votes :
      (u : ℕ) (vs : List PackageVote)
      → count (is_vote u t) (moved_votes vs)
        ≡ count (is_vote u t) vs + (if had u then 0 else count (is_vote u b) vs)
  count-moved_votes u [] = ground arith
  count-moved_votes u (v ∷ vs) = elim (Bool-cases (v.users_id == u)) [
    | inl e ↦ ground (arith, e, other, ap had (==_sound v.users_id u e), count-moved_votes u vs)
    | inr e ↦ ground (arith, e, count-moved_votes u vs)
  ]

  -- The votes for a third package base do not change.
  count-moved_votes_other :
      (a : ℕ) (vs : List PackageVote)
      → (a == b) ≡ false
      → (a == t) ≡ false
      → count (votes_for a) (moved_votes vs) ≡ count (votes_for a) vs
  count-moved_votes_other a [] h k = refl
  count-moved_votes_other a (v ∷ vs) h k = ground (arith, h, k, count-moved_votes_other a vs h k)

  abbrev moved_notifications : List PackageNotification → List PackageNotification
  moved_notifications ns =
      update_where (λ n. n.package_base_id == b && not (had n.user_id))
        (λ n. record n { package_base_id = t }) ns

  count-moved_notifications :
      (u : ℕ) (ns : List PackageNotification)
      → count (notifies u t) (moved_notifications ns)
        ≡ count (notifies u t) ns + (if had u then 0 else count (notifies u b) ns)
  count-moved_notifications u [] = ground arith
  count-moved_notifications u (n ∷ ns) = elim (Bool-cases (n.user_id == u)) [
    | inl e ↦
        ground (arith, e, other, ap had (==_sound n.user_id u e), count-moved_notifications u ns)
    | inr e ↦ ground (arith, e, count-moved_notifications u ns)
  ]

chosen_count :
    (had : Bool) (n m : ℕ)
    → (had ≡ false → n ≡ 0)
    → n + (if had then 0 else m) ≡ (if had then n else m)
chosen_count true n m h = omega arith
chosen_count false n m h = rw (h refl) (omega arith)

-- After a merge a user has for the target the votes that it had for it before, or, if it had none,
-- those that it had for the merged package base; so nobody's vote is lost or doubled. The package
-- bases differ.
pub count-retry_merge_votes :
    (pkgbase target : PackageBase) (db : Db) (u : ℕ)
    → (pkgbase.id == target.id) ≡ false
    → count (is_vote u target.id) (retry_merge pkgbase target db).votes ≡ (
        if has_vote u target.id db
        then count (is_vote u target.id) db.votes
        else count (is_vote u pkgbase.id) db.votes)
unfolding retry_merge
count-retry_merge_votes pkgbase target db u other =
    let b = pkgbase.id in
    let t = target.id in
    let had = λ (w : ℕ). has_vote w t db in
    count-delete_where_other (is_vote u t) (votes_for b) (moved_votes b t other had db.votes)
      (λ v is. ground (arith, is, other))
    ∙ count-moved_votes b t other had u db.votes
    ∙ chosen_count (has_vote u t db) (count (is_vote u t) db.votes) (count (is_vote u b) db.votes)
        (count-zero (is_vote u t) db.votes)

-- After a merge a user has for the target the notifications that it had for it before, or, if it had
-- none, those that it had for the merged package base. The package bases differ.
pub count-retry_merge_notifications :
    (pkgbase target : PackageBase) (db : Db) (u : ℕ)
    → (pkgbase.id == target.id) ≡ false
    → count (notifies u target.id) (retry_merge pkgbase target db).notifications ≡ (
        if has_notification u target.id db
        then count (notifies u target.id) db.notifications
        else count (notifies u pkgbase.id) db.notifications)
unfolding retry_merge
count-retry_merge_notifications pkgbase target db u other =
    let b = pkgbase.id in
    let t = target.id in
    let had = λ (w : ℕ). has_notification w t db in
    count-delete_where_other (notifies u t) (λ n. n.package_base_id == b)
      (moved_notifications b t other had db.notifications) (λ n is. ground (arith, is, other))
    ∙ count-moved_notifications b t other had u db.notifications
    ∙ chosen_count (has_notification u t db) (count (notifies u t) db.notifications)
        (count (notifies u b) db.notifications) (count-zero (notifies u t) db.notifications)

CountedBut-weaken :
    (b t : ℕ) (vs : List PackageVote) (ps : List PackageBase) (vs' : List PackageVote)
    → ((a : ℕ)
        → (a == b) ≡ false
        → (a == t) ≡ false
        → count (votes_for a) vs' ≡ count (votes_for a) vs)
    → All (λ p. p.num_votes ≡ count (votes_for p.id) vs) ps
    → All
        (λ p. (p.id == b) ≡ false → p.num_votes ≡ count (votes_for p.id) vs')
        (update_where (λ p. p.id == t) (λ p. record p { num_votes = count (votes_for t) vs' }) ps)
CountedBut-weaken b t vs [] vs' same h = tt
CountedBut-weaken b t vs (p ∷ ps) vs' same h = (
  elim (Bool-cases (p.id == t)) [
    | inl f ↦ rw f (λ e. ground (arith, f))
    | inr f ↦ rw f (λ e. h.0 ∙ sym (same p.id e f))
  ],
  CountedBut-weaken b t vs ps vs' same h.1,
)

pub remaining :
    (b : ℕ) (vs : List PackageVote) (ps : List PackageBase)
    → CountedBut b vs ps
    → All
        (λ p. p.num_votes ≡ count (votes_for p.id) (delete_where (votes_for b) vs))
        (delete_where (λ p. p.id == b) ps)
remaining b vs [] h = tt
remaining b vs (p ∷ ps) h = elim (Bool-cases (p.id == b)) [
  | inl e ↦ rw e (remaining b vs ps h.1)
  | inr e ↦ rw e (
    h.0 e
        ∙ sym (
            count-delete_where_other (votes_for p.id) (votes_for b) vs
              (λ v is. ground (arith, is, e))),
    remaining b vs ps h.1,
  )
]

-- A merge keeps the vote counters of the remaining package bases right. The package bases differ.
pub retry_merge-IsCounted :
    (pkgbase target : PackageBase) (db : Db)
    → (pkgbase.id == target.id) ≡ false
    → IsCounted db
    → IsCounted (retry_merge pkgbase target db)
unfolding retry_merge
retry_merge-IsCounted pkgbase target db other h =
    let b = pkgbase.id in
    let t = target.id in
    let had = λ (w : ℕ). has_vote w t db in
    let moved = moved_votes b t other had db.votes in
    remaining b moved _ (
      CountedBut-weaken b t db.votes db.package_bases moved
        (λ a e f. count-moved_votes_other b t other had a db.votes e f) h)
