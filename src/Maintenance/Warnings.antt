-- ===== src/Maintenance/Warnings.antt =====
-- How often an account is warned, and when.
use aurweb.Prelude.{
  ℕ, ◌+◌, ◌<◌, ◌≤◌, Bool, true, false, ◌&&◌, none, some, List, [], ◌∷◌, ◌≡◌, refl, ◌⊎◌, ◌==◌, All,
  All-delete_where, All-update_where, count, count-append, count-update_where, filter, map,
  update_where, delete_where, contains, arith, Bool-cases, Option-cases, inl, inr, length, find?,
  subst, sym,
}
use aurweb.Prelude.{count-delete_where_le, All-map}
use aurweb.Models.{User, Notification, verification_reminder_notification}
use aurweb.Creds.{user_id}
use aurweb.Maintenance.{World, owns_content}
use aurweb.Maintenance.Accounts.{
  Windows, check_config, is_expiring, issue, days_left, warn, delete, delete_batches, batches,
  expired, run, main,
}

abbrev pub is_reminder_to : ℕ → Notification → Bool
is_reminder_to uid (verification_reminder_notification u days) = u == uid
is_reminder_to uid _ = false

-- The account's token outlasts the warning band.
IsDone : Windows → User → Type 0
IsDone c u =
    (expiry : ℕ) × (u.email_verification_expiry ≡ some expiry)
    × (u.registration_ts + (c.warn_after + c.ttl) < expiry)

is_expiring-IsDone :
    (c : Windows) (now : ℕ) (w : World) (u : User) → IsDone c u → is_expiring c now w u ≡ false
unfolding IsDone
is_expiring-IsDone c now w u (x, e, l) = rw e (ground (arith, l))

issue-IsDone :
    (c : Windows) (now : ℕ) (w : World) (u : User)
    → is_expiring c now w u ≡ true
    → IsDone c (issue c now u)
unfolding IsDone
issue-IsDone c now w u h = (now + c.ttl, refl, ground (arith, h))

module _ (c : Windows) (uid : ℕ) where
  abbrev IsDoneIf : User → Type 0
  IsDoneIf u = (u.id == uid) ≡ true → IsDone c u

  -- At most one reminder went to the account, and if one did, its token outlasts the band.
  abbrev IsWarnedOnce : World → Type 0
  IsWarnedOnce w =
      (count (λ u. u.id == uid) w.main.users ≤ 1)
      × (count (is_reminder_to uid) w.main.sent ≤ 1)
      × ((count (is_reminder_to uid) w.main.sent ≡ 0) ⊎ All IsDoneIf w.main.users)

  count-reminders :
      (p : User → Bool) (days : ℕ) (users : List User)
      → count
          (is_reminder_to uid)
          (map (λ u. verification_reminder_notification u.id days) (filter p users))
        ≡ count (λ u. p u && u.id == uid) users
  count-reminders p days [] = refl
  count-reminders p days (u ∷ users) = ground (arith, count-reminders p days users)

  count-both_le :
      (p : User → Bool) (users : List User)
      → count (λ u. p u && u.id == uid) users ≤ count (λ u. u.id == uid) users
  count-both_le p [] = omega arith
  count-both_le p (u ∷ users) = ground (arith, count-both_le p users)

  -- If all rows of the ID count, each satisfies the test.
  All-counted :
      (p : User → Bool) (users : List User)
      → count (λ u. u.id == uid) users ≤ count (λ u. p u && u.id == uid) users
      → All (λ u. (u.id == uid) ≡ true → p u ≡ true) users
  All-counted p [] h = tt
  All-counted p (u ∷ users) h = (
    (λ e. ground (arith, h, e, count-both_le p users)),
    All-counted p users (ground (arith, h, count-both_le p users)),
  )

  count-both_none :
      (p : User → Bool) (users : List User)
      → All (λ u. (u.id == uid) ≡ true → p u ≡ false) users
      → count (λ u. p u && u.id == uid) users ≡ 0
  count-both_none p [] h = refl
  count-both_none p (u ∷ users) h = elim (Bool-cases (u.id == uid)) [
    | inl e ↦ ground (arith, count-both_none p users h.1, h.0 e)
    | inr e ↦ ground (arith, count-both_none p users h.1, e)
  ]

  issued :
      (now : ℕ) (w : World) (users : List User)
      → All (λ u. (u.id == uid) ≡ true → is_expiring c now w u ≡ true) users
      → All IsDoneIf (update_where (is_expiring c now w) (issue c now) users)
  issued now w [] h = tt
  issued now w (u ∷ users) h = (
    elim (Bool-cases (is_expiring c now w u)) [
      | inl e ↦ rw e (λ k. issue-IsDone c now w u e)
      | inr e ↦ rw e (λ k. let clash = h.0 k in cc)
    ],
    issued now w users h.1,
  )

  warn-IsWarnedOnce : (now : ℕ) (w : World) → IsWarnedOnce w → IsWarnedOnce (warn c now w)
  unfolding warn
  warn-IsWarnedOnce now w (ids, most, state) =
      let users = w.main.users in
      let p = is_expiring c now w in
      let mailed =
        map (λ u. verification_reminder_notification u.id (days_left c)) (filter p users) in
      let more = count-append (is_reminder_to uid) w.main.sent mailed in
      let sent = count-reminders p (days_left c) users in
      let same = count-update_where (λ u. u.id == uid) p (issue c now) users (λ u. refl) in
      let few = count-both_le p users in
      let ids' : count (λ u. u.id == uid) (update_where p (issue c now) users) ≤ 1 =
        omega (arith, same, ids) in
      elim state [
        | inr finished ↦
            let off =
              All-map IsDoneIf (λ u. (u.id == uid) ≡ true → p u ≡ false) users
                (λ u d k. is_expiring-IsDone c now w u (d k)) finished in
            let zero = count-both_none p users off in
            (
              ids',
              omega (arith, more, sent, zero, most),
              inr (
                  All-update_where IsDoneIf p (issue c now) users
                    (λ u e d k. issue-IsDone c now w u e) finished),
            )
        | inl unsent ↦ (
          ids',
          omega (arith, more, sent, few, ids, unsent),
          elim (Bool-cases (count (λ u. p u && u.id == uid) users == 0)) [
            | inl z ↦ inl (ground (arith, more, sent, unsent, z))
            | inr z ↦ inr (issued now w users (All-counted p users (ground (arith, few, ids, z))))
          ],
        )
      ]

  delete_batches-IsWarnedOnce :
      (bs : List (List ℕ)) (users : List User)
      → let left = (delete_batches bs users).1 in
        (count (λ u. u.id == uid) left ≤ count (λ u. u.id == uid) users)
        × (All IsDoneIf users → All IsDoneIf left)
  delete_batches-IsWarnedOnce [] users = (omega arith, λ h. h)
  delete_batches-IsWarnedOnce (batch ∷ bs) users =
      let gone = λ (u : User). contains batch u.id in
      let rest = delete_batches-IsWarnedOnce bs (delete_where gone users) in
      (
        omega (arith, rest.0, count-delete_where_le (λ u. u.id == uid) gone users),
        λ h. rest.1 (All-delete_where IsDoneIf gone users h),
      )

  delete-IsWarnedOnce : (now : ℕ) (w : World) → IsWarnedOnce w → IsWarnedOnce (delete c now w).1
  unfolding delete
  delete-IsWarnedOnce now w (ids, most, state) =
      let uids = expired c now w in
      let kept = delete_batches-IsWarnedOnce (batches (length uids) uids) w.main.users in
      (
        omega (arith, kept.0, ids),
        most,
        elim state [ inl unsent ↦ inl unsent | inr finished ↦ inr (kept.1 finished) ],
      )

  run-IsWarnedOnce :
      (dry_run : Bool) (now : ℕ) (w : World) → IsWarnedOnce w → IsWarnedOnce (run c dry_run now w).1
  run-IsWarnedOnce true now w h = h
  run-IsWarnedOnce false now w h =
      delete-IsWarnedOnce now (warn c now w) (warn-IsWarnedOnce now w h)

  main-IsWarnedOnce :
      (dry_run : Bool) (now : ℕ) (w : World)
      → IsWarnedOnce w
      → IsWarnedOnce (main c dry_run now w).1
  unfolding main
  main-IsWarnedOnce dry_run now w h = elim (Option-cases (check_config c)) [
    | inr (e, k) ↦ rw k h
    | inl k ↦ rw k (run-IsWarnedOnce dry_run now w h)
  ]

-- A run at each of some times, in any order.
abbrev pub run_at : Windows → List ℕ → World → World
run_at c [] w = w
run_at c (now ∷ times) w = run_at c times (main c false now w).1

run_at-IsWarnedOnce :
    (c : Windows) (uid : ℕ) (times : List ℕ) (w : World)
    → IsWarnedOnce c uid w
    → IsWarnedOnce c uid (run_at c times w)
run_at-IsWarnedOnce c uid [] w h = h
run_at-IsWarnedOnce c uid (now ∷ times) w h =
    run_at-IsWarnedOnce c uid times (main c false now w).1 (main-IsWarnedOnce c uid false now w h)

-- However often the script runs, and at whatever times, it warns an account at most once, if
-- nothing else changes the database meanwhile: a warning's token outlasts the time in which
-- accounts are warned. At first no reminder has gone to the ID, and at most one row has it.
pub run_at-once :
    (c : Windows) (uid : ℕ) (times : List ℕ) (w : World)
    → count (λ u. u.id == uid) w.main.users ≤ 1
    → count (is_reminder_to uid) w.main.sent ≡ 0
    → count (is_reminder_to uid) (run_at c times w).main.sent ≤ 1
run_at-once c uid times w ids unsent =
    (run_at-IsWarnedOnce c uid times w (ids, omega (arith, unsent), inl unsent)).1

is_expiring-registered :
    (c : Windows) (now : ℕ) (w : World) (u : User)
    → check_config c ≡ none
    → (u.email_verified ≡ false) × (u.suspended ≡ false) × (u.account_type_id ≡ user_id)
    → owns_content u.id w ≡ false
    → u.email_verification_expiry ≡ some (u.registration_ts + c.ttl)
    → (u.last_login + c.lifetime < now) × (u.last_ssh_login + c.lifetime < now)
    → u.registration_ts + c.warn_after < now
    → now ≤ u.registration_ts + (c.warn_after + c.ttl)
    → is_expiring c now w u ≡ true
unfolding check_config
is_expiring-registered c now w u config (a, b, t) owns token (l, s) from to =
    rw token (ground (arith, config, a, b, t, owns, l, s, from, to))

count-found :
    (p : User → Bool) (u : User) (users : List User)
    → find? (λ v. v.id == u.id) users ≡ some u
    → p u ≡ true
    → 0 < count (λ v. p v && v.id == u.id) users
count-found p u [] h e = cc
count-found p u (x ∷ xs) h e = elim (Bool-cases (x.id == u.id)) [
  | inl k ↦
      let same : x ≡ u = ground (arith, h, k) in
      let holds_too : p x ≡ true = subst (λ z. p z ≡ true) (sym same) e in
      ground (arith, k, holds_too)
  | inr k ↦ ground (arith, k, count-found p u xs (ground (arith, h, k)) e)
]

-- Where the configuration is taken, a run at any time in the warning band sends a reminder to an account
-- that was not used since it registered: it is an ordinary user's, neither verified nor suspended, owns
-- nothing, has the token of its registration, and last logged in, if at all, more than a lifetime
-- before. The row is the first with its ID.
pub main-reminds :
    (c : Windows) (now : ℕ) (w : World) (u : User)
    → check_config c ≡ none
    → find? (λ v. v.id == u.id) w.main.users ≡ some u
    → (u.email_verified ≡ false) × (u.suspended ≡ false) × (u.account_type_id ≡ user_id)
    → owns_content u.id w ≡ false
    → u.email_verification_expiry ≡ some (u.registration_ts + c.ttl)
    → (u.last_login + c.lifetime < now) × (u.last_ssh_login + c.lifetime < now)
    → u.registration_ts + c.warn_after < now
    → now ≤ u.registration_ts + (c.warn_after + c.ttl)
    → count (is_reminder_to u.id) w.main.sent
      < count (is_reminder_to u.id) (main c false now w).1.main.sent
unfolding main warn delete
main-reminds c now w u config here plain owns token idle from to =
    let due = is_expiring-registered c now w u config plain owns token idle from to in
    let p = is_expiring c now w in
    let mailed =
      map (λ v. verification_reminder_notification v.id (days_left c)) (filter p w.main.users) in
    let more = count-append (is_reminder_to u.id) w.main.sent mailed in
    let sent = count-reminders c u.id p (days_left c) w.main.users in
    let some_sent = count-found p u w.main.users here due in
    rw config (omega (arith, more, sent, some_sent))
