-- ===== src/Maintenance/Deletions.antt =====
-- What the scripts delete and change.
use aurweb.Prelude.{
  ℕ, zero, suc, ◌+◌, ◌<◌, ◌≤◌, Bool, true, false, ◌||◌, none, List, [], ◌∷◌, ◌++◌, ◌≡◌, refl, ◌∙◌,
  ap, fun_ext, subst, ap₂, ltb, ◌==◌, All, count, filter, map, find?, find?-delete_where,
  delete_where_twice, length, append-nil, update_where, delete_where, contains, drop, arith,
  Bool-cases, inl, inr, if◌then◌else◌, ==_sound,
}
use aurweb.Models.{
  Db, User, PackageRequest, rejected, request_close_notification, send, Notification,
}
use aurweb.Maintenance.{World}
use aurweb.Maintenance.Accounts.{
  Windows, is_expired, expired, take, batches, batch_size, delete, delete_batches,
}
use aurweb.Maintenance.Requests.{is_idle, reject, reject_idle, scrub_addresses, week}

concat : List (List ℕ) → List ℕ
concat [] = []
concat (xs ∷ xss) = xs ++ concat xss

take-drop : (n : ℕ) (xs : List ℕ) → take n xs ++ drop n xs ≡ xs
take-drop zero xs = refl
take-drop (suc n) [] = refl
take-drop (suc n) (x ∷ xs) = ap (λ l. x ∷ l) (take-drop n xs)

length-drop_le : (n : ℕ) (xs : List ℕ) → length (drop n xs) ≤ length xs
length-drop_le zero xs = omega arith
length-drop_le (suc n) [] = omega arith
length-drop_le (suc n) (x ∷ xs) = omega (arith, length-drop_le n xs)

-- Fuel of the number of the IDs is enough: the batches have them all, in order.
concat-batches : (n : ℕ) (uids : List ℕ) → length uids ≤ n → concat (batches n uids) ≡ uids
unfolding batches concat
concat-batches zero [] h = refl
concat-batches zero (u ∷ uids) h = ground (arith, h)
concat-batches (suc n) [] h = refl
concat-batches (suc n) (u ∷ uids) h =
    ap (λ l. take batch_size (u ∷ uids) ++ l)
      (concat-batches n (drop batch_size (u ∷ uids)) (omega (arith, h, length-drop_le 499 uids)))
    ∙ take-drop batch_size (u ∷ uids)

contains-append :
    (xs ys : List ℕ) (a : ℕ) → contains (xs ++ ys) a ≡ (contains xs a || contains ys a)
contains-append [] ys a = refl
contains-append (x ∷ xs) ys a = ground (arith, contains-append xs ys a)

nothing :
    (users : List User)
    → (users ≡ delete_where (λ (u : User). false) users) × (0 ≡ count (λ (u : User). false) users)
nothing [] = (refl, refl)
nothing (u ∷ users) = let rest = nothing users in (ap (λ l. u ∷ l) rest.0, rest.1)

delete_batches-concat :
    (bs : List (List ℕ)) (users : List User)
    → let gone = λ (u : User). contains (concat bs) u.id in
      ((delete_batches bs users).1 ≡ delete_where gone users)
      × ((delete_batches bs users).0 ≡ count gone users)
unfolding concat
delete_batches-concat [] users = nothing users
delete_batches-concat (batch ∷ bs) users =
    let p = λ (u : User). contains batch u.id in
    let q = λ (u : User). contains (concat bs) u.id in
    let rest = delete_batches-concat bs (delete_where p users) in
    let two = delete_where_twice p q users in
    let same : (λ (u : User). contains (batch ++ concat bs) u.id) ≡ (λ (u : User). p u || q u) =
      fun_ext (λ u. contains-append batch (concat bs) u.id) in
    rw same (rest.0 ∙ two.0, ap (λ n. count p users + n) rest.1 ∙ two.1)

-- The deletions in batches delete, in all, the accounts of the IDs that `expired` finds, and report
-- their number.
pub delete-expired :
    (c : Windows) (now : ℕ) (w : World)
    → let gone = λ (u : User). contains (expired c now w) u.id in
      ((delete c now w).1.main.users ≡ delete_where gone w.main.users)
      × ((delete c now w).0 ≡ count gone w.main.users)
unfolding delete
delete-expired c now w =
    let uids = expired c now w in
    let all = concat-batches (length uids) uids (omega arith) in
    let done = delete_batches-concat (batches (length uids) uids) w.main.users in
    subst
      (λ (l : List ℕ).
        let gone = λ (u : User). contains l u.id in
        ((delete_batches (batches (length uids) uids) w.main.users).1
          ≡ delete_where gone w.main.users)
        × ((delete_batches (batches (length uids) uids) w.main.users).0 ≡ count gone w.main.users))
      all done

not_expired :
    (p : User → Bool) (id : ℕ) (users : List User)
    → All (λ u. (u.id == id) ≡ true → p u ≡ false) users
    → contains (map (λ u. u.id) (filter p users)) id ≡ false
not_expired p id [] h = refl
not_expired p id (u ∷ users) h = elim (Bool-cases (u.id == id)) [
  | inl e ↦ ground (arith, h.0 e, not_expired p id users h.1)
  | inr e ↦ ground (arith, e, not_expired p id users h.1)
]

-- The deletion leaves the row of an ID if no row of that ID has expired: so an account stays if its
-- address is verified, it is not an ordinary user's, it owns content, it logged in within a
-- lifetime, or it is younger than that.
pub delete-spares :
    (c : Windows) (now id : ℕ) (w : World)
    → All (λ u. (u.id == id) ≡ true → is_expired c now w u ≡ false) w.main.users
    → find? (λ u. u.id == id) (delete c now w).1.main.users ≡ find? (λ u. u.id == id) w.main.users
delete-spares c now id w h =
    let gone = λ (u : User). contains (expired c now w) u.id in
    let spared = not_expired (is_expired c now w) id w.main.users h in
    ap (find? (λ u. u.id == id)) (delete-expired c now w).0
    ∙ find?-delete_where (λ u. u.id == id) gone w.main.users
        (everywhere (λ u. (u.id == id) ≡ true → gone u ≡ false) w.main.users
          (λ u e. ap (contains (expired c now w)) (==_sound u.id id e) ∙ spared))
  where
    everywhere : (P : User → Type 0) (xs : List User) → ((u : User) → P u) → All P xs
    everywhere P [] f = tt
    everywhere P (x ∷ xs) f = (f x, everywhere P xs f)

reject-not_idle :
    (idle_time now : ℕ) (r : PackageRequest) → is_idle idle_time now (reject now r) ≡ false
reject-not_idle idle_time now r = ground arith

reject-is_idle :
    (idle_time now : ℕ) (rs : List PackageRequest)
    → let after = update_where (is_idle idle_time now) (reject now) rs in
      (filter (is_idle idle_time now) after ≡ [])
      × (update_where (is_idle idle_time now) (reject now) after ≡ after)
reject-is_idle idle_time now [] = (refl, refl)
reject-is_idle idle_time now (r ∷ rs) =
    let rest = reject-is_idle idle_time now rs in
    elim (Bool-cases (is_idle idle_time now r)) [
      | inl e ↦ rw (e, reject-not_idle idle_time now r) (rest.0, ap (λ l. reject now r ∷ l) rest.1)
      | inr e ↦ rw (e, e) (rest.0, ap (λ l. r ∷ l) rest.1)
    ]

-- A second run of requestmaint at one time does nothing: the first has rejected every adoption request
-- that was idle, with one notification for each.
pub reject_idle-idempotent :
    (idle_time now : ℕ) (db : Db)
    → reject_idle idle_time now (reject_idle idle_time now db) ≡ reject_idle idle_time now db
unfolding reject_idle
reject_idle-idempotent idle_time now db =
    let after = reject_idle idle_time now db in
    let r = reject-is_idle idle_time now db.requests in
    ap₂
      (λ (fs rs : List PackageRequest).
        send (map (λ r. request_close_notification 0 r.id rejected) fs)
          (record after { requests = rs }))
      r.0 r.1
    ∙ ap (λ (ns : List Notification). record after { sent = ns }) (append-nil after.sent)

scrubbed :
    (now : ℕ) (u : User)
    → let v =
        if ltb (u.last_login + week) now then record u { last_login_ip_address = none } else u in
      let x =
        if ltb (v.last_ssh_login + week) now
        then record v { last_ssh_login_ip_address = none }
        else v in
      (x.last_login + week < now → x.last_login_ip_address ≡ none)
      × (x.last_ssh_login + week < now → x.last_ssh_login_ip_address ≡ none)
scrubbed now u = elim (Bool-cases (ltb (u.last_login + week) now)) [
  | inl a ↦ elim (Bool-cases (ltb (u.last_ssh_login + week) now)) [
    | inl b ↦ rw (a, b) ((λ h. refl), λ h. refl)
    | inr b ↦ rw (a, b) ((λ h. refl), λ h. ground (arith, b, h))
  ]
  | inr a ↦ elim (Bool-cases (ltb (u.last_ssh_login + week) now)) [
    | inl b ↦ rw (a, b) ((λ h. ground (arith, a, h)), λ h. refl)
    | inr b ↦ rw (a, b) ((λ h. ground (arith, a, h)), λ h. ground (arith, b, h))
  ]
]

-- After usermaint, no login of more than a week ago has its address kept.
pub scrub_addresses-All :
    (now : ℕ) (users : List User)
    → All
        (λ u.
          (u.last_login + week < now → u.last_login_ip_address ≡ none)
          × (u.last_ssh_login + week < now → u.last_ssh_login_ip_address ≡ none))
        (scrub_addresses now users)
unfolding scrub_addresses
scrub_addresses-All now [] = tt
scrub_addresses-All now (u ∷ users) = (scrubbed now u, scrub_addresses-All now users)
