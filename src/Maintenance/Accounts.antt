-- ===== src/Maintenance/Accounts.antt =====
-- aurweb/scripts/accountmaint.py: accounts that never verified and left nothing behind are warned,
-- and later deleted. The rows that a deletion cascades into, other than content, which such an account
-- has not, are not modelled.
use aurweb.Prelude.{
  ℕ, zero, suc, ◌+◌, ◌-◌, ◌*◌, ◌/◌, ◌%◌, Bool, true, false, not, ◌&&◌, Option, none, some, List, [],
  ◌∷◌, if◌then◌else◌, ltb, leb, ◌==◌, filter, map, length, count, drop, contains, update_where,
  delete_where,
}
use aurweb.Models.{Db, User, verification_reminder_notification, send}
use aurweb.Creds.{user_id}
use aurweb.Maintenance.{World, owns_content}

-- The options: `unverified_account_lifetime`, `unverified_account_warning` and
-- `email_verification_ttl`, which is also the width of the warning band.
pub record Windows : Type 0 where
  pub lifetime : ℕ
  pub warn_after : ℕ
  pub ttl : ℕ

pub data ConfigError : Type 0 where
  warning_not_before_deletion token_outlives_warning : ConfigError

unfoldable pub check_config : Windows → Option ConfigError
check_config c =
    if leb c.lifetime c.warn_after
    then some warning_not_before_deletion
    else if leb c.warn_after c.ttl
    then some token_outlives_warning
    else none

-- The test of `_doomed`. A time before the epoch is before no login, hence the sums.
abbrev pub is_doomed : Windows → ℕ → World → User → Bool
is_doomed c now w u =
    not u.email_verified
    && u.account_type_id == user_id
    && ltb (u.last_login + c.lifetime) now
    && ltb (u.last_ssh_login + c.lifetime) now
    && not (owns_content u.id w)

-- No token is live.
abbrev pub token_is_over : ℕ → Option ℕ → Bool
token_is_over now none = true
token_is_over now (some expiry) = leb expiry now

-- The test of `expiring`.
abbrev pub is_expiring : Windows → ℕ → World → User → Bool
is_expiring c now w u =
    is_doomed c now w u
    && not u.suspended
    && ltb (u.registration_ts + c.warn_after) now
    && leb now (u.registration_ts + (c.warn_after + c.ttl))
    && token_is_over now u.email_verification_expiry

-- The test of `expired`.
abbrev pub is_expired : Windows → ℕ → World → User → Bool
is_expired c now w u = is_doomed c now w u && ltb (u.registration_ts + c.lifetime) now

abbrev pub expired : Windows → ℕ → World → List ℕ
expired c now w = map (λ u. u.id) (filter (is_expired c now w) w.main.users)

-- Python's `round` of a quotient: half goes to the even neighbour.
abbrev pub round_quotient : ℕ → ℕ → ℕ
round_quotient a b =
    let q = a / b in
    let r = 2 * (a % b) in if ltb r b then q else if ltb b r then q + 1 else q + q % 2

abbrev pub days_left : Windows → ℕ
days_left c =
    let days = round_quotient (c.lifetime - c.warn_after) 86400 in if days == 0 then 1 else days

-- `verify.issue`
abbrev pub issue : Windows → ℕ → User → User
issue c now u = record u { email_verification_expiry = some (now + c.ttl) }

-- What a run does with the accounts in the warning band.
unfoldable pub warn : Windows → ℕ → World → World
warn c now w =
    let db = w.main in
    let mailed = filter (is_expiring c now w) db.users in
    let issued : Db = record db {
      users = update_where (is_expiring c now w) (issue c now) db.users;
    } in
    record w {
      main = send (map (λ u. verification_reminder_notification u.id (days_left c)) mailed) issued;
    }

abbrev pub batch_size : ℕ
batch_size = 500

abbrev pub take : ℕ → List ℕ → List ℕ
take zero xs = []
take (suc n) [] = []
take (suc n) (x ∷ xs) = x ∷ take n xs

-- `range(0, len(uids), BATCH_SIZE)`, on fuel.
unfoldable pub batches : ℕ → List ℕ → List (List ℕ)
batches zero uids = []
batches (suc n) [] = []
batches (suc n) (u ∷ uids) =
    let batch = take batch_size (u ∷ uids) in batch ∷ batches n (drop batch_size (u ∷ uids))

-- A statement for each batch, with the number of the rows that it deletes.
abbrev pub delete_batches : List (List ℕ) → List User → ℕ × List User
delete_batches [] users = (0, users)
delete_batches (batch ∷ bs) users =
    let (deleted, left) = delete_batches bs (delete_where (λ u. contains batch u.id) users) in
    (count (λ u. contains batch u.id) users + deleted, left)

unfoldable pub delete : Windows → ℕ → World → ℕ × World
unfolding batches
delete c now w =
    let db = w.main in
    let uids = expired c now w in
    let (deleted, left) = delete_batches (batches (length uids) uids) db.users in
    (deleted, record w { main = record db { users = left } })

-- A dry run counts and leaves the tables.
abbrev pub run : Windows → Bool → ℕ → World → (ℕ × ℕ) × World
run c true now w = ((count (is_expiring c now w) w.main.users, length (expired c now w)), w)
run c false now w =
    let warned = warn c now w in
    let (deleted, left) = delete c now warned in
    ((count (is_expiring c now w) w.main.users, deleted), left)

-- `_main`: the numbers of accounts warned and deleted, or why it does not run.
abbrev pub unless_error : Option ConfigError → (ℕ × ℕ) × World → World → (Option (ℕ × ℕ)) × World
unless_error (some e) result w = (none, w)
unless_error none result w = (some result.0, result.1)

unfoldable pub main : Windows → Bool → ℕ → World → (Option (ℕ × ℕ)) × World
unfolding warn delete check_config
main c dry_run now w = unless_error (check_config c) (run c dry_run now w) w
