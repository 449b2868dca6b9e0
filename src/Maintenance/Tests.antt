-- ===== src/Maintenance/Tests.antt =====
-- An account that was made at 1000 and never used.
use aurweb.Prelude.{
  ◌≤◌, ◌<◌, ◌+◌, false, none, some, [], ◌∷◌, ◌≡◌, refl, arith, count, ◌==◌, find?, All,
}
use aurweb.Models.{User}
use aurweb.Samples.{db, user, alice}
use aurweb.Maintenance.{World, owns_content}
use aurweb.Maintenance.Accounts.{Windows, check_config, main, warn, delete, batches, round_quotient}
use aurweb.Prelude.{contains, delete_where}
use aurweb.Maintenance.Accounts.{expired}
use aurweb.Maintenance.Requests.{reject_idle, scrub_addresses, week}
use aurweb.Maintenance.Warnings.{is_reminder_to, run_at, run_at-once, main-reminds}
use aurweb.Maintenance.Deletions.{
  delete-expired, delete-spares, reject_idle-idempotent, scrub_addresses-All,
}

abbrev windows : Windows
windows = record { lifetime = 1209600; warn_after = 604800; ttl = 86400 }

abbrev fresh : User
fresh = record (user 7 "eve" 1 false) {
  registration_ts = 2000000;
  email_verification_expiry = some 2086400;
}

abbrev world : World
world = record {
  main = record db { users = alice ∷ fresh ∷ [] };
  voteinfos = [];
  proposal_votes = [];
}

-- A run in the warning band warns one account; one at its end of life deletes it.
warns : (main windows false 2610000 world).0 ≡ some (1, 0)
unfolding main check_config owns_content warn delete batches
warns = refl

deletes : (main windows false 3300000 world).0 ≡ some (0, 1)
unfolding main check_config owns_content warn delete batches
deletes = refl

half_to_even : round_quotient 129600 86400 ≡ 2
half_to_even = refl

run_at-once_example :
    count (is_reminder_to 7) (run_at windows (2610000 ∷ 2620000 ∷ 2700000 ∷ []) world).main.sent ≤ 1
run_at-once_example =
    run_at-once windows 7 (2610000 ∷ 2620000 ∷ 2700000 ∷ []) world (omega arith) refl

config : check_config windows ≡ none
unfolding check_config
config = refl

owns : owns_content 7 world ≡ false
unfolding owns_content
owns = refl

main-reminds_example :
    count (is_reminder_to 7) world.main.sent
    < count (is_reminder_to 7) (main windows false 2610000 world).1.main.sent
main-reminds_example =
    main-reminds windows 2610000 world fresh config refl (refl, refl, refl) owns refl
      (omega arith, omega arith) (omega arith) (omega arith)

delete-spares_example :
    find? (λ u. u.id == 1) (delete windows 3300000 world).1.main.users
    ≡ find? (λ u. u.id == 1) world.main.users
delete-spares_example =
    delete-spares windows 3300000 1 world ((λ e. refl), ((λ e. ground (arith, e)), tt))

delete-expired_example :
    let gone = λ (u : User). contains (expired windows 3300000 world) u.id in
    ((delete windows 3300000 world).1.main.users ≡ delete_where gone world.main.users)
    × ((delete windows 3300000 world).0 ≡ count gone world.main.users)
delete-expired_example = delete-expired windows 3300000 world

reject_idle-idempotent_example :
    reject_idle 500 1000 (reject_idle 500 1000 db) ≡ reject_idle 500 1000 db
reject_idle-idempotent_example = reject_idle-idempotent 500 1000 db

scrub_addresses-All_example :
    All
      (λ u.
        (u.last_login + week < 2610000 → u.last_login_ip_address ≡ none)
        × (u.last_ssh_login + week < 2610000 → u.last_ssh_login_ip_address ≡ none))
      (scrub_addresses 2610000 world.main.users)
scrub_addresses-All_example = scrub_addresses-All 2610000 world.main.users
