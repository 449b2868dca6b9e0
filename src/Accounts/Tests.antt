-- ===== src/Accounts/Tests.antt =====
-- Accounts, in the small site of Samples.
use aurweb.Accounts.ShutOut.{connects_as}
use aurweb.Accounts.Sessions.{login_post-authenticate}
use aurweb.Creds.{has_credential, is_elevated, cred_filters, can_edit_user}
use aurweb.Accounts.Checks.{check_password, process_account_form, in_cooldown, is_banned}
use aurweb.Accounts.Agreed.{terms_of_service_post-first}
use aurweb.Accounts.Keys.{ssh_pubkey-gives}
use aurweb.Accounts.Tokens.{
  passreset_post-KeepsOrUses, KeepsOrUses, account_verify-verified, HasToken,
}
use aurweb.Accounts.Runs.{run, run-IsSound, edit_account, log_in, register_account}
use aurweb.Accounts.Sound.{IsSound}
use aurweb.Accounts.Halfway.{account_edit_post-halfway}
use aurweb.Accounts.Suspension.{account_edit_post-suspended}
use aurweb.Accounts.Ranks.{account_edit_post-MayHold, MayHold}
use aurweb.Prelude.{
  ◌≡◌, ◌≢◌, refl, true, false, none, some, List, [], ◌∷◌, arith, any, filter, ◌==◌, not, find?,
}
use aurweb.Accounts.Samples.{env, account, alice, carol, dan, st, form, st-IsSound}
use aurweb.Samples.{user}
use aurweb.Accounts.{Account, Store, Form, update_account}
use aurweb.Accounts.Texts.{
  valid_username, valid_pgp_fingerprint, normalize_email, parse_ssh_keys, strtobool, valid_email,
  valid_password, Key,
}
use aurweb.Accounts.Updates.{ssh_pubkey, is_row, simple_account, with_type, update_all}
use aurweb.Accounts.Login.{login_post, authenticate, login, main, welcome, logged_in, is_called}
use aurweb.Accounts.Forms.{
  account_edit_post, passreset_post, account_verify, complete, internal_error, verified, reset,
}
use aurweb.Accounts.Terms.{
  Term, terms_of_service, terms_of_service_post, AcceptedTerm, check_terms_of_service,
}

newline_at_end : valid_username env "alice\n" ≡ true
unfolding valid_username
newline_at_end = refl

two_separators : valid_username env "a-b-c" ≡ false
unfolding valid_username
two_separators = refl

prefixed : valid_pgp_fingerprint "0x00000000000000000000000000000000000000" ≡ true
unfolding valid_pgp_fingerprint
prefixed = refl

normalized : normalize_email env "A.l.ice+x@gmail.com" ≡ "alice@gmail.com"
unfolding normalize_email
normalized = refl

parsed :
    parse_ssh_keys env "ssh-ed25519  b me\n\nssh-ed25519 b\n"
    ≡ some (record { text = "ssh-ed25519 b"; fingerprint = "ssh-ed25519 b" } ∷ [])
unfolding parse_ssh_keys
parsed = refl

logs_in : (login_post env true "alice" "password" st).0 ≡ welcome "fresh"
unfolding login_post login
logs_in = refl

-- carol makes alice a package maintainer.
abbrev promotion : Form
promotion = record (form "alice" "alice@example.org" "") { t = some 2 }

abbrev alice_promoted : Account
alice_promoted = with_type (some 2) (simple_account env promotion alice)

edits :
    account_edit_post env carol "alice" promotion st
    ≡ (complete, (account_edit_post env carol "alice" promotion st).1)
unfolding account_edit_post process_account_form update_all has_credential is_elevated
    valid_username valid_email normalize_email parse_ssh_keys strtobool cred_filters
    valid_pgp_fingerprint
edits = refl

account_edit_post-MayHold_example : MayHold carol st 1 2
unfolding account_edit_post process_account_form update_all has_credential is_elevated
    valid_username valid_email normalize_email parse_ssh_keys strtobool cred_filters
    valid_pgp_fingerprint
account_edit_post-MayHold_example =
    account_edit_post-MayHold env carol "alice" promotion st 1 alice_promoted (ground arith) refl

-- dan suspends alice, whose address stays.
abbrev suspension : Form
suspension = form "alice" "alice@example.org" "on"

abbrev alice_suspended : Account
alice_suspended = simple_account env suspension alice

account_edit_post-suspended_example :
    ((authenticate env "cookie" false (account_edit_post env dan "alice" suspension st).1).0
      ≢ some alice_suspended)
    × ((login env alice_suspended "password" (account_edit_post env dan "alice" suspension st).1).0
        ≡ none)
    × (connects_as "alice" (
          main
            (λ _. true)
            env
            "ssh-ed25519"
            "c"
            (account_edit_post env dan "alice" suspension st).1)
        ≡ false)
unfolding account_edit_post process_account_form update_all has_credential is_elevated
    valid_username valid_email normalize_email parse_ssh_keys strtobool cred_filters
    valid_pgp_fingerprint main
account_edit_post-suspended_example =
    account_edit_post-suspended env dan "alice" suspension st alice alice_suspended env "cookie"
      false "password" (λ _. true) "ssh-ed25519" "c" st-IsSound refl refl refl refl

-- dan suspends alice and changes the address.
abbrev both : Form
both = form "alice" "alice@example.net" "on"

account_edit_post-halfway_example :
    account_edit_post env dan "alice" both st
    ≡ (internal_error, update_account 1 (simple_account env both) st)
unfolding process_account_form has_credential is_elevated valid_username valid_email normalize_email
    parse_ssh_keys strtobool cred_filters valid_pgp_fingerprint check_password in_cooldown
    can_edit_user
account_edit_post-halfway_example =
    account_edit_post-halfway env dan "alice" both st alice (ground arith) refl refl refl refl refl
      refl refl

abbrev guest : Account
guest = record (account 0 "N/A" 0) { email = "N/A" }

run-IsSound_example : IsSound (
    run
      ((env, edit_account carol "alice" promotion)
        ∷ (env, log_in true "alice" "password")
        ∷ (
          env,
          register_account guest promotion
              (record { cn = true; un = false; on = true; hdc = false }),
        )
        ∷ [])
      st)
unfolding valid_email
run-IsSound_example =
    run-IsSound
      ((env, edit_account carol "alice" promotion)
        ∷ (env, log_in true "alice" "password")
        ∷ (
          env,
          register_account guest promotion
              (record { cn = true; un = false; on = true; hdc = false }),
        )
        ∷ [])
      st (tt, (tt, ((λ _. refl), tt))) st-IsSound

abbrev alice_reset : Account
alice_reset = reset env "new password" alice

passreset_post-KeepsOrUses_example :
    KeepsOrUses env "key" "new password" "new password" alice alice_reset
      (passreset_post env guest "alice" "key" "new password" "new password" st).1.sessions
unfolding passreset_post valid_password
passreset_post-KeepsOrUses_example =
    passreset_post-KeepsOrUses env guest "alice" "key" "new password" "new password" st 1 alice
      alice_reset (ground arith) refl refl

abbrev eve : Account
eve = record (account 4 "eve" 1) {
  user = record (user 4 "eve" 1 false) { email_verification_expiry = some 20000 };
  email_verification_token = some "mailed";
}

abbrev st_eve : Store
st_eve = record st { accounts = alice ∷ eve ∷ [] }

account_verify-verified_example :
    HasToken env "mailed" eve × ((verified eve).email_verification_token ≡ none)
unfolding account_verify
account_verify-verified_example =
    account_verify-verified env "mailed" st_eve 4 eve (verified eve) (ground arith) refl refl refl
      refl

abbrev key_form : Form
key_form = record (form "alice" "alice@example.org" "") { pk = "ssh-ed25519 b" }

abbrev key_b : Key
key_b = record { text = "ssh-ed25519 b"; fingerprint = "ssh-ed25519 b" }

abbrev keyed : Store
keyed = record st {
  ssh_pub_keys =
      record { user_id = 2; fingerprint = "c"; pub_key = "ssh-ed25519 c" }
      ∷ record { user_id = 1; fingerprint = "ssh-ed25519 b"; pub_key = "ssh-ed25519 b" }
      ∷ [];
}

ssh_pubkey-gives_example :
    (any (is_row 1 "ssh-ed25519 b") keyed.ssh_pub_keys ≡ true)
    × (filter (λ r. not (r.user_id == 1)) keyed.ssh_pub_keys
        ≡ filter (λ r. not (r.user_id == 1)) st.ssh_pub_keys)
unfolding ssh_pubkey parse_ssh_keys
ssh_pubkey-gives_example =
    ssh_pubkey-gives env key_form alice st keyed "ssh-ed25519 b" (key_b ∷ []) refl refl refl

abbrev terms : List Term
terms = record { id = 1; revision = 2 } ∷ record { id = 2; revision = 1 } ∷ []

-- Two terms at once cannot be listed.
unlisted : terms_of_service terms [] ≡ none
unfolding terms_of_service
unlisted = refl

terms_of_service_post-first_example :
    (rows : List AcceptedTerm) × (terms_of_service_post 1 true terms [] ≡ some rows)
    × (check_terms_of_service true 1 "/packages" terms rows ≡ false)
    × (check_terms_of_service true 2 "/packages" terms rows ≡ true)
    × (terms_of_service terms rows ≡ some [])
    × (terms_of_service_post 2 true terms rows ≡ some rows)
terms_of_service_post-first_example =
    terms_of_service_post-first 1 2 "/packages" (record { id = 1; revision = 2 })
      (record { id = 2; revision = 1 } ∷ []) (ground arith) (ground arith) refl

login_post-authenticate_example :
    (a : Account) × (find? (is_called "carol") st.accounts ≡ some a)
    × (a.user.suspended ≡ false)
    × (is_banned env st ≡ false)
    × (check_password env a "password" ≡ true)
    × (authenticate env "fresh" false (login_post env true "carol" "password" st).1
        ≡ (some (logged_in env a), (login_post env true "carol" "password" st).1))
unfolding login_post login
login_post-authenticate_example =
    login_post-authenticate env env "carol" "password" "fresh" false st (ground arith) (tt, tt) refl
      refl (omega arith)
