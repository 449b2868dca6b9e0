-- ===== src/Accounts/Checks.antt =====
-- aurweb/users/validate.py: the checks of an account form, each with the error that it raises, and
-- `process_account_form` of aurweb/routers/accounts.py. The words of the errors are left out.
use aurweb.Prelude.{
  ℕ, ◌+◌, Bool, true, false, not, ◌&&◌, ◌||◌, String, Option, none, some, List, [], leb, ltb, ◌==◌,
  if◌then◌else◌, str_eq, any,
}
use aurweb.Creds.{has_credential, account_change_type, is_elevated}
use aurweb.Accounts.{Account, Store, Env, Form}
use aurweb.Accounts.Texts.{
  valid_username, valid_email, normalize_email, valid_homepage, valid_password, strtobool, is_empty,
  parse_ssh_keys, valid_pgp_fingerprint, Key,
}

pub data ValidationError : Type 0 where
  banned invalid_password_given missing_field no_suspend_permission : ValidationError
  captcha_expired captcha_invalid username_invalid password_short : ValidationError
  password_unconfirmed password_mismatch email_invalid email_disposable : ValidationError
  email_cooldown backup_email_invalid homepage_invalid pgp_key_invalid : ValidationError
  ssh_key_invalid ssh_key_used language_invalid timezone_invalid : ValidationError
  username_used email_used account_type_invalid : ValidationError
  no_account_type_permission account_type_too_high : ValidationError

-- A check raises, or returns silently.
abbrev pub Check : Type 0
Check = Option ValidationError

abbrev pub fails_if : Bool → ValidationError → Check
fails_if b e = if b then some e else none

-- The first check that fails.
infixl 5 ◌>>◌
abbrev pub ◌>>◌ : Check → Check → Check
none >> k = k
some e >> k = some e

-- `secs` after a time, when a token was issued: `now < expiry - TTL + COOLDOWN`
unfoldable pub in_cooldown : Env → Account → Bool
in_cooldown env a = elim a.user.email_verification_expiry [
  | none ↦ false
  | some expiry ↦ ltb (env.now + env.ttl) (expiry + env.cooldown)
]

unfoldable pub is_expired : Env → Account → Bool
is_expired env a = elim a.user.email_verification_expiry [
  | none ↦ true
  | some expiry ↦ leb expiry env.now
]

abbrev pub is_banned : Env → Store → Bool
is_banned env st = any (λ ip. str_eq ip env.client_ip) st.bans

-- The account that makes the request is authenticated unless it is the anonymous one.
abbrev pub is_authenticated : Account → Bool
is_authenticated a = not (a.user.id == 0)

unfoldable pub check_password : Env → Account → String → Bool
check_password env a password = env.checkpw password a.passwd

abbrev pub invalid_suspend_permission : Env → Account → Account → Form → Check
invalid_suspend_permission env requester a f =
    let asked = strtobool env f.s in
    let differs = if asked then not a.user.suspended else a.user.suspended in
    fails_if (not (is_elevated requester.user) && differs) no_suspend_permission

abbrev invalid_captcha : Env → Form → Check
invalid_captcha env f =
    fails_if
      (not (is_empty f.captcha_salt) && not (any (λ s. str_eq s f.captcha_salt) env.captcha_salts))
      captcha_expired
    >> fails_if
        (not (is_empty f.captcha) && not (str_eq f.captcha (env.captcha_answer f.captcha_salt)))
        captcha_invalid

abbrev invalid_password : Env → Form → Check
invalid_password env f =
    if is_empty f.p
    then none
    else if not (valid_password env f.p)
    then some password_short
    else if is_empty f.c
    then some password_unconfirmed
    else fails_if (not (str_eq f.p f.c)) password_mismatch

abbrev pub is_disposable_email : Env → String → Bool
is_disposable_email env email = env.disposable_email_check && env.is_disposable email

abbrev pub invalid_email : Env → Form → Check
invalid_email env f =
    fails_if (not (valid_email env f.e)) email_invalid
    >> fails_if (is_disposable_email env f.e) email_disposable

abbrev pub email_in_cooldown : Env → Account → Account → Form → Check
email_in_cooldown env requester a f =
    fails_if
      (is_authenticated requester
        && not (is_empty f.e)
        && not (str_eq f.e a.email)
        && in_cooldown env a)
      email_cooldown

abbrev invalid_backup_email : Env → Form → Check
invalid_backup_email env f =
    if is_empty f.be
    then none
    else fails_if (not (valid_email env f.be)) backup_email_invalid
      >> fails_if (is_disposable_email env f.be) email_disposable

abbrev pub uses_key : ℕ → List Key → Store → Bool
uses_key uid keys st =
    any
      (λ k.
        any (λ row. not (row.user_id == uid) && str_eq row.fingerprint k.fingerprint)
          st.ssh_pub_keys)
      keys

abbrev pub invalid_ssh_pubkey : Env → Account → Form → Store → Check
invalid_ssh_pubkey env a f st = if is_empty f.pk then none else elim (parse_ssh_keys env f.pk) [
  | none ↦ some ssh_key_invalid
  | some keys ↦ fails_if (uses_key a.user.id keys st) ssh_key_used
]

abbrev not_in : List String → String → Bool
not_in supported s = not (is_empty s) && not (any (λ t. str_eq t s) supported)

unfoldable pub is_other_named : ℕ → String → Account → Bool
is_other_named uid name b = not (b.user.id == uid) && str_eq b.user.username name

-- The rows with a normalized address are compared by it, those without by the address, normalized now.
abbrev pub has_address : Env → String → Account → Bool
has_address env normalized b = elim b.normalized_email [
  | none ↦ str_eq (normalize_email env b.email) normalized
  | some n ↦ str_eq n normalized
]

unfoldable pub email_is_used : Env → ℕ → String → Store → Bool
email_is_used env uid email st =
    any (λ b. not (b.user.id == uid) && has_address env (normalize_email env email) b) st.accounts

abbrev pub email_in_use : Env → Account → Form → Store → Check
email_in_use env a f st =
    fails_if (not (str_eq f.e a.email) && email_is_used env a.user.id f.e st) email_used

-- ACCOUNT_TYPE_NAME has the types 1 to 4.
abbrev pub invalid_type : Account → Account → ℕ → Check
invalid_type requester a t =
    if t == a.user.account_type_id
    then none
    else if not (leb 1 t && leb t 4)
    then some account_type_invalid
    else if not (has_credential requester.user account_change_type [])
    then some no_account_type_permission
    else fails_if (ltb requester.user.account_type_id t) account_type_too_high

unfoldable pub invalid_account_type : Account → Account → Form → Check
invalid_account_type requester a f = elim f.t [ none ↦ none | some t ↦ invalid_type requester a t ]

-- The account that makes the request, and the one that the form is about.
-- The checks before that of the address.
unfoldable pub check_first : Env → Account → Account → Form → Store → Check
check_first env requester a f st =
    fails_if (is_banned env st) banned
    >> fails_if (is_authenticated requester && not (check_password env requester f.passwd))
        invalid_password_given
    >> fails_if (is_empty f.e || is_empty f.u) missing_field
    >> invalid_suspend_permission env requester a f
    >> invalid_captcha env f
    >> fails_if (not (valid_username env f.u)) username_invalid
    >> invalid_password env f

-- The checks after it, up to the time zone.
unfoldable pub check_fields : Env → Account → Account → Form → Store → Check
check_fields env requester a f st =
    email_in_cooldown env requester a f
    >> invalid_backup_email env f
    >> fails_if (not (is_empty f.hp) && not (valid_homepage env f.hp)) homepage_invalid
    >> fails_if (not (is_empty f.k) && not (valid_pgp_fingerprint f.k)) pgp_key_invalid
    >> invalid_ssh_pubkey env a f st
    >> fails_if (not_in env.supported_languages f.l) language_invalid
    >> fails_if (not_in env.supported_timezones f.tz) timezone_invalid

unfoldable pub process_account_form : Env → Account → Account → Form → Store → Check
unfolding check_first check_fields invalid_account_type is_other_named email_is_used
process_account_form env requester a f st =
    check_first env requester a f st
    >> invalid_email env f
    >> check_fields env requester a f st
    >> fails_if (any (is_other_named a.user.id f.u) st.accounts) username_used
    >> email_in_use env a f st
    >> invalid_account_type requester a f
