-- ===== src/Accounts/Forms.antt =====
-- The forms of aurweb/routers/accounts.py. A handler for guests sends a user to the start page, one for
-- users a guest to the page for logging in. Two requests at once, of which the second meets the index
-- of the addresses, are not modelled.
use aurweb.Prelude.{
  ℕ, suc, ◌+◌, Bool, true, false, not, ◌&&◌, ◌||◌, String, Option, none, some, List, [], ◌∷◌, ◌++◌,
  ◌==◌, if◌then◌else◌, str_eq, find?, map, delete_where, f_string,
}
use aurweb.Models.{User}
use aurweb.Creds.{has_credential, account_edit, can_edit_user, user_id}
use aurweb.Accounts.{
  Account, Store, Env, Form, update_account, mail, is_id, welcome_notification,
  verification_notification, reset_key_notification,
}
use aurweb.Accounts.Texts.{
  is_empty, without, default, valid_password, normalize_email, parse_ssh_keys, Key, strtobool,
}
use aurweb.Accounts.Checks.{
  ValidationError, process_account_form, is_authenticated, check_password, in_cooldown, is_expired,
}
use aurweb.Accounts.Login.{session_of}
use aurweb.Accounts.Updates.{Outcome, returned, raised, update_all, issue, row_of, send_to, clashes}

pub data Response : Type 0 where
  redirect : String → Response
  errors : (status : ℕ) → String → Response
  invalid : ValidationError → Response
  complete not_found unauthorized internal_error : Response

abbrev pub requires_guest : Account → Response × Store → Store → Response × Store
requires_guest requester result st =
    if is_authenticated requester then (redirect "/", st) else result

abbrev pub requires_auth : Account → Response × Store → Store → Response × Store
requires_auth requester result st =
    if is_authenticated requester then result else (redirect "/login", st)

abbrev pub of_outcome : Response → Outcome → Response × Store
of_outcome r (returned st) = (r, st)
of_outcome r (raised st) = (internal_error, st)

abbrev pub may_reset : String → Account → Bool
may_reset name a = (str_eq a.user.username name || str_eq a.email name) && not a.user.suspended

abbrev pub reset : Env → String → Account → Account
reset env password a = record a { reset_key = ""; passwd = env.hashpw password }

-- With the key of the account, its password is set, and its session ends.
abbrev pub use_key : Env → String → String → String → Account → Store → Response × Store
use_key env resetkey password confirm a st =
    if is_empty a.reset_key || not (str_eq resetkey a.reset_key)
    then (errors 404 "Invalid e-mail.", st)
    else if is_empty password
    then (errors 400 "Missing a required field.", st)
    else if not (str_eq password confirm)
    then (errors 400 "Password fields do not match.", st)
    else if not (valid_password env password)
    then (errors 400 "Your password must be at least %s characters.", st)
    else (
      redirect "/passreset?step=complete",
      record (update_account a.user.id (reset env password) st) {
        sessions = delete_where (session_of a.user.id) st.sessions;
      },
    )

abbrev pub issue_key : Env → Account → Store → Response × Store
issue_key env a st = of_outcome (redirect "/passreset?step=confirm") (
    send_to a.user.id (reset_key_notification a.user.id)
      (update_account a.user.id (λ b. record b { reset_key = env.random }) st))

abbrev pub reset_for : Env → String → String → String → Account → Store → Response × Store
reset_for env resetkey password confirm a st =
    if is_empty resetkey then issue_key env a st else use_key env resetkey password confirm a st

unfoldable pub passreset_post :
    Env → Account → String → String → String → String → Store → Response × Store
unfolding send_to
passreset_post env requester user resetkey password confirm st =
    requires_guest requester
      (elim (find? (may_reset user) st.accounts) [
        | none ↦ (errors 404 "Invalid e-mail.", st)
        | some a ↦ reset_for env resetkey password confirm a st
      ])
      st

-- The spaces of a fingerprint are taken out.
abbrev pub cleaned : Form → Form
cleaned f = record f { k = without b' ' f.k }

abbrev pub or_none : String → Option String
or_none s = if is_empty s then none else some s

-- The boolean fields of a registration, which FastAPI reads.
pub record Flags : Type 0 where
  pub cn : Bool
  pub un : Bool
  pub on : Bool
  pub hdc : Bool

abbrev pub new_user : Env → ℕ → String → User
new_user env uid name = record {
  id = uid;
  username = name;
  account_type_id = user_id;
  suspended = false;
  inactivity_ts = 0;
  email_verified = false;
  last_ssh_login = 0;
  last_ssh_login_ip_address = none;
  last_login = 0;
  last_login_ip_address = none;
  registration_ts = env.now;
  email_verification_expiry = some (env.now + env.ttl);
}

abbrev pub new_account : Env → ℕ → Form → Flags → Account
new_account env uid f flags = record {
  user = new_user env uid f.u;
  email = f.e;
  normalized_email = some (normalize_email env f.e);
  hide_email = str_eq f.h "on";
  backup_email = or_none f.be;
  passwd = "";
  reset_key = env.random;
  real_name = f.r;
  lang_preference = default f.l env.default_lang;
  timezone = default f.tz env.default_timezone;
  homepage = or_none f.hp;
  irc_nick = f.i;
  pgp_key = some f.k;
  comment_notify = flags.cn;
  update_notify = flags.un;
  ownership_notify = flags.on;
  hide_deleted_comments = flags.hdc;
  email_verification_token = some env.random_token;
}

abbrev pub registered : Env → Form → Flags → List Key → Store → Store
registered env f flags ks st =
    let uid = st.next_id in
    mail (verification_notification uid) (
      mail (welcome_notification uid) (record st {
        accounts = st.accounts ++ new_account env uid f flags ∷ [];
        ssh_pub_keys = st.ssh_pub_keys ++ map (row_of uid) ks;
        next_id = suc uid;
      }))

abbrev register_with : Env → Form → Flags → List Key → Store → Response × Store
register_with env f flags ks st =
    if clashes st.ssh_pub_keys ks
    then (internal_error, st)
    else (complete, registered env f flags ks st)

abbrev pub keys_of : Env → Form → Option (List Key)
keys_of env f = if is_empty f.pk then some [] else parse_ssh_keys env f.pk

abbrev pub register : Env → Account → Form → Flags → Store → Response × Store
register env requester f flags st = elim (process_account_form env requester requester f st) [
  | some e ↦ (invalid e, st)
  | none ↦
      if is_empty f.captcha
      then (errors 400 "The CAPTCHA is missing.", st)
      else elim (keys_of env f) [
        | none ↦ (internal_error, st)
        | some ks ↦ register_with env f flags ks st
      ]
]

unfoldable pub account_register_post : Env → Account → Form → Flags → Store → Response × Store
account_register_post env requester f flags st =
    requires_guest requester (register env requester (cleaned f) flags st) st

abbrev pub has_token : String → Account → Bool
has_token token a = elim a.email_verification_token [ none ↦ false | some t ↦ str_eq t token ]

abbrev pub verified : Account → Account
verified a = record a {
  user = record (a.user) { email_verified = true; email_verification_expiry = none };
  email_verification_token = none;
}

unfoldable pub account_verify : Env → String → Store → Response × Store
unfolding is_expired
account_verify env token st = elim (find? (has_token token) st.accounts) [
  | none ↦ (redirect "/account/verify?step=invalid", st)
  | some a ↦
      if a.user.email_verified
      then (redirect "/account/verify?step=already", st)
      else if is_expired env a
      then (redirect "/account/verify?step=invalid", st)
      else (redirect "/account/verify?step=complete", update_account a.user.id verified st)
]

abbrev pub named : String → Account → Bool
named name a = str_eq a.user.username name

-- `cannot_edit`, and what follows where the account may be edited.
abbrev pub editing : Account → String → (Account → Response × Store) → Store → Response × Store
editing requester name k st = elim (find? (named name) st.accounts) [
  | none ↦ (not_found, st)
  | some a ↦
      if can_edit_user requester.user a.user
      then k a
      else (redirect (f_string ("/account/" ∷ a.user.username ∷ [])), st)
]

abbrev pub resend : Env → Account → Store → Response × Store
resend env a st =
    if a.user.email_verified
    then (redirect "/account/verify?step=already", st)
    else if in_cooldown env a
    then (redirect "/account/verify?step=cooldown", st)
    else of_outcome (redirect "/account/verify?step=confirm") (
        send_to a.user.id (verification_notification a.user.id)
          (update_account a.user.id (issue env) st))

unfoldable pub account_verify_resend : Env → Account → String → Store → Response × Store
unfolding can_edit_user in_cooldown send_to
account_verify_resend env requester name st =
    requires_auth requester (editing requester name (λ a. resend env a st) st) st

abbrev pub edit : Env → Account → Form → Account → Store → Response × Store
edit env requester f a st =
    if is_empty f.passwd
    then (errors 400 "Invalid password.", st)
    else elim (process_account_form env requester a f st) [
      | some e ↦ (invalid e, st)
      | none ↦ of_outcome complete (update_all env f requester.user.id a st)
    ]

unfoldable pub account_edit_post : Env → Account → String → Form → Store → Response × Store
unfolding can_edit_user
account_edit_post env requester name f st =
    requires_auth requester (editing requester name (λ a. edit env requester (cleaned f) a st) st)
      st

-- The rows of other tables that go with an account are left out.
abbrev pub delete_account : ℕ → Store → Store
delete_account uid st = record st {
  accounts = delete_where (is_id uid) st.accounts;
  ssh_pub_keys = delete_where (λ row. row.user_id == uid) st.ssh_pub_keys;
  sessions = delete_where (session_of uid) st.sessions;
}

abbrev pub delete_confirmed : Env → Account → String → String → Account → Store → Response × Store
delete_confirmed env requester passwd confirm a st =
    if not (has_credential requester.user account_edit (a.user.id ∷ []))
    then (unauthorized, st)
    else if not (strtobool env confirm)
    then (errors 400 "The account has not been deleted, check the confirmation checkbox.", st)
    else if not (check_password env requester passwd)
    then (errors 400 "Invalid password.", st)
    else (redirect "/", delete_account a.user.id st)

unfoldable pub account_delete_post :
    Env → Account → String → String → String → Store → Response × Store
unfolding check_password strtobool has_credential
account_delete_post env requester name passwd confirm st =
    requires_auth requester
      (elim (find? (named name) st.accounts) [
        | none ↦ (not_found, st)
        | some a ↦ delete_confirmed env requester passwd confirm a st
      ])
      st
