-- ===== src/Accounts/Updates.antt =====
-- aurweb/users/update.py and verify.py: what an account form that is taken writes. Each update is a
-- transaction of its own: what an earlier one wrote stays if a later one raises.
use aurweb.Prelude.{
  ℕ, ◌+◌, Bool, false, not, ◌&&◌, ◌||◌, String, Option, none, some, List, [], ◌∷◌, ◌++◌, ◌==◌,
  if◌then◌else◌, str_eq, any, delete_where, filter, map,
}
use aurweb.Accounts.{
  Account, Store, Env, Form, SshPubKey, update_account, account_of_id, mail,
  verification_notification, Mail,
}
use aurweb.Accounts.Texts.{strtobool, is_empty, default, normalize_email, parse_ssh_keys, Key}
use aurweb.Accounts.Checks.{check_password}
use aurweb.Accounts.Login.{login}

-- A handler that goes on, or that an exception leaves.
pub data Outcome : Type 0 where
  returned : Store → Outcome
  raised : Store → Outcome

abbrev pub store_of : Outcome → Store
store_of (returned st) = st
store_of (raised st) = st

infixl 5 ◌>>=◌
abbrev pub ◌>>=◌ : Outcome → (Store → Outcome) → Outcome
returned st >>= f = f st
raised st >>= f = raised st

-- `verify.issue`
abbrev pub issue : Env → Account → Account
issue env a = record a {
  email_verification_token = some env.random_token;
  user = record (a.user) { email_verification_expiry = some (env.now + env.ttl) };
}

-- `_sync_normalized_email`: assigning the address that is there leaves the normalized one.
abbrev pub set_email : Env → String → Account → Account
set_email env email a =
    if str_eq email a.email
    then a
    else record a { email = email; normalized_email = some (normalize_email env email) }

abbrev pub email_changed : Form → Account → Bool
email_changed f a = not (is_empty f.e) && not (str_eq f.e a.email)

-- `VerificationNotification(uid).send()` reads the account only if it is not suspended, and fails
-- where it finds none; so do the other mails to an account.
unfoldable pub send_to : ℕ → Mail → Store → Outcome
send_to uid m st = elim (account_of_id uid st) [
  | none ↦ raised st
  | some a ↦ if a.user.suspended then raised st else returned (mail m st)
]

-- The columns but the address.
abbrev pub with_fields : Env → Form → Account → Account
with_fields env f a = record a {
  user = record (a.user) {
    username = default f.u a.user.username;
    suspended = strtobool env f.s;
    inactivity_ts = if strtobool env f.j then env.now else 0;
  };
  hide_email = strtobool env f.h;
  backup_email = some f.be;
  real_name = f.r;
  homepage = some f.hp;
  irc_nick = f.i;
  pgp_key = some f.k;
  comment_notify = strtobool env f.cn;
  update_notify = strtobool env f.un;
  ownership_notify = strtobool env f.on;
  hide_deleted_comments = strtobool env f.hdc;
}

abbrev pub unverified : Account → Account
unverified a = record a { user = record (a.user) { email_verified = false } }

abbrev pub with_email : Env → Form → Account → Account
with_email env f a = if email_changed f a then issue env (unverified (set_email env f.e a)) else a

abbrev pub simple_account : Env → Form → Account → Account
simple_account env f a = with_fields env f (with_email env f a)

unfoldable pub simple : Env → Form → Account → Store → Outcome
unfolding send_to
simple env f a st =
    let uid = a.user.id in
    let written = update_account uid (simple_account env f) st in
    if email_changed f a
    then send_to uid (verification_notification uid) written
    else returned written

abbrev pub language : Form → Account → Store → Outcome
language f a st = returned (
    update_account a.user.id (λ b. record b { lang_preference = default f.l b.lang_preference }) st)

abbrev pub timezone : Form → Account → Store → Outcome
timezone f a st =
    returned (update_account a.user.id (λ b. record b { timezone = default f.tz b.timezone }) st)

abbrev pub is_row : ℕ → String → SshPubKey → Bool
is_row uid fingerprint row = row.user_id == uid && str_eq row.fingerprint fingerprint

abbrev pub row_of : ℕ → Key → SshPubKey
row_of uid k = record { user_id = uid; fingerprint = k.fingerprint; pub_key = k.text }

abbrev pub has_fingerprint : List Key → SshPubKey → Bool
has_fingerprint ks row = any (λ k. str_eq k.fingerprint row.fingerprint) ks

-- The keys that have no row yet. The session has no autoflush: the query for each key reads the rows as
-- they were before the update.
unfoldable pub new_keys : ℕ → List Key → List SshPubKey → List Key
new_keys uid ks rows = filter (λ k. not (any (is_row uid k.fingerprint) rows)) ks

abbrev pub kept_keys : ℕ → List Key → List SshPubKey → List SshPubKey
kept_keys uid ks rows =
    delete_where (λ row. row.user_id == uid && not (has_fingerprint ks row)) rows

unfoldable pub set_keys : ℕ → List Key → List SshPubKey → List SshPubKey
unfolding new_keys
set_keys uid ks rows = kept_keys uid ks rows ++ map (row_of uid) (new_keys uid ks rows)

-- A fingerprint is a primary key: a second row with it is an error, and nothing is written.
abbrev pub clashes : List SshPubKey → List Key → Bool
clashes rows [] = false
clashes rows (k ∷ ks) =
    any (λ row. str_eq row.fingerprint k.fingerprint) rows
    || any (λ j. str_eq j.fingerprint k.fingerprint) ks
    || clashes rows ks

abbrev pub store_keys : ℕ → List Key → Store → Outcome
store_keys uid ks st =
    if clashes (kept_keys uid ks st.ssh_pub_keys) (new_keys uid ks st.ssh_pub_keys)
    then raised st
    else returned (record st { ssh_pub_keys = set_keys uid ks st.ssh_pub_keys })

unfoldable pub ssh_pubkey : Env → Form → Account → Store → Outcome
unfolding set_keys
ssh_pubkey env f a st =
    if is_empty f.pk
    then returned (record st {
      ssh_pub_keys = delete_where (λ row. row.user_id == a.user.id) st.ssh_pub_keys;
    })
    else elim (parse_ssh_keys env f.pk) [ none ↦ raised st | some ks ↦ store_keys a.user.id ks st ]

abbrev pub with_type : Option ℕ → Account → Account
with_type none b = b
with_type (some t) b = record b { user = record (b.user) { account_type_id = t } }

abbrev pub account_type : Form → Account → Store → Outcome
account_type f a st = returned (update_account a.user.id (with_type f.t) st)

-- The account is read again: `simple` may have changed it. A user whose own password changes is
-- logged in with it.
abbrev set_password : Env → Form → Account → Store → Store
set_password env f b st = update_account b.user.id (λ c. record c { passwd = env.hashpw f.p }) st

abbrev pub login_again : Env → String → Option Account → Store → Store
login_again env password none st = st
login_again env password (some b) st = (login env b password st).1

abbrev pub change_password : Env → Form → ℕ → Account → Store → Store
change_password env f requester b st =
    if is_empty f.p || check_password env b f.p
    then st
    else let written = set_password env f b st in
      if b.user.id == requester
      then login_again env f.p (account_of_id requester written) written
      else written

unfoldable pub password : Env → Form → ℕ → Account → Store → Outcome
unfolding login check_password
password env f requester a st = elim (account_of_id a.user.id st) [
  | none ↦ returned st
  | some b ↦ returned (change_password env f requester b st)
]

-- `S` is the text of the form, so that any that is not empty counts.
abbrev pub suspend : Form → Account → Store → Outcome
suspend f a st =
    if is_empty f.s
    then returned st
    else returned (record st { sessions = delete_where (λ s. s.users_id == a.user.id) st.sessions })

-- The updates in their order.
unfoldable pub update_all : Env → Form → ℕ → Account → Store → Outcome
unfolding simple ssh_pubkey password
update_all env f requester a st =
    simple env f a st
    >>= language f a
    >>= timezone f a
    >>= ssh_pubkey env f a
    >>= account_type f a
    >>= password env f requester a
    >>= suspend f a
