-- ===== src/Accounts.antt =====
-- Accounts: aurweb/users/validate.py, update.py and verify.py, aurweb/routers/accounts.py and auth.py,
-- the sessions of aurweb/models/user.py and aurweb/auth/__init__.py, and aurweb/git/auth.py. Here are
-- the rows, what the handlers read beside them, and the forms.
-- An `Account` is a row of Users; its field `user` has the columns that the other parts read. The
-- anonymous user is an account with the ID 0. Passwords hashed by the legacy scheme (with a salt) are
-- left out, and so are the accounts of single sign-on.
pub mod Texts
pub mod Checks
pub mod Updates
pub mod Login
pub mod Forms
pub mod Terms
pub mod Writes
pub mod Ranks
pub mod Identity
pub mod Checked
pub mod Validated
pub mod Sound
pub mod Changes
pub mod Registering
pub mod Runs
pub mod Keys
pub mod ShutOut
pub mod Suspension
pub mod Tokens
pub mod Halfway
pub mod Agreed
pub mod Started
pub mod Sessions
mod Samples
mod Tests
use aurweb.Prelude.{
  ℕ, Bool, true, false, String, Option, none, some, List, ◌++◌, [], ◌∷◌, find?, ◌==◌, update_where,
}
use aurweb.Models.{User}

pub record Account : Type 0 where
  pub user : User
  pub email : String
  pub normalized_email : Option String
  pub hide_email : Bool
  pub backup_email : Option String
  pub passwd : String
  pub reset_key : String
  pub real_name : String
  pub lang_preference : String
  pub timezone : String
  pub homepage : Option String
  pub irc_nick : String
  pub pgp_key : Option String
  pub comment_notify : Bool
  pub update_notify : Bool
  pub ownership_notify : Bool
  pub hide_deleted_comments : Bool
  pub email_verification_token : Option String

pub record SshPubKey : Type 0 where
  pub user_id : ℕ
  pub fingerprint : String
  pub pub_key : String

pub record Session : Type 0 where
  pub users_id : ℕ
  pub session_id : String
  pub last_update_ts : ℕ

-- The classes of aurweb/scripts/notify.py that write to an account itself.
pub data Mail : Type 0 where
  reset_key_notification welcome_notification verification_notification : (uid : ℕ) → Mail

pub record Store : Type 0 where
  pub accounts : List Account
  pub ssh_pub_keys : List SshPubKey
  pub sessions : List Session
  pub bans : List String
  pub next_id : ℕ
  pub sent : List Mail

-- What a handler reads beside the tables. Of code outside the repository: `validate_email` is
-- email_validator's, with the local part and the ASCII domain of an address that is valid;
-- `is_disposable` the blocklist of domains; `checkpw` and `hashpw` bcrypt's; `urlparse` gives the
-- scheme and the network location of a URL; `ssh_keygen` the fingerprint of a key that it reads.
-- `lower` is `str.lower`; the salts and the answer are those of aurweb/captcha.py. `random` is the session ID or reset key that the handler draws, `random_token` the token of
-- a verification, `now` the time.
pub record Env : Type 0 where
  pub now : ℕ
  pub client_ip : String
  pub random : String
  pub random_token : String
  pub validate_email : String → Option (String × String)
  pub is_disposable : String → Bool
  pub checkpw : String → String → Bool
  pub hashpw : String → String
  pub urlparse : String → Option (String × String)
  pub ssh_keygen : String → Option String
  pub lower : String → String
  pub captcha_salts : List String
  pub captcha_answer : String → String
  pub supported_languages : List String
  pub supported_timezones : List String
  pub valid_keytypes : List String
  pub username_min_len : ℕ
  pub username_max_len : ℕ
  pub passwd_min_len : ℕ
  pub disposable_email_check : Bool
  pub default_lang : String
  pub default_timezone : String
  pub ttl : ℕ
  pub cooldown : ℕ
  pub login_timeout : ℕ
  pub persistent_cookie_timeout : ℕ

-- The fields of a form, under the names of the arguments; a field that is missing has the argument's
-- default, the empty text. `t` is the account type, if the form has one.
pub record Form : Type 0 where
  pub u : String
  pub e : String
  pub h : String
  pub be : String
  pub r : String
  pub hp : String
  pub i : String
  pub k : String
  pub l : String
  pub tz : String
  pub p : String
  pub c : String
  pub j : String
  pub s : String
  pub pk : String
  pub cn : String
  pub un : String
  pub on : String
  pub hdc : String
  pub t : Option ℕ
  pub passwd : String
  pub captcha : String
  pub captcha_salt : String

abbrev pub is_id : ℕ → Account → Bool
is_id uid a = a.user.id == uid

abbrev pub account_of_id : ℕ → Store → Option Account
account_of_id uid st = find? (is_id uid) st.accounts

abbrev pub update_account : ℕ → (Account → Account) → Store → Store
update_account uid f st = record st { accounts = update_where (is_id uid) f st.accounts }

abbrev pub mail : Mail → Store → Store
mail m st = record st { sent = st.sent ++ m ∷ [] }
