-- ===== src/Accounts/Login.antt =====
-- Who is who: `User.login` and `User.logout` of aurweb/models/user.py, the sessions of
-- aurweb/auth/__init__.py, the forms of aurweb/routers/auth.py, and aurweb/git/auth.py, which sshd asks
-- whose a key is. A session ID that is drawn is taken to be new: the retries where it is not are left
-- out, and so are the cookies that a response sets.
use aurweb.Prelude.{
  ℕ, ◌+◌, Bool, true, false, not, ◌&&◌, ◌||◌, String, Option, none, some, List, [], ◌∷◌, ◌++◌, ltb,
  ◌==◌, if◌then◌else◌, str_eq, any, find?, filter, update_where, delete_where, f_string,
}
use aurweb.Creds.{user_id}
use aurweb.Accounts.{Account, Store, Env, Session, SshPubKey, update_account, account_of_id}
use aurweb.Accounts.Texts.{is_empty}
use aurweb.Accounts.Checks.{is_banned, check_password}

abbrev pub session_of : ℕ → Session → Bool
session_of uid s = s.users_id == uid

abbrev pub logged_in : Env → Account → Account
logged_in env a = record a {
  user = record (a.user) {
    last_login = env.now;
    last_login_ip_address = some env.client_ip;
    inactivity_ts = 0;
  };
}

-- A session that is older than this login gets another ID.
abbrev pub renewed : Env → Session → Session
renewed env s = record s {
  session_id =
      if not (s.last_update_ts == 0) && ltb s.last_update_ts env.now
      then env.random
      else s.session_id;
  last_update_ts = env.now;
}

abbrev pub start_session : Env → ℕ → Option Session → List Session → String × List Session
start_session env uid none sessions =
    let row : Session = record {
      users_id = uid;
      session_id = env.random;
      last_update_ts = env.now;
    } in
    (env.random, sessions ++ row ∷ [])
start_session env uid (some s) sessions =
    let row = renewed env s in (row.session_id, update_where (session_of uid) (λ _. row) sessions)

abbrev pub approve : Env → ℕ → Store → Option String × Store
approve env uid st =
    let (sid, sessions) = start_session env uid (find? (session_of uid) st.sessions) st.sessions in
    (some sid, record (update_account uid (logged_in env) st) { sessions = sessions })

-- The ID of the session, if the login is approved and the password is right.
unfoldable pub login : Env → Account → String → Store → Option String × Store
unfolding check_password
login env a password st =
    if is_banned env st || a.user.suspended
    then (none, st)
    else if not (check_password env a password)
    then (none, st)
    else approve env a.user.id st

unfoldable pub logout : ℕ → Store → Store
logout uid st = record st { sessions = delete_where (session_of uid) st.sessions }

-- `BasicAuthBackend.authenticate`: the account of a request, from its cookies.
abbrev pub timeout : Env → Bool → ℕ
timeout env remembered = if remembered then env.persistent_cookie_timeout else env.login_timeout

abbrev pub of_session : Env → ℕ → Session → Store → Option Account × Store
of_session env limit s st =
    if ltb (s.last_update_ts + limit) env.now
    then (
      none,
      record st { sessions = delete_where (λ r. str_eq r.session_id s.session_id) st.sessions },
    )
    else (account_of_id s.users_id st, st)

unfoldable pub authenticate : Env → String → Bool → Store → Option Account × Store
authenticate env sid remembered st =
    if is_empty sid then (none, st) else elim (find? (λ s. str_eq s.session_id sid) st.sessions) [
      | none ↦ (none, st)
      | some s ↦ of_session env (timeout env remembered) s st
    ]

pub data LoginResponse : Type 0 where
  bad_referer bad_username_or_password account_suspended : LoginResponse
  welcome : (sid : String) → LoginResponse

abbrev pub is_called : String → Account → Bool
is_called name a = str_eq a.user.username name || str_eq a.email name

abbrev pub of_login : Option String → LoginResponse
of_login none = bad_username_or_password
of_login (some sid) = if is_empty sid then bad_username_or_password else welcome sid

-- `login_post` of a guest; `referer_ok` says whether the referer begins with the page for logging in.
unfoldable pub login_post : Env → Bool → String → String → Store → LoginResponse × Store
unfolding login
login_post env false user passwd st = (bad_referer, st)
login_post env true user passwd st = elim (find? (is_called user) st.accounts) [
  | none ↦ (bad_username_or_password, st)
  | some a ↦
      if a.user.suspended
      then (account_suspended, st)
      else let (sid, after) = login env a passwd st in (of_login sid, after)
]

-- aurweb/git/auth.py: the command's AUR_USER and AUR_PRIVILEGED for a key, or no answer. The option
-- `username-regex` is an argument.
pub record Answer : Type 0 where
  pub aur_user : String
  pub aur_privileged : Bool

abbrev pub may_connect : Account → Bool
may_connect a = not a.user.suspended && not (str_eq a.passwd "")

abbrev pub owners : String → List SshPubKey → List Account → List Account
owners key [] accounts = []
owners key (row ∷ rows) accounts =
    (if str_eq row.pub_key key
      then filter (λ a. a.user.id == row.user_id && may_connect a) accounts
      else [])
    ++ owners key rows accounts

abbrev pub answer : (String → Bool) → List Account → Option Answer
answer regex (a ∷ []) =
    if regex a.user.username
    then some
        (record { aur_user = a.user.username; aur_privileged = ltb user_id a.user.account_type_id })
    else none
answer regex _ = none

unfoldable pub main : (String → Bool) → Env → String → String → Store → Option Answer
main regex env keytype keytext st =
    if any (λ t. str_eq t keytype) env.valid_keytypes
    then answer regex (owners (f_string (keytype ∷ " " ∷ keytext ∷ [])) st.ssh_pub_keys st.accounts)
    else none
