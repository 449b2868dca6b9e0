-- ===== src/Accounts/Sessions.antt =====
-- Logging in, and the requests that follow with the cookie of the session.
use aurweb.Prelude.{
  String, ℕ, ◌+◌, ◌≤◌, Bool, true, false, Option, none, some, Bool-cases, inl, inr, ◌≡◌, arith,
  refl, sym, subst, ◌∙◌, ap, str_eq, any, find?, ◌||◌, Option-cases, if◌then◌else◌, Distinct,
  find?-update_where_self, ltb, ◌≢◌,
}
use aurweb.Accounts.{Account, Store, Env, is_id, account_of_id}
use aurweb.Accounts.Texts.{is_empty}
use aurweb.Accounts.Checks.{is_banned, check_password}
use aurweb.Accounts.Login.{
  login_post, login, authenticate, logged_in, approve, is_called, of_login, timeout, welcome,
  LoginResponse, account_suspended, bad_username_or_password,
}
use aurweb.Accounts.Ranks.{find?-Distinct}
use aurweb.Accounts.Tokens.{some_inj}
use aurweb.Accounts.Started.{AreUnique, has_sid, start_session-found}

-- Who is let in: the account that is called so, neither suspended nor banned, with its password.
LetsIn : Env → String → String → String → Store → Account → Type 0
LetsIn env user passwd sid st a =
    (find? (is_called user) st.accounts ≡ some a)
    × (a.user.suspended ≡ false)
    × (is_banned env st ≡ false)
    × (check_password env a passwd ≡ true)
    × ((approve env a.user.id st).0 ≡ some sid)
    × (is_empty sid ≡ false)
    × ((login_post env true user passwd st).1 ≡ (approve env a.user.id st).1)

login-approves :
    (env : Env) (a : Account) (passwd sid : String) (st : Store)
    → (login env a passwd st).0 ≡ some sid
    → (a.user.suspended ≡ false)
      × (is_banned env st ≡ false)
      × (check_password env a passwd ≡ true)
      × (login env a passwd st ≡ approve env a.user.id st)
unfolding login
login-approves env a passwd sid st h = elim (Bool-cases (is_banned env st || a.user.suspended)) [
  | inl e ↦ absurd (never (rw e at h))
  | inr e ↦ elim (Bool-cases (check_password env a passwd)) [
    | inr c ↦ absurd (never (rw (e, c) at h))
    | inl c ↦ (ground (arith, e), ground (arith, e), c, rw (e, c) refl)
  ]
]
  where
    never : ◌≢◌ {A = Option String} none (some sid)
    never k = cc

of_login-welcome :
    (o : Option String) (sid : String)
    → of_login o ≡ welcome sid
    → (o ≡ some sid) × (is_empty sid ≡ false)
of_login-welcome none sid h = cc
of_login-welcome (some t) sid h = elim (Bool-cases (is_empty t)) [
  | inl e ↦ absurd (ground (arith, h, e))
  | inr e ↦
      let same : t ≡ sid = ground (arith, h, e) in
      (ap some same, subst (λ z. is_empty z ≡ false) same e)
]

abbrev attempt : Env → Account → String → Store → Bool → LoginResponse × Store
attempt env a passwd st true = (account_suspended, st)
attempt env a passwd st false = (of_login (login env a passwd st).0, (login env a passwd st).1)

login_post-LetsIn :
    (env : Env) (user passwd sid : String) (st : Store)
    → (login_post env true user passwd st).0 ≡ welcome sid
    → (a : Account) × LetsIn env user passwd sid st a
unfolding login_post LetsIn
login_post-LetsIn env user passwd sid st h =
    elim (Option-cases (find? (is_called user) st.accounts)) [
      | inl e ↦ absurd (never (rw (e, login_post) at h))
      | inr (a, e) ↦
          let reply = answered a e in
          let free =
            not_suspended a a.user.suspended
              (sym (ap (λ (r : LoginResponse × Store). r.0) reply) ∙ h) in
          let done = reply ∙ ap (attempt env a passwd st) free in
          let (drawn, some_id) =
            of_login-welcome (login env a passwd st).0 sid
              (sym (ap (λ (r : LoginResponse × Store). r.0) done) ∙ h) in
          let (_, banned, right, approved) = login-approves env a passwd sid st drawn in
          (
            a,
            (
              e,
              free,
              banned,
              right,
              ap (λ (r : Option String × Store). r.0) (sym approved) ∙ drawn,
              some_id,
              ap (λ (r : LoginResponse × Store). r.1) done
                  ∙ ap (λ (r : Option String × Store). r.1) approved,
            ),
          )
    ]
  where
    never : bad_username_or_password ≢ welcome sid
    never k = cc

    same :
        (a : Account) (t : Bool)
        → (if◌then◌else◌ {A = LoginResponse × Store} t
            (account_suspended, st)
            (of_login (login env a passwd st).0, (login env a passwd st).1))
          ≡ attempt env a passwd st t
    same a true = refl
    same a false = refl

    answered :
        (a : Account)
        → find? (is_called user) st.accounts ≡ some a
        → login_post env true user passwd st ≡ attempt env a passwd st a.user.suspended
    answered a e = rw (e, login_post) (same a a.user.suspended)

    not_suspended :
        (a : Account) (t : Bool) → (attempt env a passwd st t).0 ≡ welcome sid → t ≡ false
    not_suspended a true k = cc
    not_suspended a false k = refl

-- Where the form for logging in gives a session ID, it is that of the account that is called so, which is
-- neither suspended nor banned, with its password; and until the timeout, counted from the login, a
-- request whose cookie has the ID is by that account, and changes nothing. The ID that is drawn is
-- new, the IDs of sessions are unique, and no two accounts have one ID.
pub login_post-authenticate :
    (env env' : Env) (user passwd sid : String) (remembered : Bool) (st : Store)
    → Distinct (λ a. a.user.id) st.accounts
    → AreUnique st.sessions
    → any (λ s. str_eq s.session_id env.random) st.sessions ≡ false
    → (login_post env true user passwd st).0 ≡ welcome sid
    → env'.now ≤ env.now + timeout env' remembered
    → (a : Account) × (find? (is_called user) st.accounts ≡ some a)
      × (a.user.suspended ≡ false)
      × (is_banned env st ≡ false)
      × (check_password env a passwd ≡ true)
      × (authenticate env' sid remembered (login_post env true user passwd st).1
          ≡ (some (logged_in env a), (login_post env true user passwd st).1))
unfolding LetsIn authenticate
login_post-authenticate env env' user passwd sid remembered st d u fresh h late =
    let (a, (found, free, banned, right, id, given, after)) =
      login_post-LetsIn env user passwd sid st h in
    let (row, at, own, new) = start_session-found env a.user.id st.sessions u fresh in
    let started = (approve env a.user.id st).1 in
    let drawn : find? (has_sid sid) started.sessions ≡ some row =
      subst (λ t. find? (has_sid t) started.sessions ≡ some row) (some_inj id) at in
    let user_row : account_of_id a.user.id started ≡ some (logged_in env a) =
      find?-update_where_self (is_id a.user.id) (logged_in env) a st.accounts (λ c. refl)
        (find?-Distinct (is_called user) a st.accounts d found) in
    let live : ltb (row.last_update_ts + timeout env' remembered) env'.now ≡ false =
      rw new (not_late env' env.now remembered late) in
    let session : authenticate env' sid remembered started ≡ (some (logged_in env a), started) =
      rw given (rw (drawn, authenticate) (rw live (rw own (rw user_row refl)))) in
    (
      a,
      found,
      free,
      banned,
      right,
      subst (λ (z : Store). authenticate env' sid remembered z ≡ (some (logged_in env a), z))
          (sym after) session,
    )
  where
    not_late :
        (e : Env) (t : ℕ) (r : Bool) → e.now ≤ t + timeout e r → ltb (t + timeout e r) e.now ≡ false
    not_late e t r k = ground (arith, k)
