-- ===== src/Accounts/ShutOut.antt =====
-- Nobody is an account that is suspended and has no session: cookies (aurweb/models/user.py), passwords
-- and SSH keys (aurweb/git/auth.py).
use aurweb.Prelude.{
  String, ℕ, ◌==◌, Bool, true, false, Option, none, some, List, [], ◌∷◌, Bool-cases, inl, inr, ◌≢◌,
  ◌≡◌, arith, All, sym, subst, ◌∙◌, str_eq, any, find?, not, ◌&&◌, ◌||◌, Option-cases, find?-All,
  ==_refl, All-append, filter, if◌then◌else◌, find?-holds, ltb, ◌+◌, All-if, f_string,
  true_ne_false, refl,
}
use aurweb.Accounts.{Account, Store, Env, Session, SshPubKey, is_id, account_of_id}
use aurweb.Accounts.Texts.{is_empty}
use aurweb.Accounts.Checks.{is_banned, check_password}
use aurweb.Accounts.Login.{
  login, authenticate, session_of, main, owners, may_connect, answer, Answer, of_session, timeout,
  approve,
}
use aurweb.Accounts.Identity.{Apart, AllApart, Apart-symm}
use aurweb.Accounts.Sound.{IsSound}

abbrev pub IsSuspended : ℕ → List Account → Type 0
IsSuspended uid xs = All (λ c. is_id uid c ≡ true → c.user.suspended ≡ true) xs

-- The account has no session.
abbrev pub NoSession : ℕ → Store → Type 0
NoSession uid st = All (λ s. session_of uid s ≡ false) st.sessions

-- With no session, no cookie stands for the account.
authenticate-NoSession :
    (env : Env) (sid : String) (remembered : Bool) (st : Store) (b : Account)
    → NoSession b.user.id st
    → (authenticate env sid remembered st).0 ≢ some b
unfolding authenticate
authenticate-NoSession env sid remembered st b h = elim (Bool-cases (is_empty sid)) [
  | inl e ↦ rw e (λ k. cc)
  | inr e ↦ elim (Option-cases (find? (λ s. str_eq s.session_id sid) st.sessions)) [
    | inl n ↦ rw (e, n, authenticate) (λ k. cc)
    | inr (s, n) ↦
        rw (e, n, authenticate)
          (found s ((find?-All (λ r. session_of b.user.id r ≡ false) _ s st.sessions n h).0))
  ]
]
  where
    found :
        (s : Session)
        → session_of b.user.id s ≡ false
        → (of_session env (timeout env remembered) s st).0 ≢ some b
    found s other k = elim (Bool-cases (ltb (s.last_update_ts + timeout env remembered) env.now)) [
      | inl e ↦ absurd (ground (arith, k, e))
      | inr e ↦
          let here : account_of_id s.users_id st ≡ some b = ground (arith, k, e) in
          absurd (
            true_ne_false
              (sym (find?-holds (is_id s.users_id) b st.accounts here) ∙ ground (arith, other)))
    ]

-- The accounts that a key may stand for.
All-owners {κ} :
    (Q : Account → Type κ) (key : String) (rows : List SshPubKey) (accounts : List Account)
    → All (λ c. may_connect c ≡ true → Q c) accounts
    → All Q (owners key rows accounts)
All-owners Q key [] accounts h = tt
All-owners Q key (row ∷ rows) accounts h =
    All-append Q
      (if str_eq row.pub_key key
        then filter (λ a. a.user.id == row.user_id && may_connect a) accounts
        else [])
      (owners key rows accounts) (All-if Q (str_eq row.pub_key key) _ [] (those accounts h) tt)
      (All-owners Q key rows accounts h)
  where
    those :
        (xs : List Account)
        → All (λ c. may_connect c ≡ true → Q c) xs
        → All Q (filter (λ a. a.user.id == row.user_id && may_connect a) xs)
    those [] k = tt
    those (x ∷ xs) k = elim (Bool-cases (x.user.id == row.user_id && may_connect x)) [
      | inl e ↦ rw e (k.0 (ground (arith, e)), those xs k.1)
      | inr e ↦ rw e (those xs k.1)
    ]

answer-named :
    (regex : String → Bool) (name : String) (found : List Account) (ans : Answer)
    → All (λ c. str_eq c.user.username name ≡ false) found
    → answer regex found ≡ some ans
    → str_eq ans.aur_user name ≡ false
answer-named regex name [] ans h e = cc
answer-named regex name (a ∷ []) ans h e = elim (Bool-cases (regex a.user.username)) [
  | inl k ↦
      let same : a.user.username ≡ ans.aur_user = ground (arith, e, k) in
      subst (λ t. str_eq t name ≡ false) same h.0
  | inr k ↦ absurd (ground (arith, e, k))
]
answer-named regex name (a ∷ b ∷ cs) ans h e = cc

-- Whether an answer to sshd lets the key in under the name.
abbrev pub connects_as : String → Option Answer → Bool
connects_as name none = false
connects_as name (some ans) = str_eq ans.aur_user name

-- No key logs in under the name of an account that is suspended.
main-suspended :
    (regex : String → Bool) (env : Env) (keytype keytext : String) (st : Store) (b : Account)
    → All (λ c. may_connect c ≡ true → str_eq c.user.username b.user.username ≡ false) st.accounts
    → connects_as b.user.username (main regex env keytype keytext st) ≡ false
unfolding main
main-suspended regex env keytype keytext st b h =
    elim (Option-cases (main regex env keytype keytext st)) [
      | inl e ↦ rw e refl
      | inr (ans, e) ↦ rw e (elim (Bool-cases (any (λ t. str_eq t keytype) env.valid_keytypes)) [
        | inr k ↦ absurd (ground (arith, e, k))
        | inl k ↦
            let found =
              owners (f_string (keytype ∷ " " ∷ keytext ∷ [])) st.ssh_pub_keys st.accounts in
            let listed : answer regex found ≡ some ans = ground (arith, e, k) in
            answer-named regex b.user.username found ans
              (All-owners (λ c. str_eq c.user.username b.user.username ≡ false)
                (f_string (keytype ∷ " " ∷ keytext ∷ [])) st.ssh_pub_keys st.accounts h)
              listed
      ])
    ]

-- Those that may connect have other names: names are apart, and the account itself may not.
others_named :
    (b : Account) (xs : List Account)
    → AllApart xs
    → find? (is_id b.user.id) xs ≡ some b
    → IsSuspended b.user.id xs
    → All (λ c. may_connect c ≡ true → str_eq c.user.username b.user.username ≡ false) xs
others_named b [] h e s = tt
others_named b (x ∷ xs) h e s = elim (Bool-cases (is_id b.user.id x)) [
  | inl own ↦
      let same : x ≡ b = ground (arith, e, own) in
      (
        (λ may. absurd (ground (arith, s.0 own, may))),
        after xs (subst (λ z. All (Apart z) xs) same h.0),
      )
  | inr other ↦
      let rest : find? (is_id b.user.id) xs ≡ some b = ground (arith, e, other) in
      (
        (λ _. (find?-All (Apart x) (is_id b.user.id) b xs rest h.0).0.names),
        others_named b xs h.1 rest s.1,
      )
]
  where
    after :
        (ys : List Account)
        → All (Apart b) ys
        → All (λ c. may_connect c ≡ true → str_eq c.user.username b.user.username ≡ false) ys
    after [] g = tt
    after (y ∷ ys) g = ((λ _. (Apart-symm g.0).names), after ys g.1)

-- An account that is suspended and has no session is shut out.
pub shut_out :
    (env : Env) (sid : String) (remembered : Bool) (passwd : String) (regex : String → Bool)
    (keytype keytext : String) (st : Store) (b : Account)
    → IsSound st
    → account_of_id b.user.id st ≡ some b
    → IsSuspended b.user.id st.accounts
    → NoSession b.user.id st
    → ((authenticate env sid remembered st).0 ≢ some b)
      × ((login env b passwd st).0 ≡ none)
      × (connects_as b.user.username (main regex env keytype keytext st) ≡ false)
unfolding login
shut_out env sid remembered passwd regex keytype keytext st b h here s n =
    let stopped =
      (find?-All (λ c. is_id b.user.id c ≡ true → c.user.suspended ≡ true) (is_id b.user.id) b
          st.accounts here s).0
        (==_refl b.user.id) in
    (
      authenticate-NoSession env sid remembered st b n,
      no_login b.user.suspended stopped,
      main-suspended regex env keytype keytext st b (others_named b st.accounts h.apart here s),
    )
  where
    no_login :
        (t : Bool)
        → t ≡ true
        → (if◌then◌else◌ {A = Option String × Store}
            (is_banned env st || t)
            (none, st)
            (if not (check_password env b passwd) then (none, st) else approve env b.user.id st)).0
          ≡ none
    no_login true e = ground arith
    no_login false e = cc
