-- ===== src/Accounts/Writes.antt =====
-- What the updates of an account form do to the rows of Users: one rule for all of them.
use aurweb.Prelude.{
  ℕ, Bool, true, false, ◌||◌, ◌==◌, Option, none, some, List, update_where, Bool-cases, inl, inr,
  if◌then◌else◌, ◌≡◌, Option-cases, String, ◌⊎◌, find?, refl, arith, str_eq, any,
}
use aurweb.Accounts.{
  Account, Store, Env, Form, is_id, account_of_id, Mail, mail, verification_notification,
}
use aurweb.Accounts.Texts.{is_empty, default, parse_ssh_keys, Key}
use aurweb.Creds.{can_edit_user}
use aurweb.Accounts.Checks.{
  check_password, is_banned, is_authenticated, process_account_form, ValidationError, ◌>>◌,
  invalid_account_type, check_fields, check_first, invalid_email, fails_if, is_other_named,
  username_used, email_in_use,
}
use aurweb.Accounts.Forms.{
  Response, account_edit_post, named, cleaned, of_outcome, complete, editing, edit,
}
use aurweb.Accounts.Login.{login, logged_in}
use aurweb.Accounts.Updates.{
  Outcome, returned, raised, store_of, simple_account, with_type, update_all, simple, ssh_pubkey,
  password, send_to, email_changed, ◌>>=◌, change_password, login_again, language, timezone,
  account_type, suspend, clashes, store_keys, kept_keys, new_keys,
}

-- What `simple` leaves alone.
pub simple_account-keeps :
    (env : Env) (f : Form) (c : Account)
    → ((simple_account env f c).user.id ≡ c.user.id)
      × ((simple_account env f c).user.account_type_id ≡ c.user.account_type_id)
simple_account-keeps env f c = (ground arith, ground arith)

pub simple_account-username :
    (env : Env) (f : Form) (c : Account)
    → (simple_account env f c).user.username ≡ default f.u c.user.username
simple_account-username env f c = elim (Bool-cases (email_changed f c)) [
  | inl e ↦ elim (Bool-cases (str_eq f.e c.email)) [
    | inl k ↦ rw (e, k) refl
    | inr k ↦ rw (e, k) refl
  ]
  | inr e ↦ rw e refl
]

module _ (env : Env) (f : Form) (requester : ℕ) (a : Account) where
  abbrev pub rows_after : (Account → Account) → List Account → List Account
  rows_after g xs = update_where (is_id a.user.id) g xs

  -- A property of the rows, and of the next ID, that each write keeps.
  pub record IsKept {κ} (P : ℕ → List Account → Type κ) : Type κ where
    pub by_simple :
        (n : ℕ) (xs : List Account) → P n xs → P n (rows_after (simple_account env f) xs)
    pub by_language :
        (n : ℕ) (xs : List Account)
        → P n xs
        → P n (rows_after (λ b. record b { lang_preference = default f.l b.lang_preference }) xs)
    pub by_timezone :
        (n : ℕ) (xs : List Account)
        → P n xs
        → P n (rows_after (λ b. record b { timezone = default f.tz b.timezone }) xs)
    pub by_type : (n : ℕ) (xs : List Account) → P n xs → P n (rows_after (with_type f.t) xs)
    pub by_password :
        (uid : ℕ) (n : ℕ) (xs : List Account)
        → P n xs
        → P n (update_where (is_id uid) (λ c. record c { passwd = env.hashpw f.p }) xs)
    pub by_login :
        (uid : ℕ) (n : ℕ) (xs : List Account)
        → P n xs
        → P n (update_where (is_id uid) (logged_in env) xs)

  module _ {κ} {P : ℕ → List Account → Type κ} (k : IsKept P) where
    abbrev pub Holds : Outcome → Type κ
    Holds m = P (store_of m).next_id (store_of m).accounts

    >>=-Holds :
        (m : Outcome) (g : Store → Outcome)
        → ((st : Store) → P st.next_id st.accounts → Holds (g st))
        → Holds m
        → Holds (m >>= g)
    >>=-Holds (returned st) g h p = h st p
    >>=-Holds (raised st) g h p = p

    send_to-Holds :
        (uid : ℕ) (m : Mail) (st : Store) → P st.next_id st.accounts → Holds (send_to uid m st)
    unfolding send_to
    send_to-Holds uid m st p = elim (Option-cases (account_of_id uid st)) [
      | inl e ↦ rw (e, send_to) p
      | inr (b, e) ↦ rw (e, send_to) (if-Holds b.user.suspended)
    ]
      where
        if-Holds : (t : Bool) → Holds (if t then raised st else returned (mail m st))
        if-Holds true = p
        if-Holds false = p

    pub simple-Establishes :
        (st : Store)
        → P st.next_id (rows_after (simple_account env f) st.accounts)
        → Holds (simple env f a st)
    unfolding simple
    simple-Establishes st q = elim (Bool-cases (email_changed f a)) [
      | inl e ↦ rw e (send_to-Holds a.user.id (verification_notification a.user.id) _ q)
      | inr e ↦ rw e q
    ]

    ssh_pubkey-Holds : (st : Store) → P st.next_id st.accounts → Holds (ssh_pubkey env f a st)
    unfolding ssh_pubkey
    ssh_pubkey-Holds st p = elim (Bool-cases (is_empty f.pk)) [
      | inl e ↦ rw e p
      | inr e ↦ rw e (elim (Option-cases (parse_ssh_keys env f.pk)) [
        | inl n ↦ rw n p
        | inr (ks, n) ↦ rw n (stored ks)
      ])
    ]
      where
        stored : (ks : List Key) → Holds (store_keys a.user.id ks st)
        stored ks =
            elim (Bool-cases (
              clashes (kept_keys a.user.id ks st.ssh_pub_keys)
                (new_keys a.user.id ks st.ssh_pub_keys))) [ inl c ↦ rw c p | inr c ↦ rw c p ]

    login-Holds :
        (b : Account) (pw : String) (st : Store)
        → P st.next_id st.accounts
        → P ((login env b pw st).1).next_id ((login env b pw st).1).accounts
    unfolding login check_password
    login-Holds b pw st p = elim (Bool-cases (is_banned env st || b.user.suspended)) [
      | inl e ↦ rw e p
      | inr e ↦ elim (Bool-cases (env.checkpw pw b.passwd)) [
        | inl c ↦ rw (e, c) (k.by_login b.user.id st.next_id st.accounts p)
        | inr c ↦ rw (e, c) p
      ]
    ]

    login_again-Holds :
        (pw : String) (o : Option Account) (st : Store)
        → P st.next_id st.accounts
        → P (login_again env pw o st).next_id (login_again env pw o st).accounts
    login_again-Holds pw none st p = p
    login_again-Holds pw (some b) st p = login-Holds b pw st p

    change_password-Holds :
        (b : Account) (st : Store)
        → P st.next_id st.accounts
        → P
            (change_password env f requester b st).next_id
            (change_password env f requester b st).accounts
    change_password-Holds b st p =
        let q = k.by_password b.user.id st.next_id st.accounts p in
        elim (Bool-cases (is_empty f.p || check_password env b f.p)) [
          | inl e ↦ rw e p
          | inr e ↦ elim (Bool-cases (b.user.id == requester)) [
            | inl own ↦ rw (e, own) (login_again-Holds f.p _ _ q)
            | inr other ↦ rw (e, other) q
          ]
        ]

    password-Holds : (st : Store) → P st.next_id st.accounts → Holds (password env f requester a st)
    unfolding password
    password-Holds st p = elim (Option-cases (account_of_id a.user.id st)) [
      | inl e ↦ rw (e, password) p
      | inr (b, e) ↦ rw (e, password) (change_password-Holds b st p)
    ]

    suspend-Holds : (st : Store) → P st.next_id st.accounts → Holds (suspend f a st)
    suspend-Holds st p = elim (Bool-cases (is_empty f.s)) [ inl e ↦ rw e p | inr e ↦ rw e p ]

    -- What the first update establishes.
    pub update_all-Establishes :
        (st : Store)
        → P st.next_id (rows_after (simple_account env f) st.accounts)
        → P
            (store_of (update_all env f requester a st)).next_id
            (store_of (update_all env f requester a st)).accounts
    unfolding update_all
    update_all-Establishes st p =
        let m₁ = simple env f a st in
        let m₂ = m₁ >>= language f a in
        let m₃ = m₂ >>= timezone f a in
        let m₄ = m₃ >>= ssh_pubkey env f a in
        let m₅ = m₄ >>= account_type f a in
        let p₂ =
          >>=-Holds m₁ (language f a) (λ s. k.by_language s.next_id s.accounts)
            (simple-Establishes st p) in
        let p₃ = >>=-Holds m₂ (timezone f a) (λ s. k.by_timezone s.next_id s.accounts) p₂ in
        let p₄ = >>=-Holds m₃ (ssh_pubkey env f a) ssh_pubkey-Holds p₃ in
        let p₅ = >>=-Holds m₄ (account_type f a) (λ s. k.by_type s.next_id s.accounts) p₄ in
        let p₆ = >>=-Holds m₅ (password env f requester a) password-Holds p₅ in
        >>=-Holds (m₅ >>= password env f requester a) (suspend f a) suspend-Holds p₆

    pub update_all-Holds :
        (st : Store)
        → P st.next_id st.accounts
        → P
            (store_of (update_all env f requester a st)).next_id
            (store_of (update_all env f requester a st)).accounts
    update_all-Holds st p = update_all-Establishes st (k.by_simple st.next_id st.accounts p)

abbrev pub is_complete : Response → Bool
is_complete complete = true
is_complete _ = false

-- A form that changes anything, or is done, has passed the checks, for an account that its sender may edit.
pub account_edit_post-cases :
    (env : Env) (requester : Account) (name : String) (f : Form) (st : Store)
    → (((account_edit_post env requester name f st).1 ≡ st)
        × (is_complete (account_edit_post env requester name f st).0 ≡ false))
      ⊎ ((a : Account) × (find? (named name) st.accounts ≡ some a)
          × (can_edit_user requester.user a.user ≡ true)
          × (process_account_form env requester a (cleaned f) st ≡ none)
          × (account_edit_post env requester name f st
              ≡ of_outcome complete (update_all env (cleaned f) requester.user.id a st)))
unfolding account_edit_post
account_edit_post-cases env requester name f st = elim (Bool-cases (is_authenticated requester)) [
  | inr e ↦ inl (rw e (refl, refl))
  | inl auth ↦ elim (Option-cases (find? (named name) st.accounts)) [
    | inl e ↦ inl (rw (auth, e, editing) (refl, refl))
    | inr (a, found) ↦ elim (Bool-cases (can_edit_user requester.user a.user)) [
      | inr e ↦ inl (rw (auth, found, e, editing) (refl, refl))
      | inl may ↦ elim (Bool-cases (is_empty f.passwd)) [
        | inl e ↦ inl (rw (auth, found, may, e, editing) (refl, refl))
        | inr given ↦ elim (Option-cases (process_account_form env requester a (cleaned f) st)) [
          | inr (e, bad) ↦ inl (rw (auth, found, may, given, bad, editing, edit) (refl, refl))
          | inl ok ↦ inr (a, found, may, ok, rw (auth, found, may, given, ok, editing, edit) refl)
        ]
      ]
    ]
  ]
]

-- Both checks pass.
pub >>-none : (c d : Option ValidationError) → (c >> d) ≡ none → (c ≡ none) × (d ≡ none)
>>-none none d h = (refl, h)
>>-none (some e) d h = cc

pub of_outcome-store : (r : Response) (m : Outcome) → (of_outcome r m).1 ≡ store_of m
of_outcome-store r (returned st) = refl
of_outcome-store r (raised st) = refl

pub process_account_form-type :
    (env : Env) (requester a : Account) (f : Form) (st : Store)
    → process_account_form env requester a f st ≡ none
    → invalid_account_type requester a f ≡ none
unfolding process_account_form
process_account_form-type env requester a f st h =
    let checks =
      check_first env requester a f st
      >> invalid_email env f
      >> check_fields env requester a f st
      >> fails_if (any (is_other_named a.user.id f.u) st.accounts) username_used
      >> email_in_use env a f st in
    (>>-none checks (invalid_account_type requester a f) h).1
