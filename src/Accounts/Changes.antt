-- ===== src/Accounts/Changes.antt =====
-- The handlers that touch nothing that tells accounts apart.
use aurweb.Prelude.{
  if◌then◌else◌, String, ℕ, Bool, true, false, Bool-cases, inl, inr, ◌≡◌, refl, str_eq, find?, not,
  ◌||◌, Option-cases,
}
use aurweb.Creds.{can_edit_user}
use aurweb.Accounts.{
  Account, Store, Env, account_of_id, Mail, update_account, reset_key_notification,
  verification_notification,
}
use aurweb.Accounts.Texts.{valid_password, is_empty}
use aurweb.Accounts.Checks.{check_password, is_authenticated, is_expired, in_cooldown, is_banned}
use aurweb.Accounts.Login.{
  login_post, login, logged_in, is_called, account_suspended, of_login, LoginResponse,
}
use aurweb.Accounts.Updates.{send_to, issue}
use aurweb.Accounts.Forms.{
  Response, redirect, use_key, reset, reset_for, editing, resend, verified, passreset_post,
  account_verify, account_verify_resend, of_outcome, named, may_reset, has_token,
}
use aurweb.Accounts.Sound.{IsPlainChange}

-- A mail leaves the rows.
pub send_to-keeps :
    (r : Response) (uid : ℕ) (m : Mail) (st : Store)
    → ((of_outcome r (send_to uid m st)).1.accounts ≡ st.accounts)
      × ((of_outcome r (send_to uid m st)).1.next_id ≡ st.next_id)
unfolding send_to
send_to-keeps r uid m st = elim (Option-cases (account_of_id uid st)) [
  | inl e ↦ rw (e, send_to) (refl, refl)
  | inr (a, e) ↦ elim (Bool-cases a.user.suspended) [
    | inl s ↦ rw (e, s, send_to) (refl, refl)
    | inr s ↦ rw (e, s, send_to) (refl, refl)
  ]
]

pub reset-plain :
    (env : Env) (r : Account) (user key password confirm : String) (st : Store)
    → IsPlainChange st (passreset_post env r user key password confirm st).1
unfolding passreset_post
reset-plain env r user key password confirm st = elim (Bool-cases (is_authenticated r)) [
  | inl e ↦ inl (rw e refl)
  | inr guest ↦ elim (Option-cases (find? (may_reset user) st.accounts)) [
    | inl e ↦ inl (rw (guest, e, passreset_post) refl)
    | inr (a, e) ↦ rw (guest, e, passreset_post) (found a)
  ]
]
  where
    used : (a : Account) → IsPlainChange st (use_key env key password confirm a st).1
    used a = elim (Bool-cases (is_empty a.reset_key || not (str_eq key a.reset_key))) [
      | inl e ↦ inl (rw e refl)
      | inr e ↦ elim (Bool-cases (is_empty password)) [
        | inl p ↦ inl (rw (e, p) refl)
        | inr p ↦ elim (Bool-cases (str_eq password confirm)) [
          | inr c ↦ inl (rw (e, p, c) refl)
          | inl c ↦ elim (Bool-cases (valid_password env password)) [
            | inr v ↦ inl (rw (e, p, c, v) refl)
            | inl v ↦
                rw (e, p, c, v)
                  (inr (a.user.id, reset env password, (λ c. (refl, refl, refl)), refl, refl))
          ]
        ]
      ]
    ]

    found : (a : Account) → IsPlainChange st (reset_for env key password confirm a st).1
    found a = elim (Bool-cases (is_empty key)) [
      | inr e ↦ rw e (used a)
      | inl e ↦ rw e (
          let (k, n) =
            send_to-keeps (redirect "/passreset?step=confirm") a.user.id
              (reset_key_notification a.user.id)
              (update_account a.user.id (λ b. record b { reset_key = env.random }) st) in
          inr (
            a.user.id,
            (λ b. record b { reset_key = env.random }),
            (λ c. (refl, refl, refl)),
            k,
            n,
          ))
    ]

pub verify-plain :
    (env : Env) (token : String) (st : Store) → IsPlainChange st (account_verify env token st).1
unfolding account_verify
verify-plain env token st = elim (Option-cases (find? (has_token token) st.accounts)) [
  | inl e ↦ inl (rw (e, account_verify) refl)
  | inr (a, e) ↦ elim (Bool-cases a.user.email_verified) [
    | inl v ↦ inl (rw (e, v, account_verify) refl)
    | inr v ↦ elim (Bool-cases (is_expired env a)) [
      | inl x ↦ inl (rw (e, v, x, account_verify) refl)
      | inr x ↦
          rw (e, v, x, account_verify)
            (inr (a.user.id, verified, (λ c. (refl, refl, refl)), refl, refl))
    ]
  ]
]

pub resend-plain :
    (env : Env) (r : Account) (name : String) (st : Store)
    → IsPlainChange st (account_verify_resend env r name st).1
unfolding account_verify_resend
resend-plain env r name st = elim (Bool-cases (is_authenticated r)) [
  | inr e ↦ inl (rw e refl)
  | inl auth ↦ elim (Option-cases (find? (named name) st.accounts)) [
    | inl e ↦ inl (rw (auth, e, editing) refl)
    | inr (a, e) ↦ elim (Bool-cases (can_edit_user r.user a.user)) [
      | inr m ↦ inl (rw (auth, e, m, editing) refl)
      | inl m ↦ rw (auth, e, m, editing) (sent a)
    ]
  ]
]
  where
    sent : (a : Account) → IsPlainChange st (resend env a st).1
    sent a = elim (Bool-cases a.user.email_verified) [
      | inl v ↦ inl (rw v refl)
      | inr v ↦ elim (Bool-cases (in_cooldown env a)) [
        | inl c ↦ inl (rw (v, c) refl)
        | inr c ↦
            rw (v, c)
              (let (k, n) =
                  send_to-keeps (redirect "/account/verify?step=confirm") a.user.id
                    (verification_notification a.user.id)
                    (update_account a.user.id (issue env) st) in
                inr (a.user.id, issue env, (λ c. (refl, refl, refl)), k, n))
      ]
    ]

pub login-plain :
    (env : Env) (b : Account) (pw : String) (st : Store) → IsPlainChange st (login env b pw st).1
unfolding login check_password
login-plain env b pw st = elim (Bool-cases (is_banned env st || b.user.suspended)) [
  | inl e ↦ inl (rw e refl)
  | inr e ↦ elim (Bool-cases (env.checkpw pw b.passwd)) [
    | inl c ↦ rw (e, c) (inr (b.user.id, logged_in env, (λ c. (refl, refl, refl)), refl, refl))
    | inr c ↦ inl (rw (e, c) refl)
  ]
]

pub login_post-plain :
    (env : Env) (ok : Bool) (user passwd : String) (st : Store)
    → IsPlainChange st (login_post env ok user passwd st).1
unfolding login_post
login_post-plain env false user passwd st = inl refl
login_post-plain env true user passwd st =
    elim (Option-cases (find? (is_called user) st.accounts)) [
      | inl e ↦ inl (rw (e, login_post) refl)
      | inr (a, e) ↦ rw (e, login_post) (attempt a a.user.suspended)
    ]
  where
    attempt :
        (a : Account) (suspended : Bool)
        → IsPlainChange st
            (if◌then◌else◌ {A = LoginResponse × Store} suspended
              (account_suspended, st)
              (of_login (login env a passwd st).0, (login env a passwd st).1)).1
    attempt a true = inl refl
    attempt a false = login-plain env a passwd st
