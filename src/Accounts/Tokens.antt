-- ===== src/Accounts/Tokens.antt =====
-- What the key of a password reset and the token of an address allow.
use aurweb.Prelude.{
  String, ℕ, Bool, true, false, some, List, update_where, Bool-cases, inl, inr, ◌⊎◌, ◌≡◌, arith,
  refl, All, sym, subst, ◌∙◌, ap, str_eq, find?, not, ◌||◌, Option-cases, delete_where,
  All-delete_where_self, ==_sound, if◌then◌else◌, find?-update_where, find?-holds, Distinct, none,
  true_ne_false, ◌<◌, eq_iff,
}
use aurweb.Accounts.{
  Account, Store, Env, Session, is_id, account_of_id, update_account, reset_key_notification,
}
use aurweb.Accounts.Texts.{is_empty, valid_password}
use aurweb.Accounts.Checks.{is_authenticated, is_expired}
use aurweb.Accounts.Login.{session_of}
use aurweb.Accounts.Forms.{
  Response, redirect, passreset_post, may_reset, reset, use_key, reset_for, account_verify,
  has_token, verified,
}
use aurweb.Accounts.Ranks.{find?-Distinct}
use aurweb.Accounts.Changes.{send_to-keeps}

pub some_inj {ℓ} : {A : Type ℓ} {x y : A} → some x ≡ some y → x ≡ y
some_inj k = cc

-- What became of the row of one ID, where the rows of another may have been written.
written :
    (uid v : ℕ) (g : Account → Account) (xs : List Account) (a b : Account)
    → ((c : Account) → (g c).user.id ≡ c.user.id)
    → find? (is_id uid) xs ≡ some a
    → find? (is_id uid) (update_where (is_id v) g xs) ≡ some b
    → (b ≡ a) ⊎ ((is_id v a ≡ true) × (b ≡ g a))
written uid v g xs a b i h k =
    let (x, found, e) = find?-update_where (is_id uid) (is_id v) g b xs (λ c. rw (i c) refl) k in
    let same : x ≡ a = some_inj (sym found ∙ h) in
    go (Bool-cases (is_id v a)) (subst (λ z. (if is_id v z then g z else z) ≡ b) same e)
  where
    go :
        ((is_id v a ≡ true) ⊎ (is_id v a ≡ false))
        → (if is_id v a then g a else a) ≡ b
        → (b ≡ a) ⊎ ((is_id v a ≡ true) × (b ≡ g a))
    go (inl own) e = inr (own, sym e ∙ rw own refl)
    go (inr other) e = inl (sym e ∙ rw other refl)

-- The account that is found by what the form names is the one of the ID.
own_row :
    (p : Account → Bool) (uid : ℕ) (xs : List Account) (a c : Account)
    → Distinct (λ x. x.user.id) xs
    → find? p xs ≡ some c
    → find? (is_id uid) xs ≡ some a
    → is_id c.user.id a ≡ true
    → c ≡ a
own_row p uid xs a c d h k own =
    let at_c = find?-Distinct p c xs d h in
    let at_a = find?-Distinct (is_id uid) a xs d k in
    some_inj (
      sym at_c ∙ ap (λ (v : ℕ). find? (is_id v) xs) (sym (==_sound a.user.id c.user.id own)) ∙ at_a)

-- The account has the token, which is not over.
abbrev pub HasToken : Env → String → Account → Type 0
HasToken env token a =
    (expiry : ℕ) × (a.email_verification_token ≡ some token)
    × (a.user.email_verification_expiry ≡ some expiry)
    × (env.now < expiry)

has_token-HasToken :
    (env : Env) (token : String) (a : Account)
    → has_token token a ≡ true
    → is_expired env a ≡ false
    → HasToken env token a
unfolding is_expired
has_token-HasToken env token a h live = elim (Option-cases a.user.email_verification_expiry) [
  | inl e ↦ absurd (ground (arith, e, live))
  | inr (expiry, e) ↦ elim (Option-cases a.email_verification_token) [
    | inl f ↦ absurd (ground (arith, f, h))
    | inr (t, f) ↦
        let same : str_eq t token ≡ true = ground (arith, f, h) in
        (
          expiry,
          f ∙ ap (λ (z : String). some z) ((eq_iff t token).0 same),
          e,
          ground (arith, e, live),
        )
  ]
]

-- Confirming an address makes an account verified only by the account's own token, before it expires,
-- and takes the token away. No two accounts have one ID.
pub account_verify-verified :
    (env : Env) (token : String) (st : Store) (uid : ℕ) (a b : Account)
    → Distinct (λ x. x.user.id) st.accounts
    → account_of_id uid st ≡ some a
    → account_of_id uid (account_verify env token st).1 ≡ some b
    → a.user.email_verified ≡ false
    → b.user.email_verified ≡ true
    → HasToken env token a × (b.email_verification_token ≡ none)
unfolding account_verify
account_verify-verified env token st uid a b d h k old new =
    elim (Option-cases (find? (has_token token) st.accounts)) [
      | inl e ↦ unchanged (rw (e, account_verify) at k)
      | inr (c, e) ↦ elim (Bool-cases c.user.email_verified) [
        | inl v ↦ unchanged (rw (e, v, account_verify) at k)
        | inr v ↦ elim (Bool-cases (is_expired env c)) [
          | inl x ↦ unchanged (rw (e, v, x, account_verify) at k)
          | inr x ↦
              elim (written uid c.user.id verified st.accounts a b (λ z. refl) h
                (rw (e, v, x, account_verify) at k)) [
                  | inl same ↦ absurd (
                      true_ne_false
                        (sym new ∙ ap (λ (z : Account). z.user.email_verified) same ∙ old))
                  | inr (own, w) ↦
                      let same = own_row (has_token token) uid st.accounts a c d e h own in
                      (
                        subst (HasToken env token) same (
                            has_token-HasToken env token c
                              (find?-holds (has_token token) c st.accounts e) x),
                        ap (λ (z : Account). z.email_verification_token) w,
                      )
                ]
        ]
      ]
    ]
  where
    unchanged :
        account_of_id uid st ≡ some b → HasToken env token a × (b.email_verification_token ≡ none)
    unchanged e = absurd (
        true_ne_false
          (sym new ∙ ap (λ (z : Account). z.user.email_verified) (some_inj (sym e ∙ h)) ∙ old))

-- The password is as it was, or the form had the account's reset key: then the key is used up, the
-- password is the one that was given twice, and the account has no session.
abbrev pub KeepsOrUses : Env → String → String → String → Account → Account → List Session → Type 0
KeepsOrUses env key password confirm a b sessions =
    (b.passwd ≡ a.passwd)
    ⊎ ((is_empty key ≡ false)
        × (str_eq key a.reset_key ≡ true)
        × (str_eq password confirm ≡ true)
        × (valid_password env password ≡ true)
        × (b.passwd ≡ env.hashpw password)
        × (b.reset_key ≡ "")
        × All (λ s. session_of a.user.id s ≡ false) sessions)

-- Resetting a password changes the password of an account only if the form has the account's reset key,
-- which is not empty. Then the new password is long enough and was given twice, the key is used up,
-- and the sessions of the account end. No two accounts have one ID.
pub passreset_post-KeepsOrUses :
    (env : Env) (r : Account) (user key password confirm : String) (st : Store) (uid : ℕ)
    (a b : Account)
    → Distinct (λ x. x.user.id) st.accounts
    → account_of_id uid st ≡ some a
    → account_of_id uid (passreset_post env r user key password confirm st).1 ≡ some b
    → KeepsOrUses env key password confirm a b
        (passreset_post env r user key password confirm st).1.sessions
unfolding passreset_post
passreset_post-KeepsOrUses env r user key password confirm st uid a b d h k =
    elim (Bool-cases (is_authenticated r)) [
      | inl e ↦ inl (unchanged (rw e at k))
      | inr guest ↦ elim (Option-cases (find? (may_reset user) st.accounts)) [
        | inl e ↦ inl (unchanged (rw (guest, e, passreset_post) at k))
        | inr (c, e) ↦
            rw (guest, e, passreset_post) (found c e (rw (guest, e, passreset_post) at k))
      ]
    ]
  where
    unchanged : account_of_id uid st ≡ some b → b.passwd ≡ a.passwd
    unchanged e = ap (λ (z : Account). z.passwd) (some_inj (sym e ∙ h))

    used :
        (c : Account)
        → find? (may_reset user) st.accounts ≡ some c
        → is_empty key ≡ false
        → account_of_id uid (use_key env key password confirm c st).1 ≡ some b
        → KeepsOrUses env key password confirm a b
            (use_key env key password confirm c st).1.sessions
    used c e n l = elim (Bool-cases (is_empty c.reset_key || not (str_eq key c.reset_key))) [
      | inl w ↦ inl (unchanged (rw w at l))
      | inr w ↦ elim (Bool-cases (is_empty password)) [
        | inl p ↦ inl (unchanged (rw (w, p) at l))
        | inr p ↦ elim (Bool-cases (str_eq password confirm)) [
          | inr q ↦ inl (unchanged (rw (w, p, q) at l))
          | inl q ↦ elim (Bool-cases (valid_password env password)) [
            | inr v ↦ inl (unchanged (rw (w, p, q, v) at l))
            | inl v ↦
                elim (written uid c.user.id (reset env password) st.accounts a b (λ z. refl) h
                  (rw (w, p, q, v) at l)) [
                    | inl same ↦ inl (ap (λ (z : Account). z.passwd) same)
                    | inr (own, new) ↦
                        let same = own_row (may_reset user) uid st.accounts a c d e h own in
                        rw (w, p, q, v)
                          (inr (
                            n,
                            subst (λ (z : Account). str_eq key z.reset_key ≡ true) same
                                (ground (arith, w)),
                            refl,
                            refl,
                            ap (λ (z : Account). z.passwd) new,
                            ap (λ (z : Account). z.reset_key) new,
                            subst
                                (λ (z : Account).
                                  All (λ s. session_of z.user.id s ≡ false)
                                    (delete_where (session_of c.user.id) st.sessions))
                                same (All-delete_where_self (session_of c.user.id) st.sessions),
                          ))
                  ]
          ]
        ]
      ]
    ]

    found :
        (c : Account)
        → find? (may_reset user) st.accounts ≡ some c
        → account_of_id uid (reset_for env key password confirm c st).1 ≡ some b
        → KeepsOrUses env key password confirm a b
            (reset_for env key password confirm c st).1.sessions
    found c e l = elim (Bool-cases (is_empty key)) [
      | inr n ↦
          let same : use_key env key password confirm c st
              ≡ reset_for env key password confirm c st =
            rw n refl in
          subst (λ (z : Response × Store). KeepsOrUses env key password confirm a b z.1.sessions)
            same
            (used c e n
              (subst (λ (z : Response × Store). account_of_id uid z.1 ≡ some b) (sym same) l))
      | inl n ↦
          let g = λ (z : Account). record z { reset_key = env.random } in
          let (keeps, _) =
            send_to-keeps (redirect "/passreset?step=confirm") c.user.id
              (reset_key_notification c.user.id) (update_account c.user.id g st) in
          inl
            (elim (written uid c.user.id g st.accounts a b (λ z. refl) h
              (rw keeps at (rw n at l))) [
                | inl same ↦ ap (λ (z : Account). z.passwd) same
                | inr (own, new) ↦ ap (λ (z : Account). z.passwd) new
              ])
    ]
