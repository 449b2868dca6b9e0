-- ===== src/Accounts/Registering.antt =====
-- A new account, or one less.
use aurweb.Accounts.Updates.{clashes}
use aurweb.Prelude.{
  eq_iff, String, ℕ, suc, ◌<◌, Bool, true, false, none, List, [], ◌∷◌, ◌++◌, Bool-cases, inl, inr,
  ◌≡◌, arith, All, sym, subst, ◌∙◌, str_eq, find?, Option-cases, delete_where, All-delete_where,
  All-append, All-map, true_ne_false,
}
use aurweb.Creds.{has_credential, account_edit}
use aurweb.Accounts.{Account, Store, Env, Form, is_id}
use aurweb.Accounts.Texts.{Key, valid_email, is_empty, strtobool}
use aurweb.Accounts.Checks.{process_account_form, check_password, is_authenticated}
use aurweb.Accounts.Forms.{
  registered, delete_confirmed, Flags, account_register_post, account_delete_post, cleaned, named,
  new_account, keys_of, register,
}
use aurweb.Accounts.Identity.{Apart, AllApart}
use aurweb.Accounts.Checked.{NameFree, AddressFree}
use aurweb.Accounts.Validated.{
  process_account_form-Checked, process_account_form-addresses, process_account_form-valid_email,
}
use aurweb.Accounts.Sound.{IsNumbered, IsSound}

AllApart-append :
    (xs : List Account) (b : Account)
    → AllApart xs
    → All (λ y. Apart y b) xs
    → AllApart (xs ++ b ∷ [])
AllApart-append [] b h k = (tt, tt)
AllApart-append (x ∷ xs) b h k =
    (All-append (Apart x) xs (b ∷ []) h.0 (k.0, tt), AllApart-append xs b h.1 k.1)

AllApart-delete_where :
    (p : Account → Bool) (xs : List Account) → AllApart xs → AllApart (delete_where p xs)
AllApart-delete_where p [] h = tt
AllApart-delete_where p (x ∷ xs) h =
    let rest = AllApart-delete_where p xs h.1 in
    elim (Bool-cases (p x)) [
      | inl e ↦ rw e rest
      | inr e ↦ rw e (All-delete_where (Apart x) p xs h.0, rest)
    ]

pub delete-IsSound :
    (env : Env) (r : Account) (name passwd confirm : String) (st : Store)
    → IsSound st
    → IsSound (account_delete_post env r name passwd confirm st).1
unfolding account_delete_post
delete-IsSound env r name passwd confirm st h = elim (Bool-cases (is_authenticated r)) [
  | inr e ↦ rw e h
  | inl auth ↦ elim (Option-cases (find? (named name) st.accounts)) [
    | inl e ↦ rw (auth, e, account_delete_post) h
    | inr (a, e) ↦ rw (auth, e, account_delete_post) (confirmed a)
  ]
]
  where
    confirmed : (a : Account) → IsSound (delete_confirmed env r passwd confirm a st).1
    confirmed a = elim (Bool-cases (has_credential r.user account_edit (a.user.id ∷ []))) [
      | inr e ↦ rw e h
      | inl e ↦ elim (Bool-cases (strtobool env confirm)) [
        | inr c ↦ rw (e, c) h
        | inl c ↦ elim (Bool-cases (check_password env r passwd)) [
          | inr k ↦ rw (e, c, k) h
          | inl k ↦
              rw (e, c, k)
                (record {
                  apart = AllApart-delete_where (is_id a.user.id) st.accounts h.apart;
                  numbered =
                      All-delete_where (λ x. (0 < x.user.id) × (x.user.id < st.next_id))
                        (is_id a.user.id) st.accounts h.numbered;
                  positive = h.positive;
                })
        ]
      ]
    ]

-- A new account is apart from the others: the checks compared its name and its address with theirs.
new_account-Apart :
    (env : Env) (f : Form) (flags : Flags) (uid guest : ℕ) (xs : List Account)
    → guest ≡ 0
    → IsNumbered uid xs
    → All (NameFree env f guest) xs
    → All (AddressFree env f guest) xs
    → All (λ y. Apart y (new_account env uid f flags)) xs
new_account-Apart env f flags uid guest [] g n h k = tt
new_account-Apart env f flags uid guest (y ∷ ys) g n h k =
    let other : is_id guest y ≡ false = ground (arith, n.0.0, g) in
    (
      record {
        ids = ground (arith, n.0.1);
        names = h.0 other;
        addresses = λ t e m. k.0 other (e ∙ sym m);
      },
      new_account-Apart env f flags uid guest ys g n.1 h.1 k.1,
    )

-- The guest's own address is no e-mail address.
abbrev pub IsGuest : Env → Account → Type 0
IsGuest env r = r.user.id ≡ 0 → valid_email env r.email ≡ false

pub register-IsSound :
    (env : Env) (r : Account) (f : Form) (flags : Flags) (st : Store)
    → IsGuest env r
    → IsSound st
    → IsSound (account_register_post env r f flags st).1
unfolding account_register_post
register-IsSound env r f flags st guest h = elim (Bool-cases (is_authenticated r)) [
  | inl e ↦ rw e h
  | inr e ↦ elim (Option-cases (process_account_form env r r (cleaned f) st)) [
    | inr (bad, k) ↦ rw (e, k, register) h
    | inl ok ↦ elim (Bool-cases (is_empty f.captcha)) [
      | inl c ↦ rw (e, ok, c, register) h
      | inr c ↦ elim (Option-cases (keys_of env (cleaned f))) [
        | inl k ↦ rw (e, ok, c, k, register) h
        | inr (ks, k) ↦ elim (Bool-cases (clashes st.ssh_pub_keys ks)) [
          | inl x ↦ rw (e, ok, c, k, x, register) h
          | inr x ↦ rw (e, ok, c, k, x, register) (added ks (ground (arith, e)) ok)
        ]
      ]
    ]
  ]
]
  where
    other : valid_email env f.e ≡ true → r.user.id ≡ 0 → str_eq f.e r.email ≡ false
    other v z = elim (Bool-cases (str_eq f.e r.email)) [
      | inr e ↦ e
      | inl e ↦ absurd (
          true_ne_false (
            sym v
            ∙ subst (λ t. valid_email env t ≡ false) (sym ((eq_iff f.e r.email).0 e)) (guest z)))
    ]

    added :
        (ks : List Key)
        → r.user.id ≡ 0
        → process_account_form env r r (cleaned f) st ≡ none
        → IsSound (registered env (cleaned f) flags ks st)
    added ks zero_id ok =
        let no_mail = other (process_account_form-valid_email env r r (cleaned f) st ok) zero_id in
        let nobody =
          All-map (λ a. (0 < a.user.id) × (a.user.id < st.next_id))
            (λ y. is_id r.user.id y ≡ true → str_eq r.email y.email ≡ true) st.accounts
            (λ y p i. absurd (ground (arith, p.0, zero_id, i))) h.numbered in
        let names = (process_account_form-Checked env r r (cleaned f) st h.apart nobody ok).1 in
        let addresses = process_account_form-addresses env r r (cleaned f) st no_mail ok in
        record {
          apart =
              AllApart-append st.accounts (new_account env st.next_id (cleaned f) flags) h.apart (
                new_account-Apart env (cleaned f) flags st.next_id r.user.id st.accounts zero_id
                  h.numbered names addresses);
          numbered =
              All-append (λ a. (0 < a.user.id) × (a.user.id < suc st.next_id)) st.accounts _
                (All-map (λ a. (0 < a.user.id) × (a.user.id < st.next_id))
                  (λ a. (0 < a.user.id) × (a.user.id < suc st.next_id)) st.accounts
                  (λ y p. (p.0, omega arith)) h.numbered)
                ((h.positive, omega arith), tt);
          positive = omega arith;
        }
