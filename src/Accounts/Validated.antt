-- ===== src/Accounts/Validated.antt =====
-- What it means that a form for an account passed the checks of aurweb/users/validate.py.
use aurweb.Prelude.{
  String, ◌==◌, Bool, true, false, Option, none, some, List, [], ◌∷◌, Bool-cases, inl, inr, ◌≡◌,
  ◌⊎◌, arith, refl, All, sym, subst, ◌∙◌, str_eq, any, All-map, ℕ, find?, find?-All, not, ◌&&◌,
  eq_iff, true_ne_false,
}
use aurweb.Accounts.{Account, Store, Env, Form, is_id}
use aurweb.Accounts.Texts.{valid_email, normalize_email}
use aurweb.Accounts.Checks.{
  is_other_named, email_is_used, has_address, process_account_form, ◌>>◌, fails_if, email_used,
  check_fields, check_first, invalid_email, email_invalid, email_disposable, is_disposable_email,
  invalid_account_type, ValidationError, username_used, email_in_use,
}
use aurweb.Accounts.Writes.{>>-none}
use aurweb.Accounts.Identity.{Apart, AllApart, Apart-symm}
use aurweb.Accounts.Checked.{AddressFree, HasAddress, Checked}

-- The row of an account that is found is the only one with its ID.
pub only_row :
    (p : Account → Bool) (a : Account) (xs : List Account)
    → AllApart xs
    → find? p xs ≡ some a
    → All (λ y. is_id a.user.id y ≡ true → y ≡ a) xs
only_row p a [] h e = cc
only_row p a (x ∷ xs) h e = elim (Bool-cases (p x)) [
  | inl k ↦
      let same : x ≡ a = ground (arith, e, k) in
      ((λ _. same), others xs (subst (λ z. All (Apart z) xs) same h.0))
  | inr k ↦
      let rest : find? p xs ≡ some a = ground (arith, e, k) in
      let apart = (find?-All (Apart x) p a xs rest h.0).0 in
      ((λ own. absurd (true_ne_false (sym own ∙ apart.ids))), only_row p a xs h.1 rest)
]
  where
    others : (ys : List Account) → All (Apart a) ys → All (λ y. is_id a.user.id y ≡ true → y ≡ a) ys
    others [] g = tt
    others (y ∷ ys) g =
        ((λ own. absurd (true_ne_false (sym own ∙ (Apart-symm g.0).ids))), others ys g.1)

none_named :
    (uid : ℕ) (name : String) (xs : List Account)
    → any (is_other_named uid name) xs ≡ false
    → All (λ y. is_id uid y ≡ false → str_eq y.user.username name ≡ false) xs
unfolding is_other_named
none_named uid name [] h = tt
none_named uid name (x ∷ xs) h =
    ((λ e. ground (arith, h, e)), none_named uid name xs (ground (arith, h)))

none_addressed :
    (env : Env) (f : Form) (uid : ℕ) (xs : List Account)
    → any (λ b. not (b.user.id == uid) && has_address env (normalize_email env f.e) b) xs ≡ false
    → All (AddressFree env f uid) xs
none_addressed env f uid [] h = tt
none_addressed env f uid (x ∷ xs) h = (free, none_addressed env f uid xs (ground (arith, h)))
  where
    has :
        (o : Option String) (n : String)
        → o ≡ some n
        → elim o [ none ↦ str_eq (normalize_email env x.email) n | some m ↦ str_eq m n ] ≡ true
    has none n e = cc
    has (some m) n e = ground (arith, e, eq_iff m n)

    free : AddressFree env f uid x
    free other e =
        let hit = has x.normalized_email (normalize_email env f.e) e in
        absurd (true_ne_false (sym hit ∙ ground (arith, h, other)))

fails_if-none : (b : Bool) (e : ValidationError) → fails_if b e ≡ none → b ≡ false
fails_if-none true e h = cc
fails_if-none false e h = refl

-- What passed the checks is checked.
pub process_account_form-Checked :
    (env : Env) (requester a : Account) (f : Form) (st : Store)
    → AllApart st.accounts
    → All (λ y. is_id a.user.id y ≡ true → str_eq a.email y.email ≡ true) st.accounts
    → process_account_form env requester a f st ≡ none
    → Checked env f a.user.id st.accounts
unfolding process_account_form email_is_used
process_account_form-Checked env requester a f st apart own h =
    let fields =
      check_first env requester a f st
      >> invalid_email env f
      >> check_fields env requester a f st in
    let used = fails_if (any (is_other_named a.user.id f.u) st.accounts) username_used in
    let email = email_in_use env a f st in
    let h' = (>>-none (fields >> used >> email) (invalid_account_type requester a f) h).0 in
    let h'' = >>-none (fields >> used) email h' in
    (
      apart,
      none_named a.user.id f.u st.accounts
          (fails_if-none _ username_used (>>-none fields used h''.0).1),
      address (fails_if-none _ email_used h''.1),
    )
  where
    used :
        str_eq f.e a.email ≡ false
        → (not (str_eq f.e a.email) && email_is_used env a.user.id f.e st) ≡ false
        → email_is_used env a.user.id f.e st ≡ false
    used e k = subst (λ b. (not b && email_is_used env a.user.id f.e st) ≡ false) e k

    address :
        (not (str_eq f.e a.email) && email_is_used env a.user.id f.e st) ≡ false
        → All (AddressFree env f a.user.id) st.accounts
          ⊎ All (HasAddress env f a.user.id) st.accounts
    address k = elim (Bool-cases (str_eq f.e a.email)) [
      | inl same ↦ inr (
          All-map (λ y. is_id a.user.id y ≡ true → str_eq a.email y.email ≡ true)
            (HasAddress env f a.user.id) st.accounts
            (λ y g i. rw ((eq_iff f.e a.email).0 same) (g i)) own)
      | inr e ↦ inl (none_addressed env f a.user.id st.accounts (used e k))
    ]

-- A form with an address that is none does not pass.
pub process_account_form-valid_email :
    (env : Env) (requester a : Account) (f : Form) (st : Store)
    → process_account_form env requester a f st ≡ none
    → valid_email env f.e ≡ true
unfolding process_account_form
process_account_form-valid_email env requester a f st h =
    let first = check_first env requester a f st in
    let address = invalid_email env f in
    let fields = check_fields env requester a f st in
    let used = fails_if (any (is_other_named a.user.id f.u) st.accounts) username_used in
    let email = email_in_use env a f st in
    let h₁ =
      (>>-none (first >> address >> fields >> used >> email) (invalid_account_type requester a f)
        h).0 in
    let h₂ = (>>-none (first >> address >> fields >> used) email h₁).0 in
    let h₃ = (>>-none (first >> address >> fields) used h₂).0 in
    let h₄ = (>>-none (first >> address) fields h₃).0 in
    let h₅ = (>>-none first address h₄).1 in
    let invalid = fails_if (not (valid_email env f.e)) email_invalid in
    let h₆ = (>>-none invalid (fails_if (is_disposable_email env f.e) email_disposable) h₅).0 in
    let no = fails_if-none (not (valid_email env f.e)) email_invalid h₆ in
    elim (Bool-cases (valid_email env f.e)) [
      | inl e ↦ e
      | inr e ↦ absurd (true_ne_false (subst (λ b. not b ≡ false) e no))
    ]

-- An address that is new to the account is new to the others.
pub process_account_form-addresses :
    (env : Env) (requester a : Account) (f : Form) (st : Store)
    → str_eq f.e a.email ≡ false
    → process_account_form env requester a f st ≡ none
    → All (AddressFree env f a.user.id) st.accounts
unfolding process_account_form email_is_used
process_account_form-addresses env requester a f st e h =
    let before =
      check_first env requester a f st
      >> invalid_email env f
      >> check_fields env requester a f st
      >> fails_if (any (is_other_named a.user.id f.u) st.accounts) username_used in
    let email = email_in_use env a f st in
    let h₁ = (>>-none (before >> email) (invalid_account_type requester a f) h).0 in
    let k = fails_if-none _ email_used (>>-none before email h₁).1 in
    none_addressed env f a.user.id st.accounts
      (subst (λ b. (not b && email_is_used env a.user.id f.e st) ≡ false) e k)
