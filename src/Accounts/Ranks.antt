-- ===== src/Accounts/Ranks.antt =====
-- Who may give which account type: nobody rises above the one who edits it.
use aurweb.Prelude.{
  String, ℕ, ◌≤◌, ◌==◌, Bool, true, false, Option, none, some, List, [], ◌∷◌, update_where,
  Bool-cases, inl, inr, find?, ◌≡◌, ◌⊎◌, arith, Distinct, find?-update_where, refl, All, ==_sound,
  sym, subst, ap, ◌≢◌, ==_refl, ◌∙◌,
}
use aurweb.Creds.{is_elevated, has_credential, cred_filters}
use aurweb.Accounts.{Account, Store, Env, Form, is_id, account_of_id}
use aurweb.Accounts.Checks.{invalid_account_type, invalid_type}
use aurweb.Accounts.Login.{logged_in}
use aurweb.Accounts.Updates.{with_type, update_all, simple_account}
use aurweb.Accounts.Forms.{account_edit_post, cleaned, named, complete}
use aurweb.Accounts.Writes.{
  IsKept, update_all-Holds, account_edit_post-cases, simple_account-keeps, of_outcome-store,
  process_account_form-type,
}

-- A found row is the one of its ID.
pub find?-Distinct :
    (p : Account → Bool) (a : Account) (xs : List Account)
    → Distinct (λ x. x.user.id) xs
    → find? p xs ≡ some a
    → find? (is_id a.user.id) xs ≡ some a
find?-Distinct p a [] d h = cc
find?-Distinct p a (x ∷ xs) d h = elim (Bool-cases (p x)) [
  | inl e ↦ let same : x ≡ a = ground (arith, h, e) in rw same (rw (==_refl a.user.id) refl)
  | inr e ↦
      let rest : find? p xs ≡ some a = ground (arith, h, e) in
      let other : (x.user.id == a.user.id) ≡ false = apart xs d.0 rest in
      rw other (find?-Distinct p a xs d.1 rest)
]
  where
    apart :
        (ys : List Account)
        → All (λ y. x.user.id ≢ y.user.id) ys
        → find? p ys ≡ some a
        → (x.user.id == a.user.id) ≡ false
    apart [] al k = cc
    apart (y ∷ ys) al k = elim (Bool-cases (p y)) [
      | inl e ↦
          let same : y ≡ a = ground (arith, k, e) in
          elim (Bool-cases (x.user.id == a.user.id)) [
            | inl i ↦
                absurd (
                  al.0
                    (==_sound x.user.id a.user.id i ∙ ap (λ (z : Account). z.user.id) (sym same)))
            | inr i ↦ i
          ]
      | inr e ↦ apart ys al.1 (ground (arith, k, e))
    ]

-- A type that the account of an ID had, or one that its editor may give.
abbrev pub MayHold : Account → Store → ℕ → ℕ → Type 0
MayHold requester st uid t =
    ((a : Account) × (account_of_id uid st ≡ some a) × (a.user.account_type_id ≡ t))
    ⊎ ((is_elevated requester.user ≡ true) × (t ≤ requester.user.account_type_id))

abbrev AllMayHold : Account → Store → List Account → Type 0
AllMayHold requester st xs =
    (uid : ℕ) (b : Account)
    → find? (is_id uid) xs ≡ some b
    → MayHold requester st uid b.user.account_type_id

-- The check of the type passes for a type that the account has, or that its editor may give.
invalid_account_type-none :
    (requester a : Account) (f : Form) (t : ℕ)
    → f.t ≡ some t
    → invalid_account_type requester a f ≡ none
    → (t ≡ a.user.account_type_id)
      ⊎ ((is_elevated requester.user ≡ true) × (t ≤ requester.user.account_type_id))
unfolding invalid_account_type has_credential cred_filters is_elevated
invalid_account_type-none requester a f t e h =
    go (subst (λ o. elim o [ none ↦ none | some u ↦ invalid_type requester a u ] ≡ none) e h)
  where
    go :
        invalid_type requester a t ≡ none
        → (t ≡ a.user.account_type_id)
          ⊎ ((is_elevated requester.user ≡ true) × (t ≤ requester.user.account_type_id))
    go k = elim (Bool-cases (t == a.user.account_type_id)) [
      | inl same ↦ inl (==_sound t a.user.account_type_id same)
      | inr e ↦ inr (ground (arith, k, e), ground (arith, k, e))
    ]

module _ (requester : Account) (st : Store) where
  -- A write that keeps IDs and types.
  keeps_type :
      (v : ℕ) (g : Account → Account) (xs : List Account)
      → ((c : Account) → (g c).user.id ≡ c.user.id)
      → ((c : Account) → (g c).user.account_type_id ≡ c.user.account_type_id)
      → AllMayHold requester st xs
      → AllMayHold requester st (update_where (is_id v) g xs)
  keeps_type v g xs id_kept type_kept all uid b h =
      let (c, found, e) =
        find?-update_where (is_id uid) (is_id v) g b xs (λ x. rw (id_kept x) refl) h in
      let same : c.user.account_type_id ≡ b.user.account_type_id =
        ground (arith, e, type_kept c, Bool-cases (is_id v c)) in
      subst (MayHold requester st uid) same (all uid c found)

  -- The write of the type.
  gives_type :
      (a : Account) (t : ℕ) (xs : List Account)
      → ((c : Account) → find? (is_id a.user.id) xs ≡ some c → MayHold requester st a.user.id t)
      → AllMayHold requester st xs
      → AllMayHold requester st (update_where (is_id a.user.id) (with_type (some t)) xs)
  gives_type a t xs may all uid b h =
      let (c, found, e) =
        find?-update_where (is_id uid) (is_id a.user.id) (with_type (some t)) b xs (λ x. refl) h in
      elim (Bool-cases (is_id a.user.id c)) [
        | inl own ↦
            let hit : is_id uid c ≡ true = find?-sound uid c xs found in
            let same : uid ≡ a.user.id =
              sym (==_sound c.user.id uid hit) ∙ ==_sound c.user.id a.user.id own in
            let typed : t ≡ b.user.account_type_id = ground (arith, e, own) in
            subst (λ v. MayHold requester st v b.user.account_type_id) (sym same)
              (subst (MayHold requester st a.user.id) typed
                (may c (subst (λ v. find? (is_id v) xs ≡ some c) same found)))
        | inr other ↦
            let same : c ≡ b = ground (arith, e, other) in
            subst (λ z. MayHold requester st uid z.user.account_type_id) same (all uid c found)
      ]
    where
      find?-sound :
          (v : ℕ) (c : Account) (ys : List Account) → find? (is_id v) ys ≡ some c → is_id v c ≡ true
      find?-sound v c [] k = cc
      find?-sound v c (y ∷ ys) k = elim (Bool-cases (is_id v y)) [
        | inl i ↦ let same : y ≡ c = ground (arith, k, i) in subst (λ z. is_id v z ≡ true) same i
        | inr i ↦ find?-sound v c ys (ground (arith, k, i))
      ]

module _ (env : Env) (requester : Account) (f : Form) (st : Store) where
  by_type_lem :
      (a : Account) (o : Option ℕ) (xs : List Account)
      → f.t ≡ o
      → account_of_id a.user.id st ≡ some a
      → invalid_account_type requester a f ≡ none
      → AllMayHold requester st xs
      → AllMayHold requester st (update_where (is_id a.user.id) (with_type o) xs)
  by_type_lem a none xs e found ok all =
      keeps_type requester st a.user.id (with_type none) xs (λ c. refl) (λ c. refl) all
  by_type_lem a (some t) xs e found ok all =
      gives_type requester st a t xs
        (λ c h. elim (invalid_account_type-none requester a f t e ok) [
          | inl same ↦ inl (a, found, sym same)
          | inr given ↦ inr given
        ])
        all

  kept :
      (a : Account)
      → account_of_id a.user.id st ≡ some a
      → invalid_account_type requester a f ≡ none
      → IsKept env f requester.user.id a (λ _. AllMayHold requester st)
  kept a found ok =
      let keep = keeps_type requester st in
      record {
        by_simple = λ _ xs.
            keep a.user.id (simple_account env f) xs (λ c. (simple_account-keeps env f c).0)
              (λ c. (simple_account-keeps env f c).1);
        by_language = λ _ xs. keep a.user.id _ xs (λ c. refl) (λ c. refl);
        by_timezone = λ _ xs. keep a.user.id _ xs (λ c. refl) (λ c. refl);
        by_type = λ _ xs. by_type_lem a f.t xs refl found ok;
        by_password = λ uid _ xs. keep uid _ xs (λ c. refl) (λ c. refl);
        by_login = λ uid _ xs. keep uid (logged_in env) xs (λ c. refl) (λ c. refl);
      }

-- The form for editing an account raises nobody above the one who sends it: a type that an account has
-- afterwards it had before, or the sender is a package maintainer or a developer and has a type at least
-- as high. No two accounts have one ID.
pub account_edit_post-MayHold :
    (env : Env) (requester : Account) (name : String) (f : Form) (st : Store) (uid : ℕ)
    (b : Account)
    → Distinct (λ a. a.user.id) st.accounts
    → account_of_id uid (account_edit_post env requester name f st).1 ≡ some b
    → MayHold requester st uid b.user.account_type_id
account_edit_post-MayHold env requester name f st uid b d h =
    elim (account_edit_post-cases env requester name f st) [
      | inl (same, _) ↦ inl (b, rw (sym same) h, refl)
      | inr (a, found, may, ok, e) ↦
          let own = find?-Distinct (named name) a st.accounts d found in
          let all =
            update_all-Holds env (cleaned f) requester.user.id a
              (kept env requester (cleaned f) st a own
                (process_account_form-type env requester a (cleaned f) st ok))
              st (λ v c k. inl (c, k, refl)) in
          all uid b (
            rw (sym (of_outcome-store complete (update_all env (cleaned f) requester.user.id a st)))
              (rw (sym e) h))
    ]
