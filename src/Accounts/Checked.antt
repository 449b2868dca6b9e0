-- ===== src/Accounts/Checked.antt =====
-- What the checks of a form for an account find out about the other accounts, and that what the form
-- writes keeps the accounts apart.
use aurweb.Prelude.{
  String, true, false, Option, none, some, List, update_where, Bool-cases, inl, inr, ◌≡◌, ◌⊎◌,
  arith, refl, All, sym, subst, ◌≢◌, ◌∙◌, str_eq, All-update_where, str_eq-false_symm, All-map₂, ℕ,
  true_ne_false,
}
use aurweb.Accounts.{Account, Env, Form, is_id}
use aurweb.Accounts.Texts.{is_empty, default, normalize_email}
use aurweb.Accounts.Login.{logged_in}
use aurweb.Accounts.Updates.{with_type, simple_account}
use aurweb.Accounts.Writes.{IsKept, simple_account-keeps, simple_account-username}
use aurweb.Accounts.Identity.{Apart, AllApart, AllApart-plain, AllApart-update_where}

-- What the checks of a form found out about the rows: no other account has the name, and none the
-- address, unless it is the account's own.
module _ (env : Env) (f : Form) (uid : ℕ) where
  abbrev pub NameFree : Account → Type 0
  NameFree y = is_id uid y ≡ false → str_eq y.user.username f.u ≡ false

  abbrev pub AddressFree : Account → Type 0
  AddressFree y = is_id uid y ≡ false → y.normalized_email ≢ some (normalize_email env f.e)

  abbrev pub HasAddress : Account → Type 0
  HasAddress y = is_id uid y ≡ true → str_eq f.e y.email ≡ true

  abbrev pub Checked : List Account → Type 0
  Checked xs = AllApart xs × All NameFree xs × (All AddressFree xs ⊎ All HasAddress xs)

  -- A write that keeps what is checked, too.
  Checked-plain :
      (v : ℕ) (g : Account → Account) (xs : List Account)
      → ((c : Account) → (g c).user.id ≡ c.user.id)
      → ((c : Account) → (g c).user.username ≡ c.user.username)
      → ((c : Account) → (g c).normalized_email ≡ c.normalized_email)
      → ((c : Account) → (g c).email ≡ c.email)
      → Checked xs
      → Checked (update_where (is_id v) g xs)
  Checked-plain v g xs i n m e h = (
    AllApart-plain v g xs i n m h.0,
    All-update_where NameFree (is_id v) g xs (λ c _. rw (i c, n c) (λ k. k)) h.1,
    elim h.2 [
      | inl free ↦
          inl (All-update_where AddressFree (is_id v) g xs (λ c _. rw (i c, m c) (λ k. k)) free)
      | inr own ↦
          inr (All-update_where HasAddress (is_id v) g xs (λ c _. rw (i c, e c) (λ k. k)) own)
    ],
  )

  -- The name is the form's, or is left.
  simple_account-name :
      (c : Account)
      → ((simple_account env f c).user.username ≡ f.u)
        ⊎ ((simple_account env f c).user.username ≡ c.user.username)
  simple_account-name c = elim (go f.u) [
    | inl e ↦ inl (simple_account-username env f c ∙ e)
    | inr e ↦ inr (simple_account-username env f c ∙ e)
  ]
    where
      go :
          (s : String)
          → (default s c.user.username ≡ s) ⊎ (default s c.user.username ≡ c.user.username)
      go String.[] = inr refl
      go (String.◌∷◌ d s) = inl refl

  -- `simple` sets the address only where it changes.
  simple_account-address :
      (c : Account)
      → ((simple_account env f c).normalized_email ≡ c.normalized_email)
        ⊎ ((str_eq f.e c.email ≡ false)
            × ((simple_account env f c).normalized_email ≡ some (normalize_email env f.e)))
  simple_account-address c = elim (Bool-cases (str_eq f.e c.email)) [
    | inl e ↦ inl (ground (arith, e))
    | inr e ↦ elim (Bool-cases (is_empty f.e)) [
      | inl n ↦ inl (ground (arith, n))
      | inr n ↦ inr (e, ground (arith, e, n))
    ]
  ]

  simple-AllApart :
      (xs : List Account)
      → Checked xs
      → AllApart (update_where (is_id uid) (simple_account env f) xs)
  simple-AllApart xs h = elim h.2 [
    | inl free ↦
        AllApart-update_where uid (simple_account env f) (λ y. NameFree y × AddressFree y)
          (λ x y q r own other k.
            apart x y other r.0 k (λ n e. from_free x y other r.1 n (k.addresses n) e))
          xs
          (All-map₂ NameFree AddressFree (λ y. NameFree y × AddressFree y) xs (λ y p q. (p, q)) h.1
            free)
          h.0
    | inr settled ↦
        AllApart-update_where uid (simple_account env f) (λ y. NameFree y × HasAddress y)
          (λ x y q r own other k.
            apart x y other r.0 k (λ n e. from_own x y (q.1 own) n (k.addresses n) e))
          xs
          (All-map₂ NameFree HasAddress (λ y. NameFree y × HasAddress y) xs (λ y p q. (p, q)) h.1
            settled)
          h.0
  ]
    where
      apart :
          (x y : Account)
          → is_id uid y ≡ false
          → NameFree y
          → Apart x y
          → ((n : String)
              → (simple_account env f x).normalized_email ≡ some n
              → y.normalized_email ≢ some n)
          → Apart (simple_account env f x) y
      apart x y other free k address = record {
        ids = rw ((simple_account-keeps env f x).0) k.ids;
        names = elim (simple_account-name x) [
          | inl e ↦ rw e (str_eq-false_symm y.user.username f.u (free other))
          | inr e ↦ rw e k.names
        ];
        addresses = address;
      }

      from_free :
          (x y : Account)
          → is_id uid y ≡ false
          → AddressFree y
          → (n : String) → (x.normalized_email ≡ some n → y.normalized_email ≢ some n)
          → (simple_account env f x).normalized_email ≡ some n
          → y.normalized_email ≢ some n
      from_free x y other free n k e = elim (simple_account-address x) [
        | inl same ↦ k (sym same ∙ e)
        | inr (changed, new) ↦ subst (λ o. y.normalized_email ≢ o) (sym new ∙ e) (free other)
      ]

      from_own :
          (x y : Account)
          → str_eq f.e x.email ≡ true
          → (n : String) → (x.normalized_email ≡ some n → y.normalized_email ≢ some n)
          → (simple_account env f x).normalized_email ≡ some n
          → y.normalized_email ≢ some n
      from_own x y own n k e = elim (simple_account-address x) [
        | inl same ↦ k (sym same ∙ e)
        | inr (changed, new) ↦ absurd (true_ne_false (sym own ∙ changed))
      ]

  simple_account-email :
      (c : Account) → str_eq f.e c.email ≡ true → (simple_account env f c).email ≡ c.email
  simple_account-email c e = ground (arith, e)

  simple-Checked :
      (xs : List Account)
      → Checked xs
      → Checked (update_where (is_id uid) (simple_account env f) xs)
  simple-Checked xs h = (
    simple-AllApart xs h,
    All-update_where NameFree (is_id uid) (simple_account env f) xs
        (λ c own _ k. absurd (true_ne_false (sym own ∙ own_id c k))) h.1,
    elim h.2 [
      | inl free ↦ inl (
          All-update_where AddressFree (is_id uid) (simple_account env f) xs
            (λ c own _ k. absurd (true_ne_false (sym own ∙ own_id c k))) free)
      | inr settled ↦ inr (
          All-update_where HasAddress (is_id uid) (simple_account env f) xs
            (λ c own k _. rw (simple_account-email c (k own)) (k own)) settled)
    ],
  )
    where
      own_id : (c : Account) → is_id uid (simple_account env f c) ≡ false → is_id uid c ≡ false
      own_id c k = rw (sym ((simple_account-keeps env f c).0)) k

by_type_lem :
    (env : Env) (f : Form) (uid : ℕ) (o : Option ℕ) (xs : List Account)
    → Checked env f uid xs
    → Checked env f uid (update_where (is_id uid) (with_type o) xs)
by_type_lem env f uid none xs =
    Checked-plain env f uid uid (with_type none) xs (λ c. refl) (λ c. refl) (λ c. refl) (λ c. refl)
by_type_lem env f uid (some t) xs =
    Checked-plain env f uid uid (with_type (some t)) xs (λ c. refl) (λ c. refl) (λ c. refl)
      (λ c. refl)

pub Checked-IsKept :
    (env : Env) (f : Form) (requester : ℕ) (a : Account)
    → IsKept env f requester a (λ _. Checked env f a.user.id)
Checked-IsKept env f requester a =
    let plain = Checked-plain env f a.user.id in
    record {
      by_simple = λ _. simple-Checked env f a.user.id;
      by_language = λ _ xs. plain a.user.id _ xs (λ c. refl) (λ c. refl) (λ c. refl) (λ c. refl);
      by_timezone = λ _ xs. plain a.user.id _ xs (λ c. refl) (λ c. refl) (λ c. refl) (λ c. refl);
      by_type = λ _. by_type_lem env f a.user.id f.t;
      by_password = λ uid _ xs. plain uid _ xs (λ c. refl) (λ c. refl) (λ c. refl) (λ c. refl);
      by_login =
          λ uid _ xs. plain uid (logged_in env) xs (λ c. refl) (λ c. refl) (λ c. refl) (λ c. refl);
    }
