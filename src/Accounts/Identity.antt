-- ===== src/Accounts/Identity.antt =====
-- What tells accounts apart: the ID, the name and the normalized address.
use aurweb.Prelude.{
  String, ℕ, ◌==◌, true, false, some, List, [], ◌∷◌, update_where, Bool-cases, inl, inr, ◌≡◌, arith,
  if◌then◌else◌, All, ==_sound, sym, ◌≢◌, ◌∙◌, str_eq, str_eq-false_symm,
}
use aurweb.Accounts.{Account, is_id}

pub record Apart (x y : Account) : Type 0 where
  pub ids : (x.user.id == y.user.id) ≡ false
  pub names : str_eq x.user.username y.user.username ≡ false
  pub addresses : (n : String) → x.normalized_email ≡ some n → y.normalized_email ≢ some n

abbrev pub AllApart : List Account → Type 0
AllApart [] = Unit
AllApart (x ∷ xs) = All (Apart x) xs × AllApart xs

pub Apart-symm : {x y : Account} → Apart x y → Apart y x
Apart-symm {x} {y} h = record {
  ids = ground (arith, h.ids);
  names = str_eq-false_symm x.user.username y.user.username h.names;
  addresses = λ n e k. h.addresses n k e;
}

abbrev updated : ℕ → (Account → Account) → Account → Account
updated v g x = if is_id v x then g x else x

-- A write to the row of one ID, where the new row stays apart from the others.
module _ {κ} (v : ℕ) (g : Account → Account) (Q : Account → Type κ)
    (stays : (x y : Account)
      → Q x
      → Q y
      → is_id v x ≡ true
      → is_id v y ≡ false
      → Apart x y
      → Apart (g x) y) where
  updated-Apart : (x y : Account) → Q x → Q y → Apart x y → Apart (updated v g x) (updated v g y)
  updated-Apart x y q r h = elim (Bool-cases (is_id v x)) [
    | inl e ↦ elim (Bool-cases (is_id v y)) [
      | inl k ↦
          let same : x.user.id ≡ y.user.id =
            ==_sound x.user.id v e ∙ sym (==_sound y.user.id v k) in
          ground (arith, h.ids)
      | inr k ↦ rw (e, k) (stays x y q r e k h)
    ]
    | inr e ↦ elim (Bool-cases (is_id v y)) [
      | inl k ↦ rw (e, k) (Apart-symm (stays y x r q k e (Apart-symm h)))
      | inr k ↦ rw (e, k) h
    ]
  ]

  All-Apart-update_where :
      (x : Account) (xs : List Account)
      → Q x
      → All Q xs
      → All (Apart x) xs
      → All (Apart (updated v g x)) (update_where (is_id v) g xs)
  All-Apart-update_where x [] q qs h = tt
  All-Apart-update_where x (y ∷ ys) q qs h =
      (updated-Apart x y q qs.0 h.0, All-Apart-update_where x ys q qs.1 h.1)

  pub AllApart-update_where :
      (xs : List Account) → All Q xs → AllApart xs → AllApart (update_where (is_id v) g xs)
  AllApart-update_where [] qs h = tt
  AllApart-update_where (x ∷ xs) qs h =
      (All-Apart-update_where x xs qs.0 qs.1 h.0, AllApart-update_where xs qs.1 h.1)

All-trivial : (xs : List Account) → All (λ _. Unit {0}) xs
All-trivial [] = tt
All-trivial (x ∷ xs) = (tt, All-trivial xs)

-- A write that touches neither the ID, nor the name, nor the normalized address.
pub AllApart-plain :
    (v : ℕ) (g : Account → Account) (xs : List Account)
    → ((c : Account) → (g c).user.id ≡ c.user.id)
    → ((c : Account) → (g c).user.username ≡ c.user.username)
    → ((c : Account) → (g c).normalized_email ≡ c.normalized_email)
    → AllApart xs
    → AllApart (update_where (is_id v) g xs)
AllApart-plain v g xs i n m h =
    AllApart-update_where v g (λ _. Unit {0})
      (λ x y _ _ _ _ k. record {
        ids = rw (i x) k.ids;
        names = rw (n x) k.names;
        addresses = λ t. rw (m x) (k.addresses t);
      })
      xs (All-trivial xs) h
