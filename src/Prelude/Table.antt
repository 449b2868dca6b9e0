-- ===== src/Prelude/Table.antt =====
-- Statements on the rows of one table: UPDATE, DELETE and SELECT with a WHERE.
use Prim.Native.Nat.{suc, ◌≤◌, ◌+◌}
use mathlib.Core.Path.{◌≡◌, refl, sym, ap, subst}
use mathlib.Core.Option.{some}
use mathlib.Core.Bool.{Bool, true, false, not, ◌&&◌, ◌||◌}
use mathlib.Core.List.{List, [], ◌∷◌}
use native.Mathlib.Omega.{arith}
use mathlib.Core.Logic.{inl, inr}
use aurweb.Prelude.Tests.{if◌then◌else◌, Bool-cases, is_some, true_ne_false}
use aurweb.Prelude.Lists.{All, All-if, filter, any, count, length, find?, head?}

module _ {ℓ} {A : Type ℓ} where
  abbrev pub update_where : (A → Bool) → (A → A) → List A → List A
  update_where p f [] = []
  update_where p f (x ∷ xs) = (if p x then f x else x) ∷ update_where p f xs

  abbrev pub delete_where : (A → Bool) → List A → List A
  delete_where p [] = []
  delete_where p (x ∷ xs) = if p x then delete_where p xs else x ∷ delete_where p xs

  -- An update that the test `q` does not notice changes no count by `q`.
  pub count-update_where :
      (q p : A → Bool) (f : A → A) (xs : List A)
      → ((x : A) → q (f x) ≡ q x)
      → count q (update_where p f xs) ≡ count q xs
  count-update_where q p f [] h = refl
  count-update_where q p f (x ∷ xs) h = ground (arith, h x, count-update_where q p f xs h)

  pub length-update_where :
      (p : A → Bool) (f : A → A) (xs : List A) → length (update_where p f xs) ≡ length xs
  length-update_where p f [] = refl
  length-update_where p f (x ∷ xs) = ap suc (length-update_where p f xs)

  pub any-delete_where_self : (p : A → Bool) (xs : List A) → any p (delete_where p xs) ≡ false
  any-delete_where_self p [] = refl
  any-delete_where_self p (x ∷ xs) = ground (arith, any-delete_where_self p xs)

  pub count-delete_where_self : (p : A → Bool) (xs : List A) → count p (delete_where p xs) ≡ 0
  count-delete_where_self p [] = refl
  count-delete_where_self p (x ∷ xs) = ground (arith, count-delete_where_self p xs)

  pub All-update_where {κ} :
      (P : A → Type κ) (p : A → Bool) (f : A → A) (xs : List A)
      → ((x : A) → p x ≡ true → P x → P (f x))
      → All P xs
      → All P (update_where p f xs)
  All-update_where P p f [] keep h = tt
  All-update_where P p f (x ∷ xs) keep h = (go (p x) (keep x), All-update_where P p f xs keep h.1)
    where
      go : (b : Bool) → (b ≡ true → P x → P (f x)) → P (if b then f x else x)
      go true k = k refl h.0
      go false k = h.0

  pub All-delete_where {κ} :
      (P : A → Type κ) (p : A → Bool) (xs : List A) → All P xs → All P (delete_where p xs)
  All-delete_where P p [] h = tt
  All-delete_where P p (x ∷ xs) h =
      let rest = All-delete_where P p xs h.1 in
      All-if P (p x) (delete_where p xs) (x ∷ delete_where p xs) rest (h.0, rest)

  pub delete_where-none :
      (p : A → Bool) (xs : List A) → All (λ x. p x ≡ false) xs → delete_where p xs ≡ xs
  delete_where-none p [] h = refl
  delete_where-none p (x ∷ xs) h = ground (arith, delete_where-none p xs h.1)

  pub filter-delete_where :
      (q p : A → Bool) (xs : List A) → filter q (delete_where p xs) ≡ delete_where p (filter q xs)
  filter-delete_where q p [] = refl
  filter-delete_where q p (x ∷ xs) = ground (arith, filter-delete_where q p xs)

  -- Of the rows that `q` selects, a deletion by `q` and `p` takes those with `p`.
  pub filter-delete_where_both :
      (q p : A → Bool) (xs : List A)
      → filter q (delete_where (λ x. q x && p x) xs) ≡ delete_where p (filter q xs)
  filter-delete_where_both q p [] = refl
  filter-delete_where_both q p (x ∷ xs) = ground (arith, filter-delete_where_both q p xs)

  -- What `find?` returns is the first of what `filter` keeps.
  pub find?-filter : (p : A → Bool) (xs : List A) → find? p xs ≡ head? (filter p xs)
  find?-filter p [] = refl
  find?-filter p (x ∷ xs) = ground (arith, find?-filter p xs)

  pub filter-update_where :
      (q p : A → Bool) (f : A → A) (xs : List A)
      → ((x : A) → q (f x) ≡ q x)
      → filter q (update_where p f xs) ≡ update_where p f (filter q xs)
  filter-update_where q p f [] h = refl
  filter-update_where q p f (x ∷ xs) h =
      ground (arith, h x, filter-update_where q p f xs h, Bool-cases (q x), Bool-cases (p x))

  pub All-delete_where_self :
      (p : A → Bool) (xs : List A) → All (λ x. p x ≡ false) (delete_where p xs)
  All-delete_where_self p [] = tt
  All-delete_where_self p (x ∷ xs) = elim (Bool-cases (p x)) [
    | inl e ↦ rw e (All-delete_where_self p xs)
    | inr e ↦ rw e (e, All-delete_where_self p xs)
  ]

  -- What is found is a row, and satisfies the test.
  pub find?-All {κ} :
      (P : A → Type κ) (p : A → Bool) (x : A) (xs : List A)
      → find? p xs ≡ some x
      → All P xs
      → P x × (p x ≡ true)
  find?-All P p x [] h a = cc
  find?-All P p x (y ∷ xs) h a = elim (Bool-cases (p y)) [
    | inl e ↦
        let same : y ≡ x = ground (arith, h, e) in
        (subst P same a.0, subst (λ z. p z ≡ true) same e)
    | inr e ↦ find?-All P p x xs (ground (arith, h, e)) a.1
  ]

  pub count-any-false : (p : A → Bool) (xs : List A) → any p xs ≡ false → count p xs ≡ 0
  count-any-false p [] h = refl
  count-any-false p (x ∷ xs) h = elim (Bool-cases (p x)) [
    | inl e ↦ ground (arith, h, e)
    | inr e ↦ rw e (count-any-false p xs (ground (arith, h, e)))
  ]

  pub count-delete_where_le :
      (q p : A → Bool) (xs : List A) → count q (delete_where p xs) ≤ count q xs
  count-delete_where_le q p [] = omega arith
  count-delete_where_le q p (x ∷ xs) = ground (arith, count-delete_where_le q p xs)

  -- Two deletions are one.
  pub delete_where_twice :
      (p q : A → Bool) (xs : List A)
      → (delete_where q (delete_where p xs) ≡ delete_where (λ x. p x || q x) xs)
        × (count p xs + count q (delete_where p xs) ≡ count (λ x. p x || q x) xs)
  delete_where_twice p q [] = (refl, refl)
  delete_where_twice p q (x ∷ xs) =
      let rest = delete_where_twice p q xs in (ground (arith, rest.0), ground (arith, rest.1))

  -- A deletion of other rows.
  pub find?-delete_where :
      (q p : A → Bool) (xs : List A)
      → All (λ x. q x ≡ true → p x ≡ false) xs
      → find? q (delete_where p xs) ≡ find? q xs
  find?-delete_where q p [] h = refl
  find?-delete_where q p (x ∷ xs) h = elim (Bool-cases (q x)) [
    | inl e ↦ ground (arith, h.0 e, e)
    | inr e ↦ ground (arith, e, find?-delete_where q p xs h.1)
  ]

  -- What is found after an update that the test does not notice, is what was found, updated.
  pub find?-update_where :
      (q p : A → Bool) (f : A → A) (y : A) (xs : List A)
      → ((x : A) → q (f x) ≡ q x)
      → find? q (update_where p f xs) ≡ some y
      → (x : A) × (find? q xs ≡ some x) × ((if p x then f x else x) ≡ y)
  find?-update_where q p f y [] keep h = cc
  find?-update_where q p f y (x ∷ xs) keep h = elim (Bool-cases (q x)) [
    | inl e ↦ (x, rw e refl, ground (arith, h, e, keep x))
    | inr e ↦ rw e (find?-update_where q p f y xs keep (ground (arith, h, e, keep x)))
  ]

  -- What is found satisfies the test.
  pub find?-holds : (p : A → Bool) (x : A) (xs : List A) → find? p xs ≡ some x → p x ≡ true
  find?-holds p x [] h = cc
  find?-holds p x (y ∷ ys) h = elim (Bool-cases (p y)) [
    | inl e ↦ let same : y ≡ x = ground (arith, h, e) in subst (λ z. p z ≡ true) same e
    | inr e ↦ find?-holds p x ys (ground (arith, h, e))
  ]

  pub delete_where-filter :
      (p : A → Bool) (xs : List A) → delete_where p xs ≡ filter (λ x. not (p x)) xs
  delete_where-filter p [] = refl
  delete_where-filter p (x ∷ xs) = elim (Bool-cases (p x)) [
    | inl e ↦ rw e (delete_where-filter p xs)
    | inr e ↦ rw e (ap (λ l. x ∷ l) (delete_where-filter p xs))
  ]

  pub All-find? {κ} :
      (P : A → Type κ) (p : A → Bool) (x : A) (xs : List A) → All P xs → find? p xs ≡ some x → P x
  All-find? P p x [] all h = elim (true_ne_false (sym (ap is_some h))) [ ]
  All-find? P p x (y ∷ ys) all h = elim (Bool-cases (p y)) [
    | inl e ↦ let same : y ≡ x = ground (arith, h, e) in subst P same all.0
    | inr e ↦ All-find? P p x ys all.1 (ground (arith, h, e))
  ]

  -- The row that was found, after a write to those that the test selects.
  pub find?-update_where_self :
      (p : A → Bool) (f : A → A) (x : A) (xs : List A)
      → ((y : A) → p (f y) ≡ p y)
      → find? p xs ≡ some x
      → find? p (update_where p f xs) ≡ some (f x)
  find?-update_where_self p f x [] keep h = cc
  find?-update_where_self p f x (y ∷ ys) keep h = elim (Bool-cases (p y)) [
    | inl e ↦ let same : y ≡ x = ground (arith, h, e) in ground (arith, e, keep y, ap f same)
    | inr e ↦
        let rest = find?-update_where_self p f x ys keep (ground (arith, h, e)) in
        ground (arith, e, rest)
  ]
