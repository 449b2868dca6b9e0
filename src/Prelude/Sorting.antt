-- ===== src/Prelude/Sorting.antt =====
-- ORDER BY: a stable insertion sort, and its uniqueness on distinct keys.
use Prim.Native.Nat.{ℕ, suc, ◌≤◌, ◌<◌}
use mathlib.Core.Path.{◌≡◌, refl, sym, ap, ◌∙◌}
use mathlib.Core.Logic.{◌≢◌, inl, inr}
use mathlib.Core.Bool.{Bool, true, false, ◌||◌}
use mathlib.Core.List.{List, [], ◌∷◌, ◌++◌, map}
use native.Mathlib.Omega.{arith}
use aurweb.Prelude.Tests.{leb, if◌then◌else◌, Bool-cases, leb→le, leb-false→le}
use aurweb.Prelude.Table.{update_where, delete_where, All-delete_where}
use aurweb.Prelude.Lists.{All, any, length}

-- The same rows in another order.
pub data Reorder {ℓ} {A : Type ℓ} : List A → List A → Type ℓ where
  nil : Reorder [] []
  cons : {xs ys : List A} (x : A) → Reorder xs ys → Reorder (x ∷ xs) (x ∷ ys)
  swap : (x y : A) (l : List A) → Reorder (x ∷ y ∷ l) (y ∷ x ∷ l)
  trans : {xs ys zs : List A} → Reorder xs ys → Reorder ys zs → Reorder xs zs

module _ {ℓ} {A : Type ℓ} where
  pub Reorder-refl : (xs : List A) → Reorder xs xs
  Reorder-refl [] = nil
  Reorder-refl (x ∷ xs) = cons x (Reorder-refl xs)

  pub Reorder-symm : {xs ys : List A} → Reorder xs ys → Reorder ys xs
  Reorder-symm nil = nil
  Reorder-symm (cons x r) = cons x (Reorder-symm r)
  Reorder-symm (swap x y l) = swap y x l
  Reorder-symm (trans r s) = trans (Reorder-symm s) (Reorder-symm r)

  pub All-Reorder {κ} : (P : A → Type κ) {xs ys : List A} → Reorder xs ys → All P xs → All P ys
  All-Reorder P nil h = h
  All-Reorder P (cons x r) h = (h.0, All-Reorder P r h.1)
  All-Reorder P (swap x y l) h = (h.1.0, (h.0, h.1.1))
  All-Reorder P (trans r s) h = All-Reorder P s (All-Reorder P r h)

  pub length-Reorder : {xs ys : List A} → Reorder xs ys → length xs ≡ length ys
  length-Reorder nil = refl
  length-Reorder (cons x r) = ap suc (length-Reorder r)
  length-Reorder (swap x y l) = refl
  length-Reorder (trans r s) = length-Reorder r ∙ length-Reorder s

pub any-Reorder {ℓ} :
    {A : Type ℓ} (p : A → Bool) {xs ys : List A} → Reorder xs ys → any p xs ≡ any p ys
any-Reorder p nil = refl
any-Reorder p (cons x r) = ap (λ b. p x || b) (any-Reorder p r)
any-Reorder p (swap x y l) = ground arith
any-Reorder p (trans r s) = any-Reorder p r ∙ any-Reorder p s

pub Reorder-map {ℓ κ} :
    {A : Type ℓ} {B : Type κ} (f : A → B) {xs ys : List A}
    → Reorder xs ys
    → Reorder (map f xs) (map f ys)
Reorder-map f nil = nil
Reorder-map f (cons x r) = cons (f x) (Reorder-map f r)
Reorder-map f (swap x y l) = swap (f x) (f y) (map f l)
Reorder-map f (trans r s) = trans (Reorder-map f r) (Reorder-map f s)

module _ {ℓ} {A : Type ℓ} (p : A → Bool) (f : A → A) where
  pub Reorder-update_where :
      {xs ys : List A} → Reorder xs ys → Reorder (update_where p f xs) (update_where p f ys)
  Reorder-update_where nil = nil
  Reorder-update_where (cons x r) = cons (if p x then f x else x) (Reorder-update_where r)
  Reorder-update_where (swap x y l) =
      swap (if p x then f x else x) (if p y then f y else y) (update_where p f l)
  Reorder-update_where (trans r s) = trans (Reorder-update_where r) (Reorder-update_where s)

module _ {ℓ} {A : Type ℓ} (le : A → A → Bool) where
  insert_by : A → List A → List A
  insert_by x [] = x ∷ []
  insert_by x (y ∷ ys) = if le x y then x ∷ y ∷ ys else y ∷ insert_by x ys

  unfoldable pub order_by : List A → List A
  unfolding insert_by
  order_by [] = []
  order_by (x ∷ xs) = insert_by x (order_by xs)

  insert_if :
      (x y : A) (ys : List A) (b : Bool)
      → Reorder (insert_by x ys) (x ∷ ys)
      → Reorder (if b then x ∷ y ∷ ys else y ∷ insert_by x ys) (x ∷ y ∷ ys)
  insert_if x y ys true r = Reorder-refl (x ∷ y ∷ ys)
  insert_if x y ys false r = trans (cons y r) (swap y x ys)

  insert_by-Reorder : (x : A) (ys : List A) → Reorder (insert_by x ys) (x ∷ ys)
  unfolding insert_by
  insert_by-Reorder x [] = cons x nil
  insert_by-Reorder x (y ∷ ys) = insert_if x y ys (le x y) (insert_by-Reorder x ys)

  pub order_by-Reorder : (xs : List A) → Reorder (order_by xs) xs
  unfolding order_by
  order_by-Reorder [] = nil
  order_by-Reorder (x ∷ xs) =
      trans (insert_by-Reorder x (order_by xs)) (cons x (order_by-Reorder xs))

module _ {ℓ} {A : Type ℓ} (key : A → ℕ) where
  -- Ascending by the key.
  abbrev pub asc : A → A → Bool
  asc x y = leb (key x) (key y)

  abbrev pub desc : A → A → Bool
  desc x y = leb (key y) (key x)

  -- No two items have one key.
  abbrev pub Distinct : List A → Type 0
  Distinct [] = Unit
  Distinct (x ∷ xs) = All (λ y. key x ≢ key y) xs × Distinct xs

  pub Distinct-Reorder : {xs ys : List A} → Reorder xs ys → Distinct xs → Distinct ys
  Distinct-Reorder nil h = h
  Distinct-Reorder (cons x r) h = (All-Reorder (λ y. key x ≢ key y) r h.0, Distinct-Reorder r h.1)
  Distinct-Reorder (swap x y l) h = (((λ e. h.0.0 (sym e)), h.1.0), (h.0.1, h.1.1))
  Distinct-Reorder (trans r s) h = Distinct-Reorder s (Distinct-Reorder r h)

  insert_by_comm :
      (x y : A) (l : List A)
      → key x ≢ key y
      → insert_by asc x (insert_by asc y l) ≡ insert_by asc y (insert_by asc x l)
  unfolding insert_by
  insert_by_comm x y [] h = ground arith
  insert_by_comm x y (z ∷ l) h = ground (arith, insert_by_comm x y l h)

  -- With distinct keys the result does not depend on the order of the rows.
  pub order_by-Reorder_eq :
      {xs ys : List A} → Reorder xs ys → Distinct xs → order_by asc xs ≡ order_by asc ys
  unfolding order_by
  order_by-Reorder_eq nil h = refl
  order_by-Reorder_eq (cons x r) h = ap (insert_by asc x) (order_by-Reorder_eq r h.1)
  order_by-Reorder_eq (swap x y l) h = insert_by_comm x y (order_by asc l) h.0.0
  order_by-Reorder_eq (trans r s) h =
      order_by-Reorder_eq r h ∙ order_by-Reorder_eq s (Distinct-Reorder r h)

  -- In ascending order, all keys at least `n`.
  abbrev pub AscendsFrom : ℕ → List A → Type 0
  AscendsFrom n [] = Unit
  AscendsFrom n (x ∷ xs) = (n ≤ key x) × AscendsFrom (suc (key x)) xs

  pub AscendsFrom-le : (n m : ℕ) (xs : List A) → m ≤ n → AscendsFrom n xs → All (λ y. m ≤ key y) xs
  AscendsFrom-le n m [] le h = tt
  AscendsFrom-le n m (x ∷ xs) le h =
      (omega arith, AscendsFrom-le (suc (key x)) m xs (omega arith) h.1)

  insert_below :
      (x : A) (ys : List A) → All (λ y. suc (key x) ≤ key y) ys → insert_by asc x ys ≡ x ∷ ys
  unfolding insert_by
  insert_below x [] h = refl
  insert_below x (y ∷ ys) h = ground arith

  pub order_by-AscendsFrom : (n : ℕ) (xs : List A) → AscendsFrom n xs → order_by asc xs ≡ xs
  unfolding order_by
  order_by-AscendsFrom n [] h = refl
  order_by-AscendsFrom n (x ∷ xs) h =
      ap (insert_by asc x) (order_by-AscendsFrom (suc (key x)) xs h.1)
      ∙ insert_below x xs (AscendsFrom-le (suc (key x)) (suc (key x)) xs (omega arith) h.1)

  All-lt→ne : (n : ℕ) (xs : List A) → All (λ y. suc n ≤ key y) xs → All (λ y. n ≢ key y) xs
  All-lt→ne n [] h = tt
  All-lt→ne n (x ∷ xs) h = (omega arith, All-lt→ne n xs h.1)

  AscendsFrom-Distinct : (n : ℕ) (xs : List A) → AscendsFrom n xs → Distinct xs
  AscendsFrom-Distinct n [] h = tt
  AscendsFrom-Distinct n (x ∷ xs) h = (
    All-lt→ne (key x) xs (AscendsFrom-le (suc (key x)) (suc (key x)) xs (omega arith) h.1),
    AscendsFrom-Distinct (suc (key x)) xs h.1,
  )

  -- Rows in strictly ascending order are what ORDER BY makes of them in any order.
  pub order_by_unique :
      (n : ℕ) {xs ys : List A} → Reorder xs ys → AscendsFrom n ys → order_by asc xs ≡ ys
  order_by_unique n {xs} {ys} r h =
      order_by-Reorder_eq r (Distinct-Reorder (Reorder-symm r) (AscendsFrom-Distinct n ys h))
      ∙ order_by-AscendsFrom n ys h

  insert_by-snoc :
      (x y : A) (l : List A)
      → key y < key x
      → insert_by asc y (l ++ x ∷ []) ≡ insert_by asc y l ++ x ∷ []
  unfolding insert_by
  insert_by-snoc x y [] h = ground arith
  insert_by-snoc x y (z ∷ l) h = ground (arith, insert_by-snoc x y l h)

  -- A row with the greatest key comes last.
  pub order_by_snoc :
      (x : A) (xs : List A)
      → All (λ y. key y < key x) xs
      → order_by asc (xs ++ x ∷ []) ≡ order_by asc xs ++ x ∷ []
  unfolding order_by
  order_by_snoc x [] h = refl
  order_by_snoc x (y ∷ xs) h =
      ap (insert_by asc y) (order_by_snoc x xs h.1) ∙ insert_by-snoc x y (order_by asc xs) h.0

  abbrev pub IsSorted : List A → Type 0
  IsSorted [] = Unit
  IsSorted (x ∷ xs) = All (λ y. key x ≤ key y) xs × IsSorted xs

  All-le : (n m : ℕ) (xs : List A) → n ≤ m → All (λ y. m ≤ key y) xs → All (λ y. n ≤ key y) xs
  All-le n m [] le h = tt
  All-le n m (x ∷ xs) le h = (omega arith, All-le n m xs le h.1)

  insert_by-IsSorted : (x : A) (ys : List A) → IsSorted ys → IsSorted (insert_by asc x ys)
  unfolding insert_by
  insert_by-IsSorted x [] h = (tt, tt)
  insert_by-IsSorted x (y ∷ ys) h = elim (Bool-cases (leb (key x) (key y))) [
    | inl le ↦ rw le ((leb→le (key x) (key y) le, All-le (key x) (key y) ys (leb→le _ _ le) h.0), h)
    | inr gt ↦ rw gt (
      All-Reorder (λ z. key y ≤ key z) (Reorder-symm (insert_by-Reorder asc x ys))
          (leb-false→le (key x) (key y) gt, h.0),
      insert_by-IsSorted x ys h.1,
    )
  ]

  pub order_by-IsSorted : (xs : List A) → IsSorted (order_by asc xs)
  unfolding order_by
  order_by-IsSorted [] = tt
  order_by-IsSorted (x ∷ xs) = insert_by-IsSorted x (order_by asc xs) (order_by-IsSorted xs)

  insert_first : (x : A) (ys : List A) → All (λ y. key x ≤ key y) ys → insert_by asc x ys ≡ x ∷ ys
  unfolding insert_by
  insert_first x [] h = refl
  insert_first x (y ∷ ys) h = ground arith

  module _ (p : A → Bool) where
    delete_where-insert_by :
        (x : A) (ys : List A)
        → IsSorted ys
        → delete_where p (insert_by asc x ys)
          ≡ (if p x then delete_where p ys else insert_by asc x (delete_where p ys))
    unfolding insert_by
    delete_where-insert_by x [] h = ground arith
    delete_where-insert_by x (y ∷ ys) h = elim (Bool-cases (leb (key x) (key y))) [
      | inl le ↦ ground (
        arith,
        insert_first x (delete_where p ys) (
            All-delete_where (λ z. key x ≤ key z) p ys
              (All-le (key x) (key y) ys (leb→le _ _ le) h.0)),
      )
      | inr gt ↦ ground (arith, delete_where-insert_by x ys h.1)
    ]

    -- Deleting rows leaves the order of the others alone.
    pub order_by-delete_where :
        (xs : List A) → order_by asc (delete_where p xs) ≡ delete_where p (order_by asc xs)
    unfolding order_by
    order_by-delete_where [] = refl
    order_by-delete_where (x ∷ xs) = ground (
      arith,
      delete_where-insert_by x (order_by asc xs) (order_by-IsSorted xs),
      order_by-delete_where xs,
    )

  pub Distinct-delete_where :
      (p : A → Bool) (xs : List A) → Distinct xs → Distinct (delete_where p xs)
  Distinct-delete_where p [] h = tt
  Distinct-delete_where p (x ∷ xs) h =
      let rest = Distinct-delete_where p xs h.1 in
      elim (Bool-cases (p x)) [
        | inl e ↦ rw e rest
        | inr e ↦ rw e (All-delete_where (λ y. key x ≢ key y) p xs h.0, rest)
      ]

  -- The key of the first row, 0 if there is none.
  abbrev pub first_key : List A → ℕ
  first_key [] = 0
  first_key (x ∷ xs) = key x

  first_key-insert_by :
      (x : A) (ys : List A)
      → (key x ≤ first_key (insert_by desc x ys)) × (first_key ys ≤ first_key (insert_by desc x ys))
  unfolding insert_by
  first_key-insert_by x [] = omega arith
  first_key-insert_by x (y ∷ ys) = ground arith

  All-key-le : (n m : ℕ) (xs : List A) → n ≤ m → All (λ y. key y ≤ n) xs → All (λ y. key y ≤ m) xs
  All-key-le n m [] le h = tt
  All-key-le n m (x ∷ xs) le h = (omega arith, All-key-le n m xs le h.1)

  -- The first row in descending order has the greatest key.
  pub first_key-order_by-desc : (xs : List A) → All (λ y. key y ≤ first_key (order_by desc xs)) xs
  unfolding order_by
  first_key-order_by-desc [] = tt
  first_key-order_by-desc (x ∷ xs) =
      let (fst, snd) = first_key-insert_by x (order_by desc xs) in
      (fst, All-key-le _ _ xs snd (first_key-order_by-desc xs))
