-- ===== src/Hook/Names.antt =====
-- To whom the names of packages belong.
use aurweb.Prelude.{
  ℕ, true, false, List, [], ◌∷◌, ◌++◌, ◌≡◌, sym, ◌∙◌, All, All-append, All-delete_where,
  All-delete_where_self, ◌==◌, delete_where,
}
use aurweb.Models.{Package}
use aurweb.Prelude.{All-map, All-map₂}

-- A name belongs to the packages of one base.
abbrev pub SameOwner : Package → Package → Type 0
SameOwner p q = p.name ≡ q.name → p.package_base_id ≡ q.package_base_id

abbrev pub NamesOwned : List Package → Type 0
NamesOwned ps = All (λ p. All (SameOwner p) ps) ps

pub All-true : {A : Type 0} (P : A → Type 0) (xs : List A) → ((x : A) → P x) → All P xs
All-true P [] h = tt
All-true P (x ∷ xs) h = (h x, All-true P xs h)

All-swap :
    {A B : Type 0} (R : A → B → Type 0) (xs : List A) (ys : List B)
    → All (λ x. All (R x) ys) xs
    → All (λ y. All (λ x. R x y) xs) ys
All-swap R [] ys h = All-true (λ y. All (λ x. R x y) []) ys (λ y. tt)
All-swap R (x ∷ xs) ys h =
    All-map₂ (R x) (λ y. All (λ x. R x y) xs) (λ y. R x y × All (λ x. R x y) xs) ys
      (λ y a b. (a, b)) h.0 (All-swap R xs ys h.1)

-- The packages of a base are replaced by rows whose names no other base has.
pub NamesOwned-replace :
    (b : ℕ) (old rows : List Package)
    → NamesOwned old
    → All (λ r. r.package_base_id ≡ b) rows
    → All (λ r. All (λ q. q.name ≡ r.name → (q.package_base_id == b) ≡ true) old) rows
    → NamesOwned (delete_where (λ p. p.package_base_id == b) old ++ rows)
NamesOwned-replace b old rows owned of_b free =
    let gone = λ (p : Package). p.package_base_id == b in
    let left = delete_where gone old in
    let kept = All-delete_where_self gone old in
    let left_left =
      All-delete_where (λ p. All (SameOwner p) left) gone old
        (All-map (λ p. All (SameOwner p) old) (λ p. All (SameOwner p) left) old
          (λ p h. All-delete_where (SameOwner p) gone old h) owned) in
    let rows_left =
      All-map (λ r. All (λ q. q.name ≡ r.name → gone q ≡ true) old)
        (λ r. All (λ q. q.name ≡ r.name → false ≡ true) left) rows
        (λ r h.
          All-map₂ (λ q. q.name ≡ r.name → gone q ≡ true) (λ q. gone q ≡ false)
            (λ q. q.name ≡ r.name → false ≡ true) left (λ q a k n. sym k ∙ a n)
            (All-delete_where (λ q. q.name ≡ r.name → gone q ≡ true) gone old h) kept)
        free in
    let left_rows = All-swap (λ r q. q.name ≡ r.name → false ≡ true) rows left rows_left in
    let rows_rows =
      All-map (λ r. r.package_base_id ≡ b) (λ r. All (SameOwner r) rows) rows
        (λ r e. All-map (λ q. q.package_base_id ≡ b) (SameOwner r) rows (λ q f n. e ∙ sym f) of_b)
        of_b in
    All-append (λ p. All (SameOwner p) (left ++ rows)) left rows
      (All-map₂ (λ p. All (SameOwner p) left) (λ p. All (λ r. p.name ≡ r.name → false ≡ true) rows)
        (λ p. All (SameOwner p) (left ++ rows)) left
        (λ p a c. All-append (SameOwner p) left rows a (
          All-map (λ r. p.name ≡ r.name → false ≡ true) (SameOwner p) rows
            (λ r no_way n. clash (no_way n)) c))
        left_left left_rows)
      (All-map₂ (λ r. All (λ q. q.name ≡ r.name → false ≡ true) left) (λ r. All (SameOwner r) rows)
        (λ p. All (SameOwner p) (left ++ rows)) rows
        (λ r c a.
          All-append (SameOwner r) left rows
            (All-map (λ q. q.name ≡ r.name → false ≡ true) (SameOwner r) left
              (λ q no_way n. clash (no_way (sym n))) c)
            a)
        rows_left rows_rows)
  where
    clash : {m n : ℕ} → false ≡ true → m ≡ n
    clash h = cc
