-- ===== src/Comaintainers/Rotation.antt =====
-- `rotate_comaintainers` of aurweb/pkgbase/util.py.
use aurweb.Prelude.{
  Bool-cases, inl, inr, ==_sound, AscendsFrom, order_by_unique, add-one, subst, ℕ, ◌+◌, ◌≡◌, ◌≢◌,
  refl, ap, ◌∙◌, false, List, [], ◌∷◌, ◌==◌, arith, All, Reorder, Reorder-symm,
  Reorder-update_where, All-Reorder, order_by-Reorder, Distinct, Distinct-Reorder, AscendsFrom,
}
use aurweb.Models.{Db, PackageComaintainer}
use aurweb.Comaintainers.{
  of_base, same_row, by_priority, in_line, set_priority, rotate_from, rotate_comaintainers,
}

-- The same co-maintainers with the priorities i, i + 1, ...
abbrev pub number : ℕ → List PackageComaintainer → List PackageComaintainer
number i [] = []
number i (c ∷ cs) = record c { priority = i } ∷ number (i + 1) cs

abbrev pub uid_of : PackageComaintainer → ℕ
uid_of c = c.users_id

of_base-set_priority :
    (b : ℕ) (c : PackageComaintainer) (i : ℕ) (cs : List PackageComaintainer)
    → of_base b (set_priority c i cs) ≡ set_priority c i (of_base b cs)
of_base-set_priority b c i [] = refl
of_base-set_priority b c i (d ∷ cs) = ground (arith, of_base-set_priority b c i cs)

of_base-rotate_from :
    (b i : ℕ) (l cs : List PackageComaintainer)
    → of_base b (rotate_from i l cs) ≡ rotate_from i l (of_base b cs)
unfolding rotate_from
of_base-rotate_from b i [] cs = refl
of_base-rotate_from b i (c ∷ l) cs =
    of_base-rotate_from b (i + 1) l (set_priority c i cs)
    ∙ ap (rotate_from (i + 1) l) (of_base-set_priority b c i cs)

Reorder-rotate_from :
    (i : ℕ) (l : List PackageComaintainer) {xs ys : List PackageComaintainer}
    → Reorder xs ys
    → Reorder (rotate_from i l xs) (rotate_from i l ys)
unfolding rotate_from
Reorder-rotate_from i [] r = r
Reorder-rotate_from i (c ∷ l) r =
    Reorder-rotate_from (i + 1) l
      (Reorder-update_where (same_row c) (λ d. record d { priority = i }) r)

abbrev Others : PackageComaintainer → List PackageComaintainer → Type 0
Others c = All (λ d. c.users_id ≢ d.users_id)

set_priority-Others :
    (c : PackageComaintainer) (i : ℕ) (xs : List PackageComaintainer)
    → Others c xs
    → set_priority c i xs ≡ xs
set_priority-Others c i [] h = refl
set_priority-Others c i (d ∷ xs) h = ground (arith, set_priority-Others c i xs h.1)

rotate_from-Others :
    (d : PackageComaintainer) (i : ℕ) (l xs : List PackageComaintainer)
    → Others d l
    → rotate_from i l (d ∷ xs) ≡ d ∷ rotate_from i l xs
unfolding rotate_from
rotate_from-Others d i [] xs h = refl
rotate_from-Others d i (c ∷ l) xs h =
    ground (arith, rotate_from-Others d (i + 1) l (set_priority c i xs) h.1)

rotate_from-number :
    (i : ℕ) (l : List PackageComaintainer) → Distinct uid_of l → rotate_from i l l ≡ number i l
unfolding rotate_from
rotate_from-number i [] h = refl
rotate_from-number i (c ∷ l) h = ground (
  arith,
  set_priority-Others c i l h.0,
  rotate_from-Others (record c { priority = i }) (i + 1) l l h.0,
  rotate_from-number (i + 1) l h.1,
)

number-AscendsFrom :
    (i : ℕ) (l : List PackageComaintainer) → AscendsFrom (λ c. c.priority) i (number i l)
number-AscendsFrom i [] = tt
number-AscendsFrom i (c ∷ l) = (omega arith, rw (← add-one i) (number-AscendsFrom (i + 1) l))

-- What one rotation makes of the rows of the package base.
of_base-rotate_comaintainers :
    (b : ℕ) (db : Db)
    → Distinct uid_of (of_base b db.comaintainers)
    → Reorder
        (of_base b (rotate_comaintainers b db).comaintainers)
        (number 1 (in_line b db.comaintainers))
unfolding rotate_comaintainers
of_base-rotate_comaintainers b db h =
    let rows = of_base b db.comaintainers in
    let l = in_line b db.comaintainers in
    let sorted : Reorder l rows = order_by-Reorder by_priority rows in
    rw (of_base-rotate_from b 1 l db.comaintainers) (
      subst (λ ys. Reorder (rotate_from 1 l rows) ys)
        (rotate_from-number 1 l (Distinct-Reorder uid_of (Reorder-symm sorted) h))
        (Reorder-rotate_from 1 l (Reorder-symm sorted)))

-- Rotation leaves the co-maintainers of a package base in their order, and gives them the priorities
-- 1, 2, 3, ...; it needs that nobody is listed twice for the package base.
pub rotate_comaintainers-in_line :
    (b : ℕ) (db : Db)
    → Distinct uid_of (of_base b db.comaintainers)
    → in_line b (rotate_comaintainers b db).comaintainers ≡ number 1 (in_line b db.comaintainers)
rotate_comaintainers-in_line b db h =
    order_by_unique (λ c. c.priority) 1 (of_base-rotate_comaintainers b db h)
      (number-AscendsFrom 1 (in_line b db.comaintainers))

set_priority-of_other :
    (b : ℕ) (c : PackageComaintainer) (i : ℕ) (cs : List PackageComaintainer)
    → (c.package_base_id == b) ≡ false
    → of_base b (set_priority c i cs) ≡ of_base b cs
set_priority-of_other b c i [] h = refl
set_priority-of_other b c i (d ∷ cs) h = ground (arith, set_priority-of_other b c i cs h)

rotate_from-of_other :
    (b i : ℕ) (l cs : List PackageComaintainer)
    → All (λ c. (c.package_base_id == b) ≡ false) l
    → of_base b (rotate_from i l cs) ≡ of_base b cs
unfolding rotate_from
rotate_from-of_other b i [] cs h = refl
rotate_from-of_other b i (c ∷ l) cs h =
    rotate_from-of_other b (i + 1) l (set_priority c i cs) h.1 ∙ set_priority-of_other b c i cs h.0

of_base-not :
    (a b : ℕ) (cs : List PackageComaintainer)
    → (a == b) ≡ false
    → All (λ c. (c.package_base_id == b) ≡ false) (of_base a cs)
of_base-not a b [] h = tt
of_base-not a b (c ∷ cs) h =
    let rest = of_base-not a b cs h in
    elim (Bool-cases (c.package_base_id == a)) [
      | inl e ↦ rw e (rw (==_sound _ _ e) h, rest)
      | inr e ↦ rw e rest
    ]

-- Rotation changes no row of another package base.
pub rotate_comaintainers-of_other :
    (a b : ℕ) (db : Db)
    → (a == b) ≡ false
    → of_base b (rotate_comaintainers a db).comaintainers ≡ of_base b db.comaintainers
unfolding rotate_comaintainers
rotate_comaintainers-of_other a b db h =
    rotate_from-of_other b 1 (in_line a db.comaintainers) db.comaintainers (
      All-Reorder (λ c. (c.package_base_id == b) ≡ false)
        (Reorder-symm (order_by-Reorder by_priority (of_base a db.comaintainers)))
        (of_base-not a b db.comaintainers h))
