-- ===== src/Comaintainers/Changes.antt =====
-- Adding and removing co-maintainers, in aurweb/pkgbase/util.py.
use aurweb.Prelude.{
  head?, ◌&&◌, ℕ, ◌+◌, ◌≤◌, ◌<◌, ◌≡◌, ◌≢◌, refl, ap, ◌∙◌, subst, false, List, [], ◌∷◌, ◌++◌, ◌==◌,
  arith, All, order_by, order_by-Reorder, Reorder-symm, Distinct, Distinct-Reorder,
  Distinct-delete_where, String, if◌then◌else◌, holds, delete_where, order_by-delete_where,
  filter-delete_where, filter-delete_where_both, delete_where-none, order_by_snoc, filter-append,
  first_key, first_key-order_by-desc, ==_refl, Bool-cases, inl, inr, desc,
}
use aurweb.Models.{Db, PackageBase, PackageComaintainer}
use aurweb.Comaintainers.{
  of_base, same_row, by_priority, in_line, is_named, rotate_comaintainers, remove_comaintainer,
  remove_comaintainers, latest_priority, priority_of, add_comaintainer,
}
use aurweb.Comaintainers.Rotation.{number, uid_of, rotate_comaintainers-in_line}

-- Removing co-maintainers by their names leaves the others in their order, with the priorities
-- 1, 2, 3, ...; it needs that nobody is listed twice for the package base.
pub remove_comaintainers-in_line :
    (b : ℕ) (usernames : List String) (db : Db)
    → Distinct uid_of (of_base b db.comaintainers)
    → in_line b (remove_comaintainers b usernames db).comaintainers
      ≡ number 1
          (delete_where (λ c. is_named usernames db.users c.users_id) (in_line b db.comaintainers))
unfolding remove_comaintainers
remove_comaintainers-in_line b usernames db h =
    let named = λ (c : PackageComaintainer). is_named usernames db.users c.users_id in
    let left = delete_where (λ c. c.package_base_id == b && named c) db.comaintainers in
    let rows : of_base b left ≡ delete_where named (of_base b db.comaintainers) =
      filter-delete_where_both (λ c. c.package_base_id == b) named db.comaintainers in
    rotate_comaintainers-in_line b (record db { comaintainers = left })
      (rw rows (Distinct-delete_where uid_of named (of_base b db.comaintainers) h))
    ∙ ap (number 1) (
        ap (order_by by_priority) rows
        ∙ order_by-delete_where (λ c. c.priority) named (of_base b db.comaintainers))

-- Removing one co-maintainer leaves the others in their order. Their priorities are their places in
-- the line before the removal; it needs that nobody is listed twice for the package base.
pub remove_comaintainer-in_line :
    (c : PackageComaintainer) (db : Db)
    → Distinct uid_of (of_base c.package_base_id db.comaintainers)
    → in_line c.package_base_id (remove_comaintainer c db).1.comaintainers
      ≡ delete_where (same_row c) (number 1 (in_line c.package_base_id db.comaintainers))
unfolding remove_comaintainer
remove_comaintainer-in_line c db h =
    let b = c.package_base_id in
    let rows = (rotate_comaintainers b db).comaintainers in
    ap (order_by by_priority) (filter-delete_where (λ d. d.package_base_id == b) (same_row c) rows)
    ∙ order_by-delete_where (λ d. d.priority) (same_row c) (of_base b rows)
    ∙ ap (delete_where (same_row c)) (rotate_comaintainers-in_line b db h)

number-no_row :
    (c : PackageComaintainer) (i : ℕ) (cs : List PackageComaintainer)
    → All (λ d. c.users_id ≢ d.users_id) cs
    → All (λ d. same_row c d ≡ false) (number i cs)
number-no_row c i [] h = tt
number-no_row c i (d ∷ cs) h = (ground arith, number-no_row c (i + 1) cs h.1)

-- The first co-maintainer in line leaves, as when it becomes the maintainer: the others keep their
-- order, and their priorities begin at 2. It needs that nobody is listed twice for the package base.
pub remove_comaintainer-first :
    (c : PackageComaintainer) (rest : List PackageComaintainer) (db : Db)
    → Distinct uid_of (of_base c.package_base_id db.comaintainers)
    → in_line c.package_base_id db.comaintainers ≡ c ∷ rest
    → in_line c.package_base_id (remove_comaintainer c db).1.comaintainers ≡ number 2 rest
remove_comaintainer-first c rest db h e =
    let b = c.package_base_id in
    let distinct : Distinct uid_of (c ∷ rest) = subst (Distinct uid_of) e (
      Distinct-Reorder uid_of
        (Reorder-symm (order_by-Reorder by_priority (of_base b db.comaintainers))) h) in
    remove_comaintainer-in_line c db h
    ∙ ap (λ l. delete_where (same_row c) (number 1 l)) e
    ∙ rw (==_refl, ==_refl)
        (delete_where-none (same_row c) (number 2 rest) (number-no_row c 2 rest distinct.0))

priority_of-head? :
    (cs : List PackageComaintainer) → priority_of (head? cs) ≡ first_key (λ c. c.priority) cs
priority_of-head? [] = refl
priority_of-head? (c ∷ cs) = refl

All-lt-suc :
    (n : ℕ) (cs : List PackageComaintainer)
    → All (λ c. c.priority ≤ n) cs
    → All (λ c. c.priority < n + 1) cs
All-lt-suc n [] h = tt
All-lt-suc n (c ∷ cs) h = (omega arith, All-lt-suc n cs h.1)

latest_priority-All :
    (b : ℕ) (db : Db)
    → All (λ c. c.priority < latest_priority b db + 1) (of_base b db.comaintainers)
unfolding latest_priority
latest_priority-All b db =
    let rows = of_base b db.comaintainers in
    rw (priority_of-head? (order_by (desc (λ c. c.priority)) rows))
      (All-lt-suc _ rows (first_key-order_by-desc (λ c. c.priority) rows))

-- A new co-maintainer is last in line, with the priority after the greatest one; the maintainer of
-- the package base is not added.
pub add_comaintainer-in_line :
    (pkgbase : PackageBase) (uid : ℕ) (db : Db)
    → in_line pkgbase.id (add_comaintainer pkgbase uid db).1.comaintainers ≡ (
        if holds pkgbase.maintainer_uid uid
        then in_line pkgbase.id db.comaintainers
        else in_line pkgbase.id db.comaintainers
          ++ record {
            users_id = uid;
            package_base_id = pkgbase.id;
            priority = latest_priority pkgbase.id db + 1;
          }
            ∷ [])
unfolding add_comaintainer
add_comaintainer-in_line pkgbase uid db = elim (Bool-cases (holds pkgbase.maintainer_uid uid)) [
  | inl e ↦ rw e
  | inr e ↦
      let rows = of_base pkgbase.id db.comaintainers in
      rw (e, filter-append, ==_refl)
        (order_by_snoc (λ c. c.priority) _ rows (latest_priority-All pkgbase.id db))
]
