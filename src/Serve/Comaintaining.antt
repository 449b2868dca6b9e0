-- ===== src/Serve/Comaintaining.antt =====
-- The co-maintainers after `set-comaintainers` over SSH: `pkgbase_set_comaintainers` of
-- aurweb/git/serve.py.
use aurweb.Prelude.{
  false, refl, ◌∙◌, ℕ, ◌+◌, ◌≡◌, refl, ap, not, ◌&&◌, ◌||◌, List, [], ◌∷◌, ◌++◌, ◌==◌, any,
  contains, update_where, delete_where, arith, Bool-cases, inl, inr, ==_sound,
}
use aurweb.Models.{
  Db, PackageComaintainer, send, comaintainer_add_notification, comaintainer_remove_notification,
}
use aurweb.Comaintainers.{of_base}
use aurweb.Serve.Ownership.{row_of, difference, write_from, delete_each, replace_comaintainers}

any-updated :
    (b u v i : ℕ) (cs : List PackageComaintainer)
    → any (row_of b u) (update_where (row_of b v) (λ c. record c { priority = i }) cs)
      ≡ any (row_of b u) cs
any-updated b u v i [] = refl
any-updated b u v i (c ∷ cs) = ground (arith, any-updated b u v i cs)

any-inserted :
    (b u v i : ℕ) (cs : List PackageComaintainer)
    → any (row_of b u) (cs ++ record { users_id = v; package_base_id = b; priority = i } ∷ [])
      ≡ (any (row_of b u) cs || v == u)
any-inserted b u v i [] = ground arith
any-inserted b u v i (c ∷ cs) = ground (arith, any-inserted b u v i cs)

any-deleted :
    (b u v : ℕ) (cs : List PackageComaintainer)
    → any (row_of b u) (delete_where (row_of b v) cs) ≡ (any (row_of b u) cs && not (v == u))
any-deleted b u v [] = refl
any-deleted b u v (c ∷ cs) = ground (arith, any-deleted b u v cs)

contains-difference :
    (us vs : List ℕ) (u : ℕ)
    → contains (difference us vs) u ≡ (contains us u && not (contains vs u))
contains-difference [] vs u = refl
contains-difference (v ∷ us) vs u = elim (Bool-cases (v == u)) [
  | inl e ↦ ground (arith, ==_sound v u e, contains-difference us vs u)
  | inr e ↦ ground (arith, e, contains-difference us vs u)
]

any-write_from :
    (b u : ℕ) (old : List ℕ) (i : ℕ) (us : List ℕ) (db : Db)
    → any (row_of b u) (write_from b old i us db).comaintainers
      ≡ (any (row_of b u) db.comaintainers || (contains us u && not (contains old u)))
unfolding write_from
any-write_from b u old i [] db = ground arith
any-write_from b u old i (v ∷ us) db = elim (Bool-cases (contains old v)) [
  | inl e ↦
      let updated = record db {
        comaintainers = update_where (row_of b v) (λ c. record c { priority = i }) db.comaintainers;
      } in
      let step = any-write_from b u old (i + 1) us updated in
      elim (Bool-cases (v == u)) [
        | inl f ↦ ground (arith, e, f, step, any-updated b u v i db.comaintainers, ==_sound v u f)
        | inr f ↦ ground (arith, e, f, step, any-updated b u v i db.comaintainers)
      ]
  | inr e ↦
      let inserted = send (comaintainer_add_notification v b ∷ []) (record db {
        comaintainers =
            db.comaintainers ++ record { users_id = v; package_base_id = b; priority = i } ∷ [];
      }) in
      let step = any-write_from b u old (i + 1) us inserted in
      elim (Bool-cases (v == u)) [
        | inl f ↦ ground (
          arith,
          e,
          f,
          step,
          any-inserted b u v i db.comaintainers,
          ap (contains old) (==_sound v u f),
        )
        | inr f ↦ ground (arith, e, f, step, any-inserted b u v i db.comaintainers)
      ]
]

any-delete_each :
    (b u : ℕ) (us : List ℕ) (db : Db)
    → any (row_of b u) (delete_each b us db).comaintainers
      ≡ (any (row_of b u) db.comaintainers && not (contains us u))
unfolding delete_each
any-delete_each b u [] db = ground arith
any-delete_each b u (v ∷ us) db =
    let deleted =
      send (comaintainer_remove_notification v b ∷ [])
        (record db { comaintainers = delete_where (row_of b v) db.comaintainers }) in
    ground (arith, any-delete_each b u us deleted, any-deleted b u v db.comaintainers)

-- The users with a row for the package base are exactly the new ones, if the old ones were those
-- with a row, and whatever the order in which the sets are read.
pub replace_comaintainers-any :
    (set_order : List ℕ → List ℕ) (b u : ℕ) (uids_old uids_new : List ℕ) (db : Db)
    → ((xs : List ℕ) → contains (set_order xs) u ≡ contains xs u)
    → any (row_of b u) db.comaintainers ≡ contains uids_old u
    → any (row_of b u) (replace_comaintainers set_order b uids_old uids_new db).comaintainers
      ≡ contains uids_new u
unfolding replace_comaintainers
replace_comaintainers-any set_order b u uids_old uids_new db order rows =
    let written = write_from b uids_old 1 (set_order uids_new) db in
    ground (
      arith,
      any-delete_each b u (set_order (difference uids_old uids_new)) written,
      any-write_from b u uids_old 1 (set_order uids_new) db,
      order uids_new,
      order (difference uids_old uids_new),
      contains-difference uids_old uids_new u,
      rows,
    )

module _ (a b : ℕ) (other : (b == a) ≡ false) where
  of_base-updated :
      (u i : ℕ) (cs : List PackageComaintainer)
      → of_base a (update_where (row_of b u) (λ c. record c { priority = i }) cs) ≡ of_base a cs
  of_base-updated u i [] = refl
  of_base-updated u i (c ∷ cs) = elim (Bool-cases (c.package_base_id == b)) [
    | inl e ↦ ground (arith, e, other, ==_sound c.package_base_id b e, of_base-updated u i cs)
    | inr e ↦ ground (arith, e, of_base-updated u i cs)
  ]

  of_base-inserted :
      (u i : ℕ) (cs : List PackageComaintainer)
      → of_base a (cs ++ record { users_id = u; package_base_id = b; priority = i } ∷ [])
        ≡ of_base a cs
  of_base-inserted u i [] = ground (arith, other)
  of_base-inserted u i (c ∷ cs) = ground (arith, of_base-inserted u i cs)

  of_base-deleted :
      (u : ℕ) (cs : List PackageComaintainer)
      → of_base a (delete_where (row_of b u) cs) ≡ of_base a cs
  of_base-deleted u [] = refl
  of_base-deleted u (c ∷ cs) = elim (Bool-cases (c.package_base_id == b)) [
    | inl e ↦ ground (arith, e, other, ==_sound c.package_base_id b e, of_base-deleted u cs)
    | inr e ↦ ground (arith, e, of_base-deleted u cs)
  ]

  of_base-write_from :
      (old : List ℕ) (i : ℕ) (us : List ℕ) (db : Db)
      → of_base a (write_from b old i us db).comaintainers ≡ of_base a db.comaintainers
  unfolding write_from
  of_base-write_from old i [] db = refl
  of_base-write_from old i (v ∷ us) db = elim (Bool-cases (contains old v)) [
    | inl e ↦
        let updated = record db {
          comaintainers =
              update_where (row_of b v) (λ c. record c { priority = i }) db.comaintainers;
        } in
        rw (write_from, e)
          (of_base-write_from old (i + 1) us updated ∙ of_base-updated v i db.comaintainers)
    | inr e ↦
        let inserted = send (comaintainer_add_notification v b ∷ []) (record db {
          comaintainers =
              db.comaintainers ++ record { users_id = v; package_base_id = b; priority = i } ∷ [];
        }) in
        rw (write_from, e)
          (of_base-write_from old (i + 1) us inserted ∙ of_base-inserted v i db.comaintainers)
  ]

  of_base-delete_each :
      (us : List ℕ) (db : Db)
      → of_base a (delete_each b us db).comaintainers ≡ of_base a db.comaintainers
  unfolding delete_each
  of_base-delete_each [] db = refl
  of_base-delete_each (v ∷ us) db =
      let deleted =
        send (comaintainer_remove_notification v b ∷ [])
          (record db { comaintainers = delete_where (row_of b v) db.comaintainers }) in
      of_base-delete_each us deleted ∙ of_base-deleted v db.comaintainers

-- Setting the co-maintainers of a package base changes no row of another one.
pub replace_comaintainers-of_other :
    (set_order : List ℕ → List ℕ) (a b : ℕ) (uids_old uids_new : List ℕ) (db : Db)
    → (b == a) ≡ false
    → of_base a (replace_comaintainers set_order b uids_old uids_new db).comaintainers
      ≡ of_base a db.comaintainers
unfolding replace_comaintainers
replace_comaintainers-of_other set_order a b uids_old uids_new db other =
    of_base-delete_each a b other (set_order (difference uids_old uids_new))
      (write_from b uids_old 1 (set_order uids_new) db)
    ∙ of_base-write_from a b other uids_old 1 (set_order uids_new) db
