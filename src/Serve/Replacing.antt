-- ===== src/Serve/Replacing.antt =====
-- The whole command `set-comaintainers` of aurweb/git/serve.py, `pkgbase_set_comaintainers`: from the
-- names that it is given to the rows that it leaves.
use aurweb.Prelude.{
  ℕ, ◌≡◌, refl, sym, ◌∙◌, ap, Bool, true, false, ◌&&◌, ◌||◌, String, some, List, [], ◌∷◌, ◌++◌,
  ◌==◌, any, filter, contains, All, arith, Bool-cases, inl, inr, order_by-Reorder, any-Reorder,
  find?, find?-holds, All-find?, is_some, is_some-found, str_eq, ==_sound, ==_refl, eq_iff, ap₂,
  subst, Option-cases,
}
use aurweb.Models.{Db, User, PackageComaintainer, user_of_name, base_of_name}
use aurweb.Comaintainers.{of_base, in_line, by_priority}
use aurweb.Serve.{Session, returned, require_pkgbase, pkgbase_has_full_access, pkgbase_from_name}
use aurweb.Serve.Ownership.{
  names_of, joined, pkgbase_get_comaintainers, select_user_ids, row_of, pkgbase_set_comaintainers,
}
use aurweb.Serve.Comaintaining.{replace_comaintainers-any}

require_pkgbase-found :
    (pkgbase : String) (b : ℕ) (db : Db)
    → require_pkgbase pkgbase db ≡ (returned b, db)
    → pkgbase_from_name pkgbase db ≡ some b
unfolding require_pkgbase
require_pkgbase-found pkgbase b db h = elim (Option-cases (base_of_name pkgbase db)) [
  | inl e ↦ cc
  | inr (p, e) ↦ ground (arith, h, e)
]

module _ (db : Db) where
  -- The row is the one that its name finds and the one that its ID finds, and the ID is not 0.
  abbrev pub IsOwn : User → Type 0
  IsOwn w =
      (user_of_name w.username db ≡ some w)
      × (find? (λ v. v.id == w.id) db.users ≡ some w)
      × ((w.id == 0) ≡ false)

  -- The user of the row is there.
  abbrev pub HasUser : PackageComaintainer → Type 0
  HasUser c = any (λ w. w.id == c.users_id) db.users ≡ true

  select_user_ids-found :
      (user n : String) (w : User) (names : List String) (us : List ℕ)
      → IsOwn w
      → user_of_name n db ≡ some w
      → select_user_ids user names db ≡ (returned us, db)
      → select_user_ids user (n ∷ names) db ≡ (returned (w.id ∷ us), db)
  unfolding select_user_ids
  select_user_ids-found user n w names us own e h = rw (e, own.2, h) refl

  -- The user that the name n finds has the ID of w exactly when n is the name of w.
  same_user :
      (v w : User) (n : String)
      → IsOwn v
      → IsOwn w
      → user_of_name n db ≡ some v
      → (v.id == w.id) ≡ str_eq w.username n
  same_user v w n own_v own_w found = elim (Bool-cases (v.id == w.id)) [
    | inl e ↦
        let same : find? (λ x. x.id == v.id) db.users ≡ find? (λ x. x.id == w.id) db.users =
          ap (λ (k : ℕ). find? (λ x. x.id == k) db.users) (==_sound v.id w.id e) in
        let is : v ≡ w = ground (arith, own_v.1, own_w.1, same) in
        e
        ∙ sym (
            subst (λ z. str_eq z.username n ≡ true) is
              (find?-holds (λ u. str_eq u.username n) v db.users found))
    | inr e ↦ elim (Bool-cases (str_eq w.username n)) [
      | inr d ↦ e ∙ sym d
      | inl d ↦
          let same : user_of_name w.username db ≡ user_of_name n db =
            ap (λ (t : String). user_of_name t db) ((eq_iff w.username n).0 d) in
          let is : v ≡ w = ground (arith, own_w.0, same, found) in
          let refuted : (v.id == w.id) ≡ true =
            subst (λ (z : User). (v.id == z.id) ≡ true) is (==_refl v.id) in
          refuted ∙ sym d
    ]
  ]

  -- The IDs of the names, if each name is one of a user.
  select_user_ids-contains :
      (user : String) (w : User) (names : List String)
      → All IsOwn db.users
      → IsOwn w
      → All (λ n. is_some (user_of_name n db) ≡ true) names
      → (us : List ℕ) × (select_user_ids user names db ≡ (returned us, db))
        × (contains us w.id ≡ any (str_eq w.username) names)
  unfolding select_user_ids
  select_user_ids-contains user w [] own own_w are = ([], refl, refl)
  select_user_ids-contains user w (n ∷ names) own own_w are =
      let rest = select_user_ids-contains user w names own own_w are.1 in
      let (v, e) = is_some-found (user_of_name n db) are.0 in
      let own_v = All-find? IsOwn (λ u. str_eq u.username n) v db.users own e in
      (
        v.id ∷ rest.0,
        select_user_ids-found user n v names rest.0 own_v e rest.1,
        ap₂ (λ (a b : Bool). a || b) (same_user v w n own_v own_w e) rest.2,
      )

  -- The names of the users with the ID k.
  select_user_ids-named :
      (user : String) (k u : ℕ) (ws : List User) (names : List String) (us : List ℕ)
      → All IsOwn ws
      → select_user_ids user names db ≡ (returned us, db)
      → (vs : List ℕ) × (select_user_ids user (names_of (filter (λ w. w.id == k) ws) ++ names) db
          ≡ (returned vs, db))
        × (contains vs u ≡ ((k == u && any (λ w. w.id == k) ws) || contains us u))
  select_user_ids-named user k u [] names us own h = (us, h, ground arith)
  select_user_ids-named user k u (w ∷ ws) names us own h =
      let rest = select_user_ids-named user k u ws names us own.1 h in
      elim (Bool-cases (w.id == k)) [
        | inr e ↦ rw e (rest.0, rest.1, ground (arith, e, rest.2))
        | inl e ↦ rw e (
          w.id ∷ rest.0,
          select_user_ids-found user w.username w (names_of (filter (λ v. v.id == k) ws) ++ names)
              rest.0 own.0 own.0.0 rest.1,
          ground (arith, e, rest.2),
        )
      ]

  select_user_ids-joined :
      (user : String) (u : ℕ) (cs : List PackageComaintainer)
      → All IsOwn db.users
      → (vs : List ℕ) × (select_user_ids user (joined db.users cs) db ≡ (returned vs, db))
        × (contains vs u ≡ any (λ c. c.users_id == u && any (λ w. w.id == c.users_id) db.users) cs)
  unfolding select_user_ids
  select_user_ids-joined user u [] own = ([], refl, refl)
  select_user_ids-joined user u (c ∷ cs) own =
      let rest = select_user_ids-joined user u cs own in
      let all =
        select_user_ids-named user c.users_id u db.users (joined db.users cs) rest.0 own rest.1 in
      (all.0, all.1, ground (arith, all.2, rest.2))

  any-of_base :
      (b u : ℕ) (cs : List PackageComaintainer)
      → All HasUser cs
      → any (λ c. c.users_id == u && any (λ w. w.id == c.users_id) db.users) (of_base b cs)
        ≡ any (row_of b u) cs
  any-of_base b u [] has = refl
  any-of_base b u (c ∷ cs) has = ground (arith, has.0, any-of_base b u cs has.1)

-- The order in which a set is read keeps its elements.
abbrev pub IsOrder : (List ℕ → List ℕ) → Type 0
IsOrder set_order = (u : ℕ) (xs : List ℕ) → contains (set_order xs) u ≡ contains xs u

-- If each user is found by the name and by an ID that is not 0, and each co-maintainer is a user, the
-- command returns for one with full access or with privileges who gives names of users; the users
-- with a row for the package base are then exactly the ones named, whatever the order in which the
-- sets are read.
pub pkgbase_set_comaintainers-named :
    (set_order : List ℕ → List ℕ) (s : Session) (pkgbase : String) (names : List String) (b : ℕ)
    (w : User) (db : Db)
    → IsOrder set_order
    → All (IsOwn db) db.users
    → All (HasUser db) db.comaintainers
    → user_of_name w.username db ≡ some w
    → require_pkgbase pkgbase db ≡ (returned b, db)
    → (s.privileged || pkgbase_has_full_access pkgbase s.user db) ≡ true
    → All (λ n. is_some (user_of_name n db) ≡ true) names
    → ((pkgbase_set_comaintainers set_order s pkgbase names db).0 ≡ returned tt)
      × (any
            (row_of b w.id)
            (pkgbase_set_comaintainers set_order s pkgbase names db).1.comaintainers
          ≡ any (str_eq w.username) names)
unfolding pkgbase_set_comaintainers pkgbase_get_comaintainers require_pkgbase
pkgbase_set_comaintainers-named set_order s pkgbase names b w db order own has is_w base may are =
    let own_w = All-find? (IsOwn db) (λ u. str_eq u.username w.username) w db.users own is_w in
    let found = require_pkgbase-found pkgbase b db base in
    let old = select_user_ids-joined db s.user w.id (in_line b db.comaintainers) own in
    let uids = select_user_ids-contains db s.user w names own own_w are in
    let rows : any (row_of b w.id) db.comaintainers ≡ contains old.0 w.id = sym (
      old.2
      ∙ any-Reorder (λ c. c.users_id == w.id && any (λ v. v.id == c.users_id) db.users)
          (order_by-Reorder by_priority (of_base b db.comaintainers))
      ∙ any-of_base db b w.id db.comaintainers has) in
    rw (base, may, found, old.1, uids.1)
      (refl, replace_comaintainers-any set_order b w.id old.0 uids.0 db (order w.id) rows ∙ uids.2)
