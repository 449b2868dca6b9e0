-- ===== src/Serve/Steps.antt =====
-- The lookups with which the commands of aurweb/git/serve.py begin: they return or raise, and leave
-- the database alone.
use aurweb.Prelude.{◌≡◌, refl, String, ◌==◌, Bool-cases, Option-cases, ◌⊎◌, inl, inr}
use aurweb.Models.{Db, base_of_name, user_of_name}
use aurweb.Serve.{
  Exception, returned, raised, M, require_pkgbase, require_user, type_error, invalid_package_base,
  invalid_user,
}

abbrev pub IsReading : {A : Type 0} → M A → Db → Type 0
IsReading {A} m db =
    ((a : A) × (m db ≡ (returned a, db))) ⊎ ((e : Exception) × (m db ≡ (raised e, db)))

pub require_pkgbase-IsReading :
    (pkgbase : String) (db : Db) → IsReading (require_pkgbase pkgbase) db
unfolding require_pkgbase
require_pkgbase-IsReading pkgbase db = elim (Option-cases (base_of_name pkgbase db)) [
  | inl e ↦ inr (invalid_package_base pkgbase, rw e refl)
  | inr (p, e) ↦ elim (Bool-cases (p.id == 0)) [
    | inl z ↦ inr (invalid_package_base pkgbase, rw (e, z) refl)
    | inr z ↦ inl (p.id, rw (e, z) refl)
  ]
]

pub require_user-IsReading : (user : String) (db : Db) → IsReading (require_user user) db
unfolding require_user
require_user-IsReading user db = elim (Option-cases (user_of_name user db)) [
  | inl e ↦ inr (type_error, rw e refl)
  | inr (u, e) ↦ elim (Bool-cases (u.id == 0)) [
    | inl z ↦ inr (invalid_user user, rw (e, z) refl)
    | inr z ↦ inl (u.id, rw (e, z) refl)
  ]
]
