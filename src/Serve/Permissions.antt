-- ===== src/Serve/Permissions.antt =====
-- Who may change the maintainer and the co-maintainers over SSH, in aurweb/git/serve.py.
use aurweb.Prelude.{ℕ, ◌≡◌, refl, false, String, List, inl, inr}
use aurweb.Models.{Db}
use aurweb.Serve.{Exception, raised, permission_denied, Session, pkgbase_has_full_access}
use aurweb.Serve.Steps.{require_pkgbase-IsReading}
use aurweb.Serve.Ownership.{pkgbase_set_comaintainers, pkgbase_disown}

-- A user that is not the maintainer, in a session that is not privileged, sets no co-maintainers:
-- the command raises and changes nothing.
pub pkgbase_set_comaintainers-denied :
    (set_order : List ℕ → List ℕ) (s : Session) (pkgbase : String) (userlist : List String)
    (db : Db)
    → s.privileged ≡ false
    → pkgbase_has_full_access pkgbase s.user db ≡ false
    → (e : Exception) × (pkgbase_set_comaintainers set_order s pkgbase userlist db ≡ (raised e, db))
unfolding pkgbase_set_comaintainers
pkgbase_set_comaintainers-denied set_order s pkgbase userlist db plain other =
    elim (require_pkgbase-IsReading pkgbase db) [
      | inr (x, e) ↦ (x, rw e refl)
      | inl (b, e) ↦ (permission_denied s.user, rw (e, plain, other) refl)
    ]

-- A user that is not the maintainer, in a session that is not privileged, disowns nothing over SSH:
-- the command raises and changes nothing.
pub pkgbase_disown-denied :
    (set_order : List ℕ → List ℕ) (s : Session) (pkgbase : String) (db : Db)
    → s.privileged ≡ false
    → pkgbase_has_full_access pkgbase s.user db ≡ false
    → (e : Exception) × (pkgbase_disown set_order s pkgbase db ≡ (raised e, db))
unfolding pkgbase_disown
pkgbase_disown-denied set_order s pkgbase db plain other =
    elim (require_pkgbase-IsReading pkgbase db) [
      | inr (x, e) ↦ (x, rw e refl)
      | inl (b, e) ↦ (permission_denied s.user, rw (e, plain, other) refl)
    ]
