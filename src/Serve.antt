-- ===== src/Serve.antt =====
-- aurweb/git/serve.py: the commands of the SSH interface. A command runs in a small monad: it reads
-- and writes the database, and it returns or raises. Each statement is committed where the source
-- commits it; what is not committed when a command raises is undone. The texts that `warn` writes are
-- left out. A name is compared as a whole text.
pub mod Commands
pub mod Ownership
pub mod Dispatch
pub mod Steps
pub mod Voting
pub mod Agreement
pub mod Access
pub mod Pushing
pub mod Permissions
pub mod Comaintaining
pub mod Replacing
mod Tests
use aurweb.Prelude.{
  ℕ, Bool, true, false, not, ◌&&◌, ◌||◌, String, Option, none, some, List, [], ◌∷◌, map, ◌==◌,
  if◌then◌else◌, any, filter, holds, is_some, str_eq, update_where, f_string,
}
use aurweb.Models.{Db, User, PackageBase, base_of_name, user_of_name}

-- The exceptions of aurweb/exceptions.py. `type_error` is the subscript of a row that is `None`,
-- `index_error` one past the end of a list, `integrity_error` a row whose key is there, and
-- `system_exit` the end of the process by `die`.
pub data Exception : Type 0 where
  maintenance banned email_not_verified type_error index_error integrity_error : Exception
  permission_denied orphan_package_base broken_update_hook : String → Exception
  invalid_user invalid_package_base invalid_repository_name package_base_exists : String → Exception
  invalid_reason invalid_comment already_voted not_voted : String → Exception
  invalid_arguments system_exit : String → Exception

pub data Outcome {ℓ} (A : Type ℓ) : Type ℓ where
  returned : A → Outcome A
  raised : Exception → Outcome A

abbrev pub M : Type 0 → Type 0
M A = Db → Outcome A × Db

abbrev pub continue : {A B : Type 0} → Outcome A × Db → (A → M B) → Outcome B × Db
continue (returned a, db) f = f a db
continue (raised e, db) f = (raised e, db)

infixl 5 ◌>>=◌ ◌>>◌
abbrev pub ◌>>=◌ : {A B : Type 0} → M A → (A → M B) → M B
◌>>=◌ m f db = continue (m db) f

abbrev pub ◌>>◌ : {B : Type 0} → M (Unit {0}) → M B → M B
m >> k = m >>= λ _. k

abbrev pub pure : {A : Type 0} → A → M A
pure a db = (returned a, db)

abbrev pub throw : {A : Type 0} → Exception → M A
throw e db = (raised e, db)

abbrev pub read : {A : Type 0} → (Db → A) → M A
read f db = (returned (f db), db)

abbrev pub check : Bool → Exception → M (Unit {0})
check true e db = (returned tt, db)
check false e db = (raised e, db)

abbrev pub execute : (Db → Db) → M (Unit {0})
execute f db = (returned tt, f db)

-- What a command reads beside the database.
pub record Session : Type 0 where
  pub user : String
  pub privileged : Bool
  pub remote_addr : Option String
  pub now : ℕ

abbrev pub id_of : Option PackageBase → Option ℕ
id_of none = none
id_of (some p) = some p.id

abbrev pub pkgbase_from_name : String → Db → Option ℕ
pkgbase_from_name pkgbase db = id_of (base_of_name pkgbase db)

abbrev pub pkgbase_exists : String → Db → Bool
pkgbase_exists pkgbase db = is_some (pkgbase_from_name pkgbase db)

abbrev nonzero_id : String → Option ℕ → M ℕ
nonzero_id pkgbase none = throw (invalid_package_base pkgbase)
nonzero_id pkgbase (some b) = if b == 0 then throw (invalid_package_base pkgbase) else pure b

-- `if not pkgbase_id: raise`, with which each command begins.
unfoldable pub require_pkgbase : String → M ℕ
require_pkgbase pkgbase db = nonzero_id pkgbase (pkgbase_from_name pkgbase db) db

abbrev pub first_id : Option User → M ℕ
first_id none = throw type_error
first_id (some u) = pure u.id

-- `SELECT ID FROM Users WHERE Username = ?` and `fetchone()[0]`.
abbrev pub select_user_id : String → M ℕ
select_user_id name db = first_id (user_of_name name db) db

abbrev nonzero_user : String → ℕ → M ℕ
nonzero_user user u = if u == 0 then throw (invalid_user user) else pure u

-- The same, with the exception on the ID 0.
unfoldable pub require_user : String → M ℕ
require_user user = do u ← select_user_id user; nonzero_user user u

unfoldable pub user_email_verified : String → Db → Bool
user_email_verified user db = elim (user_of_name user db) [
  | none ↦ false
  | some u ↦ u.email_verified
]

-- Whether a column is neither NULL nor 0.
abbrev is_true : Option ℕ → Bool
is_true none = false
is_true (some n) = not (n == 0)

abbrev repo_line : PackageBase → String
repo_line p = f_string ((if is_true p.packager_uid then " " else "*") ∷ p.name ∷ [])

-- The lines that it prints.
unfoldable pub list_repos : String → M (List String)
list_repos user = do
  u ← require_user user
  read (λ db. map repo_line (filter (λ p. holds p.maintainer_uid u) db.package_bases))

unfoldable pub validate_pkgbase : (String → Bool) → String → String → M (Unit {0})
validate_pkgbase repo_regex pkgbase user = do
  check (repo_regex pkgbase) (invalid_repository_name pkgbase)
  exists ← read (pkgbase_exists pkgbase)
  check (not exists) (package_base_exists pkgbase)
  u ← require_user user
  pure tt

-- The joins with Users and with PackageComaintainers.
unfoldable pub pkgbase_has_write_access : String → String → Db → Bool
pkgbase_has_write_access pkgbase user db =
    any
      (λ p.
        str_eq p.name pkgbase
        && any
            (λ u.
              (holds p.maintainer_uid u.id
                || any (λ c. c.package_base_id == p.id && c.users_id == u.id) db.comaintainers)
              && str_eq u.username user)
            db.users)
      db.package_bases

unfoldable pub pkgbase_is_orphan : String → Db → Bool
pkgbase_is_orphan pkgbase db =
    any (λ p. str_eq p.name pkgbase && not (is_some p.maintainer_uid)) db.package_bases

unfoldable pub pkgbase_has_full_access : String → String → Db → Bool
pkgbase_has_full_access pkgbase user db =
    any
      (λ p.
        str_eq p.name pkgbase
        && any (λ u. holds p.maintainer_uid u.id && str_eq u.username user) db.users)
      db.package_bases

unfoldable pub log_ssh_login : Session → Db → Db
log_ssh_login s db = record db {
  users =
      update_where (λ u. str_eq u.username s.user)
        (λ u. record u { last_ssh_login = s.now; last_ssh_login_ip_address = s.remote_addr })
        db.users;
}

abbrev bans_address : Option String → List String → Bool
bans_address none bans = false
bans_address (some a) bans = any (λ b. str_eq b a) bans

unfoldable pub bans_match : Option String → Db → Bool
bans_match remote_addr db = bans_address remote_addr db.bans
