-- ===== src/Hook/Trees.antt =====
-- The loop of `main` over the new commits: what the tree of each may contain. Whether a checkout of a
-- commit passes `pkgctl license check` is an argument; its two options are set.
use aurweb.Prelude.{
  ℕ, Bool, true, false, not, ◌&&◌, ◌||◌, String, Option, none, some, List, [], ◌∷◌, leb, str_eq,
}
use aurweb.Hook.{
  Commit, TreeEntry, blob, tree, entries_of, entry_name, entry_named, entry_at, in_tree, is_in,
  ends_with, Check, passed, refused, require, check_each, ◌>>◌, missing_pkgbuild,
  has_subdirectories, blob_too_large, keys_not_pgp, not_asc, not_only_files, license_check_failed,
  license_check_timeout, pkgctl_not_found, type_error,
}

-- How `subprocess.run` of the license check ends.
pub data LicenseCheck : Type 0 where
  compliant executable_missing not_compliant timed_out : LicenseCheck

pub record Limits : Type 0 where
  pub max_blob_size : ℕ
  pub license_check : Commit → LicenseCheck

abbrev pub is_tree : TreeEntry → Bool
is_tree (tree name es) = true
is_tree _ = false

abbrev pub is_blob : TreeEntry → Bool
is_blob (blob name size oid) = true
is_blob _ = false

abbrev pub fits : ℕ → TreeEntry → Bool
fits limit (blob name size oid) = leb size limit
fits limit _ = true

abbrev pub validate_blob_size : Limits → Commit → TreeEntry → Check (Unit {0})
validate_blob_size limits commit e =
    require (fits limits.max_blob_size e) (blob_too_large commit.id)

abbrev pub subdirectories : List String
subdirectories = "keys" ∷ "LICENSES" ∷ []

abbrev pub may_stand_in_root : TreeEntry → Bool
may_stand_in_root e = not (is_tree e) || is_in (entry_name e) subdirectories

abbrev pub validate_root_entry : Limits → Commit → TreeEntry → Check (Unit {0})
validate_root_entry limits commit e =
    require (may_stand_in_root e) (has_subdirectories commit.id)
    >> validate_blob_size limits commit e

-- `for e in tree[name]:` where the entry is there: a file or a submodule cannot be iterated.
abbrev pub iterate : (TreeEntry → Check (Unit {0})) → TreeEntry → Check (Unit {0})
iterate f (tree name es) = check_each f (entries_of es)
iterate f _ = refused type_error

-- `if path in tree: for e in tree[path]:`
abbrev pub iterate_if_there : (TreeEntry → Check (Unit {0})) → Option TreeEntry → Check (Unit {0})
iterate_if_there f none = passed tt
iterate_if_there f (some e) = iterate f e

abbrev pub is_pgp : TreeEntry → Bool
is_pgp e = is_tree e && str_eq (entry_name e) "pgp"

abbrev pub is_asc : TreeEntry → Bool
is_asc e = is_blob e && ends_with (entry_name e) ".asc"

abbrev pub validate_pgp_key : Limits → Commit → TreeEntry → Check (Unit {0})
validate_pgp_key limits commit e =
    require (is_asc e) (not_asc commit.id) >> validate_blob_size limits commit e

abbrev pub validate_key_dir : Commit → TreeEntry → Check (Unit {0})
validate_key_dir commit e = require (is_pgp e) (keys_not_pgp commit.id)

unfoldable pub validate_keys : Limits → Commit → Check (Unit {0})
validate_keys limits commit =
    iterate_if_there (validate_key_dir commit) (entry_named "keys" commit.tree)
    >> iterate_if_there (validate_pgp_key limits commit)
        (entry_at ("keys" ∷ "pgp" ∷ []) commit.tree)

abbrev pub license_result : Commit → LicenseCheck → Check (Unit {0})
license_result commit compliant = passed tt
license_result commit executable_missing = refused pkgctl_not_found
license_result commit not_compliant = refused (license_check_failed commit.id)
license_result commit timed_out = refused (license_check_timeout commit.id)

abbrev pub validate_license_file : Commit → TreeEntry → Check (Unit {0})
validate_license_file commit e = require (is_blob e) (not_only_files commit.id)

abbrev pub validate_license_dir : Limits → Commit → Option TreeEntry → Check (Unit {0})
validate_license_dir limits commit none = passed tt
validate_license_dir limits commit (some e) =
    iterate (validate_license_file commit) e >> license_result commit (limits.license_check commit)

unfoldable pub validate_commit : Limits → Commit → Check (Unit {0})
unfolding validate_keys
validate_commit limits commit =
    require (in_tree "PKGBUILD" commit.tree) (missing_pkgbuild commit.id)
    >> check_each (validate_root_entry limits commit) commit.tree
    >> validate_keys limits commit
    >> validate_license_dir limits commit (entry_named "LICENSES" commit.tree)
