-- ===== src/Hook/Allowed.antt =====
-- What a commit that the hook takes may contain, stated on its tree.
use aurweb.Prelude.{
  ◌≤◌, true, false, String, some, List, [], ◌∷◌, ◌≡◌, refl, ◌⊎◌, inl, inr, ◌↔◌, All, sym, arith,
  leb, leb→le, subst, str_eq, eq_iff, Bool-cases, ap, ◌∙◌,
}
use aurweb.Hook.{
  Commit, TreeEntry, blob, tree, link, entries_of, entry_name, entry_named, in_tree, ends_with,
  require, is_in, not_asc, blob_too_large,
}
use aurweb.Hook.Passing.{Passes, require-Passes, >>_Passes}
use aurweb.Hook.Trees.{
  Limits, LicenseCheck, compliant, executable_missing, not_compliant, timed_out, is_blob,
  validate_pgp_key, license_result, subdirectories,
}

-- A PGP key: a file `*.asc` of limited size.
abbrev pub IsKey : Limits → TreeEntry → Type 0
IsKey limits (blob name size oid) = (ends_with name ".asc" ≡ true) × (size ≤ limits.max_blob_size)
IsKey limits (tree name es) = false ≡ true
IsKey limits (link name) = false ≡ true

-- The directory keys/pgp.
abbrev pub IsKeyDir : Limits → TreeEntry → Type 0
IsKeyDir limits (blob name size oid) = false ≡ true
IsKeyDir limits (tree name es) = (name ≡ "pgp") × All (IsKey limits) (entries_of es)
IsKeyDir limits (link name) = false ≡ true

abbrev pub IsFile : TreeEntry → Type 0
IsFile e = is_blob e ≡ true

-- What may stand in the root: files of limited size and submodules, of other names, keys/ with key files, and LICENSES/
-- with files where the license check passes.
abbrev pub IsRootEntry : Limits → Commit → TreeEntry → Type 0
IsRootEntry limits commit (blob name size oid) =
    (is_in name subdirectories ≡ false) × (size ≤ limits.max_blob_size)
IsRootEntry limits commit (tree name es) =
    ((name ≡ "keys") × All (IsKeyDir limits) (entries_of es))
    ⊎ ((name ≡ "LICENSES") × All IsFile (entries_of es) × (limits.license_check commit ≡ compliant))
IsRootEntry limits commit (link name) = is_in name subdirectories ≡ false

-- The names in each tree differ, as Git has them: an entry is the one of its name.
abbrev pub Unique : List TreeEntry → Type 0
Unique es = All (λ e. entry_named (entry_name e) es ≡ some e) es

abbrev pub HasUnique : TreeEntry → Type 0
HasUnique (blob name size oid) = Unit
HasUnique (tree name es) = Unique (entries_of es)
HasUnique (link name) = Unit

-- An entry that is found has the property of all, and the name.
pub found :
    (P : TreeEntry → Type 0) (name : String) (es : List TreeEntry) (e : TreeEntry)
    → entry_named name es ≡ some e
    → All P es
    → P e × (entry_name e ≡ name)
found P name [] e h p = cc
found P name (d ∷ es) e h p = elim (Bool-cases (str_eq (entry_name d) name)) [
  | inl k ↦
      let same : d ≡ e = ground (arith, h, k) in
      (subst P same p.0, ap entry_name (sym same) ∙ (eq_iff (entry_name d) name).0 k)
  | inr k ↦ found P name es e (ground (arith, h, k)) p.1
]

pub validate_pgp_key-IsKey :
    (limits : Limits) (commit : Commit) (e : TreeEntry)
    → Passes (validate_pgp_key limits commit e) ↔ IsKey limits e
validate_pgp_key-IsKey limits commit (blob name size oid) =
    let both =
      >>_Passes (require (ends_with name ".asc") (not_asc commit.id))
        (require (leb size limits.max_blob_size) (blob_too_large commit.id)) in
    let asc = require-Passes (ends_with name ".asc") (not_asc commit.id) in
    let size_ok = require-Passes (leb size limits.max_blob_size) (blob_too_large commit.id) in
    (
      (λ h. let (a, b) = both.0 h in (asc.0 a, leb→le size limits.max_blob_size (size_ok.0 b))),
      λ h. both.1 (asc.1 h.0, size_ok.1 (ground (arith, h.1))),
    )
validate_pgp_key-IsKey limits commit (tree name es) = ((λ h. cc), λ h. cc)
validate_pgp_key-IsKey limits commit (link name) = ((λ h. cc), λ h. cc)

-- What a commit may contain.
abbrev pub IsAllowed : Limits → Commit → Type 0
IsAllowed limits commit =
    (in_tree "PKGBUILD" commit.tree ≡ true) × All (IsRootEntry limits commit) commit.tree

pub license_result-Passes :
    (commit : Commit) (r : LicenseCheck) → Passes (license_result commit r) ↔ (r ≡ compliant)
license_result-Passes commit compliant = ((λ h. refl), λ h. refl)
license_result-Passes commit executable_missing = ((λ h. cc), λ h. cc)
license_result-Passes commit not_compliant = ((λ h. cc), λ h. cc)
license_result-Passes commit timed_out = ((λ h. cc), λ h. cc)
