-- ===== src/Hook/Accepted.antt =====
-- From what a commit contains to its checks.
use aurweb.Prelude.{
  false, String, List, [], ◌∷◌, ◌≡◌, refl, inl, inr, ◌↔◌, All, sym, arith, leb, subst, str_eq,
  eq_iff, Option-cases, ◌∙◌, ap,
}
use aurweb.Hook.{
  Commit, TreeEntry, TreeEntries, blob, tree, link, entries_of, entry_name, entry_named, entry_at,
  entries_at, in_tree, Check, passed, require, check_each, is_in, ◌>>◌, keys_not_pgp,
  not_only_files, blob_too_large, missing_pkgbuild,
}
use aurweb.Hook.Passing.{Passes, require-Passes, >>_Passes, check_each-Passes}
use aurweb.Hook.Trees.{
  Limits, compliant, is_blob, validate_root_entry, validate_pgp_key, validate_keys,
  validate_license_dir, license_result, validate_commit, iterate, subdirectories, iterate_if_there,
  validate_blob_size, validate_key_dir, validate_license_file,
}
use aurweb.Prelude.{All-map}
use aurweb.Hook.Allowed.{
  IsKey, IsKeyDir, IsFile, IsRootEntry, IsAllowed, Unique, HasUnique, found, validate_pgp_key-IsKey,
  license_result-Passes,
}
use aurweb.Hook.Sound.{validate_commit-IsAllowed}

-- A loop over the directory of a name, if there is one.
if_there :
    (f : TreeEntry → Check (Unit {0})) (P : TreeEntry → Type 0) (name : String)
    (es : List TreeEntry)
    → ((e : TreeEntry) → P e → entry_name e ≡ name → Passes (iterate f e))
    → All P es
    → Passes (iterate_if_there f (entry_named name es))
if_there f P name es h p = elim (Option-cases (entry_named name es)) [
  | inl n ↦ rw n refl
  | inr (e, s) ↦ let (pe, named) = found P name es e s p in rw s (h e pe named)
]

module _ (limits : Limits) (commit : Commit) where
  root_entry :
      (e : TreeEntry) → IsRootEntry limits commit e → Passes (validate_root_entry limits commit e)
  root_entry (blob name size oid) h =
      (>>_Passes (passed tt) (validate_blob_size limits commit (blob name size oid))).1 (
        refl,
        (require-Passes (leb size limits.max_blob_size) (blob_too_large commit.id)).1
            (ground (arith, h.1)),
      )
  root_entry (tree name es) (inl h) = rw (h.0) refl
  root_entry (tree name es) (inr h) = rw (h.0) refl
  root_entry (link name) h = refl

  key_dir :
      (d : TreeEntry)
      → IsKeyDir limits d
      → Passes (validate_key_dir commit d) × Passes (iterate (validate_pgp_key limits commit) d)
  key_dir (blob name size oid) h = cc
  key_dir (tree name ks) h = (
    (require-Passes (str_eq name "pgp") (keys_not_pgp commit.id)).1 ((eq_iff name "pgp").1 h.0),
    (check_each-Passes (validate_pgp_key limits commit) (entries_of ks)).1 (
        All-map (IsKey limits) (λ k. Passes (validate_pgp_key limits commit k)) (entries_of ks)
          (λ k. (validate_pgp_key-IsKey limits commit k).1) h.1),
  )
  key_dir (link name) h = cc

  -- What the entry of the name keys is.
  keys_entry :
      (e : TreeEntry)
      → IsRootEntry limits commit e
      → entry_name e ≡ "keys"
      → (es : TreeEntries) × (e ≡ tree "keys" es) × All (IsKeyDir limits) (entries_of es)
  keys_entry (blob name size oid) h n =
      let clash = subst (λ m. is_in m subdirectories ≡ false) n h.0 in cc
  keys_entry (tree name es) (inl h) n = (es, ap (λ m. tree m es) n, h.1)
  keys_entry (tree name es) (inr h) n = let clash = (eq_iff "keys" "LICENSES").1 (sym n ∙ h.0) in cc
  keys_entry (link name) h n = let clash = subst (λ m. is_in m subdirectories ≡ false) n h in cc

  licenses_entry :
      (e : TreeEntry)
      → IsRootEntry limits commit e
      → entry_name e ≡ "LICENSES"
      → Passes (iterate (validate_license_file commit) e)
        × (limits.license_check commit ≡ compliant)
  licenses_entry (blob name size oid) h n =
      let clash = subst (λ m. is_in m subdirectories ≡ false) n h.0 in cc
  licenses_entry (tree name es) (inl h) n =
      let clash = (eq_iff "LICENSES" "keys").1 (sym n ∙ h.0) in cc
  licenses_entry (tree name es) (inr h) n = (
    (check_each-Passes (validate_license_file commit) (entries_of es)).1 (
        All-map IsFile (λ e. Passes (validate_license_file commit e)) (entries_of es)
          (λ e. (require-Passes (is_blob e) (not_only_files commit.id)).1) h.1),
    h.2,
  )
  licenses_entry (link name) h n = let clash = subst (λ m. is_in m subdirectories ≡ false) n h in cc

  pgp_lem :
      All (IsRootEntry limits commit) commit.tree
      → Passes (
          iterate_if_there
            (validate_pgp_key limits commit)
            (entry_named "pgp" (entries_at (entry_named "keys" commit.tree))))
  pgp_lem h = elim (Option-cases (entry_named "keys" commit.tree)) [
    | inl n ↦ rw n refl
    | inr (e, s) ↦
        let (pe, named) = found (IsRootEntry limits commit) "keys" commit.tree e s h in
        let (es, same, dirs) = keys_entry e pe named in
        rw (s, same)
          (if_there (validate_pgp_key limits commit) (IsKeyDir limits) "pgp" (entries_of es)
            (λ d kd n. (key_dir d kd).1) dirs)
  ]

  keys_lem : All (IsRootEntry limits commit) commit.tree → Passes (validate_keys limits commit)
  unfolding validate_keys
  keys_lem h =
      let iterated =
        λ (e : TreeEntry) (r : IsRootEntry limits commit e) (n : entry_name e ≡ "keys").
          let (es, same, dirs) = keys_entry e r n in
          subst (λ d. Passes (iterate (validate_key_dir commit) d)) (sym same)
            ((check_each-Passes (validate_key_dir commit) (entries_of es)).1 (
              All-map (IsKeyDir limits) (λ d. Passes (validate_key_dir commit d)) (entries_of es)
                (λ d kd. (key_dir d kd).0) dirs)) in
      (>>_Passes (iterate_if_there (validate_key_dir commit) (entry_named "keys" commit.tree)) (
          iterate_if_there (validate_pgp_key limits commit)
            (entry_at ("keys" ∷ "pgp" ∷ []) commit.tree))).1
        (
          if_there (validate_key_dir commit) (IsRootEntry limits commit) "keys" commit.tree iterated
              h,
          pgp_lem h,
        )

  licenses_lem :
      All (IsRootEntry limits commit) commit.tree
      → Passes (validate_license_dir limits commit (entry_named "LICENSES" commit.tree))
  licenses_lem h = elim (Option-cases (entry_named "LICENSES" commit.tree)) [
    | inl n ↦ rw n refl
    | inr (e, s) ↦
        let (pe, named) = found (IsRootEntry limits commit) "LICENSES" commit.tree e s h in
        let (files, ok) = licenses_entry e pe named in
        rw s (
          (>>_Passes (iterate (validate_license_file commit) e)
              (license_result commit (limits.license_check commit))).1
            (files, (license_result-Passes commit (limits.license_check commit)).1 ok))
  ]

-- The hook takes a commit exactly when its tree may stand: an entry PKGBUILD is there; the files of
-- the root are of limited size; there is no directory in it but keys/, in which all is pgp/ with
-- files *.asc of limited size, and LICENSES/, in which all are files, with the license check
-- passed; and no file or submodule has the name of one of the two. The names in each directory
-- differ, as they do in Git.
pub validate_commit_iff :
    (limits : Limits) (commit : Commit)
    → Unique commit.tree
    → All HasUnique commit.tree
    → Passes (validate_commit limits commit) ↔ IsAllowed limits commit
unfolding validate_commit
validate_commit_iff limits commit u v =
    let each = check_each (validate_root_entry limits commit) commit.tree in
    let k = validate_keys limits commit in
    let pkgbuild = require (in_tree "PKGBUILD" commit.tree) (missing_pkgbuild commit.id) in
    let licenses = validate_license_dir limits commit (entry_named "LICENSES" commit.tree) in
    (
      validate_commit-IsAllowed limits commit u v,
      λ h.
          let roots = (check_each-Passes (validate_root_entry limits commit) commit.tree).1 (
            All-map (IsRootEntry limits commit) (λ e. Passes (validate_root_entry limits commit e))
              commit.tree (root_entry limits commit) h.1) in
          let start =
            (require-Passes (in_tree "PKGBUILD" commit.tree) (missing_pkgbuild commit.id)).1 h.0 in
          (>>_Passes (pkgbuild >> each >> k) licenses).1 (
            (>>_Passes (pkgbuild >> each) k).1
                ((>>_Passes pkgbuild each).1 (start, roots), keys_lem limits commit h.1),
            licenses_lem limits commit h.1,
          ),
    )
