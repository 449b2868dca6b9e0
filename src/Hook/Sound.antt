-- ===== src/Hook/Sound.antt =====
-- From the checks of a commit to what it contains.
use aurweb.Prelude.{
  true, false, Option, some, List, [], ◌∷◌, ◌≡◌, refl, inl, inr, All, sym, arith, leb, leb→le,
  subst, str_eq, eq_iff, Bool-cases,
}
use aurweb.Prelude.{All-map, All-map₂}
use aurweb.Hook.{
  Commit, TreeEntry, blob, tree, link, entries_of, entry_name, entry_named, entry_at, in_tree,
  Check, passed, require, check_each, is_in, ◌>>◌, missing_pkgbuild, has_subdirectories,
  not_only_files, keys_not_pgp, blob_too_large, TreeEntries, entries_at,
}
use aurweb.Hook.Passing.{Passes, require-Passes, >>_Passes, check_each-Passes}
use aurweb.Hook.Trees.{
  Limits, compliant, is_tree, is_blob, is_pgp, validate_root_entry, validate_pgp_key, validate_keys,
  validate_license_dir, license_result, validate_commit, iterate, subdirectories, iterate_if_there,
  validate_blob_size, validate_key_dir, validate_license_file,
}
use aurweb.Hook.Allowed.{
  HasUnique, IsAllowed, IsFile, IsKey, IsKeyDir, IsRootEntry, Unique, license_result-Passes,
  validate_pgp_key-IsKey,
}

not_iterated :
    (f : TreeEntry → Check (Unit {0})) (e : TreeEntry)
    → is_tree e ≡ false
    → Passes (iterate f e)
    → true ≡ false
not_iterated f (blob name size oid) d h = cc
not_iterated f (tree name es) d h = cc
not_iterated f (link name) d h = cc

-- An entry that is there is iterated.
iterated :
    (f : TreeEntry → Check (Unit {0})) (o : Option TreeEntry) (e : TreeEntry)
    → o ≡ some e
    → Passes (iterate_if_there f o)
    → Passes (iterate f e)
iterated f o e h p = subst (λ x. Passes (iterate_if_there f x)) h p

module _ (limits : Limits) (commit : Commit) where
  key_dir :
      (d : TreeEntry) (es : List TreeEntry)
      → entry_named (entry_name d) es ≡ some d
      → is_pgp d ≡ true
      → Passes (iterate_if_there (validate_pgp_key limits commit) (entry_named "pgp" es))
      → IsKeyDir limits d
  key_dir (blob name size oid) es u h p = cc
  key_dir (link name) es u h p = cc
  key_dir (tree name ks) es u h p =
      let n = (eq_iff name "pgp").0 h in
      let q =
        iterated (validate_pgp_key limits commit) (entry_named "pgp" es) (tree name ks)
          (subst (λ m. entry_named m es ≡ some (tree name ks)) n u) p in
      (
        n,
        All-map (λ k. Passes (validate_pgp_key limits commit k)) (IsKey limits) (entries_of ks)
            (λ k. (validate_pgp_key-IsKey limits commit k).0)
            ((check_each-Passes (validate_pgp_key limits commit) (entries_of ks)).0 q),
      )

  -- The directory keys/, from what `validate_keys` has checked.
  keys_dir :
      (es : TreeEntries)
      → Unique (entries_of es)
      → entry_named "keys" commit.tree ≡ some (tree "keys" es)
      → Passes (validate_keys limits commit)
      → All (IsKeyDir limits) (entries_of es)
  unfolding validate_keys
  keys_dir es u h p =
      let f = validate_key_dir commit in
      let both =
        (>>_Passes (iterate_if_there f (entry_named "keys" commit.tree)) (
            iterate_if_there (validate_pgp_key limits commit)
              (entry_at ("keys" ∷ "pgp" ∷ []) commit.tree))).0
          p in
      let first = iterated f (entry_named "keys" commit.tree) (tree "keys" es) h both.0 in
      let second : Passes
          (iterate_if_there (validate_pgp_key limits commit) (entry_named "pgp" (entries_of es))) =
        subst
          (λ o.
            Passes (
              iterate_if_there (validate_pgp_key limits commit) (entry_named "pgp" (entries_at o))))
          h both.1 in
      All-map₂ (λ d. entry_named (entry_name d) (entries_of es) ≡ some d) (λ d. Passes (f d))
        (IsKeyDir limits) (entries_of es)
        (λ d v q.
          key_dir d (entries_of es) v ((require-Passes (is_pgp d) (keys_not_pgp commit.id)).0 q)
            second)
        u ((check_each-Passes f (entries_of es)).0 first)

  license_dir :
      (e : TreeEntry)
      → entry_named "LICENSES" commit.tree ≡ some e
      → Passes (validate_license_dir limits commit (entry_named "LICENSES" commit.tree))
      → Passes (iterate (validate_license_file commit) e)
        × (limits.license_check commit ≡ compliant)
  license_dir e h p =
      let q = subst (λ o. Passes (validate_license_dir limits commit o)) h p in
      let both =
        (>>_Passes (iterate (validate_license_file commit) e)
            (license_result commit (limits.license_check commit))).0
          q in
      (both.0, (license_result-Passes commit (limits.license_check commit)).0 both.1)

  -- Only a directory can be iterated.
  not_subdirectory :
      (e : TreeEntry)
      → is_tree e ≡ false
      → entry_named (entry_name e) commit.tree ≡ some e
      → Passes (validate_keys limits commit)
      → Passes (validate_license_dir limits commit (entry_named "LICENSES" commit.tree))
      → is_in (entry_name e) subdirectories ≡ false
  unfolding validate_keys
  not_subdirectory e d u p q = elim (Bool-cases (str_eq "keys" (entry_name e))) [
    | inl k ↦
        let n = sym ((eq_iff "keys" (entry_name e)).0 k) in
        let f = validate_key_dir commit in
        let both =
          (>>_Passes (iterate_if_there f (entry_named "keys" commit.tree)) (
              iterate_if_there (validate_pgp_key limits commit)
                (entry_at ("keys" ∷ "pgp" ∷ []) commit.tree))).0
            p in
        let it =
          iterated f (entry_named "keys" commit.tree) e
            (subst (λ m. entry_named m commit.tree ≡ some e) n u) both.0 in
        let no_way = not_iterated f e d it in cc
    | inr k ↦ elim (Bool-cases (str_eq "LICENSES" (entry_name e))) [
      | inl l ↦
          let n = sym ((eq_iff "LICENSES" (entry_name e)).0 l) in
          let it = license_dir e (subst (λ m. entry_named m commit.tree ≡ some e) n u) q in
          let no_way = not_iterated (validate_license_file commit) e d it.0 in cc
      | inr l ↦ ground (arith, k, l)
    ]
  ]

  root_entry :
      (e : TreeEntry)
      → entry_named (entry_name e) commit.tree ≡ some e
      → HasUnique e
      → Passes (validate_root_entry limits commit e)
      → Passes (validate_keys limits commit)
      → Passes (validate_license_dir limits commit (entry_named "LICENSES" commit.tree))
      → IsRootEntry limits commit e
  root_entry (blob name size oid) u v r p q =
      let both =
        (>>_Passes (passed tt) (validate_blob_size limits commit (blob name size oid))).0 r in
      (
        not_subdirectory (blob name size oid) refl u p q,
        leb→le size limits.max_blob_size
            ((require-Passes (leb size limits.max_blob_size) (blob_too_large commit.id)).0 both.1),
      )
  root_entry (tree name es) u v r p q =
      let allowed =
        (require-Passes (is_in name subdirectories) (has_subdirectories commit.id)).0
          ((>>_Passes (require (is_in name subdirectories) (has_subdirectories commit.id))
              (passed tt)).0
            r).0 in
      elim (Bool-cases (str_eq "keys" name)) [
        | inl k ↦
            let n = sym ((eq_iff "keys" name).0 k) in
            inl (n, keys_dir es v (subst (λ m. entry_named m commit.tree ≡ some (tree m es)) n u) p)
        | inr k ↦
            let l : str_eq "LICENSES" name ≡ true = ground (arith, k, allowed) in
            let n = sym ((eq_iff "LICENSES" name).0 l) in
            let found =
              license_dir (tree name es)
                (subst (λ m. entry_named m commit.tree ≡ some (tree name es)) n u) q in
            inr (
              n,
              All-map (λ e. Passes (require (is_blob e) (not_only_files commit.id))) IsFile
                  (entries_of es) (λ e. (require-Passes (is_blob e) (not_only_files commit.id)).0)
                  ((check_each-Passes (validate_license_file commit) (entries_of es)).0 found.0),
              found.1,
            )
      ]
  root_entry (link name) u v r p q = not_subdirectory (link name) refl u p q

-- A commit that the hook takes has a file PKGBUILD; beside files of limited size, its tree has no
-- directory but keys/, in which all is pgp/ with files *.asc of limited size, and LICENSES/, in which
-- all are files, and then the license check has passed. The names in each directory differ, as they do
-- in Git.
pub validate_commit-IsAllowed :
    (limits : Limits) (commit : Commit)
    → Unique commit.tree
    → All HasUnique commit.tree
    → Passes (validate_commit limits commit)
    → IsAllowed limits commit
unfolding validate_commit
validate_commit-IsAllowed limits commit u v h =
    let c = check_each (validate_root_entry limits commit) commit.tree in
    let k = validate_keys limits commit in
    let pkgbuild = require (in_tree "PKGBUILD" commit.tree) (missing_pkgbuild commit.id) in
    let licenses = validate_license_dir limits commit (entry_named "LICENSES" commit.tree) in
    let (front, q) = (>>_Passes (pkgbuild >> c >> k) licenses).0 h in
    let (roots, p) = (>>_Passes (pkgbuild >> c) k).0 front in
    let (first, r) = (>>_Passes pkgbuild c).0 roots in
    let each = (check_each-Passes (validate_root_entry limits commit) commit.tree).0 r in
    (
      (require-Passes (in_tree "PKGBUILD" commit.tree) (missing_pkgbuild commit.id)).0 first,
      All-map₂ (λ e. (entry_named (entry_name e) commit.tree ≡ some e) × HasUnique e)
          (λ e. Passes (validate_root_entry limits commit e)) (IsRootEntry limits commit)
          commit.tree (λ e w r. root_entry limits commit e w.0 w.1 r p q)
          (All-map₂ (λ e. entry_named (entry_name e) commit.tree ≡ some e) HasUnique
            (λ e. (entry_named (entry_name e) commit.tree ≡ some e) × HasUnique e) commit.tree
            (λ e a b. (a, b)) u v)
          each,
    )
