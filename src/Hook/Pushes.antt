-- ===== src/Hook/Pushes.antt =====
-- What a push that the hook takes leaves.
use aurweb.Prelude.{
  ℕ, ◌+◌, ◌<◌, true, false, String, Option, none, some, List, [], ◌∷◌, ◌++◌, ◌≡◌, refl, sym, ap,
  ◌∙◌, subst, All, any, eq_iff, arith, inl, inr, ◌==◌, delete_where,
}
use aurweb.Prelude.{◌⊎◌, ap₂}
use aurweb.Models.{send, update_notification, Package, PackageBase, base_of_name}
use aurweb.Hook.{TreeEntry, blob, tree, link, entry_named, Commit, passed, ◌>>=◌}
use aurweb.Hook.Passing.{>>=_inv}
use aurweb.Prelude.{All-map₂}
use aurweb.Hook.Relations.{any_architecture}
use aurweb.Hook.Metadata.{SourceInfo, SourcePackage}
use aurweb.Hook.Tables.{Store}
use aurweb.Hook.Inserting.{package_row}
use aurweb.Hook.Saving.{save_metadata, create_pkgbase}
use aurweb.Hook.Stored.{package_rows, save_metadata-packages}
use aurweb.Hook.Push.{
  Repository, Env, Arguments, Range, Pushed, Warning, is_of_other_base, id_or_zero, check_push,
  store_push, save_found, ensure_base, main, new_references, source_info, parse_error, parsed_info,
  parse_blob, Parsed,
}
use aurweb.Hook.Owners.{IsTaken, IsFree, check_push_inv, passed_inj}
use aurweb.Hook.Names.{NamesOwned, NamesOwned-replace, All-true}

All-package_rows :
    (R : Package → Type 0) (b : ℕ) (version : String) (id : ℕ) (pkgs : List SourcePackage)
    → All (λ pkg. (id : ℕ) → R (package_row id b version (pkg.merged any_architecture))) pkgs
    → All R (package_rows id b version pkgs)
All-package_rows R b version id [] h = tt
All-package_rows R b version id (pkg ∷ pkgs) h =
    (h.0 id, All-package_rows R b version (id + 1) pkgs h.1)

any-false :
    (b : ℕ) (name : String) (ps : List Package)
    → any (is_of_other_base b name) ps ≡ false
    → All (λ q. q.name ≡ name → (q.package_base_id == b) ≡ true) ps
any-false b name [] h = tt
any-false b name (p ∷ ps) h = (
  (λ n. let e = (eq_iff p.name name).1 n in ground (arith, h, e)),
  any-false b name ps (ground (arith, h)),
)

save_found_inv :
    (env : Env) (metadata : SourceInfo) (o : Option PackageBase) (st after : Store)
    → save_found env metadata o st ≡ passed after
    → (p : PackageBase) × (o ≡ some p)
      × (after.main.packages
          ≡ delete_where (λ q. q.package_base_id == p.id) st.main.packages
            ++ package_rows st.next_package_id p.id metadata.version metadata.packages)
save_found_inv env metadata none st after h = cc
save_found_inv env metadata (some p) st after h =
    let saved = save_metadata env.now env.user.id metadata p st in
    let stored : Store = record saved {
      main = send (update_notification env.user.id p.id ∷ []) saved.main;
    } in
    (
      p,
      refl,
      ap (λ (s : Store). s.main.packages) (sym (passed_inj stored after h))
          ∙ (save_metadata-packages env.now env.user.id metadata p st).0,
    )

ensure_base-packages :
    (env : Env) (name : String) (o : Option PackageBase) (st : Store)
    → ((ensure_base env name o st).main.packages ≡ st.main.packages)
      × ((ensure_base env name o st).next_package_id ≡ st.next_package_id)
unfolding create_pkgbase
ensure_base-packages env name none st = (refl, refl)
ensure_base-packages env name (some p) st = (refl, refl)

ensure_base-found :
    (env : Env) (name : String) (o : Option PackageBase) (p : PackageBase) (st : Store)
    → base_of_name name st.main ≡ o
    → base_of_name name (ensure_base env name o st).main ≡ some p
    → (o ≡ none) ⊎ (o ≡ some p)
ensure_base-found env name none p st e h = inl refl
ensure_base-found env name (some q) p st e h = inr (sym e ∙ h)

-- What `store_push` writes, by the package base that it finds or creates.
store_push_inv :
    (env : Env) (metadata : SourceInfo) (st after : Store)
    → store_push env metadata st ≡ passed after
    → (p : PackageBase) × ((base_of_name metadata.base_name st.main ≡ none)
        ⊎ (base_of_name metadata.base_name st.main ≡ some p))
      × (after.main.packages
          ≡ delete_where (λ q. q.package_base_id == p.id) st.main.packages
            ++ package_rows st.next_package_id p.id metadata.version metadata.packages)
unfolding store_push
store_push_inv env metadata st after h =
    let name = metadata.base_name in
    let o = base_of_name name st.main in
    let ready = ensure_base env name o st in
    let (p, s, stored) = save_found_inv env metadata (base_of_name name ready.main) ready after h in
    let same = ensure_base-packages env name o st in
    (
      p,
      ensure_base-found env name o p st refl s,
      stored
          ∙ ap₂
              (λ (ps : List Package) (n : ℕ).
                delete_where (λ q. q.package_base_id == p.id) ps
                ++ package_rows n p.id metadata.version metadata.packages)
              same.0 same.1,
    )

parsed_info_inv :
    (head : Commit) (p : Parsed) (metadata : SourceInfo)
    → parsed_info head p ≡ passed metadata
    → p ≡ source_info metadata
parsed_info_inv head (source_info m) metadata h = ap source_info (passed_inj m metadata h)
parsed_info_inv head (parse_error message) metadata h = cc

parse_blob_inv :
    (repo : Repository) (head : Commit) (o : Option TreeEntry) (metadata : SourceInfo)
    → parse_blob repo head o ≡ passed metadata
    → (oid : String) × (repo.parse oid ≡ source_info metadata)
parse_blob_inv repo head none metadata h = cc
parse_blob_inv repo head (some (blob name size oid)) metadata h =
    (oid, parsed_info_inv head (repo.parse oid) metadata h)
parse_blob_inv repo head (some (tree name es)) metadata h = cc
parse_blob_inv repo head (some (link name)) metadata h = cc

-- If the hook takes a push, its checks have passed: what they mean is `IsTaken`. The references of the
-- branch and of the HEAD of the package base that is pushed to are set to the new commit.
pub main-IsTaken :
    (repo : Repository) (env : Env) (args : Arguments) (st : Store) (out : Pushed)
    → main repo env args st ≡ passed out
    → (r : Range) × (metadata : SourceInfo) × IsTaken repo env args st.main r metadata
      × (store_push env metadata st ≡ passed out.store)
      × (out.references ≡ new_references env.pkgbase r.sha1_new)
unfolding main
main-IsTaken repo env args st out h =
    let last = λ (c : Range × SourceInfo × List Warning) (stored : Store).
      let pushed : Pushed = record {
        store = stored;
        references = new_references c.1.base_name c.0.sha1_new;
        warnings = c.2;
      } in
      pushed in
    let stores =
      λ (c : Range × SourceInfo × List Warning). store_push env c.1 st >>= λ s. passed (last c s) in
    let (c, e1, h1) = >>=_inv (check_push repo env args st.main) stores out h in
    let (stored, e2, h2) = >>=_inv (store_push env c.1 st) (λ s. passed (last c s)) out h1 in
    let same = passed_inj (last c stored) out h2 in
    let is_taken = check_push_inv repo env args st.main c e1 in
    (
      c.0,
      c.1,
      is_taken,
      e2 ∙ ap (λ (o : Pushed). passed o.store) same,
      sym (ap (λ (o : Pushed). o.references) same)
          ∙ ap (λ (n : String). new_references n c.0.sha1_new) is_taken.4,
    )

-- The names that were free of other bases are the pushed base's.
to_base :
    (o : Option PackageBase) (p : PackageBase) (name : String) (old : List Package)
    → (o ≡ none) ⊎ (o ≡ some p)
    → All (λ q. 0 < q.package_base_id) old
    → All (λ q. q.name ≡ name → (q.package_base_id == id_or_zero o) ≡ true) old
    → All (λ q. q.name ≡ name → (q.package_base_id == p.id) ≡ true) old
to_base o p name old (inl e) positive h =
    All-map₂ (λ q. q.name ≡ name → (q.package_base_id == id_or_zero o) ≡ true)
      (λ q. 0 < q.package_base_id) (λ q. q.name ≡ name → (q.package_base_id == p.id) ≡ true) old
      (λ q a k n.
        let z = subst (λ x. (q.package_base_id == id_or_zero x) ≡ true) e (a n) in
        ground (arith, z, k))
      h positive
to_base o p name old (inr e) positive h =
    subst (λ x. All (λ q. q.name ≡ name → (q.package_base_id == id_or_zero x) ≡ true) old) e h

-- A push that is taken keeps the names of packages apart: if packages of one name were of one base,
-- so they are after it, whatever the names in the file. The IDs of package bases are not 0, and the
-- parser merges a package under its own name.
pub main-NamesOwned :
    (repo : Repository) (env : Env) (args : Arguments) (st : Store) (out : Pushed)
    → ((oid : String) (metadata : SourceInfo)
        → repo.parse oid ≡ source_info metadata
        → All (λ pkg. (pkg.merged any_architecture).name ≡ pkg.name) metadata.packages)
    → NamesOwned st.main.packages
    → All (λ p. 0 < p.package_base_id) st.main.packages
    → main repo env args st ≡ passed out
    → NamesOwned out.store.main.packages
main-NamesOwned repo env args st out merged owned positive h =
    let (r, metadata, is_taken, stored, refs) = main-IsTaken repo env args st out h in
    let (oid, parsed) =
      parse_blob_inv repo (repo.commit r.sha1_new)
        (entry_named ".SRCINFO" (repo.commit r.sha1_new).tree) metadata is_taken.1 in
    let (p, was, rows_eq) = store_push_inv env metadata st out.store stored in
    let old = st.main.packages in
    let pkgs = metadata.packages in
    let o = base_of_name metadata.base_name st.main in
    let rows = package_rows st.next_package_id p.id metadata.version pkgs in
    let owned_by = λ (q : Package). q.package_base_id ≡ p.id in
    let free = λ (n : String). All (λ q. q.name ≡ n → (q.package_base_id == p.id) ≡ true) old in
    let of_b = All-package_rows owned_by p.id metadata.version st.next_package_id pkgs (
      All-true
        (λ pkg.
          (id : ℕ) → owned_by (package_row id p.id metadata.version (pkg.merged any_architecture)))
        pkgs (λ pkg id. refl)) in
    let all_free =
      All-package_rows (λ row. free row.name) p.id metadata.version st.next_package_id pkgs
        (All-map₂ (IsFree env (id_or_zero o) st.main)
          (λ pkg. (pkg.merged any_architecture).name ≡ pkg.name)
          (λ pkg. (id : ℕ) → free (pkg.merged any_architecture).name) pkgs
          (λ pkg fr m id.
            subst free (sym m)
              (to_base o p pkg.name old was positive (any-false (id_or_zero o) pkg.name old fr.0)))
          is_taken.6 (merged oid metadata parsed)) in
    subst NamesOwned (sym rows_eq) (NamesOwned-replace p.id old rows owned of_b all_free)
