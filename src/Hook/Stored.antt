-- ===== src/Hook/Stored.antt =====
-- What `save_metadata` leaves in the tables Packages and PackageBases.
use aurweb.Prelude.{
  ℕ, ◌+◌, false, String, Option, none, some, List, [], ◌∷◌, ◌++◌, ◌≡◌, refl, ◌==◌, sym, ap, ◌∙◌,
  find?, str_eq, update_where, delete_where, Bool-cases, inl, inr, if◌then◌else◌, any, fun_ext,
}
use aurweb.Prelude.{append-nil, append_assoc, ap₂}
use aurweb.Models.{Db, Package, PackageBase, update_base}
use aurweb.Hook.Relations.{Architecture, any_architecture}
use aurweb.Hook.Metadata.{SourceInfo, SourcePackage, str}
use aurweb.Hook.Tables.{Store, Named}
use aurweb.Hook.Inserting.{
  join_license, join_group, insert_licenses, insert_groups, insert_archs, insert_arch,
  insert_package, insert_packages, package_row,
}
use aurweb.Hook.Saving.{
  delete_packages, save_metadata, notify_adopter, pushed_base, adopt_if_orphan,
}

-- The rows of Packages that a push inserts, numbered from `id`.
abbrev pub package_rows : ℕ → ℕ → String → List SourcePackage → List Package
package_rows id b version [] = []
package_rows id b version (pkg ∷ pkgs) =
    let merged = pkg.merged any_architecture in
    record {
      id = id;
      package_base_id = b;
      name = merged.name;
      version = version;
      description = merged.description;
      url = some (str merged.url);
    }
    ∷ package_rows (id + 1) b version pkgs

-- The maintainer that was, or else the user who pushes.
abbrev pub keeper : ℕ → Option ℕ → ℕ
keeper user_id none = user_id
keeper user_id (some m) = m

-- The row of the base after a push.
abbrev pub stored_base : ℕ → ℕ → PackageBase → PackageBase
stored_base now user_id p = record p {
  modified_ts = now;
  packager_uid = some user_id;
  out_of_date_ts = none;
  maintainer_uid = some (keeper user_id p.maintainer_uid);
}

adopt_if_orphan-keeper :
    (user_id : ℕ) (o : Option ℕ) → adopt_if_orphan user_id o ≡ some (keeper user_id o)
adopt_if_orphan-keeper user_id none = refl
adopt_if_orphan-keeper user_id (some m) = refl

pushed_base-stored_base :
    (now user_id : ℕ) (p : PackageBase) → pushed_base now user_id p ≡ stored_base now user_id p
pushed_base-stored_base now user_id p =
    ap
      (λ (o : Option ℕ). record p {
        modified_ts = now;
        packager_uid = some user_id;
        out_of_date_ts = none;
        maintainer_uid = o;
      })
      (adopt_if_orphan-keeper user_id p.maintainer_uid)

join_license-main :
    (pkgid : ℕ) (lic : String) (o : Option Named) (st : Store)
    → ((join_license pkgid lic o st).main ≡ st.main)
      × ((join_license pkgid lic o st).next_package_id ≡ st.next_package_id)
join_license-main pkgid lic none st = (refl, refl)
join_license-main pkgid lic (some row) st = (refl, refl)

join_group-main :
    (pkgid : ℕ) (group : String) (o : Option Named) (st : Store)
    → ((join_group pkgid group o st).main ≡ st.main)
      × ((join_group pkgid group o st).next_package_id ≡ st.next_package_id)
join_group-main pkgid group none st = (refl, refl)
join_group-main pkgid group (some row) st = (refl, refl)

insert_licenses-main :
    (pkgid : ℕ) (lics : List String) (st : Store)
    → ((insert_licenses pkgid lics st).main ≡ st.main)
      × ((insert_licenses pkgid lics st).next_package_id ≡ st.next_package_id)
insert_licenses-main pkgid [] st = (refl, refl)
insert_licenses-main pkgid (lic ∷ lics) st =
    let o = find? (λ r. str_eq r.name lic) st.licenses in
    let one = join_license-main pkgid lic o st in
    let rest = insert_licenses-main pkgid lics (join_license pkgid lic o st) in
    (rest.0 ∙ one.0, rest.1 ∙ one.1)

insert_groups-main :
    (pkgid : ℕ) (groups : List String) (st : Store)
    → ((insert_groups pkgid groups st).main ≡ st.main)
      × ((insert_groups pkgid groups st).next_package_id ≡ st.next_package_id)
insert_groups-main pkgid [] st = (refl, refl)
insert_groups-main pkgid (group ∷ groups) st =
    let o = find? (λ r. str_eq r.name group) st.groups in
    let one = join_group-main pkgid group o st in
    let rest = insert_groups-main pkgid groups (join_group pkgid group o st) in
    (rest.0 ∙ one.0, rest.1 ∙ one.1)

insert_archs-main :
    (pkgid : ℕ) (pkg : SourcePackage) (archs : List Architecture) (st : Store)
    → ((insert_archs pkgid pkg archs st).main ≡ st.main)
      × ((insert_archs pkgid pkg archs st).next_package_id ≡ st.next_package_id)
insert_archs-main pkgid pkg [] st = (refl, refl)
insert_archs-main pkgid pkg (a ∷ archs) st =
    insert_archs-main pkgid pkg archs (insert_arch pkgid pkg a st)

-- A package is one row of Packages; the other tables of the main database stay.
insert_package-main :
    (b : ℕ) (metadata : SourceInfo) (pkg : SourcePackage) (st : Store)
    → let done = insert_package b metadata pkg st in
      let db = st.main in
      let row = package_row st.next_package_id b metadata.version (pkg.merged any_architecture) in
      (done.main ≡ record db { packages = db.packages ++ row ∷ [] })
      × (done.next_package_id ≡ st.next_package_id + 1)
unfolding insert_package
insert_package-main b metadata pkg st =
    let id = st.next_package_id in
    let db = st.main in
    let merged = pkg.merged any_architecture in
    let main : Db = record db {
      packages = db.packages ++ package_row id b metadata.version merged ∷ [];
    } in
    let start : Store = record st { main = main; next_package_id = id + 1 } in
    let archs = insert_archs-main id pkg metadata.architectures start in
    let after_archs = insert_archs id pkg metadata.architectures start in
    let lics = insert_licenses-main id merged.licenses after_archs in
    let groups =
      insert_groups-main id merged.groups (insert_licenses id merged.licenses after_archs) in
    (groups.0 ∙ lics.0 ∙ archs.0, groups.1 ∙ lics.1 ∙ archs.1)

insert_packages-main :
    (b : ℕ) (metadata : SourceInfo) (pkgs : List SourcePackage) (st : Store)
    → let db = st.main in
      (insert_packages b metadata pkgs st).main ≡ record db {
        packages = db.packages ++ package_rows st.next_package_id b metadata.version pkgs;
      }
unfolding insert_packages
insert_packages-main b metadata [] st =
    let db = st.main in
    ap (λ (ps : List Package). record db { packages = ps }) (sym (append-nil db.packages))
insert_packages-main b metadata (pkg ∷ pkgs) st =
    let db = st.main in
    let row = package_row st.next_package_id b metadata.version (pkg.merged any_architecture) in
    let one = insert_package-main b metadata pkg st in
    let rest = insert_packages-main b metadata pkgs (insert_package b metadata pkg st) in
    rest
    ∙ ap₂
        (λ (d : Db) (n : ℕ). record d {
          packages = d.packages ++ package_rows n b metadata.version pkgs;
        })
        one.0 one.1
    ∙ ap (λ (ps : List Package). record db { packages = ps })
        (append_assoc db.packages (row ∷ [])
          (package_rows (st.next_package_id + 1) b metadata.version pkgs))

notify_adopter-packages :
    (o : Option ℕ) (b user_id : ℕ) (st : Store)
    → ((notify_adopter o b user_id st).main.packages ≡ st.main.packages)
      × ((notify_adopter o b user_id st).main.package_bases ≡ st.main.package_bases)
notify_adopter-packages (some m) b user_id st = (refl, refl)
notify_adopter-packages none b user_id st =
    let there =
      any (λ n. if n.package_base_id == b then n.user_id == user_id else false)
        st.main.notifications in
    elim (Bool-cases there) [ inl e ↦ rw e (refl, refl) | inr e ↦ rw e (refl, refl) ]

-- After `save_metadata` the packages of the base are those of the file, in its order and with new
-- IDs, names, the base's version, the merged descriptions and URLs; every other package stays. Of the
-- package bases only the row of this one changes: it keeps its maintainer, or has the user if it had
-- none; the user is its packager, it was modified now, and it is not out of date.
pub save_metadata-packages :
    (now user_id : ℕ) (metadata : SourceInfo) (base : PackageBase) (st : Store)
    → let after = (save_metadata now user_id metadata base st).main in
      (after.packages
        ≡ delete_where (λ p. p.package_base_id == base.id) st.main.packages
          ++ package_rows st.next_package_id base.id metadata.version metadata.packages)
      × (after.package_bases
          ≡ update_where (λ p. p.id == base.id) (stored_base now user_id) st.main.package_bases)
unfolding save_metadata delete_packages
save_metadata-packages now user_id metadata base st =
    let b = base.id in
    let updated : Store = record st { main = update_base b (pushed_base now user_id) st.main } in
    let cleared = delete_packages b updated in
    let inserted = insert_packages-main b metadata metadata.packages cleared in
    let last =
      notify_adopter-packages base.maintainer_uid b user_id
        (insert_packages b metadata metadata.packages cleared) in
    (
      last.0 ∙ ap (λ (d : Db). d.packages) inserted,
      last.1
          ∙ ap (λ (d : Db). d.package_bases) inserted
          ∙ ap (λ f. update_where (λ p. p.id == b) f st.main.package_bases)
              (fun_ext (pushed_base-stored_base now user_id)),
    )
