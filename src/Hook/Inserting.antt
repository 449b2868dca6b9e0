-- ===== src/Hook/Inserting.antt =====
-- The rows that `save_metadata` inserts for the packages of a file.
use aurweb.Prelude.{ℕ, ◌+◌, String, Option, none, some, List, [], ◌∷◌, ◌++◌, find?, map, str_eq}
use aurweb.Models.{Db, Package}
use aurweb.Hook.Relations.{
  Relation, Architecture, any_architecture, sql_rel_name, sql_rel_description, sql_rel_requirement,
  sql_architecture,
}
use aurweb.Hook.Metadata.{MergedPackage, SourcePackage, SourceInfo, str}
use aurweb.Hook.Tables.{
  DependencyType, RelationType, PackageDependency, PackageRelationRow, Named, Store, depends,
  makedepends, checkdepends, optdepends, conflicts, provides, replaces,
}

abbrev pub dependency_rows :
    ℕ → Option String → DependencyType → List Relation → List PackageDependency
dependency_rows pkgid arch deptype deps =
    map
      (λ dep. record {
        package_id = pkgid;
        dep_type = deptype;
        dep_name = sql_rel_name dep;
        dep_desc = sql_rel_description dep;
        dep_condition = sql_rel_requirement dep;
        dep_arch = arch;
      })
      deps

abbrev pub relation_rows :
    ℕ → Option String → RelationType → List Relation → List PackageRelationRow
relation_rows pkgid arch reltype rels =
    map
      (λ rel. record {
        package_id = pkgid;
        rel_type = reltype;
        rel_name = sql_rel_name rel;
        rel_condition = sql_rel_requirement rel;
        rel_arch = arch;
      })
      rels

-- The loop over the architectures, for one of them.
abbrev pub insert_arch : ℕ → SourcePackage → Architecture → Store → Store
insert_arch pkgid pkg a st =
    let merged = pkg.merged a in
    let arch = sql_architecture a in
    record st {
      sources =
          st.sources
          ++ map (λ s. record { package_id = pkgid; source = s; source_arch = arch })
              merged.sources;
      depends =
          st.depends
          ++ dependency_rows pkgid arch depends merged.dependencies
          ++ dependency_rows pkgid arch makedepends merged.make_dependencies
          ++ dependency_rows pkgid arch checkdepends merged.check_dependencies
          ++ dependency_rows pkgid arch optdepends merged.optional_dependencies;
      relations =
          st.relations
          ++ relation_rows pkgid arch conflicts merged.conflicts
          ++ relation_rows pkgid arch provides merged.provides
          ++ relation_rows pkgid arch replaces merged.replaces;
    }

abbrev pub insert_archs : ℕ → SourcePackage → List Architecture → Store → Store
insert_archs pkgid pkg [] st = st
insert_archs pkgid pkg (a ∷ archs) st = insert_archs pkgid pkg archs (insert_arch pkgid pkg a st)

-- The row of a name, which is inserted if it is missing, and joined to the package.
abbrev pub join_license : ℕ → String → Option Named → Store → Store
join_license pkgid lic (some row) st = record st {
  package_licenses = st.package_licenses ++ record { package_id = pkgid; named_id = row.id } ∷ [];
}
join_license pkgid lic none st =
    let id = st.next_license_id in
    record st {
      licenses = st.licenses ++ record { id = id; name = lic } ∷ [];
      next_license_id = id + 1;
      package_licenses = st.package_licenses ++ record { package_id = pkgid; named_id = id } ∷ [];
    }

abbrev pub insert_licenses : ℕ → List String → Store → Store
insert_licenses pkgid [] st = st
insert_licenses pkgid (lic ∷ lics) st =
    insert_licenses pkgid lics
      (join_license pkgid lic (find? (λ r. str_eq r.name lic) st.licenses) st)

abbrev pub join_group : ℕ → String → Option Named → Store → Store
join_group pkgid group (some row) st = record st {
  package_groups = st.package_groups ++ record { package_id = pkgid; named_id = row.id } ∷ [];
}
join_group pkgid group none st =
    let id = st.next_group_id in
    record st {
      groups = st.groups ++ record { id = id; name = group } ∷ [];
      next_group_id = id + 1;
      package_groups = st.package_groups ++ record { package_id = pkgid; named_id = id } ∷ [];
    }

abbrev pub insert_groups : ℕ → List String → Store → Store
insert_groups pkgid [] st = st
insert_groups pkgid (group ∷ groups) st =
    insert_groups pkgid groups
      (join_group pkgid group (find? (λ r. str_eq r.name group) st.groups) st)

abbrev pub package_row : ℕ → ℕ → String → MergedPackage → Package
package_row id b version merged = record {
  id = id;
  package_base_id = b;
  name = merged.name;
  version = version;
  description = merged.description;
  url = some (str merged.url);
}

-- A round of the loop over the packages, and the loop.
unfoldable pub insert_package : ℕ → SourceInfo → SourcePackage → Store → Store
insert_package b metadata pkg st =
    let id = st.next_package_id in
    let db = st.main in
    let merged = pkg.merged any_architecture in
    let main : Db = record db {
      packages = db.packages ++ package_row id b metadata.version merged ∷ [];
    } in
    insert_groups id merged.groups (
      insert_licenses id merged.licenses (
        insert_archs id pkg metadata.architectures
          (record st { main = main; next_package_id = id + 1 })))

unfoldable pub insert_packages : ℕ → SourceInfo → List SourcePackage → Store → Store
insert_packages b metadata [] st = st
insert_packages b metadata (pkg ∷ pkgs) st =
    insert_packages b metadata pkgs (insert_package b metadata pkg st)
