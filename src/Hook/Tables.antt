-- ===== src/Hook/Tables.antt =====
-- The tables that a push changes, of aurweb/schema.py. The types of dependencies and relations are rows
-- that aurweb/initdb.py inserts, named here.
use aurweb.Prelude.{ℕ, String, Option, List}
use aurweb.Models.{Db}

pub data DependencyType : Type 0 where
  depends makedepends checkdepends optdepends : DependencyType

pub data RelationType : Type 0 where
  conflicts provides replaces : RelationType

pub record PackageSource : Type 0 where
  pub package_id : ℕ
  pub source : String
  pub source_arch : Option String

pub record PackageDependency : Type 0 where
  pub package_id : ℕ
  pub dep_type : DependencyType
  pub dep_name : String
  pub dep_desc : String
  pub dep_condition : String
  pub dep_arch : Option String

pub record PackageRelationRow : Type 0 where
  pub package_id : ℕ
  pub rel_type : RelationType
  pub rel_name : String
  pub rel_condition : String
  pub rel_arch : Option String

-- A row of Licenses or Groups, and one that joins it to a package.
pub record Named : Type 0 where
  pub id : ℕ
  pub name : String

pub record Joined : Type 0 where
  pub package_id : ℕ
  pub named_id : ℕ

-- The database of the hook: the tables that other programs use too, and those of the packages.
pub record Store : Type 0 where
  pub main : Db
  pub sources : List PackageSource
  pub depends : List PackageDependency
  pub relations : List PackageRelationRow
  pub licenses : List Named
  pub groups : List Named
  pub package_licenses : List Joined
  pub package_groups : List Joined
  pub next_package_base_id : ℕ
  pub next_package_id : ℕ
  pub next_license_id : ℕ
  pub next_group_id : ℕ
