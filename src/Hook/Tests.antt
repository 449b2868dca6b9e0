-- ===== src/Hook/Tests.antt =====
-- A push to the package base foo, of one commit with a key file.
use Prim.Native.String.{◌++◌ as append}
use aurweb.Prelude.{
  ℕ, true, false, String, none, some, [], ◌∷◌, ◌≡◌, refl, ◌↔◌, arith, str_eq, if◌then◌else◌, All,
}
use aurweb.Prelude.{subst, ap, sym, eq_iff}
use aurweb.Models.{Package}
use aurweb.Samples.{db, alice}
use aurweb.Hook.{Commit, blob, tree, cons, nil, Check, passed, refused, in_tree}
use aurweb.Hook.Relations.{
  soname_v1, optional_dependency, any_architecture, architecture, sql_rel_requirement,
}
use aurweb.Hook.Metadata.{MergedPackage, SourceInfo, validate_metadata, validate_package}
use aurweb.Hook.Trees.{Limits, compliant, validate_commit, validate_keys}
use aurweb.Hook.Tables.{Store}
use aurweb.Hook.Inserting.{insert_packages, insert_package}
use aurweb.Hook.Saving.{save_metadata, create_pkgbase, delete_packages}
use aurweb.Hook.Push.{
  Repository, Env, Arguments, update, Parsed, source_info, parse_error, Pushed, Range, main,
  check_push, store_push, new_references,
}
use aurweb.Hook.Legacy.{
  parse_dep, parse_dep_lem, described, partition, or_empty, has_operator, strip_condition,
}
use aurweb.Hook.Described.{IsDescribed, validate_metadata_iff}
use aurweb.Prelude.{delete_where, update_where, ◌==◌, ◌++◌}
use aurweb.Samples.{foo}
use aurweb.Hook.Stored.{package_rows, save_metadata-packages, stored_base}
use aurweb.Hook.Passing.{Passes}
use aurweb.Hook.Allowed.{IsAllowed}
use aurweb.Hook.Accepted.{validate_commit_iff}
use aurweb.Hook.Owners.{IsTaken, HasPassed}
use aurweb.Hook.Taking.{main_iff}
use aurweb.Hook.Names.{NamesOwned}
use aurweb.Hook.Pushes.{main-NamesOwned, main-IsTaken}

abbrev limits : Limits
limits = record { max_blob_size = 256000; license_check = λ c. compliant }

abbrev head : Commit
head = record {
  id = "c1";
  tree =
      blob ".SRCINFO" 40 "b1"
      ∷ blob "PKGBUILD" 60 "b2"
      ∷ tree "keys" (cons (tree "pgp" (cons (blob "A.asc" 10 "b3") nil)) nil)
      ∷ [];
}

key_file_there : in_tree "keys/pgp/A.asc" head.tree ≡ true
key_file_there = refl

validate_commit_iff_example : Passes (validate_commit limits head) ↔ IsAllowed limits head
validate_commit_iff_example =
    validate_commit_iff limits head (refl, (refl, (refl, tt))) (tt, (tt, ((refl, tt), tt)))

soname : sql_rel_requirement (soname_v1 "libfoo.so" none (some "1") (some "64")) ≡ "=1-64"
unfolding sql_rel_requirement
soname = refl

abbrev merged : MergedPackage
merged = record {
  name = "foo";
  description = some "A package.";
  url = none;
  install = none;
  changelog = none;
  sources = "https://example.org/foo.tar.gz" ∷ "keys/pgp/A.asc" ∷ [];
  dependencies = [];
  make_dependencies = [];
  check_dependencies = [];
  optional_dependencies =
      optional_dependency (record { name = "bar"; version_requirement = some ">=2" }) (some "extra")
      ∷ [];
  conflicts = [];
  provides = [];
  replaces = [];
  licenses = "MIT" ∷ [];
  groups = "tools" ∷ [];
}

abbrev file : SourceInfo
file = record {
  base_name = "foo";
  version = "1-1";
  architectures = architecture "x86_64" ∷ [];
  packages = record { name = "foo"; merged = λ arch. merged } ∷ [];
}

abbrev repo : Repository
repo = record {
  references = λ name. none;
  commit = λ sha. head;
  walk = λ from hidden. if str_eq from "new" then head ∷ [] else [];
  parse = λ oid. source_info file;
}

abbrev env : Env
env = record {
  user = alice;
  pkgbase = "foo";
  privileged = false;
  overwrite = false;
  now = 500;
  limits = limits;
  blacklist = "linux" ∷ [];
  providers = [];
}

abbrev row : ℕ → ℕ → String → Package
row id b name = record {
  id = id;
  package_base_id = b;
  name = name;
  version = "0-1";
  description = none;
  url = none;
}

abbrev store : Store
store = record {
  main = record db { packages = row 1 10 "foo" ∷ row 2 20 "bar" ∷ [] };
  sources = record { package_id = 1; source = "old"; source_arch = none } ∷ [];
  depends = [];
  relations = [];
  licenses = [];
  groups = [];
  package_licenses = [];
  package_groups = [];
  next_package_base_id = 30;
  next_package_id = 3;
  next_license_id = 1;
  next_group_id = 1;
}

abbrev pushed_or : Check Pushed → Pushed
pushed_or (passed p) = p
pushed_or (refused r) = record { store = store; references = []; warnings = [] }

abbrev args : Arguments
args = update "refs/heads/master" "old" "new"

pushed : Pushed
pushed = pushed_or (main repo env args store)

main_passes : main repo env args store ≡ passed pushed
unfolding pushed main check_push store_push validate_metadata validate_package validate_commit
    validate_keys
main_passes = refl

stored_sources :
    pushed.store.sources
    ≡ record {
      package_id = 3;
      source = "https://example.org/foo.tar.gz";
      source_arch = some "x86_64";
    }
      ∷ record { package_id = 3; source = "keys/pgp/A.asc"; source_arch = some "x86_64" }
      ∷ []
unfolding pushed main check_push store_push validate_metadata validate_package validate_commit
    validate_keys save_metadata delete_packages insert_packages insert_package create_pkgbase
stored_sources = refl

main-IsTaken_example :
    (r : Range) × (metadata : SourceInfo) × IsTaken repo env args store.main r metadata
    × (store_push env metadata store ≡ passed pushed.store)
    × (pushed.references ≡ new_references "foo" r.sha1_new)
main-IsTaken_example = main-IsTaken repo env args store pushed main_passes

apart : {m n : ℕ} → ◌≡◌ {A = String} "foo" "bar" → m ≡ n
apart h = let clash = (eq_iff "foo" "bar").1 h in cc

abbrev info_of : Parsed → SourceInfo
info_of (source_info m) = m
info_of (parse_error message) = file

named :
    (oid : String) (metadata : SourceInfo)
    → repo.parse oid ≡ source_info metadata
    → All (λ pkg. (pkg.merged any_architecture).name ≡ pkg.name) metadata.packages
named oid metadata h =
    subst (λ m. All (λ pkg. (pkg.merged any_architecture).name ≡ pkg.name) m.packages)
      (ap info_of h) (refl, tt)

main-NamesOwned_example : NamesOwned pushed.store.main.packages
main-NamesOwned_example =
    main-NamesOwned repo env args store pushed named
      (((λ n. refl), ((λ n. apart n), tt)), (((λ n. apart (sym n)), ((λ n. refl), tt)), tt))
      (omega arith) main_passes

dependency :
    parse_dep "foo>=1.2: for bars"
    ≡ record { depname = "foo"; desc = "for bars"; depcond = ">=1.2" }
dependency = refl

-- An operator strips its own line only.
of_two_lines : strip_condition "foo>1\nbar" ≡ "foo\nbar"
of_two_lines = refl

parse_dep_lem_example :
    let dep = parse_dep "foo>=1.2: for bars" in
    (described (append dep.depname dep.depcond) (partition "foo>=1.2: for bars").rest
      ≡ "foo>=1.2: for bars")
    × (or_empty (partition "foo>=1.2: for bars").rest ≡ dep.desc)
    × (has_operator dep.depname ≡ false)
parse_dep_lem_example = parse_dep_lem "foo>=1.2: for bars" refl

validate_metadata_iff_example :
    Passes (validate_metadata file head) ↔ All (IsDescribed file head) file.packages
validate_metadata_iff_example = validate_metadata_iff file head

save_metadata-packages_example :
    let after = (save_metadata 500 1 file foo store).main in
    (after.packages
      ≡ delete_where (λ p. p.package_base_id == 10) store.main.packages
        ++ package_rows 3 10 "1-1" file.packages)
    × (after.package_bases
        ≡ update_where (λ p. p.id == 10) (stored_base 500 1) store.main.package_bases)
save_metadata-packages_example = save_metadata-packages 500 1 file foo store

main_iff_example :
    HasPassed (main repo env args store)
    ↔ ((r : Range) × (metadata : SourceInfo) × IsTaken repo env args store.main r metadata)
main_iff_example = main_iff repo env args store
