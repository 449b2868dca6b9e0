-- ===== src/Hook/Push.antt =====
-- `main` of aurweb/git/update.py: a push to the repository of a package base. The database is written
-- only after every check, so that a refused push leaves it; the references and the notification come
-- last. A push by a privileged user is warned where another's is refused.
use aurweb.Prelude.{
  ℕ, Bool, true, false, not, ◌&&◌, ◌||◌, String, Option, none, some, List, [], ◌∷◌, ◌++◌, ◌==◌,
  if◌then◌else◌, any, find?, str_eq, f_string,
}
use aurweb.Models.{Db, Package, PackageBase, User, base_of_name, update_notification, send}
use aurweb.Hook.{
  Commit, TreeEntry, blob, entry_named, is_in, Check, passed, refused, require, check_each, ◌>>=◌,
  ◌>>◌, Refusal, invalid_arguments, branch_restricted, non_fast_forward, repository_not_found,
  missing_srcinfo, srcinfo_error, srcinfo_unchanged, invalid_pkgbase, blacklisted_pkgbase,
  blacklisted_package, provided_package, cannot_overwrite, type_error, key_error, attribute_error,
}
use aurweb.Hook.Metadata.{SourceInfo, SourcePackage, validate_metadata}
use aurweb.Hook.Trees.{Limits, validate_commit}
use aurweb.Hook.Tables.{Store}
use aurweb.Hook.Saving.{create_pkgbase, save_metadata}

-- The command line: `restore`, or the reference and the old and new commits.
pub data Arguments : Type 0 where
  restore : Arguments
  update : (refname sha1_old sha1_new : String) → Arguments
  other_arguments : Arguments

pub data Parsed : Type 0 where
  source_info : SourceInfo → Parsed
  parse_error : String → Parsed

-- What the hook reads of the repository: its references, the commit of an ID, the commits that are
-- reached from one but not from another, and the parsed content of a file.
pub record Repository : Type 0 where
  pub references : String → Option String
  pub commit : String → Commit
  pub walk : String → Option String → List Commit
  pub parse : String → Parsed

pub record Provider : Type 0 where
  pub name : String
  pub repo : String

-- The environment of the hook, and the tables that aurblup.py and the administrators keep: the names
-- that are blocked, and the dictionary of the official packages, with the repository of each.
pub record Env : Type 0 where
  pub user : User
  pub pkgbase : String
  pub privileged : Bool
  pub overwrite : Bool
  pub now : ℕ
  pub limits : Limits
  pub blacklist : List String
  pub providers : List Provider

abbrev pub Warning : Type 0
Warning = Refusal

abbrev pub allow_overwrite : Env → Bool
allow_overwrite env = env.overwrite && env.privileged

-- `warn_or_die`
abbrev pub warn_or_die : Env → Refusal → Check (List Warning)
warn_or_die env r = if env.privileged then passed (r ∷ []) else refused r

abbrev pub zero_sha1 : String
zero_sha1 = "0000000000000000000000000000000000000000"

pub record Range : Type 0 where
  pub refname : String
  pub sha1_old : String
  pub sha1_new : String

abbrev pub branch_of : String → String
branch_of pkgbase = f_string ("refs/heads/" ∷ pkgbase ∷ [])

abbrev pub restored : String → Option String → Check Range
restored pkgbase none = refused (repository_not_found pkgbase)
restored pkgbase (some sha1) =
    passed (record { refname = "refs/heads/master"; sha1_old = sha1; sha1_new = sha1 })

abbrev pub resolve : Repository → Env → Arguments → Check Range
resolve repo env restore = restored env.pkgbase (repo.references (branch_of env.pkgbase))
resolve repo env (update refname sha1_old sha1_new) =
    passed (record { refname = refname; sha1_old = sha1_old; sha1_new = sha1_new })
resolve repo env other_arguments = refused invalid_arguments

abbrev pub is_empty : List Commit → Bool
is_empty [] = true
is_empty (c ∷ cs) = false

abbrev pub hidden : String → Option String
hidden sha1_old = if str_eq sha1_old zero_sha1 then none else some sha1_old

-- Every commit of the old branch is in the new one.
abbrev pub is_fast_forward : Repository → Range → Bool
is_fast_forward repo r =
    str_eq r.sha1_old zero_sha1 || is_empty (repo.walk r.sha1_old (some r.sha1_new))

abbrev pub check_range : Repository → Env → Range → Check (Unit {0})
check_range repo env r =
    require (str_eq r.refname "refs/heads/master") branch_restricted
    >> require (is_fast_forward repo r || allow_overwrite env) non_fast_forward

abbrev pub parsed_info : Commit → Parsed → Check SourceInfo
parsed_info head (source_info m) = passed m
parsed_info head (parse_error message) = refused (srcinfo_error message head.id)

abbrev pub parse_blob : Repository → Commit → Option TreeEntry → Check SourceInfo
parse_blob repo head none = refused (missing_srcinfo head.id)
parse_blob repo head (some (blob name size oid)) = parsed_info head (repo.parse oid)
parse_blob repo head (some e) = refused attribute_error

abbrev pub read_srcinfo : Repository → Commit → Check SourceInfo
read_srcinfo repo head = parse_blob repo head (entry_named ".SRCINFO" head.tree)

-- The object IDs of the two files are compared; an entry that is no file has none here.
abbrev pub has_oid : Option String → Option String → Bool
has_oid (some a) (some b) = str_eq a b
has_oid _ _ = false

abbrev pub blob_oid : TreeEntry → Option String
blob_oid (blob name size oid) = some oid
blob_oid _ = none

abbrev pub compare_srcinfo : Option TreeEntry → Option TreeEntry → Check (List Warning)
compare_srcinfo (some a) (some b) =
    passed (if has_oid (blob_oid a) (blob_oid b) then srcinfo_unchanged ∷ [] else [])
compare_srcinfo _ _ = refused key_error

abbrev pub warn_unchanged : Repository → Range → Check (List Warning)
warn_unchanged repo r =
    if str_eq r.sha1_old zero_sha1 || str_eq r.sha1_old r.sha1_new
    then passed []
    else compare_srcinfo (entry_named ".SRCINFO" (repo.commit r.sha1_old).tree)
        (entry_named ".SRCINFO" (repo.commit r.sha1_new).tree)

-- One check after another, with the warnings of both.
abbrev pub join_warnings : Check (List Warning) → Check (List Warning) → Check (List Warning)
join_warnings a b = a >>= λ ws. b >>= λ vs. passed (ws ++ vs)

abbrev pub check_blacklist : Env → String → Refusal → Check (List Warning)
check_blacklist env name r = if is_in name env.blacklist then warn_or_die env r else passed []

abbrev pub check_provider : Env → Option Provider → Check (List Warning)
check_provider env none = passed []
check_provider env (some p) = warn_or_die env (provided_package p.repo p.name)

abbrev pub id_or_zero : Option PackageBase → ℕ
id_or_zero none = 0
id_or_zero (some p) = p.id

abbrev pub is_of_other_base : ℕ → String → Package → Bool
is_of_other_base b name p = str_eq p.name name && not (p.package_base_id == b)

-- A round of the loop over the packages.
abbrev pub check_package : Env → ℕ → Db → SourcePackage → Check (List Warning)
check_package env b db pkg =
    join_warnings (check_blacklist env pkg.name (blacklisted_package pkg.name)) (
      join_warnings (check_provider env (find? (λ p. str_eq p.name pkg.name) env.providers)) (
        require (not (any (is_of_other_base b pkg.name) db.packages)) (cannot_overwrite pkg.name)
        >> passed []))

abbrev pub check_packages : Env → ℕ → Db → List SourcePackage → Check (List Warning)
check_packages env b db [] = passed []
check_packages env b db (pkg ∷ pkgs) =
    join_warnings (check_package env b db pkg) (check_packages env b db pkgs)

-- The checks of the names in the file.
abbrev pub check_names : Env → SourceInfo → Db → Check (List Warning)
check_names env metadata db =
    require (str_eq metadata.base_name env.pkgbase) (invalid_pkgbase metadata.base_name env.pkgbase)
    >> join_warnings
        (check_blacklist env metadata.base_name (blacklisted_pkgbase metadata.base_name))
        (check_packages env (id_or_zero (base_of_name metadata.base_name db)) db metadata.packages)

-- The checks of the file and of the new commits.
abbrev pub check_commits : Repository → Env → Range → SourceInfo → Check (Unit {0})
check_commits repo env r metadata =
    validate_metadata metadata (repo.commit r.sha1_new)
    >> check_each (validate_commit env.limits) (repo.walk r.sha1_new (hidden r.sha1_old))

-- All the checks of `main`, in its order: the range, the file, the commits, whether the file is
-- unchanged, and the names.
unfoldable pub check_push :
    Repository → Env → Arguments → Db → Check (Range × SourceInfo × List Warning)
check_push repo env args db = do
  r ← resolve repo env args
  ranged ← check_range repo env r
  metadata ← read_srcinfo repo (repo.commit r.sha1_new)
  checked ← check_commits repo env r metadata
  ws ← warn_unchanged repo r
  vs ← check_names env metadata db
  passed (r, metadata, ws ++ vs)

abbrev pub ensure_base : Env → String → Option PackageBase → Store → Store
ensure_base env name (some p) st = st
ensure_base env name none st = (create_pkgbase env.now name env.user.id st).1

abbrev pub save_found : Env → SourceInfo → Option PackageBase → Store → Check Store
save_found env metadata none st = refused type_error
save_found env metadata (some p) st =
    let saved = save_metadata env.now env.user.id metadata p st in
    passed (record saved { main = send (update_notification env.user.id p.id ∷ []) saved.main })

-- The package base is created if it is missing, and its metadata stored.
unfoldable pub store_push : Env → SourceInfo → Store → Check Store
store_push env metadata st =
    let name = metadata.base_name in
    let ready = ensure_base env name (base_of_name name st.main) st in
    save_found env metadata (base_of_name name ready.main) ready

-- What a push leaves: the database, the references that are set, and the warnings.
pub record Pushed : Type 0 where
  pub store : Store
  pub references : List (String × String)
  pub warnings : List Warning

abbrev pub new_references : String → String → List (String × String)
new_references pkgbase sha1 =
    (branch_of pkgbase, sha1) ∷ (f_string ("refs/namespaces/" ∷ pkgbase ∷ "/HEAD" ∷ []), sha1) ∷ []

unfoldable pub main : Repository → Env → Arguments → Store → Check Pushed
unfolding check_push store_push
main repo env args st = do
  c ← check_push repo env args st.main
  stored ← store_push env c.1 st
  passed (record {
    store = stored;
    references = new_references c.1.base_name c.0.sha1_new;
    warnings = c.2;
  })
