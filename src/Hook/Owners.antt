-- ===== src/Hook/Owners.antt =====
-- What holds of a push that the hook takes.
use aurweb.Prelude.{
  ℕ, true, false, not, ◌||◌, String, Option, none, some, List, [], ◌∷◌, ◌++◌, ◌≡◌, refl, subst, All,
  any, find?, str_eq, eq_iff, arith, Bool-cases, inl, inr,
}
use aurweb.Models.{Db, base_of_name}
use aurweb.Hook.{
  Check, passed, refused, Refusal, require, check_each, ◌>>=◌, ◌>>◌, is_in, branch_restricted,
  non_fast_forward, invalid_pkgbase, blacklisted_pkgbase, blacklisted_package, cannot_overwrite,
}
use aurweb.Hook.Passing.{Passes, require-Passes, >>_Passes, check_each-Passes, >>=_inv, >>_inv}
use aurweb.Hook.Described.{IsDescribed, validate_metadata_iff}
use aurweb.Hook.Metadata.{SourceInfo, SourcePackage, validate_metadata}
use aurweb.Hook.Trees.{validate_commit}
use aurweb.Hook.Push.{
  check_names, check_commits, Repository, Env, Arguments, Range, Provider, Warning, resolve,
  check_range, is_fast_forward, allow_overwrite, read_srcinfo, hidden, warn_unchanged, warn_or_die,
  join_warnings, check_blacklist, check_provider, is_of_other_base, check_package, check_packages,
  id_or_zero, check_push,
}

abbrev pub HasPassed : {A : Type 0} → Check A → Type 0
HasPassed {A} c = (a : A) × (c ≡ passed a)

join_warnings_inv :
    (a b : Check (List Warning)) (ws : List Warning)
    → join_warnings a b ≡ passed ws
    → HasPassed a × HasPassed b
join_warnings_inv (passed us) (passed vs) ws h = ((us, refl), (vs, refl))
join_warnings_inv (passed us) (refused r) ws h = cc
join_warnings_inv (refused r) b ws h = cc

-- An unprivileged user may not use a name that is kept.
warn_or_die_inv : (env : Env) (r : Refusal) → HasPassed (warn_or_die env r) → env.privileged ≡ true
warn_or_die_inv env r (ws, h) = elim (Bool-cases env.privileged) [
  | inl e ↦ e
  | inr e ↦ ground (arith, e, h)
]

-- What is checked of a package: it is no other base's, and it is neither kept nor provided unless the
-- user is privileged.
abbrev pub IsFree : Env → ℕ → Db → SourcePackage → Type 0
IsFree env b db pkg =
    (any (is_of_other_base b pkg.name) db.packages ≡ false)
    × (env.privileged ≡ false
        → (is_in pkg.name env.blacklist ≡ false)
          × (find? (λ p. str_eq p.name pkg.name) env.providers ≡ none))

check_blacklist_inv :
    (env : Env) (name : String) (r : Refusal)
    → HasPassed (check_blacklist env name r)
    → env.privileged ≡ false
    → is_in name env.blacklist ≡ false
check_blacklist_inv env name r (ws, h) e = elim (Bool-cases (is_in name env.blacklist)) [
  | inl k ↦ ground (arith, h, k, e)
  | inr k ↦ k
]

check_provider_inv :
    (env : Env) (o : Option Provider)
    → HasPassed (check_provider env o)
    → env.privileged ≡ false
    → o ≡ none
check_provider_inv env none h e = refl
check_provider_inv env (some p) (ws, h) e = ground (arith, h, e)

check_package_inv :
    (env : Env) (b : ℕ) (db : Db) (pkg : SourcePackage)
    → HasPassed (check_package env b db pkg)
    → IsFree env b db pkg
check_package_inv env b db pkg (ws, h) =
    let kept = check_blacklist env pkg.name (blacklisted_package pkg.name) in
    let provided = check_provider env (find? (λ p. str_eq p.name pkg.name) env.providers) in
    let others = any (is_of_other_base b pkg.name) db.packages in
    let own = require (not others) (cannot_overwrite pkg.name) >> passed [] in
    let (k, (vs, rest)) = join_warnings_inv kept (join_warnings provided own) ws h in
    let (p, (us, o)) = join_warnings_inv provided own vs rest in
    let free =
      (require-Passes (not others) (cannot_overwrite pkg.name)).0
        (>>_inv (require (not others) (cannot_overwrite pkg.name)) (passed []) us o).0 in
    (
      ground (arith, free),
      λ e. (
        check_blacklist_inv env pkg.name (blacklisted_package pkg.name) k e,
        check_provider_inv env (find? (λ p. str_eq p.name pkg.name) env.providers) p e,
      ),
    )

check_packages_inv :
    (env : Env) (b : ℕ) (db : Db) (pkgs : List SourcePackage)
    → HasPassed (check_packages env b db pkgs)
    → All (IsFree env b db) pkgs
check_packages_inv env b db [] h = tt
check_packages_inv env b db (pkg ∷ pkgs) (ws, h) =
    let (one, rest) =
      join_warnings_inv (check_package env b db pkg) (check_packages env b db pkgs) ws h in
    (check_package_inv env b db pkg one, check_packages_inv env b db pkgs rest)

-- What holds of a range of commits and a file that the hook takes.
abbrev pub IsTaken : Repository → Env → Arguments → Db → Range → SourceInfo → Type 0
IsTaken repo env args db r metadata =
    let head = repo.commit r.sha1_new in
    ((resolve repo env args ≡ passed r)
      × (r.refname ≡ "refs/heads/master")
      × ((is_fast_forward repo r || allow_overwrite env) ≡ true))
    × (read_srcinfo repo head ≡ passed metadata)
    × All (IsDescribed metadata head) metadata.packages
    × All (λ c. Passes (validate_commit env.limits c)) (repo.walk r.sha1_new (hidden r.sha1_old))
    × (metadata.base_name ≡ env.pkgbase)
    × (env.privileged ≡ false → is_in metadata.base_name env.blacklist ≡ false)
    × All (IsFree env (id_or_zero (base_of_name metadata.base_name db)) db) metadata.packages
    × HasPassed (warn_unchanged repo r)

pub passed_inj : {A : Type 0} (a b : A) → passed a ≡ passed b → a ≡ b
passed_inj a b h = cc

-- The parts of `IsTaken`, from the checks.
taken :
    (repo : Repository) (env : Env) (args : Arguments) (db : Db) (r : Range) (metadata : SourceInfo)
    (vs : List Warning)
    → resolve repo env args ≡ passed r
    → Passes (check_range repo env r)
    → read_srcinfo repo (repo.commit r.sha1_new) ≡ passed metadata
    → Passes (check_commits repo env r metadata)
    → check_names env metadata db ≡ passed vs
    → HasPassed (warn_unchanged repo r)
    → IsTaken repo env args db r metadata
taken repo env args db r metadata vs e1 e2 e3 e4 e6 e5 =
    let head = repo.commit r.sha1_new in
    let name = metadata.base_name in
    let branch = require (str_eq r.refname "refs/heads/master") branch_restricted in
    let forward = require (is_fast_forward repo r || allow_overwrite env) non_fast_forward in
    let (b, f) = (>>_Passes branch forward).0 e2 in
    let commits =
      check_each (validate_commit env.limits) (repo.walk r.sha1_new (hidden r.sha1_old)) in
    let (m, cs) = (>>_Passes (validate_metadata metadata head) commits).0 e4 in
    let base = id_or_zero (base_of_name name db) in
    let kept = check_blacklist env name (blacklisted_pkgbase name) in
    let pkgs = check_packages env base db metadata.packages in
    let matches = require (str_eq name env.pkgbase) (invalid_pkgbase name env.pkgbase) in
    let (n, names) = >>_inv matches (join_warnings kept pkgs) vs e6 in
    let (k, ps) = join_warnings_inv kept pkgs vs names in
    (
      (
        e1,
        (eq_iff r.refname "refs/heads/master").0
            ((require-Passes (str_eq r.refname "refs/heads/master") branch_restricted).0 b),
        (require-Passes (is_fast_forward repo r || allow_overwrite env) non_fast_forward).0 f,
      ),
      e3,
      (validate_metadata_iff metadata head).0 m,
      (check_each-Passes (validate_commit env.limits) (repo.walk r.sha1_new (hidden r.sha1_old))).0
          cs,
      (eq_iff name env.pkgbase).0
          ((require-Passes (str_eq name env.pkgbase) (invalid_pkgbase name env.pkgbase)).0 n),
      check_blacklist_inv env name (blacklisted_pkgbase name) k,
      check_packages_inv env base db metadata.packages ps,
      e5,
    )

pub check_push_inv :
    (repo : Repository) (env : Env) (args : Arguments) (db : Db)
    (c : Range × SourceInfo × List Warning)
    → check_push repo env args db ≡ passed c
    → IsTaken repo env args db c.0 c.1
unfolding check_push
check_push_inv repo env args db c h =
    let last = λ (r : Range) (metadata : SourceInfo) (ws vs : List Warning).
      let all : Check (Range × SourceInfo × List Warning) = passed (r, metadata, ws ++ vs) in all in
    let named = λ (r : Range) (metadata : SourceInfo) (ws : List Warning).
      check_names env metadata db >>= last r metadata ws in
    let warned =
      λ (r : Range) (metadata : SourceInfo). warn_unchanged repo r >>= named r metadata in
    let checked = λ (r : Range) (metadata : SourceInfo).
      check_commits repo env r metadata >>= λ u. warned r metadata in
    let read = λ (r : Range). read_srcinfo repo (repo.commit r.sha1_new) >>= checked r in
    let ranged = λ (r : Range). check_range repo env r >>= λ u. read r in
    let (r, e1, h1) = >>=_inv (resolve repo env args) ranged c h in
    let (u, e2, h2) = >>=_inv (check_range repo env r) (λ u. read r) c h1 in
    let (metadata, e3, h3) =
      >>=_inv (read_srcinfo repo (repo.commit r.sha1_new)) (checked r) c h2 in
    let (v, e4, h4) = >>=_inv (check_commits repo env r metadata) (λ u. warned r metadata) c h3 in
    let (ws, e5, h5) = >>=_inv (warn_unchanged repo r) (named r metadata) c h4 in
    let (vs, e6, h6) = >>=_inv (check_names env metadata db) (last r metadata ws) c h5 in
    let same : (r, metadata, ws ++ vs) ≡ c = passed_inj (r, metadata, ws ++ vs) c h6 in
    subst (λ d. IsTaken repo env args db d.0 d.1) same
      (taken repo env args db r metadata vs e1 e2 e3 e4 e6 (ws, e5))
