-- ===== src/Hook/Taking.antt =====
-- From what holds of a push to the run of the hook.
use aurweb.Prelude.{
  ℕ, true, false, not, ◌||◌, String, Option, none, some, List, [], ◌∷◌, ◌++◌, ◌≡◌, refl, subst, All,
  any, find?, str_eq, eq_iff, Bool-cases, inl, inr,
}
use aurweb.Models.{Db, base_of_name}
use aurweb.Hook.{
  Check, passed, Refusal, require, check_each, ◌>>=◌, ◌>>◌, is_in, branch_restricted,
  non_fast_forward, invalid_pkgbase, blacklisted_pkgbase, blacklisted_package, cannot_overwrite,
}
use aurweb.Hook.Passing.{Passes, require-Passes, >>_Passes, check_each-Passes}
use aurweb.Hook.Described.{validate_metadata_iff}
use aurweb.Hook.Metadata.{SourceInfo, SourcePackage, validate_metadata}
use aurweb.Hook.Trees.{validate_commit}
use aurweb.Hook.Push.{
  check_names, check_commits, Repository, Env, Arguments, Range, Provider, Warning, check_range,
  is_fast_forward, allow_overwrite, hidden, warn_or_die, join_warnings, check_blacklist,
  check_provider, is_of_other_base, check_package, check_packages, id_or_zero, check_push,
}
use aurweb.Prelude.{str_eq_refl}
use aurweb.Prelude.{sym, ◌↔◌}
use aurweb.Hook.{provided_package}
use aurweb.Models.{PackageBase, send, update_notification}
use aurweb.Hook.Saving.{create_pkgbase, new_base, save_metadata}
use aurweb.Hook.Push.{ensure_base, save_found, store_push, main, new_references}
use aurweb.Hook.Tables.{Store}
use aurweb.Hook.Pushes.{main-IsTaken}
use aurweb.Hook.Owners.{HasPassed, IsFree, IsTaken}

bind_passes :
    {A B : Type 0} (c : Check A) (f : A → Check B) (a : A)
    → c ≡ passed a
    → HasPassed (f a)
    → HasPassed (c >>= f)
bind_passes c f a e h = subst (λ d. HasPassed (d >>= f)) (sym e) h

join_warnings_passes :
    (a b : Check (List Warning)) → HasPassed a → HasPassed b → HasPassed (join_warnings a b)
join_warnings_passes a b (ws, e) (vs, f) = rw (e, f) (ws ++ vs, refl)

warn_or_die_passes :
    (env : Env) (r : Refusal) → env.privileged ≡ true → HasPassed (warn_or_die env r)
warn_or_die_passes env r h = rw h (r ∷ [], refl)

check_blacklist_passes :
    (env : Env) (name : String) (r : Refusal)
    → (env.privileged ≡ false → is_in name env.blacklist ≡ false)
    → HasPassed (check_blacklist env name r)
check_blacklist_passes env name r h = elim (Bool-cases env.privileged) [
  | inr e ↦ rw (h e) ([], refl)
  | inl e ↦ elim (Bool-cases (is_in name env.blacklist)) [
    | inl k ↦ rw k (warn_or_die_passes env r e)
    | inr k ↦ rw k ([], refl)
  ]
]

check_provider_passes :
    (env : Env) (o : Option Provider)
    → (env.privileged ≡ false → o ≡ none)
    → HasPassed (check_provider env o)
check_provider_passes env none h = ([], refl)
check_provider_passes env (some p) h = elim (Bool-cases env.privileged) [
  | inl e ↦ warn_or_die_passes env (provided_package p.repo p.name) e
  | inr e ↦ let clash = h e in cc
]

check_package_passes :
    (env : Env) (b : ℕ) (db : Db) (pkg : SourcePackage)
    → IsFree env b db pkg
    → HasPassed (check_package env b db pkg)
check_package_passes env b db pkg (free, kept) =
    let own : HasPassed (
        require (not (any (is_of_other_base b pkg.name) db.packages)) (cannot_overwrite pkg.name)
        >> passed []) =
      rw free ([], refl) in
    join_warnings_passes (check_blacklist env pkg.name (blacklisted_package pkg.name))
      (join_warnings (check_provider env (find? (λ p. str_eq p.name pkg.name) env.providers)) (
        require (not (any (is_of_other_base b pkg.name) db.packages)) (cannot_overwrite pkg.name)
        >> passed []))
      (check_blacklist_passes env pkg.name (blacklisted_package pkg.name) (λ e. (kept e).0))
      (join_warnings_passes (check_provider env (find? (λ p. str_eq p.name pkg.name) env.providers))
        (require (not (any (is_of_other_base b pkg.name) db.packages)) (cannot_overwrite pkg.name)
          >> passed [])
        (check_provider_passes env (find? (λ p. str_eq p.name pkg.name) env.providers)
          (λ e. (kept e).1))
        own)

check_packages_passes :
    (env : Env) (b : ℕ) (db : Db) (pkgs : List SourcePackage)
    → All (IsFree env b db) pkgs
    → HasPassed (check_packages env b db pkgs)
check_packages_passes env b db [] h = ([], refl)
check_packages_passes env b db (pkg ∷ pkgs) h =
    join_warnings_passes (check_package env b db pkg) (check_packages env b db pkgs)
      (check_package_passes env b db pkg h.0) (check_packages_passes env b db pkgs h.1)

-- The package base that a push needs is there, or is created.
find?-new :
    (name : String) (y : PackageBase) (ps : List PackageBase)
    → str_eq y.name name ≡ true
    → (z : PackageBase) × (find? (λ p. str_eq p.name name) (ps ++ y ∷ []) ≡ some z)
find?-new name y [] e = (y, rw e refl)
find?-new name y (p ∷ ps) e = elim (Bool-cases (str_eq p.name name)) [
  | inl k ↦ (p, rw k refl)
  | inr k ↦ rw k (find?-new name y ps e)
]

base-ensure_base :
    (env : Env) (name : String) (o : Option PackageBase) (st : Store)
    → base_of_name name st.main ≡ o
    → (z : PackageBase) × (base_of_name name (ensure_base env name o st).main ≡ some z)
unfolding create_pkgbase
base-ensure_base env name none st e =
    find?-new name (new_base st.next_package_base_id env.now name env.user.id) st.main.package_bases
      (str_eq_refl name)
base-ensure_base env name (some p) st e = (p, e)

store_push_passes :
    (env : Env) (metadata : SourceInfo) (st : Store) → HasPassed (store_push env metadata st)
unfolding store_push
store_push_passes env metadata st =
    let name = metadata.base_name in
    let ready = ensure_base env name (base_of_name name st.main) st in
    let (z, e) = base-ensure_base env name (base_of_name name st.main) st refl in
    subst (λ o. HasPassed (save_found env metadata o ready)) (sym e) (found z ready)
  where
    found : (z : PackageBase) (ready : Store) → HasPassed (save_found env metadata (some z) ready)
    found z ready =
        let saved = save_metadata env.now env.user.id metadata z ready in
        (record saved { main = send (update_notification env.user.id z.id ∷ []) saved.main }, refl)

check_names_passes :
    (env : Env) (metadata : SourceInfo) (db : Db)
    → metadata.base_name ≡ env.pkgbase
    → (env.privileged ≡ false → is_in metadata.base_name env.blacklist ≡ false)
    → All (IsFree env (id_or_zero (base_of_name metadata.base_name db)) db) metadata.packages
    → HasPassed (check_names env metadata db)
check_names_passes env metadata db n k ps =
    let name = metadata.base_name in
    let kept = check_blacklist env name (blacklisted_pkgbase name) in
    let pkgs = check_packages env (id_or_zero (base_of_name name db)) db metadata.packages in
    let matches =
      (require-Passes (str_eq name env.pkgbase) (invalid_pkgbase name env.pkgbase)).1
        ((eq_iff name env.pkgbase).1 n) in
    subst (λ c. HasPassed (c >> join_warnings kept pkgs)) (sym matches)
      (join_warnings_passes kept pkgs (check_blacklist_passes env name (blacklisted_pkgbase name) k)
        (check_packages_passes env (id_or_zero (base_of_name name db)) db metadata.packages ps))

check_push_passes :
    (repo : Repository) (env : Env) (args : Arguments) (db : Db) (r : Range) (metadata : SourceInfo)
    → IsTaken repo env args db r metadata
    → HasPassed (check_push repo env args db)
unfolding check_push
check_push_passes repo env args db r metadata ((e1, b, f), e3, m, cs, n, k, ps, (ws, e5)) =
    let head = repo.commit r.sha1_new in
    let branch = require (str_eq r.refname "refs/heads/master") branch_restricted in
    let forward = require (is_fast_forward repo r || allow_overwrite env) non_fast_forward in
    let e2 : Passes (check_range repo env r) = (>>_Passes branch forward).1 (
      (require-Passes (str_eq r.refname "refs/heads/master") branch_restricted).1
          ((eq_iff r.refname "refs/heads/master").1 b),
      (require-Passes (is_fast_forward repo r || allow_overwrite env) non_fast_forward).1 f,
    ) in
    let commits =
      check_each (validate_commit env.limits) (repo.walk r.sha1_new (hidden r.sha1_old)) in
    let e4 : Passes (check_commits repo env r metadata) =
      (>>_Passes (validate_metadata metadata head) commits).1 (
        (validate_metadata_iff metadata head).1 m,
        (check_each-Passes (validate_commit env.limits)
              (repo.walk r.sha1_new (hidden r.sha1_old))).1
            cs,
      ) in
    let (vs, e6) = check_names_passes env metadata db n k ps in
    rw (e1, e2, e3, e4, e5, e6) ((r, metadata, ws ++ vs), refl)

-- The hook takes a push exactly when the checks hold that `IsTaken` states, of the range of commits
-- that is pushed and of the .SRCINFO file of its head: the branch is master and fast-forwarded,
-- unless the user may overwrite; the file and each new commit may stand; the package base is the
-- one that is pushed to, and is not blacklisted, nor is any package blacklisted or in the official
-- repositories, unless the user is privileged; no package is another base's; and the old head, if
-- there is one and it differs, has a .SRCINFO file.
pub main_iff :
    (repo : Repository) (env : Env) (args : Arguments) (st : Store)
    → HasPassed (main repo env args st)
      ↔ ((r : Range) × (metadata : SourceInfo) × IsTaken repo env args st.main r metadata)
unfolding main
main_iff repo env args st = (
  (λ h.
      let (out, e) = h in
      let (r, metadata, taken, stored, refs) = main-IsTaken repo env args st out e in
      (r, metadata, taken)),
  λ h.
      let (r, metadata, taken) = h in
      let (c, e) = check_push_passes repo env args st.main r metadata taken in
      let (stored, f) = store_push_passes env c.1 st in
      rw (e, f)
        (
          record {
            store = stored;
            references = new_references c.1.base_name c.0.sha1_new;
            warnings = c.2;
          },
          refl,
        ),
)
