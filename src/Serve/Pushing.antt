-- ===== src/Serve/Pushing.antt =====
-- Who may push over SSH: the branch of `serve` in aurweb/git/serve.py that calls git.
use aurweb.Prelude.{
  ℕ, ◌≡◌, refl, true, false, not, ◌||◌, String, none, some, List, [], ◌∷◌, ◌==◌, any, length, ltb,
  f_string, ◌-◌, arith, str_eq, Bool-cases, ◌⊎◌, inl, inr, ==_sound, Option, All, holds, ap, ◌&&◌,
  ◌≢◌, All-update_where,
}
use aurweb.Models.{Db, User, PackageBase, PackageComaintainer}
use aurweb.Serve.{
  raised, Exception, invalid_repository_name, invalid_arguments, orphan_package_base,
  permission_denied, maintenance, banned, bans_match, Session, log_ssh_login, user_email_verified,
  pkgbase_exists, pkgbase_has_write_access, pkgbase_is_orphan, email_not_verified, Outcome, ◌>>=◌,
}
use aurweb.Serve.Steps.{IsReading}
use aurweb.Serve.Dispatch.{
  ServeConfig, serve_git, serve, is_readonly, checkarg, pkgbase_of_path, is_excepted, argument,
  run_action, Effect, split_git,
}

checkarg-IsReading :
    (cmdargv argdesc : List String) (db : Db) → IsReading (checkarg cmdargv argdesc) db
unfolding checkarg
checkarg-IsReading cmdargv argdesc db =
    elim (Bool-cases (not (ltb (length cmdargv - 1) (length argdesc)))) [
      | inr e ↦ inr (
        invalid_arguments (f_string ("missing " ∷ argument (length cmdargv - 1) argdesc ∷ [])),
        rw e refl,
      )
      | inl e ↦ elim (Bool-cases (not (ltb (length argdesc) (length cmdargv - 1)))) [
        | inr f ↦ inr (invalid_arguments "too many arguments", rw (e, f) refl)
        | inl f ↦ inl (tt, rw (e, f) refl)
      ]
    ]

serve_git-push :
    (config : ServeConfig) (s : Session) (cmdargv : List String) (db : Db)
    → s.privileged ≡ false
    → pkgbase_exists (pkgbase_of_path (argument 1 cmdargv)) db ≡ true
    → pkgbase_has_write_access (pkgbase_of_path (argument 1 cmdargv)) s.user db ≡ false
    → (e : Exception) × (serve_git config s "git-receive-pack" cmdargv db ≡ (raised e, db))
unfolding serve_git
serve_git-push config s cmdargv db plain ex closed =
    let pkgbase = pkgbase_of_path (argument 1 cmdargv) in
    elim (checkarg-IsReading cmdargv ("path" ∷ []) db) [
      | inr (x, e) ↦ (x, rw e refl)
      | inl (_, e) ↦ elim (Bool-cases (config.repo_regex pkgbase)) [
        | inr r ↦ (invalid_repository_name pkgbase, rw (e, r) refl)
        | inl r ↦ elim (Bool-cases (pkgbase_is_orphan pkgbase db)) [
          | inl o ↦ (orphan_package_base pkgbase, rw (e, r, plain, ex, closed, o) refl)
          | inr o ↦ (permission_denied s.user, rw (e, r, plain, ex, closed, o) refl)
        ]
      ]
    ]

module _ (pkgbase user : String) (b uid : ℕ) where
  -- The users of the name have the ID.
  abbrev pub IsOnlyUser : User → Type 0
  IsOnlyUser v = str_eq v.username user ≡ true → v.id ≡ uid

  -- The package bases of the name have the ID, and another maintainer or none.
  abbrev pub IsOfOther : PackageBase → Type 0
  IsOfOther p = str_eq p.name pkgbase ≡ true → (p.id ≡ b) × (p.maintainer_uid ≢ some uid)

  -- The user is no co-maintainer.
  abbrev pub IsOtherRow : PackageComaintainer → Type 0
  IsOtherRow c = c.package_base_id ≡ b → c.users_id ≢ uid

  maintains_not : (o : Option ℕ) → o ≢ some uid → holds o uid ≡ false
  maintains_not none h = refl
  maintains_not (some a) h = elim (Bool-cases (a == uid)) [
    | inl e ↦ absurd (h (ap (λ (n : ℕ). some n) (==_sound a uid e)))
    | inr e ↦ e
  ]

  any-rows :
      (cs : List PackageComaintainer)
      → All IsOtherRow cs
      → any (λ c. c.package_base_id == b && c.users_id == uid) cs ≡ false
  any-rows [] h = refl
  any-rows (c ∷ cs) h = elim (Bool-cases (c.package_base_id == b && c.users_id == uid)) [
    | inr e ↦ rw e (any-rows cs h.1)
    | inl e ↦ absurd (h.0 (ground (arith, e)) (ground (arith, e)))
  ]

  -- The inner test of `pkgbase_has_write_access`.
  any-users :
      (p : PackageBase) (cs : List PackageComaintainer) (us : List User)
      → p.id ≡ b
      → p.maintainer_uid ≢ some uid
      → All IsOtherRow cs
      → All IsOnlyUser us
      → any
          (λ u.
            (holds p.maintainer_uid u.id
              || any (λ c. c.package_base_id == p.id && c.users_id == u.id) cs)
            && str_eq u.username user)
          us
        ≡ false
  any-users p cs [] i m h k = refl
  any-users p cs (u ∷ us) i m h k = elim (Bool-cases (str_eq u.username user)) [
    | inr e ↦ rw e (ground (arith, any-users p cs us i m h k.1))
    | inl e ↦
        let own = k.0 e in
        rw (e, own, i)
          (ground
            (arith, maintains_not p.maintainer_uid m, any-rows cs h, any-users p cs us i m h k.1))
  ]

  has_write_access-none :
      (cs : List PackageComaintainer) (us : List User) (ps : List PackageBase)
      → All IsOtherRow cs
      → All IsOnlyUser us
      → All IsOfOther ps
      → any
          (λ p.
            str_eq p.name pkgbase
            && any
                (λ u.
                  (holds p.maintainer_uid u.id
                    || any (λ c. c.package_base_id == p.id && c.users_id == u.id) cs)
                  && str_eq u.username user)
                us)
          ps
        ≡ false
  has_write_access-none cs us [] h k l = refl
  has_write_access-none cs us (p ∷ ps) h k l = elim (Bool-cases (str_eq p.name pkgbase)) [
    | inr e ↦ rw e (has_write_access-none cs us ps h k l.1)
    | inl e ↦
        rw (e, any-users p cs us (l.0 e).0 (l.0 e).1 h k) (has_write_access-none cs us ps h k l.1)
  ]

-- The outcome of a command that raises: no table changes but the log of the user's logins.
abbrev pub OnlyRaises : Session → Outcome Effect × Db → Db → Type 0
OnlyRaises s out db =
    (e : Exception) × ((out ≡ (raised e, db)) ⊎ (out ≡ (raised e, log_ssh_login s db)))

-- A command that writes and that raises once it runs.
serve-raises :
    (set_order : List ℕ → List ℕ) (config : ServeConfig) (s : Session) (action : String)
    (cmdargv : List String) (db : Db)
    → (e : Exception) × ((split_git action cmdargv >>= λ split.
            run_action set_order config s split.0 split.1)
          (log_ssh_login s db)
        ≡ (raised e, log_ssh_login s db))
    → OnlyRaises s (serve set_order config s action cmdargv db) db
unfolding serve
serve-raises set_order config s action cmdargv db (e, h) =
    elim (Bool-cases
      (not config.enable_maintenance || is_excepted config.maintenance_exc s.remote_addr)) [
        | inr m ↦ (maintenance, inl (rw m refl))
        | inl m ↦ elim (Bool-cases (bans_match s.remote_addr db)) [
          | inl x ↦ (banned, inl (rw (m, x) refl))
          | inr x ↦
              elim (Bool-cases
                (is_readonly action cmdargv || user_email_verified s.user (log_ssh_login s db))) [
                  | inr v ↦ (email_not_verified, inr (rw (m, x, v) refl))
                  | inl v ↦ (e, inr (rw (m, x, v) h))
                ]
        ]
      ]

-- A push over SSH to a package base that exists, by a user who is neither its maintainer nor a
-- co-maintainer, in a session that is not privileged, raises, in both spellings of the command: git never
-- runs, and no table changes but the log of the user's logins. Names are those of one package base
-- and one user.
pub serve-push :
    (set_order : List ℕ → List ℕ) (config : ServeConfig) (s : Session) (path : String) (b uid : ℕ)
    (db : Db)
    → s.privileged ≡ false
    → pkgbase_exists (pkgbase_of_path path) db ≡ true
    → All (IsOnlyUser (pkgbase_of_path path) s.user b uid) db.users
    → All (IsOfOther (pkgbase_of_path path) s.user b uid) db.package_bases
    → All (IsOtherRow (pkgbase_of_path path) s.user b uid) db.comaintainers
    → OnlyRaises s
        (serve set_order config s "git-receive-pack" ("git-receive-pack" ∷ path ∷ []) db)
        db
      × OnlyRaises s (serve set_order config s "git" ("git" ∷ "receive-pack" ∷ path ∷ []) db) db
unfolding run_action log_ssh_login pkgbase_has_write_access
serve-push set_order config s path b uid db plain ex only other rows =
    let pkgbase = pkgbase_of_path path in
    let only' =
      All-update_where (IsOnlyUser pkgbase s.user b uid) (λ u. str_eq u.username s.user)
        (λ u. record u { last_ssh_login = s.now; last_ssh_login_ip_address = s.remote_addr })
        db.users (λ u _ k. k) only in
    let after = log_ssh_login s db in
    let closed =
      has_write_access-none pkgbase s.user b uid after.comaintainers after.users after.package_bases
        rows only' other in
    (
      serve-raises set_order config s "git-receive-pack" ("git-receive-pack" ∷ path ∷ []) db
          (serve_git-push config s ("git-receive-pack" ∷ path ∷ []) after plain ex closed),
      serve-raises set_order config s "git" ("git" ∷ "receive-pack" ∷ path ∷ []) db
          (serve_git-push config s ("git" ∷ path ∷ []) after plain ex closed),
    )
