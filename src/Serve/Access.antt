-- ===== src/Serve/Access.antt =====
-- What aurweb/git/serve.py lets a user do.
use aurweb.Prelude.{
  ℕ, ◌≤◌, ◌≡◌, refl, ◌∙◌, false, not, ◌||◌, String, none, some, List, [], ◌∷◌, ◌==◌, any, count,
  find?, update_where, arith, str_eq, count-append, Bool-cases, ◌⊎◌, inl, inr, ==_sound,
}
use aurweb.Models.{Db, User, PackageBase, PackageRequest, adoption, Request}
use aurweb.Requests.{is_pending_of, insert_request}
use aurweb.Actions.{adoption_request, request_adoption}
use aurweb.Serve.{
  raised, Exception, maintenance, banned, bans_match, Session, log_ssh_login, user_email_verified,
  email_not_verified,
}
use aurweb.Serve.Steps.{require_pkgbase-IsReading, require_user-IsReading}
use aurweb.Serve.Commands.{is_unmaintained, ssh_adoption_request, pkgbase_adopt}
use aurweb.Serve.Dispatch.{ServeConfig, serve, is_readonly, is_excepted}

-- Adopting over SSH never changes who maintains or co-maintains a package base.
pub pkgbase_adopt-package_bases :
    (s : Session) (pkgbase : String) (db : Db)
    → ((pkgbase_adopt s pkgbase db).1.package_bases ≡ db.package_bases)
      × ((pkgbase_adopt s pkgbase db).1.comaintainers ≡ db.comaintainers)
unfolding pkgbase_adopt
pkgbase_adopt-package_bases s pkgbase db = elim (require_pkgbase-IsReading pkgbase db) [
  | inr (x, e) ↦ rw e (refl, refl)
  | inl (b, e) ↦ elim (require_user-IsReading s.user db) [
    | inr (x, f) ↦ rw (e, f) (refl, refl)
    | inl (u, f) ↦ elim (Bool-cases (is_unmaintained b db)) [
      | inr o ↦ rw (e, f, o) (refl, refl)
      | inl o ↦ elim (Bool-cases (any (is_pending_of b adoption) db.requests)) [
        | inl p ↦ rw (e, f, o, p) (refl, refl)
        | inr p ↦ rw (e, f, o, p) (refl, refl)
      ]
    ]
  ]
]

-- At most one adoption request is pending for a package base.
abbrev pub OneAdoption : Db → Type 0
OneAdoption db = (b : ℕ) → count (is_pending_of b adoption) db.requests ≤ 1

count-none :
    (b : ℕ) (rs : List PackageRequest)
    → any (is_pending_of b adoption) rs ≡ false
    → count (is_pending_of b adoption) rs ≡ 0
count-none b [] h = refl
count-none b (r ∷ rs) h = ground (arith, count-none b rs)

-- Filing a request for a package base that has no pending one.
one_more :
    (r : PackageRequest) (b : ℕ) (db : Db)
    → r.package_base_id ≡ some b
    → any (is_pending_of b adoption) db.requests ≡ false
    → OneAdoption db
    → OneAdoption (insert_request r db)
one_more r b db is new one a = elim (Bool-cases (a == b)) [
  | inl e ↦
      let zero_count = count-none b db.requests new in
      rw (==_sound a b e, count-append, zero_count) (ground arith)
  | inr e ↦
      let sum = count-append (is_pending_of a adoption) db.requests (r ∷ []) in
      ground (arith, e, is, sum, one a)
]

-- Adopting over SSH keeps at most one adoption request pending for each package base.
pub pkgbase_adopt-OneAdoption :
    (s : Session) (pkgbase : String) (db : Db)
    → OneAdoption db
    → OneAdoption (pkgbase_adopt s pkgbase db).1
unfolding pkgbase_adopt
pkgbase_adopt-OneAdoption s pkgbase db h = elim (require_pkgbase-IsReading pkgbase db) [
  | inr (x, e) ↦ rw e h
  | inl (b, e) ↦ elim (require_user-IsReading s.user db) [
    | inr (x, f) ↦ rw (e, f) h
    | inl (u, f) ↦ elim (Bool-cases (is_unmaintained b db)) [
      | inr o ↦ rw (e, f, o) h
      | inl o ↦ elim (Bool-cases (any (is_pending_of b adoption) db.requests)) [
        | inl p ↦ rw (e, f, o, p) h
        | inr p ↦
            rw (e, f, o, p)
              (one_more (ssh_adoption_request db.next_request_id b pkgbase u s.now) b db refl p h)
      ]
    ]
  ]
]

-- A request for adoption on the website keeps at most one adoption request pending for each package
-- base.
pub request_adoption-OneAdoption :
    (req : Request) (pkgbase : PackageBase) (db : Db)
    → OneAdoption db
    → OneAdoption (request_adoption req pkgbase db)
unfolding request_adoption
request_adoption-OneAdoption req pkgbase db h =
    elim (Bool-cases (any (is_pending_of pkgbase.id adoption) db.requests)) [
      | inl p ↦ rw p h
      | inr p ↦
          rw p (one_more (adoption_request req pkgbase db.next_request_id) pkgbase.id db refl p h)
    ]

find?-log :
    (s : Session) (name : String) (us : List User)
    → elim (find?
        (λ u. str_eq u.username name)
        (update_where
          (λ u. str_eq u.username s.user)
          (λ u. record u { last_ssh_login = s.now; last_ssh_login_ip_address = s.remote_addr })
          us)) [ none ↦ false | some u ↦ u.email_verified ]
      ≡ elim (find? (λ u. str_eq u.username name) us) [ none ↦ false | some u ↦ u.email_verified ]
find?-log s name [] = refl
find?-log s name (u ∷ us) = ground (arith, find?-log s name us)

user_email_verified-log_ssh_login :
    (s : Session) (name : String) (db : Db)
    → user_email_verified name (log_ssh_login s db) ≡ user_email_verified name db
unfolding user_email_verified log_ssh_login
user_email_verified-log_ssh_login s name db = find?-log s name db.users

-- A user whose e-mail address is not verified runs no command that is not a read-only one: the
-- command raises, and no table changes but the log of the user's logins.
pub serve-unverified :
    (set_order : List ℕ → List ℕ) (config : ServeConfig) (s : Session) (action : String)
    (cmdargv : List String) (db : Db)
    → is_readonly action cmdargv ≡ false
    → user_email_verified s.user db ≡ false
    → (e : Exception) × ((serve set_order config s action cmdargv db ≡ (raised e, db))
        ⊎ (serve set_order config s action cmdargv db ≡ (raised e, log_ssh_login s db)))
unfolding serve
serve-unverified set_order config s action cmdargv db ro un =
    elim (Bool-cases
      (not config.enable_maintenance || is_excepted config.maintenance_exc s.remote_addr)) [
        | inr m ↦ (maintenance, inl (rw m refl))
        | inl m ↦ elim (Bool-cases (bans_match s.remote_addr db)) [
          | inl b ↦ (banned, inl (rw (m, b) refl))
          | inr b ↦ (
            email_not_verified,
            inr (rw (m, b, ro, user_email_verified-log_ssh_login s s.user db ∙ un) refl),
          )
        ]
      ]
