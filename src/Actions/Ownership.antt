-- ===== src/Actions/Ownership.antt =====
-- Who maintains a package base after it is disowned or adopted on the website, by
-- aurweb/pkgbase/actions.py.
use aurweb.Prelude.{
  ℕ, ◌≡◌, refl, subst, true, false, Option, none, some, List, [], ◌∷◌, ◌==◌, any, filter, drop,
  holds, update_where, arith, All, All-Reorder, Reorder-symm, order_by-Reorder, Distinct,
  Bool-cases, inl, inr, ==_sound, ◌≤◌, ◌+◌,
}
use aurweb.Models.{
  Db, PackageBase, PackageComaintainer, PackageRequest, adoption, Request, update_base, orphan,
  pending,
}
use aurweb.Creds.{pkgbase_adopt, pkgbase_disown, has_credential}
use aurweb.Comaintainers.{of_base, by_priority, in_line, rotate_comaintainers, remove_comaintainer}
use aurweb.Comaintainers.Rotation.{number, uid_of}
use aurweb.Comaintainers.Changes.{remove_comaintainer-first}
use aurweb.Requests.{ok, is_pending_of}
use aurweb.Actions.{set_maintainer, retry_disown, pkgbase_adopt_instance}

-- A user without the credential to adopt changes no package base: at most a request is filed.
pub pkgbase_adopt_instance-package_bases :
    (req : Request) (pkgbase : PackageBase) (pkgreq : Option PackageRequest) (db : Db)
    → has_credential req.user pkgbase_adopt [] ≡ false
    → (pkgbase_adopt_instance req pkgbase pkgreq db).1.package_bases ≡ db.package_bases
unfolding pkgbase_adopt_instance
pkgbase_adopt_instance-package_bases req pkgbase pkgreq db cred =
    elim (Bool-cases (any (is_pending_of pkgbase.id adoption) db.requests)) [
      | inl p ↦ rw (cred, p) refl
      | inr p ↦ rw (cred, p) refl
    ]

-- A user that is neither the maintainer nor a co-maintainer, and has no credential to disown,
-- disowns nothing: no table changes.
pub retry_disown-stranger :
    (req : Request) (pkgbase : PackageBase) (db : Db)
    → holds pkgbase.maintainer_uid req.user.id ≡ false
    → filter (λ c. c.users_id == req.user.id) (of_base pkgbase.id db.comaintainers) ≡ []
    → has_credential req.user pkgbase_disown [] ≡ false
    → retry_disown req pkgbase db ≡ (ok [], db)
unfolding retry_disown
retry_disown-stranger req pkgbase db other none_listed cred = rw (none_listed, other, cred) refl

of_base-All :
    (b : ℕ) (cs : List PackageComaintainer) → All (λ c. c.package_base_id ≡ b) (of_base b cs)
of_base-All b [] = tt
of_base-All b (c ∷ cs) = elim (Bool-cases (c.package_base_id == b)) [
  | inl e ↦ rw e (==_sound c.package_base_id b e, of_base-All b cs)
  | inr e ↦ rw e (of_base-All b cs)
]

in_line-first :
    (b : ℕ) (c : PackageComaintainer) (rest cs : List PackageComaintainer)
    → in_line b cs ≡ c ∷ rest
    → c.package_base_id ≡ b
in_line-first b c rest cs e =
    let all : All (λ c. c.package_base_id ≡ b) (c ∷ rest) =
      subst (All (λ c. c.package_base_id ≡ b)) e (
        All-Reorder (λ c. c.package_base_id ≡ b)
          (Reorder-symm (order_by-Reorder by_priority (of_base b cs))) (of_base-All b cs)) in
    all.0

abbrev pub first_uid : List PackageComaintainer → Option ℕ
first_uid [] = none
first_uid (c ∷ cs) = some c.users_id

one_row :
    (u : ℕ) (cs : List PackageComaintainer)
    → any (λ c. c.users_id == u) cs ≡ false
    → filter (λ c. c.users_id == u) cs ≡ []
one_row u [] h = refl
one_row u (c ∷ cs) h = ground (arith, h, one_row u cs)

-- The maintainer disowns a package base: the first co-maintainer in line becomes the maintainer and
-- leaves the line, and the others keep their order; with no co-maintainer the package base is an
-- orphan. Nobody is listed twice for the package base, and the maintainer is not listed.
pub retry_disown-maintainer :
    (req : Request) (pkgbase : PackageBase) (db : Db) (line : List PackageComaintainer)
    → holds pkgbase.maintainer_uid req.user.id ≡ true
    → any (λ c. c.users_id == req.user.id) (of_base pkgbase.id db.comaintainers) ≡ false
    → Distinct uid_of (of_base pkgbase.id db.comaintainers)
    → in_line pkgbase.id db.comaintainers ≡ line
    → ((retry_disown req pkgbase db).1.package_bases
        ≡ update_where (λ p. p.id == pkgbase.id) (set_maintainer (first_uid line)) db.package_bases)
      × (in_line pkgbase.id (retry_disown req pkgbase db).1.comaintainers ≡ number 2 (drop 1 line))
unfolding retry_disown rotate_comaintainers
retry_disown-maintainer req pkgbase db [] is unlisted distinct e =
    rw (one_row req.user.id (of_base pkgbase.id db.comaintainers) unlisted, is, e) (refl, e)
retry_disown-maintainer req pkgbase db (c ∷ rest) is unlisted distinct e =
    let base = in_line-first pkgbase.id c rest db.comaintainers e in
    rw (one_row req.user.id (of_base pkgbase.id db.comaintainers) unlisted, is, e)
      (
        refl,
        subst
            (λ b.
              Distinct uid_of (of_base b db.comaintainers)
              → in_line b db.comaintainers ≡ c ∷ rest
              → in_line b
                  (remove_comaintainer c
                    (update_base pkgbase.id (set_maintainer (some c.users_id)) db)).1.comaintainers
                ≡ number 2 rest)
            base
            (λ d l.
              remove_comaintainer-first c rest
                (update_base pkgbase.id (set_maintainer (some c.users_id)) db) d l)
            distinct e,
      )

-- A request to orphan the package base that is pending is not older than the idle time.
abbrev pub IsNotDue : Request → PackageBase → PackageRequest → Type 0
IsNotDue req pkgbase r =
    r.package_base_id ≡ some pkgbase.id
    → r.req_type ≡ orphan
    → r.status ≡ pending
    → req.now ≤ r.request_ts + req.config.request_idle_time
