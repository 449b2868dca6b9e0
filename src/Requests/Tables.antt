-- ===== src/Requests/Tables.antt =====
-- The tables that `handle_request` of aurweb/packages/requests.py leaves alone.
use aurweb.Prelude.{
  ℕ, ◌≡◌, refl, not, ◌&&◌, String, Option, none, some, List, [], ◌∷◌, filter, contains, str_eq,
  Bool-cases, ◌⊎◌, inl, inr,
}
use aurweb.Models.{
  Db, PackageBase, PackageRequest, PackageVote, ReqType, deletion, orphan, merge, adoption, Request,
}
use aurweb.Requests.{
  update_closure_comment, Failure, Result, ok, raise, close_both, close_all, close_or_create,
  new_request, handle_request, insert_request, needs_orphan_request, verify_orphan_request,
  in_query, is_acceptable, ids,
}

-- The tables that count votes.
abbrev pub tallies : Db → List PackageBase × List PackageVote
tallies db = (db.package_bases, db.votes)

Result-cases {ℓ} :
    {A : Type ℓ} (r : Result A) → ((a : A) × (r ≡ ok a)) ⊎ ((e : Failure) × (r ≡ raise e))
Result-cases (ok a) = inl (a, refl)
Result-cases (raise e) = inr (e, refl)

close_all-tallies :
    (req : Request) (pkgbase : PackageBase) (target : Option PackageBase)
    (xs ys : List PackageRequest) (db : Db)
    → tallies (close_all req pkgbase target xs ys db).1 ≡ tallies db
unfolding close_all
close_all-tallies req pkgbase target xs ys db =
    elim (Result-cases (close_both req pkgbase target xs ys db.requests)) [
      | inl (table, e) ↦ rw (close_all, e) refl
      | inr (x, e) ↦ rw (close_all, e) refl
    ]

close_or_create-tallies :
    (req : Request) (reqtype : ReqType) (pkgbase : PackageBase) (target : Option PackageBase)
    (comments : String) (xs ys : List PackageRequest) (db : Db)
    → tallies (close_or_create req reqtype pkgbase target comments xs ys db).1 ≡ tallies db
unfolding close_or_create
close_or_create-tallies req reqtype pkgbase target comments [] ys db =
    elim (Result-cases (new_request req reqtype pkgbase target comments db.next_request_id)) [
      | inl (r, e) ↦
          rw (close_or_create, e)
            (close_all-tallies req pkgbase target (r ∷ []) ys (insert_request r db))
      | inr (x, e) ↦ rw (close_or_create, e) refl
    ]
close_or_create-tallies req reqtype pkgbase target comments (x ∷ xs) ys db =
    close_all-tallies req pkgbase target (x ∷ xs) ys db

-- Handling a request changes no package base and no vote, whether it returns or raises.
pub handle_request-tallies :
    (req : Request) (reqtype : ReqType) (pkgbase : PackageBase) (target : Option PackageBase)
    (comments : String) (accept_ids : Option (List ℕ)) (db : Db)
    → tallies (handle_request req reqtype pkgbase target comments accept_ids db).1 ≡ tallies db
unfolding handle_request
handle_request-tallies req reqtype pkgbase target comments accept_ids db =
    let query = filter (in_query pkgbase reqtype) db.requests in
    let to_accept = filter (is_acceptable target accept_ids) query in
    let to_reject = filter (λ r. not (contains (ids to_accept) r.id)) query in
    elim (Bool-cases (needs_orphan_request reqtype && not (verify_orphan_request req pkgbase db))) [
      | inl e ↦ rw e refl
      | inr e ↦
          rw e (close_or_create-tallies req reqtype pkgbase target comments to_accept to_reject db)
    ]

-- A database that an update of some tables returns, if it does not raise.
abbrev pub KeepsTallies : Db → Result Db → Type 0
KeepsTallies db (ok updated) = tallies updated ≡ tallies db
KeepsTallies db (raise e) = Unit {0}

pub update_closure_comment-KeepsTallies :
    (pkgbase : PackageBase) (reqtype : ReqType) (comments : String) (target : Option PackageBase)
    (db : Db)
    → KeepsTallies db (update_closure_comment pkgbase reqtype comments target db)
unfolding update_closure_comment
update_closure_comment-KeepsTallies pkgbase merge comments none db =
    elim (Bool-cases (str_eq comments "")) [ inl e ↦ rw e refl | inr e ↦ rw e tt ]
update_closure_comment-KeepsTallies pkgbase merge comments (some target) db =
    elim (Bool-cases (str_eq comments "")) [ inl e ↦ rw e refl | inr e ↦ rw e refl ]
update_closure_comment-KeepsTallies pkgbase deletion comments target db =
    elim (Bool-cases (str_eq comments "")) [ inl e ↦ rw e refl | inr e ↦ rw e refl ]
update_closure_comment-KeepsTallies pkgbase orphan comments target db =
    elim (Bool-cases (str_eq comments "")) [ inl e ↦ rw e refl | inr e ↦ rw e refl ]
update_closure_comment-KeepsTallies pkgbase adoption comments target db =
    elim (Bool-cases (str_eq comments "")) [ inl e ↦ rw e refl | inr e ↦ rw e refl ]
