-- ===== src/Requests/Created.antt =====
-- The request that `handle_request` of aurweb/packages/requests.py creates, and the rows of the table
-- that it then accepts and rejects.
use aurweb.Prelude.{
  ℕ, ◌<◌, ◌≡◌, ◌≢◌, refl, Bool, true, false, not, ◌&&◌, ◌||◌, String, Option, none, some, List, [],
  ◌∷◌, ◌++◌, ◌==◌, if◌then◌else◌, filter, any, arith, All, All-append, Distinct, str_eq_refl,
}
use aurweb.Models.{Db, PackageBase, PackageRequest, pending, Request}
use aurweb.Requests.{ok, new_request}
use aurweb.Requests.Closing.{id_of}
use aurweb.Requests.Handling.{
  Action, to_delete, to_disown, to_merge, to_adopt, req_type_of, target_of, is_queried, is_accepted,
}

abbrev pub name_of : Option PackageBase → Option String
name_of none = none
name_of (some b) = some b.name

-- The request that is created where none can be accepted.
abbrev pub new_row : Request → PackageBase → Action → String → ℕ → PackageRequest
new_row req pkgbase a comments id = record {
  id = id;
  req_type = req_type_of a;
  package_base_id = some pkgbase.id;
  package_base_name = pkgbase.name;
  merge_base_name = name_of (target_of a);
  users_id = some req.user.id;
  comments = "Autogenerated by aurweb.";
  closure_comment = comments;
  request_ts = req.now;
  closed_ts = none;
  closed_uid = none;
  status = pending;
}

-- The table with the request that is created where none can be accepted.
abbrev pub with_new : Request → PackageBase → Action → String → Db → List PackageRequest
with_new req pkgbase a comments db =
    if any (λ r. is_queried pkgbase a r && is_accepted a r) db.requests
    then db.requests
    else db.requests ++ new_row req pkgbase a comments db.next_request_id ∷ []

abbrev pub accepts : PackageBase → Action → Db → PackageRequest → Bool
accepts pkgbase a db r = is_queried pkgbase a r && (is_accepted a r || r.id == db.next_request_id)

abbrev pub rejects : PackageBase → Action → Db → PackageRequest → Bool
rejects pkgbase a db r =
    is_queried pkgbase a r && not (is_accepted a r || r.id == db.next_request_id)

pub new_request-new_row :
    (req : Request) (pkgbase : PackageBase) (a : Action) (comments : String) (id : ℕ)
    → new_request req (req_type_of a) pkgbase (target_of a) comments id
      ≡ ok (new_row req pkgbase a comments id)
unfolding new_request
new_request-new_row req pkgbase to_delete comments id = refl
new_request-new_row req pkgbase to_disown comments id = refl
new_request-new_row req pkgbase (to_merge target) comments id = refl
new_request-new_row req pkgbase (to_adopt accept_ids) comments id = refl

pub is_queried-new_row :
    (req : Request) (pkgbase : PackageBase) (a : Action) (comments : String) (id : ℕ)
    → is_queried pkgbase a (new_row req pkgbase a comments id) ≡ true
is_queried-new_row req pkgbase to_delete comments id = ground (arith, str_eq_refl pkgbase.name)
is_queried-new_row req pkgbase to_disown comments id = ground (arith, str_eq_refl pkgbase.name)
is_queried-new_row req pkgbase (to_merge target) comments id =
    ground (arith, str_eq_refl pkgbase.name)
is_queried-new_row req pkgbase (to_adopt accept_ids) comments id =
    ground (arith, str_eq_refl pkgbase.name)

pub filter-nil :
    (p : PackageRequest → Bool) (xs : List PackageRequest) → any p xs ≡ false → filter p xs ≡ []
filter-nil p [] h = refl
filter-nil p (x ∷ xs) h = ground (arith, filter-nil p xs)

pub filter-ne_nil :
    (p : PackageRequest → Bool) (xs : List PackageRequest) → any p xs ≡ true → filter p xs ≢ []
filter-ne_nil p [] h = cc
filter-ne_nil p (x ∷ xs) h = ground (arith, filter-ne_nil p xs)

-- With the same test of the rows, `r.id == n` is false below `n`.
pub All-accepts :
    (q p : PackageRequest → Bool) (n : ℕ) (xs : List PackageRequest)
    → All (λ r. r.id < n) xs
    → All (λ r. (q r && p r) ≡ (q r && (p r || r.id == n))) xs
All-accepts q p n [] h = tt
All-accepts q p n (x ∷ xs) h = (ground arith, All-accepts q p n xs h.1)

pub All-rejects :
    (q p : PackageRequest → Bool) (n : ℕ) (xs : List PackageRequest)
    → All (λ r. r.id < n) xs
    → All (λ r. (q r && not (p r)) ≡ (q r && not (p r || r.id == n))) xs
All-rejects q p n [] h = tt
All-rejects q p n (x ∷ xs) h = (ground arith, All-rejects q p n xs h.1)

pub Distinct-snoc :
    (x : PackageRequest) (xs : List PackageRequest)
    → Distinct id_of xs
    → All (λ r. r.id < x.id) xs
    → Distinct id_of (xs ++ x ∷ [])
Distinct-snoc x [] d h = (tt, tt)
Distinct-snoc x (y ∷ xs) d h =
    (All-append (λ r. y.id ≢ r.id) xs (x ∷ []) d.0 (omega arith, tt), Distinct-snoc x xs d.1 h.1)

pub All-accepts_queried :
    (pkgbase : PackageBase) (a : Action) (db : Db) (xs : List PackageRequest)
    → All (λ r. accepts pkgbase a db r ≡ true → is_queried pkgbase a r ≡ true) xs
All-accepts_queried pkgbase a db [] = tt
All-accepts_queried pkgbase a db (x ∷ xs) = (ground arith, All-accepts_queried pkgbase a db xs)

pub All-rejects_queried :
    (pkgbase : PackageBase) (a : Action) (db : Db) (xs : List PackageRequest)
    → All
        (λ r.
          rejects pkgbase a db r ≡ true → (is_queried pkgbase a r && not (is_accepted a r)) ≡ true)
        xs
All-rejects_queried pkgbase a db [] = tt
All-rejects_queried pkgbase a db (x ∷ xs) = (ground arith, All-rejects_queried pkgbase a db xs)
