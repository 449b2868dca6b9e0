-- ===== src/Requests/Handling.antt =====
-- `handle_request` of aurweb/packages/requests.py, as the actions of aurweb/pkgbase/actions.py call it.
use aurweb.Prelude.{
  holds, ℕ, ◌≡◌, refl, ap, Bool, true, not, ◌&&◌, String, Option, none, some, List, [], ◌∷◌, map,
  if◌then◌else◌, filter, arith, All, Distinct, str_eq, any, ◌==◌, false, contains, fun_ext, ◌||◌,
}
use aurweb.Models.{
  same_req_type, same_status, pending, PackageBase, PackageRequest, ReqType, deletion, orphan,
  merge, adoption, Status, accepted, rejected, Request,
}
use aurweb.Requests.{Result, ok, raise, get_closure, close_pkgreq, close_both, is_acceptable}
use aurweb.Requests.Closing.{id_of, close_each_lem}

-- The four ways in which the actions call it.
pub data Action : Type 0 where
  to_delete to_disown : Action
  to_merge : (target : PackageBase) → Action
  to_adopt : (accept_ids : List ℕ) → Action

abbrev pub req_type_of : Action → ReqType
req_type_of to_delete = deletion
req_type_of to_disown = orphan
req_type_of (to_merge target) = merge
req_type_of (to_adopt accept_ids) = adoption

abbrev pub target_of : Action → Option PackageBase
target_of (to_merge target) = some target
target_of _ = none

abbrev pub accept_ids_of : Action → Option (List ℕ)
accept_ids_of (to_adopt accept_ids) = some accept_ids
accept_ids_of _ = none

abbrev pub message : Result String → String
message (ok s) = s
message (raise e) = ""

-- A row as it is after being closed: its own closure comment stays, if it has one.
abbrev pub closed_row : Request → PackageBase → Action → Status → PackageRequest → PackageRequest
closed_row req pkgbase a status r = record r {
  status = status;
  closed_uid = some req.user.id;
  closed_ts = some req.now;
  closure_comment =
      if str_eq r.closure_comment ""
      then message (get_closure (req_type_of a) pkgbase (target_of a) status)
      else r.closure_comment;
}

-- The pending requests for the package base, of the type of the action, that were filed under its
-- present name.
abbrev pub is_queried : PackageBase → Action → PackageRequest → Bool
is_queried pkgbase a r =
    (holds r.package_base_id pkgbase.id
      && same_req_type r.req_type (req_type_of a)
      && same_status r.status pending)
    && str_eq r.package_base_name pkgbase.name

abbrev pub holds_name : Option String → String → Bool
holds_name none name = false
holds_name (some n) name = str_eq n name

-- The requests that an action grants: a merge those into its target, an adoption those that it lists.
abbrev pub is_accepted : Action → PackageRequest → Bool
is_accepted to_delete r = true
is_accepted to_disown r = true
is_accepted (to_merge target) r = holds_name r.merge_base_name target.name
is_accepted (to_adopt accept_ids) r = any (λ i. i == r.id) accept_ids

merges_into-holds_name :
    (target : PackageBase) (o : Option String)
    → elim o [ none ↦ false | some name ↦ str_eq name target.name ] ≡ holds_name o target.name
merges_into-holds_name target none = refl
merges_into-holds_name target (some n) = refl

contains-any : (xs : List ℕ) (n : ℕ) → contains xs n ≡ any (λ i. i == n) xs
contains-any [] n = refl
contains-any (x ∷ xs) n = ap (λ b. x == n || b) (contains-any xs n)

-- The code's own test agrees.
is_acceptable_lem :
    (a : Action) (r : PackageRequest)
    → is_acceptable (target_of a) (accept_ids_of a) r ≡ is_accepted a r
is_acceptable_lem to_delete r = refl
is_acceptable_lem to_disown r = refl
is_acceptable_lem (to_merge target) r = merges_into-holds_name target r.merge_base_name
is_acceptable_lem (to_adopt accept_ids) r = contains-any accept_ids r.id

pub is_acceptable-is_accepted :
    (a : Action) → is_acceptable (target_of a) (accept_ids_of a) ≡ is_accepted a
is_acceptable-is_accepted a = fun_ext (is_acceptable_lem a)

close_accepted :
    (req : Request) (pkgbase : PackageBase) (a : Action) (r : PackageRequest)
    → is_queried pkgbase a r ≡ true
    → close_pkgreq req pkgbase (target_of a) accepted r ≡ ok (closed_row req pkgbase a accepted r)
unfolding close_pkgreq get_closure
close_accepted req pkgbase to_delete r h = ground arith
close_accepted req pkgbase to_disown r h = ground arith
close_accepted req pkgbase (to_merge target) r h = ground arith
close_accepted req pkgbase (to_adopt accept_ids) r h = ground arith

-- A request is rejected for a merge or an adoption only.
close_rejected :
    (req : Request) (pkgbase : PackageBase) (a : Action) (r : PackageRequest)
    → (is_queried pkgbase a r && not (is_accepted a r)) ≡ true
    → close_pkgreq req pkgbase (target_of a) rejected r ≡ ok (closed_row req pkgbase a rejected r)
unfolding close_pkgreq get_closure
close_rejected req pkgbase to_delete r h = ground arith
close_rejected req pkgbase to_disown r h = ground arith
close_rejected req pkgbase (to_merge target) r h = ground arith
close_rejected req pkgbase (to_adopt accept_ids) r h = ground arith

map_self : (xs : List PackageRequest) → map (λ x. x) xs ≡ xs
map_self [] = refl
map_self (x ∷ xs) = ap (λ l. x ∷ l) (map_self xs)

-- What happens to a row of the table, where `p` tells the rows to accept and `q` those to reject.
abbrev pub settle :
    Request
    → PackageBase
    → Action
    → (PackageRequest → Bool)
    → (PackageRequest → Bool)
    → PackageRequest
    → PackageRequest
settle req pkgbase a p q r =
    if q r
    then closed_row req pkgbase a rejected r
    else if p r
    then closed_row req pkgbase a accepted r
    else r

module _ (req : Request) (pkgbase : PackageBase) (a : Action) (p q : PackageRequest → Bool)
    (xs : List PackageRequest) (d : Distinct id_of xs)
    (h : All (λ r. p r ≡ true → is_queried pkgbase a r ≡ true) xs)
    (k : All (λ r. q r ≡ true → (is_queried pkgbase a r && not (is_accepted a r)) ≡ true) xs) where
  abbrev step : PackageRequest → PackageRequest
  step x = if p x then closed_row req pkgbase a accepted x else x

  id-step : (x : PackageRequest) → (step x).id ≡ x.id
  id-step x = ground arith

  All-accepted :
      (ys : List PackageRequest)
      → All (λ r. p r ≡ true → is_queried pkgbase a r ≡ true) ys
      → All
          (λ r.
            p r ≡ true
            → close_pkgreq req pkgbase (target_of a) accepted r
              ≡ ok (closed_row req pkgbase a accepted r))
          ys
  All-accepted [] h = tt
  All-accepted (y ∷ ys) h = ((λ e. close_accepted req pkgbase a y (h.0 e)), All-accepted ys h.1)

  All-rejected :
      (ys : List PackageRequest)
      → All (λ r. q r ≡ true → (is_queried pkgbase a r && not (is_accepted a r)) ≡ true) ys
      → All
          (λ r.
            q r ≡ true
            → close_pkgreq req pkgbase (target_of a) rejected r
              ≡ ok (closed_row req pkgbase a rejected r))
          ys
  All-rejected [] h = tt
  All-rejected (y ∷ ys) h = ((λ e. close_rejected req pkgbase a y (h.0 e)), All-rejected ys h.1)

  -- Both loops, as one pass over the table.
  pub close_both_lem :
      close_both req pkgbase (target_of a) (filter p xs) (filter q xs) xs
      ≡ ok (map (settle req pkgbase a p q) xs)
  unfolding close_both
  close_both_lem =
      let first =
        close_each_lem (close_pkgreq req pkgbase (target_of a) accepted)
          (closed_row req pkgbase a accepted) (λ x. x) p (λ _. refl) (λ _. refl) xs d
          (All-accepted xs h) in
      let second =
        close_each_lem (close_pkgreq req pkgbase (target_of a) rejected)
          (closed_row req pkgbase a rejected) step q (λ _. refl) id-step xs d (All-rejected xs k) in
      rw (rw (map_self xs) at first) second
