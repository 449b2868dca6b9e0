-- ===== src/Requests/Choice.antt =====
-- The rows that `handle_request` of aurweb/packages/requests.py puts in its lists `to_accept` and
-- `to_reject`.
use aurweb.Prelude.{
  if◌then◌else◌, subst, All-filter, ℕ, ◌<◌, ◌≡◌, ◌≢◌, refl, sym, ap, ◌∙◌, Bool, false, not, ◌&&◌,
  ◌||◌, List, [], ◌∷◌, ◌==◌, filter, contains, arith, All, Distinct, Bool-cases, inl, inr, ==_refl,
}
use aurweb.Models.{PackageRequest}
use aurweb.Requests.{ids}
use aurweb.Requests.Closing.{id_of}

pub filter_congr :
    (p q : PackageRequest → Bool) (xs : List PackageRequest)
    → All (λ x. p x ≡ q x) xs
    → filter p xs ≡ filter q xs
filter_congr p q [] h = refl
filter_congr p q (x ∷ xs) h = ground (arith, h.0, filter_congr p q xs h.1)

pub filter-filter :
    (p q : PackageRequest → Bool) (xs : List PackageRequest)
    → filter p (filter q xs) ≡ filter (λ x. q x && p x) xs
filter-filter p q [] = refl
filter-filter p q (x ∷ xs) = ground (arith, filter-filter p q xs)

abbrev Others : PackageRequest → List PackageRequest → Type 0
Others x = All (λ r. x.id ≢ r.id)

contains-Others :
    (p : PackageRequest → Bool) (x : PackageRequest) (xs : List PackageRequest)
    → Others x xs
    → contains (ids (filter p xs)) x.id ≡ false
contains-Others p x [] h = refl
contains-Others p x (y ∷ xs) h = ground (arith, contains-Others p x xs h.1)

contains-skip :
    (p : PackageRequest → Bool) (x : PackageRequest) (l xs : List PackageRequest)
    → Others x xs
    → All (λ r. contains (ids l) r.id ≡ p r) xs
    → All (λ r. contains (ids (x ∷ l)) r.id ≡ p r) xs
contains-skip p x l [] h k = tt
contains-skip p x l (y ∷ xs) h k = (ground arith, contains-skip p x l xs h.1 k.1)

-- A row is among the IDs of the selected rows if it is selected.
pub contains-filter :
    (p : PackageRequest → Bool) (xs : List PackageRequest)
    → Distinct id_of xs
    → All (λ r. contains (ids (filter p xs)) r.id ≡ p r) xs
contains-filter p [] d = tt
contains-filter p (x ∷ xs) d =
    let ih = contains-filter p xs d.1 in
    let selected = λ (b : Bool). if b then x ∷ filter p xs else filter p xs in
    let goal = λ (l : List PackageRequest). All (λ r. contains (ids l) r.id ≡ p r) (x ∷ xs) in
    elim (Bool-cases (p x)) [
      | inl e ↦
          subst goal (sym (ap selected e))
            (rw (==_refl) (sym e), contains-skip p x (filter p xs) xs d.0 ih)
      | inr e ↦ subst goal (sym (ap selected e)) (contains-Others p x xs d.0 ∙ sym e, ih)
    ]

All-not :
    (p q : PackageRequest → Bool) (xs : List PackageRequest)
    → All (λ r. p r ≡ q r) xs
    → All (λ r. not (p r) ≡ not (q r)) xs
All-not p q [] h = tt
All-not p q (x ∷ xs) h = (ap not h.0, All-not p q xs h.1)

Others-filter :
    (q : PackageRequest → Bool) (x : PackageRequest) (xs : List PackageRequest)
    → Others x xs
    → Others x (filter q xs)
Others-filter q x xs h = All-filter (λ r. x.id ≢ r.id) q xs h

Distinct-filter :
    (q : PackageRequest → Bool) (xs : List PackageRequest)
    → Distinct id_of xs
    → Distinct id_of (filter q xs)
Distinct-filter q [] d = tt
Distinct-filter q (x ∷ xs) d =
    let rest = Distinct-filter q xs d.1 in
    elim (Bool-cases (q x)) [ inl e ↦ rw e (Others-filter q x xs d.0, rest) | inr e ↦ rw e rest ]

-- The list `to_reject`: the rows of the query that are not acceptable.
pub rejected_rows :
    (q p : PackageRequest → Bool) (xs : List PackageRequest)
    → Distinct id_of xs
    → filter (λ r. not (contains (ids (filter p (filter q xs))) r.id)) (filter q xs)
      ≡ filter (λ r. q r && not (p r)) xs
rejected_rows q p xs d =
    filter_congr _ (λ r. not (p r)) (filter q xs)
      (All-not _ p (filter q xs) (contains-filter p (filter q xs) (Distinct-filter q xs d)))
    ∙ filter-filter (λ r. not (p r)) q xs

-- Below the next ID, a row is not the one that is going to be created.
pub All-not_new :
    (n : ℕ) (p : PackageRequest → Bool) (xs : List PackageRequest)
    → All (λ r. r.id < n) xs
    → All (λ r. (p r || r.id == n) ≡ p r) xs
All-not_new n p [] h = tt
All-not_new n p (x ∷ xs) h = (ground arith, All-not_new n p xs h.1)
