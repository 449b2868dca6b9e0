-- ===== src/Requests/Closing.antt =====
-- The loop of `retry_closures` in aurweb/packages/requests.py.
use aurweb.Prelude.{
  ◌⊎◌, All-if, ℕ, ◌≡◌, ◌≢◌, refl, sym, ◌∙◌, Bool, true, List, [], ◌∷◌, map, if◌then◌else◌, filter,
  arith, All, Distinct, update_where, Bool-cases, inl, inr,
}
use aurweb.Models.{PackageRequest}
use aurweb.Requests.{Result, Failure, ok, raise, same_id, close_each}

abbrev pub id_of : PackageRequest → ℕ
id_of r = r.id

abbrev Others : PackageRequest → List PackageRequest → Type 0
Others p = All (λ r. p.id ≢ r.id)

update_where-Others :
    (p p' : PackageRequest) (rs : List PackageRequest)
    → Others p rs
    → update_where (same_id p) (λ _. p') rs ≡ rs
update_where-Others p p' [] h = refl
update_where-Others p p' (r ∷ rs) h = ground (arith, update_where-Others p p' rs h.1)

Result-cases {ℓ} :
    {A : Type ℓ} (m : Result A) → ((a : A) × (m ≡ ok a)) ⊎ ((e : Failure) × (m ≡ raise e))
Result-cases (ok a) = inl (a, refl)
Result-cases (raise e) = inr (e, refl)

-- Puts a row back in front of the table that a loop leaves.
abbrev behind : PackageRequest → Result (List PackageRequest) → Result (List PackageRequest)
behind r (ok rs) = ok (r ∷ rs)
behind r (raise e) = raise e

close_each-Others :
    (close : PackageRequest → Result PackageRequest) (r : PackageRequest)
    (ps table : List PackageRequest)
    → Others r ps
    → close_each close ps (r ∷ table) ≡ behind r (close_each close ps table)
unfolding close_each
close_each-Others close r [] table h = refl
close_each-Others close r (p ∷ ps) table h = elim (Result-cases (close p)) [
  | inl (p', e) ↦
      ground (arith, e, close_each-Others close r ps (update_where (same_id p) (λ _. p') table) h.1)
  | inr (x, e) ↦ ground (arith, e)
]

Others-filter :
    (r r' : PackageRequest) (q : PackageRequest → Bool) (xs : List PackageRequest)
    → r'.id ≡ r.id
    → Others r xs
    → Others r' (filter q xs)
Others-filter r r' q [] e h = tt
Others-filter r r' q (x ∷ xs) e h =
    let rest = Others-filter r r' q xs e h.1 in
    All-if (λ y. r'.id ≢ y.id) (q x) (x ∷ filter q xs) (filter q xs) ((λ k. h.0 (sym e ∙ k)), rest)
      rest

Others-map :
    (r : PackageRequest) (g : PackageRequest → PackageRequest) (xs : List PackageRequest)
    → ((x : PackageRequest) → (g x).id ≡ x.id)
    → Others r xs
    → Others r (map g xs)
Others-map r g [] keep h = tt
Others-map r g (x ∷ xs) keep h = ((λ e. h.0 (e ∙ keep x)), Others-map r g xs keep h.1)

module _ (close : PackageRequest → Result PackageRequest) (f g : PackageRequest → PackageRequest)
    (q : PackageRequest → Bool) (f_keeps : (x : PackageRequest) → (f x).id ≡ x.id)
    (g_keeps : (x : PackageRequest) → (g x).id ≡ x.id) where
  -- The loop over the rows that `q` selects, on a table where rows have changed by `g` since.
  pub close_each_lem :
      (xs : List PackageRequest)
      → Distinct id_of xs
      → All (λ x. q x ≡ true → close x ≡ ok (f x)) xs
      → close_each close (filter q xs) (map g xs) ≡ ok (map (λ x. if q x then f x else g x) xs)
  unfolding close_each
  close_each_lem [] d h = refl
  close_each_lem (x ∷ xs) d h =
      let ih = close_each_lem xs d.1 h.1 in
      elim (Bool-cases (q x)) [
        | inl e ↦ ground (
          arith,
          e,
          h.0 e,
          g_keeps x,
          update_where-Others x (f x) (map g xs) (Others-map x g xs g_keeps d.0),
          close_each-Others close (f x) (filter q xs) (map g xs)
              (Others-filter x (f x) q xs (f_keeps x) d.0),
          ih,
        )
        | inr e ↦ ground (
          arith,
          e,
          close_each-Others close (g x) (filter q xs) (map g xs)
              (Others-filter x (g x) q xs (g_keeps x) d.0),
          ih,
        )
      ]
