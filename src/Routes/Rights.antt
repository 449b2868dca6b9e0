-- ===== src/Routes/Rights.antt =====
-- Who changes what through the forms of aurweb/routers/pkgbase.py.
use aurweb.Prelude.{
  ℕ, ◌≡◌, refl, sym, ap, ◌∙◌, subst, Bool, true, false, ◌&&◌, String, some, List, [], ◌∷◌, ◌==◌,
  any, find?, holds, str_eq, is_some, arith, All, Bool-cases, Option-cases, inl, inr,
}
use aurweb.Models.{Db, PackageComment, Request, adoption, merge, base_of_name}
use aurweb.Creds.{pkgbase_adopt, pkgbase_merge, has_credential}
use aurweb.Requests.{Result, ok, raise, is_pending_of, update_closure_comment}
use aurweb.Requests.Tables.{tallies, KeepsTallies, update_closure_comment-KeepsTallies}
use aurweb.Votes.Counting.{IsCounted}
use aurweb.Actions.{pkgbase_merge_instance}
use aurweb.Actions.Counters.{IsCounted-tallies, pkgbase_merge_instance-IsCounted}
use aurweb.Routes.{Response, validate_comment, next_or, pkgbase_path, with_optional_comment}
use aurweb.Routes.Comments.{pkgbase_comment_post}
use aurweb.Routes.Ownership.{answer, with_updated, pkgbase_adopt_post, pkgbase_merge_post}

-- The form for adopting changes no package base for a user without the credential to adopt, whatever
-- the request that it names.
pub pkgbase_adopt_post-package_bases :
    (req : Request) (name next : String) (via : ℕ) (db : Db)
    → has_credential req.user pkgbase_adopt [] ≡ false
    → (pkgbase_adopt_post req name next via db).1.package_bases ≡ db.package_bases
unfolding pkgbase_adopt_post
pkgbase_adopt_post-package_bases req name next via db cred =
    elim (Option-cases (base_of_name name db)) [
      | inl e ↦ rw e refl
      | inr (p, e) ↦ elim (Bool-cases (is_some p.maintainer_uid)) [
        | inl m ↦ rw (e, cred, m) refl
        | inr m ↦ elim (Bool-cases (any (is_pending_of p.id adoption) db.requests)) [
          | inl a ↦ rw (e, cred, m, a) refl
          | inr a ↦ rw (e, cred, m, a) refl
        ]
      ]
    ]

find?-first {ℓ} :
    {A : Type ℓ} (p : A → Bool) (y x : A) (xs : List A)
    → p y ≡ true
    → find? p (y ∷ xs) ≡ some x
    → y ≡ x
find?-first p y x xs f e = ground (arith, f, e)

find?-later {ℓ} :
    {A : Type ℓ} (p : A → Bool) (y x : A) (xs : List A)
    → p y ≡ false
    → find? p (y ∷ xs) ≡ some x
    → find? p xs ≡ some x
find?-later p y x xs f e = ground (arith, f, e)

pub find?-holds {ℓ} :
    {A : Type ℓ} (p : A → Bool) (xs : List A) (x : A) → find? p xs ≡ some x → p x ≡ true
find?-holds p [] x e = ground (arith, e)
find?-holds p (y ∷ xs) x e = elim (Bool-cases (p y)) [
  | inl f ↦ ap p (sym (find?-first p y x xs f e)) ∙ f
  | inr f ↦ find?-holds p xs x (find?-later p y x xs f e)
]

-- What holds of all rows holds of the one that a query finds.
find?-All {ℓ κ} :
    {A : Type ℓ} (P : A → Type κ) (p : A → Bool) (xs : List A) (x : A)
    → All P xs
    → find? p xs ≡ some x
    → P x
find?-All P p [] x h e = ground (arith, e)
find?-All P p (y ∷ xs) x h e = elim (Bool-cases (p y)) [
  | inl f ↦ subst P (find?-first p y x xs f e) h.0
  | inr f ↦ find?-All P p xs x h.1 (find?-later p y x xs f e)
]

-- The form for editing a comment changes no comment that is not the user's own: if the comments with
-- the ID are not, the table of comments stays as it is.
pub pkgbase_comment_post-author :
    (req : Request) (name : String) (id : ℕ) (comment : String) (enable : Bool) (next : String)
    (cancel : Bool) (db : Db)
    → All (λ c. (c.id == id) ≡ true → holds c.users_id req.user.id ≡ false) db.comments
    → (pkgbase_comment_post req name id comment enable next cancel db).1.comments ≡ db.comments
unfolding pkgbase_comment_post
pkgbase_comment_post-author req name id comment enable next true db h = refl
pkgbase_comment_post-author req name id comment enable next false db h =
    elim (Option-cases (base_of_name name db)) [
      | inl e ↦ rw e refl
      | inr (p, e) ↦
          let test = λ (c : PackageComment). c.package_base_id == p.id && c.id == id in
          elim (Option-cases (find? test db.comments)) [
            | inl f ↦ rw (e, f) refl
            | inr (c, f) ↦
                let found = find?-holds test db.comments c f in
                let same : (c.id == id) ≡ true = ground (arith, found) in
                let other = find?-All _ test db.comments c h f same in
                elim (Bool-cases
                  (is_some (validate_comment req.config.max_chars_comment comment))) [
                    | inl v ↦ rw (e, f, v) refl
                    | inr v ↦ rw (e, f, v, other) refl
                  ]
          ]
    ]

with_optional_comment-IsCounted :
    (req : Request) (comments : String) (db : Db) (k : Response × Db)
    → IsCounted db
    → IsCounted k.1
    → IsCounted (with_optional_comment req comments db k).1
with_optional_comment-IsCounted req comments db k h l = elim (Bool-cases (str_eq comments "")) [
  | inl e ↦ rw e l
  | inr e ↦ elim (Bool-cases (is_some (validate_comment req.config.max_chars_comment comments))) [
    | inl v ↦ rw (e, v) h
    | inr v ↦ rw (e, v) l
  ]
]

with_updated-IsCounted :
    (db : Db) (r : Result Db) (k : Db → Response × Db)
    → IsCounted db
    → ((updated : Db) → tallies updated ≡ tallies db → IsCounted (k updated).1)
    → KeepsTallies db r
    → IsCounted (with_updated db r k).1
with_updated-IsCounted db (raise e) k h l same = h
with_updated-IsCounted db (ok updated) k h l same = l updated same

answer-IsCounted :
    (path : String) (r : Result (Unit {0}) × Db) → IsCounted r.1 → IsCounted (answer path r).1
answer-IsCounted path (ok _, db) h = h
answer-IsCounted path (raise e, db) h = h

-- The form for merging keeps the vote counters right, whatever is entered and whoever sends it.
pub pkgbase_merge_post-IsCounted :
    (req : Request) (name into comments : String) (confirm : Bool) (next : String) (db : Db)
    → IsCounted db
    → IsCounted (pkgbase_merge_post req name into comments confirm next db).1
unfolding pkgbase_merge_post
pkgbase_merge_post-IsCounted req name into comments confirm next db h =
    elim (Option-cases (base_of_name name db)) [
      | inl e ↦ rw e h
      | inr (p, e) ↦ elim (Bool-cases (has_credential req.user pkgbase_merge [])) [
        | inr c ↦ rw (e, c) h
        | inl c ↦ elim (Bool-cases confirm) [
          | inr k ↦ rw (e, c, k) h
          | inl k ↦ elim (Option-cases (base_of_name into db)) [
            | inl f ↦ rw (e, c, k, f) h
            | inr (t, f) ↦ elim (Bool-cases (p.id == t.id)) [
              | inl s ↦ rw (e, c, k, f, s) h
              | inr s ↦
                  rw (e, c, k, f, s)
                    (with_optional_comment-IsCounted req comments db _ h (
                      with_updated-IsCounted db
                        (update_closure_comment p merge comments (some t) db) _ h
                        (λ updated same.
                          answer-IsCounted (next_or next (pkgbase_path t.name))
                            (pkgbase_merge_instance req p t comments updated)
                            (pkgbase_merge_instance-IsCounted req p t comments updated s
                              (IsCounted-tallies db updated same h)))
                        (update_closure_comment-KeepsTallies p merge comments (some t) db)))
            ]
          ]
        ]
      ]
    ]
