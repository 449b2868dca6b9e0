-- ===== src/Routes/Undoing.antt =====
-- Forms of aurweb/routers/pkgbase.py that undo one another.
use aurweb.Prelude.{
  ℕ, ◌≡◌, refl, sym, ap, ap₂, subst, true, ◌&&◌, String, none, some, List, [], ◌∷◌, ◌==◌, find?,
  update_where, arith, All, Bool-cases, Option-cases, inl, inr,
}
use aurweb.Models.{Db, PackageComment, Request, base_of_name}
use aurweb.Creds.{comment_delete, comment_undelete, has_credential}
use aurweb.Actions.{approved}
use aurweb.Routes.Rights.{find?-holds}
use aurweb.Routes.Comments.{pkgbase_comment_delete, pkgbase_comment_undelete}

abbrev delete_row : Request → PackageComment → PackageComment
delete_row req c = record c { del_users_id = some req.user.id; del_ts = some req.now }

abbrev restore_row : PackageComment → PackageComment
restore_row c = record c { del_users_id = none; del_ts = none }

-- No comment with the ID is deleted.
abbrev pub IsShown : ℕ → List PackageComment → Type 0
IsShown id = All (λ c. (c.id == id) ≡ true → (c.del_users_id ≡ none) × (c.del_ts ≡ none))

restored :
    (id : ℕ) (cs : List PackageComment)
    → IsShown id cs
    → update_where (λ c. c.id == id) restore_row cs ≡ cs
restored id [] h = refl
restored id (c ∷ cs) h = elim (Bool-cases (c.id == id)) [
  | inl e ↦
      let (user, ts) = h.0 e in
      rw e (
        ap₂ (λ r l. r ∷ l)
          (ap₂ (λ u t. record c { del_users_id = u; del_ts = t }) (sym user) (sym ts))
          (restored id cs h.1))
  | inr e ↦ rw e (ap (λ l. c ∷ l) (restored id cs h.1))
]

deleted-restored :
    (req : Request) (id : ℕ) (cs : List PackageComment)
    → IsShown id cs
    → update_where
        (λ c. c.id == id)
        restore_row
        (update_where (λ c. c.id == id) (delete_row req) cs)
      ≡ cs
deleted-restored req id [] h = refl
deleted-restored req id (c ∷ cs) h = elim (Bool-cases (c.id == id)) [
  | inl e ↦
      let (user, ts) = h.0 e in
      rw (e, e)
        (ap₂ (λ r l. r ∷ l)
          (ap₂ (λ u t. record c { del_users_id = u; del_ts = t }) (sym user) (sym ts))
          (deleted-restored req id cs h.1))
  | inr e ↦ rw (e, e) (ap (λ l. c ∷ l) (deleted-restored req id cs h.1))
]

find?-deleted :
    (req : Request) (b id : ℕ) (cs : List PackageComment) (c : PackageComment)
    → find? (λ c. c.package_base_id == b && c.id == id) cs ≡ some c
    → find?
        (λ c. c.package_base_id == b && c.id == id)
        (update_where (λ c. c.id == id) (delete_row req) cs)
      ≡ some (delete_row req c)
find?-deleted req b id [] c e = ground (arith, e)
find?-deleted req b id (d ∷ cs) c e = ground (arith, e, find?-deleted req b id cs c)

undelete-delete_credential :
    (req : Request) (c : PackageComment)
    → has_credential req.user comment_undelete (approved c.users_id)
      ≡ has_credential req.user comment_delete (approved c.users_id)
unfolding has_credential
undelete-delete_credential req c = refl

found_id : (b a k id : ℕ) → (a == b && k == id) ≡ true → k ≡ id
found_id b a k id h = ground (arith, h)

-- Undeleting a comment after deleting it leaves the comments as they were, for every user, allowed
-- or not, if no comment with the ID was deleted.
pub pkgbase_comment_undelete-delete :
    (req : Request) (name : String) (id : ℕ) (next : String) (db : Db)
    → IsShown id db.comments
    → (pkgbase_comment_undelete req name id next
        (pkgbase_comment_delete req name id next db).1).1.comments
      ≡ db.comments
unfolding pkgbase_comment_undelete pkgbase_comment_delete
pkgbase_comment_undelete-delete req name id next db h = elim (Option-cases (base_of_name name db)) [
  | inl e ↦ rw (e, e) refl
  | inr (p, e) ↦
      let test = λ (c : PackageComment). c.package_base_id == p.id && c.id == id in
      elim (Option-cases (find? test db.comments)) [
        | inl f ↦ rw (e, f, e, f) refl
        | inr (c, f) ↦
            let same = found_id p.id c.package_base_id c.id id (find?-holds test db.comments c f) in
            let both = undelete-delete_credential req c in
            elim (Bool-cases (has_credential req.user comment_delete (approved c.users_id))) [
              | inr d ↦ rw (e, f, d, e, f, both, d) refl
              | inl d ↦
                  let found =
                    subst
                      (λ k.
                        find? test (update_where (λ d. d.id == k) (delete_row req) db.comments)
                        ≡ some (delete_row req c))
                      (sym same) (find?-deleted req p.id id db.comments c f) in
                  rw (e, f, d, e, found, both, d)
                    (subst
                      (λ k.
                        update_where (λ d. d.id == k) restore_row
                          (update_where (λ d. d.id == k) (delete_row req) db.comments)
                        ≡ db.comments)
                      (sym same) (deleted-restored req id db.comments h))
            ]
      ]
]
