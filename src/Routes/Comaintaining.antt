-- ===== src/Routes/Comaintaining.antt =====
-- The form of aurweb/routers/pkgbase.py that edits the co-maintainers. `users` are the names of the
-- form, the lines stripped and the empty ones left out. Python leaves the order of a set open:
-- `set_order` is the order in which the elements of the set of a list are read.
use aurweb.Prelude.{
  ℕ, not, String, Option, none, some, List, [], ◌∷◌, ◌++◌, ◌==◌, if◌then◌else◌, filter,
}
use aurweb.Models.{Db, User, PackageComaintainer, Request}
use aurweb.Creds.{pkgbase_edit_comaintainers, has_credential}
use aurweb.Comaintainers.{of_base, contains_name, remove_comaintainers, add_comaintainers}
use aurweb.Actions.{approved}
use aurweb.Routes.{Response, redirect, page, pkgbase_path, with_pkgbase}

abbrev usernames : ℕ → List User → List String
usernames uid [] = []
usernames uid (u ∷ us) = if u.id == uid then u.username ∷ usernames uid us else usernames uid us

abbrev pub names : List User → List PackageComaintainer → List String
names users [] = []
names users (c ∷ cs) = usernames c.users_id users ++ names users cs

abbrev pub without : List String → List String → List String
without xs ys = filter (λ x. not (contains_name ys x)) xs

abbrev answer_added : String → Option String × Db → Response × Db
answer_added name (none, db) = (redirect (pkgbase_path name), db)
answer_added name (some e, db) = (page "pkgbase/comaintainers.html" 200, db)

unfoldable pub pkgbase_comaintainers_post :
    (List String → List String) → Request → String → List String → Db → Response × Db
unfolding has_credential remove_comaintainers add_comaintainers
pkgbase_comaintainers_post set_order req name users db = with_pkgbase name db (λ pkgbase.
    let records = names db.users (of_base pkgbase.id db.comaintainers) in
    if not (has_credential req.user pkgbase_edit_comaintainers (approved pkgbase.maintainer_uid))
    then (redirect (pkgbase_path name), db)
    else answer_added pkgbase.name (
        add_comaintainers pkgbase (set_order (without users records))
          (remove_comaintainers pkgbase.id (without records users) db)))
