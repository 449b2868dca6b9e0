-- ===== src/Routes/Comments.antt =====
-- The comments of a package base, in aurweb/routers/pkgbase.py. The places that a handler redirects
-- to are left out of the addresses: a redirection has the path without the anchor of the comment.
use aurweb.Prelude.{
  ℕ, ◌+◌, Bool, true, false, not, ◌&&◌, String, none, some, List, [], ◌∷◌, ◌++◌, ◌==◌,
  if◌then◌else◌, any, find?, holds, str_eq, update_where,
}
use aurweb.Models.{Db, PackageBase, PackageComment, Request, comment_notification, send}
use aurweb.Creds.{comment_pin, comment_delete, comment_undelete, has_credential}
use aurweb.Comaintainers.{of_base}
use aurweb.Actions.{approved, users_of, notifies}
use aurweb.Routes.{
  Response, redirect, http_exception, or_404, pkgbase_path, next_or, with_pkgbase, with_comment,
  validate_comment,
}

abbrev pub update_comment : ℕ → (PackageComment → PackageComment) → Db → Db
update_comment id f db = record db { comments = update_where (λ c. c.id == id) f db.comments }

abbrev pub enable_notifications : Request → PackageBase → Db → Db
enable_notifications req pkgbase db =
    if any (notifies req.user.id pkgbase.id) db.notifications then db else record db {
      notifications =
          db.notifications ++ record { package_base_id = pkgbase.id; user_id = req.user.id } ∷ [];
    }

abbrev new_comment : Request → PackageBase → String → ℕ → PackageComment
new_comment req pkgbase comment id = record {
  id = id;
  package_base_id = pkgbase.id;
  users_id = some req.user.id;
  comments = comment;
  comment_ts = req.now;
  edited_ts = none;
  edited_users_id = none;
  del_ts = none;
  del_users_id = none;
  pinned_ts = 0;
}

abbrev insert_comment : PackageComment → Db → Db
insert_comment c db = record db {
  comments = db.comments ++ c ∷ [];
  next_comment_id = db.next_comment_id + 1;
}

unfoldable pub pkgbase_comments_post : Request → String → String → Bool → Db → Response × Db
unfolding validate_comment
pkgbase_comments_post req name comment enable db = with_pkgbase name db (λ pkgbase.
    with_comment req comment db (
      let id = db.next_comment_id in
      let added = insert_comment (new_comment req pkgbase comment id) db in
      (
        redirect (pkgbase_path pkgbase.name),
        send (comment_notification req.user.id pkgbase.id id ∷ [])
            (if enable then enable_notifications req pkgbase added else added),
      )))

-- `get_pkgbase_comment`, after the package base, and the rest of the handler.
abbrev pub with_comment_of :
    String → ℕ → Db → (PackageBase → PackageComment → Response × Db) → Response × Db
with_comment_of name id db k = with_pkgbase name db (λ pkgbase.
    or_404 (find? (λ c. c.package_base_id == pkgbase.id && c.id == id) db.comments) db (k pkgbase))

abbrev edit_row : Request → String → PackageComment → PackageComment
edit_row req comment c = record c {
  comments = comment;
  edited_users_id = some req.user.id;
  edited_ts = some req.now;
}

-- Editing a comment.
unfoldable pub pkgbase_comment_post :
    Request → String → ℕ → String → Bool → String → Bool → Db → Response × Db
unfolding validate_comment
pkgbase_comment_post req name id comment enable next true db = (redirect (pkgbase_path name), db)
pkgbase_comment_post req name id comment enable next false db =
    with_comment_of name id db (λ pkgbase db_comment. with_comment req comment db (
      if not (holds db_comment.users_id req.user.id)
      then (http_exception 401, db)
      else (let edited =
            if str_eq db_comment.comments comment
            then db
            else update_comment db_comment.id (edit_row req comment) db in
          (
            redirect (next_or next (pkgbase_path pkgbase.name)),
            if enable then enable_notifications req pkgbase edited else edited,
          ))))

abbrev maintainers : PackageBase → Db → List ℕ
maintainers pkgbase db =
    approved pkgbase.maintainer_uid ++ users_of (of_base pkgbase.id db.comaintainers)

-- A handler that changes one comment if the user may.
abbrev change_comment :
    String
    → ℕ
    → String
    → Db
    → (PackageBase → PackageComment → Bool)
    → (PackageComment → PackageComment)
    → Response × Db
change_comment name id next db allowed f = with_comment_of name id db (λ pkgbase comment.
    if allowed pkgbase comment
    then (redirect (next_or next (pkgbase_path name)), update_comment comment.id f db)
    else (http_exception 401, db))

unfoldable pub pkgbase_comment_pin : Request → String → ℕ → String → Db → Response × Db
unfolding has_credential
pkgbase_comment_pin req name id next db =
    change_comment name id next db
      (λ pkgbase comment. has_credential req.user comment_pin (maintainers pkgbase db))
      (λ c. record c { pinned_ts = req.now })

unfoldable pub pkgbase_comment_unpin : Request → String → ℕ → String → Db → Response × Db
unfolding has_credential
pkgbase_comment_unpin req name id next db =
    change_comment name id next db
      (λ pkgbase comment. has_credential req.user comment_pin (maintainers pkgbase db))
      (λ c. record c { pinned_ts = 0 })

unfoldable pub pkgbase_comment_delete : Request → String → ℕ → String → Db → Response × Db
unfolding has_credential
pkgbase_comment_delete req name id next db =
    change_comment name id next db
      (λ pkgbase comment. has_credential req.user comment_delete (approved comment.users_id))
      (λ c. record c { del_users_id = some req.user.id; del_ts = some req.now })

unfoldable pub pkgbase_comment_undelete : Request → String → ℕ → String → Db → Response × Db
unfolding has_credential
pkgbase_comment_undelete req name id next db =
    change_comment name id next db
      (λ pkgbase comment. has_credential req.user comment_undelete (approved comment.users_id))
      (λ c. record c { del_users_id = none; del_ts = none })
