-- ===== src/Comaintainers.antt =====
-- aurweb/pkgbase/util.py: the co-maintainers of a package base and their priorities. The row of a
-- co-maintainer is known by its user and its package base. Queries run on the database as it was
-- last flushed: the session of aurweb/db.py has autoflush off, so a row deleted in a transaction is
-- still read by the queries of that transaction.
pub mod Rotation
pub mod Changes
mod Tests
use aurweb.Prelude.{
  ℕ, ◌+◌, Bool, true, false, ◌&&◌, String, Option, none, some, List, [], ◌∷◌, ◌++◌, ◌==◌,
  if◌then◌else◌, filter, any, head?, holds, str_eq, update_where, delete_where, order_by, asc, desc,
}
use aurweb.Models.{
  Db, User, PackageBase, PackageComaintainer, Notification, comaintainer_add_notification,
  comaintainer_remove_notification, send, user_of_name,
}

abbrev pub of_base : ℕ → List PackageComaintainer → List PackageComaintainer
of_base b cs = filter (λ c. c.package_base_id == b) cs

abbrev pub same_row : PackageComaintainer → PackageComaintainer → Bool
same_row c d = d.users_id == c.users_id && d.package_base_id == c.package_base_id

abbrev pub by_priority : PackageComaintainer → PackageComaintainer → Bool
by_priority = asc (λ c. c.priority)

-- The co-maintainers of a package base, next in line first.
abbrev pub in_line : ℕ → List PackageComaintainer → List PackageComaintainer
in_line b cs = order_by by_priority (of_base b cs)

abbrev set_priority : PackageComaintainer → ℕ → List PackageComaintainer → List PackageComaintainer
set_priority c i cs = update_where (same_row c) (λ d. record d { priority = i }) cs

-- The loop of `rotate_comaintainers`, over the rows that its query returned.
rotate_from : ℕ → List PackageComaintainer → List PackageComaintainer → List PackageComaintainer
rotate_from i [] cs = cs
rotate_from i (c ∷ rest) cs = rotate_from (i + 1) rest (set_priority c i cs)

unfoldable pub rotate_comaintainers : ℕ → Db → Db
unfolding rotate_from order_by
rotate_comaintainers b db = record db {
  comaintainers = rotate_from 1 (in_line b db.comaintainers) db.comaintainers;
}

-- Inside a transaction: the rotation reads the row that is going to be deleted.
unfoldable pub remove_comaintainer : PackageComaintainer → Db → Notification × Db
remove_comaintainer comaint db =
    let rotated = rotate_comaintainers comaint.package_base_id db in
    (
      comaintainer_remove_notification comaint.users_id comaint.package_base_id,
      record rotated { comaintainers = delete_where (same_row comaint) rotated.comaintainers },
    )

abbrev pub contains_name : List String → String → Bool
contains_name names name = any (λ n. str_eq n name) names

-- The join with Users, and its filter on the name.
abbrev pub is_named : List String → List User → ℕ → Bool
is_named usernames users uid = any (λ u. u.id == uid && contains_name usernames u.username) users

abbrev remove_notifications : ℕ → List PackageComaintainer → List Notification
remove_notifications b [] = []
remove_notifications b (c ∷ cs) =
    comaintainer_remove_notification c.users_id b ∷ remove_notifications b cs

unfoldable pub remove_comaintainers : ℕ → List String → Db → Db
remove_comaintainers b usernames db =
    let chosen = λ (c : PackageComaintainer).
      c.package_base_id == b && is_named usernames db.users c.users_id in
    let removed = filter chosen db.comaintainers in
    let deleted = record db { comaintainers = delete_where chosen db.comaintainers } in
    send (remove_notifications b removed) (rotate_comaintainers b deleted)

abbrev priority_of : Option PackageComaintainer → ℕ
priority_of none = 0
priority_of (some c) = c.priority

unfoldable pub latest_priority : ℕ → Db → ℕ
unfolding order_by
latest_priority b db =
    priority_of (head? (order_by (desc (λ c. c.priority)) (of_base b db.comaintainers)))

-- `none` stands for the notification that does nothing.
unfoldable pub add_comaintainer : PackageBase → ℕ → Db → Option Notification × Db
add_comaintainer pkgbase uid db =
    let new_prio = latest_priority pkgbase.id db + 1 in
    let row : PackageComaintainer = record {
      users_id = uid;
      package_base_id = pkgbase.id;
      priority = new_prio;
    } in
    if holds pkgbase.maintainer_uid uid then (none, db) else (
      some (comaintainer_add_notification uid pkgbase.id),
      record db { comaintainers = db.comaintainers ++ row ∷ [] },
    )

-- The first loop of `add_comaintainers`: the users of the names, or the first name with no user.
pub data Lookup : Type 0 where
  found : List User → Lookup
  invalid_user_name : String → Lookup

abbrev also_found : User → Lookup → Lookup
also_found u (found us) = found (u ∷ us)
also_found u (invalid_user_name name) = invalid_user_name name

unfoldable pub find_users : Db → List String → Lookup
find_users db [] = found []
find_users db (name ∷ names) = elim (user_of_name name db) [
  | none ↦ invalid_user_name name
  | some u ↦ also_found u (find_users db names)
]

abbrev noted : Option Notification → List Notification
noted none = []
noted (some n) = n ∷ []

-- The second loop, with the notifications that it collects.
add_each : PackageBase → List User → Db → List Notification × Db
unfolding add_comaintainer
add_each pkgbase [] db = ([], db)
add_each pkgbase (u ∷ us) db =
    let (notif, added) = add_comaintainer pkgbase u.id db in
    let (notifs, done) = add_each pkgbase us added in (noted notif ++ notifs, done)

abbrev add_found : PackageBase → Lookup → Db → Option String × Db
add_found pkgbase (invalid_user_name name) db = (some name, db)
add_found pkgbase (found us) db =
    let (notifs, added) = add_each pkgbase us db in (none, send notifs added)

-- The result is the name that the error string tells, if any.
unfoldable pub add_comaintainers : PackageBase → List String → Db → Option String × Db
unfolding add_each find_users
add_comaintainers pkgbase usernames db = add_found pkgbase (find_users db usernames) db
