-- ===== src/Serve/Ownership.antt =====
-- The commands of aurweb/git/serve.py that change the maintainer or the co-maintainers of a package
-- base. Python leaves the order of a set open: `set_order` is the order in which the elements of the
-- set of a list are read, and each command that reads a set takes it as an argument.
use aurweb.Prelude.{
  ℕ, ◌+◌, Bool, true, false, not, ◌&&◌, ◌||◌, String, Option, none, some, List, [], ◌∷◌, ◌++◌, ◌==◌,
  if◌then◌else◌, contains, filter, update_where, delete_where, f_string,
}
use aurweb.Models.{
  Db, User, PackageComaintainer, orphan, disown_notification, comaintainer_add_notification,
  comaintainer_remove_notification, send, update_base,
}
use aurweb.Comaintainers.{in_line}
use aurweb.Actions.{set_maintainer}
use aurweb.Serve.{
  invalid_user, permission_denied, M, ◌>>=◌, ◌>>◌, pure, check, read, execute, Session,
  require_pkgbase, require_user, select_user_id, pkgbase_from_name, pkgbase_has_full_access,
}
use aurweb.Serve.Commands.{pkgreq_by_pkgbase, pkgreq_close}

abbrev pub names_of : List User → List String
names_of [] = []
names_of (u ∷ us) = u.username ∷ names_of us

-- The user of each row, by the join with Users; a row whose user is gone is not in the join.
abbrev pub joined : List User → List PackageComaintainer → List String
joined users [] = []
joined users (c ∷ cs) = names_of (filter (λ u. u.id == c.users_id) users) ++ joined users cs

-- The names, next in line first.
unfoldable pub pkgbase_get_comaintainers : String → Db → List String
pkgbase_get_comaintainers pkgbase db = elim (pkgbase_from_name pkgbase db) [
  | none ↦ []
  | some b ↦ joined db.users (in_line b db.comaintainers)
]

-- The loops that look the users up.
unfoldable pub select_user_ids : String → List String → M (List ℕ)
select_user_ids user [] = pure []
select_user_ids user (name ∷ names) = do
  u ← select_user_id name
  check (not (u == 0)) (invalid_user user)
  us ← select_user_ids user names
  pure (u ∷ us)

abbrev pub difference : List ℕ → List ℕ → List ℕ
difference us vs = filter (λ u. not (contains vs u)) us

abbrev pub row_of : ℕ → ℕ → PackageComaintainer → Bool
row_of b u c = c.package_base_id == b && c.users_id == u

-- The loop over `uids_new`, from the priority i on.
unfoldable pub write_from : ℕ → List ℕ → ℕ → List ℕ → Db → Db
write_from b uids_old i [] db = db
write_from b uids_old i (u ∷ us) db =
    let inserted = send (comaintainer_add_notification u b ∷ []) (record db {
      comaintainers =
          db.comaintainers ++ record { users_id = u; package_base_id = b; priority = i } ∷ [];
    }) in
    let updated = record db {
      comaintainers = update_where (row_of b u) (λ c. record c { priority = i }) db.comaintainers;
    } in
    write_from b uids_old (i + 1) us (if contains uids_old u then updated else inserted)

-- The loop over `uids_rem`.
unfoldable pub delete_each : ℕ → List ℕ → Db → Db
delete_each b [] db = db
delete_each b (u ∷ us) db = delete_each b us (
    send (comaintainer_remove_notification u b ∷ [])
      (record db { comaintainers = delete_where (row_of b u) db.comaintainers }))

module _ (set_order : List ℕ → List ℕ) where
  -- The writes of `pkgbase_set_comaintainers`.
  unfoldable pub replace_comaintainers : ℕ → List ℕ → List ℕ → Db → Db
  unfolding write_from delete_each
  replace_comaintainers b uids_old uids_new db =
      delete_each b (set_order (difference uids_old uids_new))
        (write_from b uids_old 1 (set_order uids_new) db)

  -- The old co-maintainers are looked up in the order of their line, not in that of the set.
  unfoldable pub pkgbase_set_comaintainers : Session → String → List String → M (Unit {0})
  unfolding replace_comaintainers
  pkgbase_set_comaintainers s pkgbase userlist = do
    b ← require_pkgbase pkgbase
    owner ← read (pkgbase_has_full_access pkgbase s.user)
    check (s.privileged || owner) (permission_denied s.user)
    userlist_old ← read (pkgbase_get_comaintainers pkgbase)
    uids_old ← select_user_ids s.user userlist_old
    uids_new ← select_user_ids s.user userlist
    execute (replace_comaintainers b uids_old uids_new)

  abbrev close_orphan_requests : Session → String → List ℕ → M (Unit {0})
  close_orphan_requests s comment [] = pure tt
  close_orphan_requests s comment (r ∷ rs) = do
    pkgreq_close s r "accepted" comment true
    close_orphan_requests s comment rs

  -- Who becomes the maintainer, and who stays a co-maintainer.
  abbrev successor : List String → M (Option ℕ × List String)
  successor [] = pure (none, [])
  successor (name ∷ names) = do u ← select_user_id name; pure (some u, names)

  abbrev succeed : Bool → String → M (Option ℕ × List String)
  succeed false pkgbase = pure (none, [])
  succeed true pkgbase = do
    comaintainers ← read (pkgbase_get_comaintainers pkgbase)
    successor comaintainers

  unfoldable pub pkgbase_disown : Session → String → M (Unit {0})
  pkgbase_disown s pkgbase = do
    b ← require_pkgbase pkgbase
    initialized_by_owner ← read (pkgbase_has_full_access pkgbase s.user)
    check (s.privileged || initialized_by_owner) (permission_denied s.user)
    orphan_requests ← read (pkgreq_by_pkgbase b orphan)
    close_orphan_requests s (f_string ("The user " ∷ s.user ∷ " disowned the package." ∷ []))
        orphan_requests
    next ← succeed initialized_by_owner pkgbase
    pkgbase_set_comaintainers s pkgbase next.1
    execute (update_base b (set_maintainer next.0))
    u ← require_user s.user
    execute (send (disown_notification u b ∷ []))
