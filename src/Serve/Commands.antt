-- ===== src/Serve/Commands.antt =====
-- The commands of aurweb/git/serve.py that do not change who maintains a package base.
use aurweb.Prelude.{
  ℕ, ◌+◌, ◌-◌, Bool, true, false, not, ◌&&◌, ◌||◌, String, Option, none, some, List, [], ◌∷◌, ◌++◌,
  ◌==◌, if◌then◌else◌, leb, any, filter, holds, is_some, str_eq, update_where, delete_where,
  f_string, text_length, map,
}
use aurweb.Models.{
  Db, PackageBase, PackageRequest, PackageKeyword, ReqType, adoption, Status, pending, accepted,
  rejected, flag_notification, request_open_notification, request_close_notification, send,
  update_base,
}
use aurweb.Requests.{is_pending_of, insert_request}
use aurweb.Votes.{is_vote, insert_vote}
use aurweb.Serve.{
  integrity_error, invalid_reason, invalid_comment, already_voted, not_voted, permission_denied,
  system_exit, M, ◌>>=◌, ◌>>◌, pure, throw, check, read, execute, Session, require_pkgbase,
  require_user,
}

abbrev pub ssh_adoption_request : ℕ → ℕ → String → ℕ → ℕ → PackageRequest
ssh_adoption_request id pkgbase_id pkgbase userid now = record {
  id = id;
  req_type = adoption;
  package_base_id = some pkgbase_id;
  package_base_name = pkgbase;
  merge_base_name = none;
  users_id = some userid;
  comments = "Autogenerated by aurweb (SSH).";
  closure_comment = "";
  request_ts = now;
  closed_ts = none;
  closed_uid = none;
  status = pending;
}

-- The request type is there: aurweb/initdb.py inserts it.
unfoldable pub pkgreq_open_adoption : Session → ℕ → String → ℕ → Db → Db
pkgreq_open_adoption s pkgbase_id pkgbase userid db =
    send (request_open_notification userid db.next_request_id adoption pkgbase_id none ∷ [])
      (insert_request (ssh_adoption_request db.next_request_id pkgbase_id pkgbase userid s.now) db)

-- The first query of `pkgbase_adopt`.
abbrev pub is_unmaintained : ℕ → Db → Bool
is_unmaintained b db = any (λ p. p.id == b && not (is_some p.maintainer_uid)) db.package_bases

unfoldable pub pkgreq_by_pkgbase : ℕ → ReqType → Db → List ℕ
pkgreq_by_pkgbase b reqtype db = map (λ r. r.id) (filter (is_pending_of b reqtype) db.requests)

unfoldable pub pkgbase_adopt : Session → String → M (Unit {0})
unfolding pkgreq_open_adoption
pkgbase_adopt s pkgbase = do
  b ← require_pkgbase pkgbase
  orphan ← read (is_unmaintained b)
  u ← require_user s.user
  check orphan (permission_denied s.user)
  filed ← read (λ db. any (is_pending_of b adoption) db.requests)
  check (not filed) (
      system_exit
        (f_string ("There is already a pending adoption request for " ∷ pkgbase ∷ "." ∷ [])))
  execute (pkgreq_open_adoption s b pkgbase u)

abbrev statusmap : String → Option Status
statusmap reason =
    if str_eq reason "accepted"
    then some accepted
    else if str_eq reason "rejected"
    then some rejected
    else none

abbrev close_row : Session → Status → Option ℕ → String → PackageRequest → PackageRequest
close_row s status userid comments r = record r {
  status = status;
  closed_ts = some s.now;
  closed_uid = userid;
  closure_comment = comments;
}

abbrev uid_or_zero : Option ℕ → ℕ
uid_or_zero none = 0
uid_or_zero (some u) = u

abbrev closing_user : String → Bool → M (Option ℕ)
closing_user user true = pure none
closing_user user false = do u ← require_user user; pure (some u)

abbrev valid_reason : String → Option Status → M Status
valid_reason reason none = throw (invalid_reason reason)
valid_reason reason (some status) = pure status

unfoldable pub pkgreq_close : Session → ℕ → String → String → Bool → M (Unit {0})
pkgreq_close s reqid reason comments autoclose = do
  status ← valid_reason reason (statusmap reason)
  userid ← closing_user s.user autoclose
  execute (λ db.
      send (request_close_notification (uid_or_zero userid) reqid status ∷ []) (record db {
        requests =
            update_where (λ r. r.id == reqid) (close_row s status userid comments) db.requests;
      }))

unfoldable pub pkgbase_flag : Session → String → String → M (Unit {0})
pkgbase_flag s pkgbase comment = do
  b ← require_pkgbase pkgbase
  check (leb 3 (text_length comment)) (invalid_comment comment)
  u ← require_user s.user
  execute (λ db. send (flag_notification u b ∷ []) (record db {
    package_bases =
        update_where (λ p. p.id == b && not (is_some p.out_of_date_ts))
          (λ p. record p {
            out_of_date_ts = some s.now;
            flagger_uid = some u;
            flagger_comment = comment;
          })
          db.package_bases;
  }))

-- `pkgbase_get_comaintainers` joins Users and PackageBases: here, whether a user is one of the
-- co-maintainers that it returns.
abbrev pub is_comaintainer : String → String → Db → Bool
is_comaintainer pkgbase user db =
    any
      (λ c.
        any (λ u. u.id == c.users_id && str_eq u.username user) db.users
        && any (λ p. p.id == c.package_base_id && str_eq p.name pkgbase) db.package_bases)
      db.comaintainers

abbrev clear_out_of_date : PackageBase → PackageBase
clear_out_of_date p = record p { out_of_date_ts = none }

unfoldable pub pkgbase_unflag : Session → String → M (Unit {0})
pkgbase_unflag s pkgbase = do
  b ← require_pkgbase pkgbase
  u ← require_user s.user
  comaintainer ← read (is_comaintainer pkgbase s.user)
  execute (λ db. record db {
    package_bases =
        update_where
          (λ p. p.id == b && (comaintainer || holds p.maintainer_uid u || holds p.flagger_uid u))
          clear_out_of_date db.package_bases;
  })

unfoldable pub pkgbase_vote : Session → String → M (Unit {0})
pkgbase_vote s pkgbase = do
  b ← require_pkgbase pkgbase
  u ← require_user s.user
  voted ← read (λ db. any (is_vote u b) db.votes)
  check (not voted) (already_voted pkgbase)
  execute (insert_vote (record { users_id = u; package_base_id = b; vote_ts = s.now }))
  execute (update_base b (λ p. record p { num_votes = p.num_votes + 1 }))

unfoldable pub pkgbase_unvote : Session → String → M (Unit {0})
pkgbase_unvote s pkgbase = do
  b ← require_pkgbase pkgbase
  u ← require_user s.user
  voted ← read (λ db. any (is_vote u b) db.votes)
  check voted (not_voted pkgbase)
  execute (λ db. record db { votes = delete_where (is_vote u b) db.votes })
  execute (update_base b (λ p. record p { num_votes = p.num_votes - 1 }))

abbrev keyword_rows : ℕ → List String → List PackageKeyword
keyword_rows b [] = []
keyword_rows b (k ∷ ks) = record { package_base_id = b; keyword = k } ∷ keyword_rows b ks

abbrev no_duplicates : List String → Bool
no_duplicates [] = true
no_duplicates (k ∷ ks) = not (any (λ j. str_eq j k) ks) && no_duplicates ks

-- A keyword that is given twice breaks the primary key of PackageKeywords; then nothing is
-- committed.
unfoldable pub pkgbase_set_keywords : String → List String → M (Unit {0})
pkgbase_set_keywords pkgbase keywords = do
  b ← require_pkgbase pkgbase
  check (no_duplicates keywords) integrity_error
  execute (λ db. record db {
    keywords = delete_where (λ k. k.package_base_id == b) db.keywords ++ keyword_rows b keywords;
  })
