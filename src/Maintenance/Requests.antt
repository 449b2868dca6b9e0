-- ===== src/Maintenance/Requests.antt =====
-- aurweb/scripts/requestmaint.py, usermaint.py and votereminder.py.
use aurweb.Prelude.{
  ℕ, ◌+◌, ◌*◌, Bool, ◌&&◌, none, some, List, [], ◌∷◌, f_string, ltb, leb, filter, map, update_where,
}
use aurweb.Models.{
  Db, User, PackageRequest, adoption, pending, rejected, Notification, request_close_notification,
  vote_reminder_notification, send, same_req_type, same_status,
}
use aurweb.Proposals.{VoteInfo}

-- Adoption requests that nobody has acted on.
abbrev pub is_idle : ℕ → ℕ → PackageRequest → Bool
is_idle idle_time now r =
    same_req_type r.req_type adoption
    && same_status r.status pending
    && ltb (r.request_ts + idle_time) now

abbrev pub reject : ℕ → PackageRequest → PackageRequest
reject now r = record r {
  status = rejected;
  closed_ts = some now;
  closure_comment = f_string (
      "[Autogenerated] Rejected adoption for " ∷ r.package_base_name
      ∷ ": no Package Maintainer acted on this request in time." ∷ []);
}

-- A notification that no user has closed the request: its user is 0.
unfoldable pub reject_idle : ℕ → ℕ → Db → Db
reject_idle idle_time now db =
    let idle = filter (is_idle idle_time now) db.requests in
    send (map (λ r. request_close_notification 0 r.id rejected) idle)
      (record db { requests = update_where (is_idle idle_time now) (reject now) db.requests })

abbrev pub week : ℕ
week = 86400 * 7

-- The addresses of logins before a week ago are removed.
unfoldable pub scrub_addresses : ℕ → List User → List User
scrub_addresses now users =
    let scrubbed =
      update_where (λ u. ltb (u.last_login + week) now)
        (λ u. record u { last_login_ip_address = none }) users in
    update_where (λ u. ltb (u.last_ssh_login + week) now)
      (λ u. record u { last_ssh_login_ip_address = none }) scrubbed

-- `range_start` and `range_end` of the section votereminder.
unfoldable pub vote_reminders : ℕ → ℕ → ℕ → List VoteInfo → List Notification
vote_reminders range_start range_end now vs =
    map (λ v. vote_reminder_notification v.id)
      (filter (λ v. leb (now + range_start) v.ends && leb v.ends (now + range_end)) vs)
