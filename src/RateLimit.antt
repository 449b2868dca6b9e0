-- ===== src/RateLimit.antt =====
-- aurweb/ratelimit.py: how many requests a host may make. The counters stand in the table
-- ApiRateLimit, where the option `cache` is off (aurweb keeps them in Redis else, which is not
-- modelled). Time is an argument of each call; hosts are addresses, compared as whole texts.
pub mod Window
mod Tests
use aurweb.Prelude.{
  ℕ, ◌+◌, Bool, true, false, ◌||◌, String, Option, none, some, List, [], ◌∷◌, ◌++◌, if◌then◌else◌,
  ltb, find?, str_eq, update_where, delete_where,
}

pub record ApiRateLimit : Type 0 where
  pub ip : String
  pub requests : ℕ
  pub window_start : ℕ

pub record Limits : Type 0 where
  pub window_length : ℕ
  pub request_limit : ℕ

abbrev pub is_of : String → ApiRateLimit → Bool
is_of host r = str_eq r.ip host

-- `WindowStart < now - window_length`
abbrev pub is_over : Limits → ℕ → ApiRateLimit → Bool
is_over limits now r = ltb (r.window_start + limits.window_length) now

-- `record.Requests += 1`
abbrev pub count_one : ApiRateLimit → ApiRateLimit
count_one r = record r { requests = r.requests + 1 }

-- `retry_create`: the count of the record that it returns, and the table.
abbrev pub create_or_count :
    Option ApiRateLimit → ℕ → String → List ApiRateLimit → ℕ × List ApiRateLimit
create_or_count none now host rows =
    (1, rows ++ record { ip = host; requests = 1; window_start = now } ∷ [])
create_or_count (some r) now host rows = (r.requests + 1, update_where (is_of host) count_one rows)

unfoldable pub update_ratelimit_db : Limits → ℕ → String → List ApiRateLimit → ℕ × List ApiRateLimit
update_ratelimit_db limits now host rows =
    let left = delete_where (is_over limits now) rows in
    create_or_count (find? (is_of host) left) now host left

-- `check_ratelimit` without Redis: whether the limit is exceeded.
unfoldable pub check_ratelimit : Limits → ℕ → String → List ApiRateLimit → Bool × List ApiRateLimit
unfolding update_ratelimit_db
check_ratelimit limits now host rows =
    let (requests, after) = update_ratelimit_db limits now host rows in
    (ltb limits.request_limit requests, after)

-- A request of a host at a time.
pub record Hit : Type 0 where
  pub host : String
  pub now : ℕ

-- A run of requests: for those of one host, in order, whether each exceeded the limit.
unfoldable pub check_all : Limits → String → List Hit → List ApiRateLimit → List Bool
unfolding check_ratelimit
check_all limits host [] rows = []
check_all limits host (h ∷ hits) rows =
    let (exceeded, after) = check_ratelimit limits h.now h.host rows in
    let rest = check_all limits host hits after in
    if str_eq h.host host then exceeded ∷ rest else rest
