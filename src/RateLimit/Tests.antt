-- ===== src/RateLimit/Tests.antt =====
-- Runs of requests.
use aurweb.Prelude.{◌≡◌, refl, List, [], ◌∷◌, true, false, ◌≤◌, arith, count, not, filter}
use aurweb.RateLimit.{
  ApiRateLimit, Limits, Hit, is_of, check_all, check_ratelimit, update_ratelimit_db,
}
use aurweb.RateLimit.Window.{check_all-window, count-check_all, update_ratelimit_db-over, counter}

-- Two requests in ten seconds.
abbrev limits : Limits
limits = record { window_length = 10; request_limit = 2 }

abbrev hits : List Hit
hits =
    record { host = "a"; now = 100 }
    ∷ record { host = "b"; now = 101 }
    ∷ record { host = "a"; now = 110 }
    ∷ record { host = "a"; now = 105 }
    ∷ []

abbrev rows : List ApiRateLimit
rows = record { ip = "b"; requests = 9; window_start = 95 } ∷ []

third_exceeds : check_all limits "a" hits rows ≡ false ∷ false ∷ true ∷ []
unfolding check_all check_ratelimit update_ratelimit_db
third_exceeds = refl

check_all-window_example : check_all limits "a" hits rows ≡ false ∷ false ∷ true ∷ []
check_all-window_example = check_all-window limits 100 "a" hits rows refl (omega arith)

count-check_all_example : count not (check_all limits "a" hits rows) ≤ 2
count-check_all_example = count-check_all limits 100 "a" hits rows refl (omega arith)

update_ratelimit_db-over_example :
    let done = update_ratelimit_db limits 106 "b" rows in
    (done.0 ≡ 1) × (filter (is_of "b") done.1 ≡ counter "b" 1 106)
update_ratelimit_db-over_example =
    update_ratelimit_db-over limits 106 "b" rows ((λ e. omega arith), tt)
