-- ===== src/RateLimit/Window.antt =====
-- The counters of a host in one window, and the next.
use aurweb.Prelude.{
  ℕ, zero, suc, ◌+◌, ◌≤◌, ◌<◌, leb, Bool, true, false, List, [], ◌∷◌, ◌≡◌, refl, String, ltb, All,
  count, filter, arith, if◌then◌else◌, str_eq, delete_where, find?, find?-filter, head?,
  filter-update_where, filter-delete_where, filter-append, Bool-cases, inl, inr, ap, not, eq_iff,
  str_eq_refl, str_eq-false_symm, ◌==◌, Option, none, some, append-nil,
}
use aurweb.RateLimit.{
  count_one, ApiRateLimit, Limits, Hit, check_all, check_ratelimit, update_ratelimit_db,
  create_or_count, is_of, is_over, count_one,
}

-- The rows of a host after `k` of its requests in a window that began at `began`.
abbrev pub counter : String → ℕ → ℕ → List ApiRateLimit
counter host zero began = []
counter host (suc k) began = record { ip = host; requests = suc k; window_start = began } ∷ []

-- Whether each of the next `n` requests exceeds the limit, after `k` of them.
abbrev pub exceeded_from : ℕ → ℕ → ℕ → List Bool
exceeded_from limit k zero = []
exceeded_from limit k (suc n) = ltb limit (suc k) ∷ exceeded_from limit (suc k) n

delete_where-counter :
    (limits : Limits) (host : String) (k now began : ℕ)
    → now ≤ began + limits.window_length
    → delete_where (is_over limits now) (counter host k began) ≡ counter host k began
delete_where-counter limits host zero now began h = refl
delete_where-counter limits host (suc k) now began h = ground arith

filter-create_or_count-other :
    (o : Option ApiRateLimit) (k now began : ℕ) (host other : String) (rows : List ApiRateLimit)
    → str_eq other host ≡ false
    → str_eq host other ≡ false
    → filter (is_of host) rows ≡ counter host k began
    → filter (is_of host) (create_or_count o now other rows).1 ≡ counter host k began
filter-create_or_count-other none k now began host other rows e f h =
    rw (filter-append (is_of host) rows, h, e) (append-nil (counter host k began))
filter-create_or_count-other (some r) zero now began host other rows e f h =
    rw (filter-update_where (is_of host) (is_of other) count_one rows (λ x. refl), h) refl
filter-create_or_count-other (some r) (suc k) now began host other rows e f h =
    rw (filter-update_where (is_of host) (is_of other) count_one rows (λ x. refl), h, f) refl

-- The host's own request: the next count, and the row has it.
create_or_count-own :
    (k now began : ℕ) (host : String) (rows : List ApiRateLimit)
    → filter (is_of host) rows ≡ counter host k began
    → let done = create_or_count (head? (counter host k began)) now host rows in
      (done.0 ≡ suc k)
      × (filter (is_of host) done.1 ≡ counter host (suc k) (if k == 0 then now else began))
create_or_count-own zero now began host rows h =
    (refl, rw (filter-append (is_of host) rows, h, str_eq_refl host) refl)
create_or_count-own (suc k) now began host rows h = (
  ground arith,
  rw (filter-update_where (is_of host) (is_of host) count_one rows (λ x. refl), h, str_eq_refl host)
      (ground arith),
)

module _ (limits : Limits) (start : ℕ) (host : String) where
  -- After `k` requests of the host.
  abbrev Counted : ℕ → List ApiRateLimit → Type 0
  Counted k rows = (began : ℕ) × (start ≤ began) × (filter (is_of host) rows ≡ counter host k began)

  filter-left :
      (k began now : ℕ) (rows : List ApiRateLimit)
      → start ≤ began
      → now ≤ start + limits.window_length
      → filter (is_of host) rows ≡ counter host k began
      → filter (is_of host) (delete_where (is_over limits now) rows) ≡ counter host k began
  filter-left k began now rows s t h =
      rw (filter-delete_where (is_of host) (is_over limits now) rows, h)
        (delete_where-counter limits host k now began (omega arith))

  update_ratelimit_db-other :
      (k : ℕ) (h : Hit) (rows : List ApiRateLimit)
      → str_eq h.host host ≡ false
      → h.now ≤ start + limits.window_length
      → Counted k rows
      → Counted k (update_ratelimit_db limits h.now h.host rows).1
  unfolding update_ratelimit_db
  update_ratelimit_db-other k h rows e t (began, s, c) =
      let left = delete_where (is_over limits h.now) rows in
      (
        began,
        s,
        filter-create_or_count-other (find? (is_of h.host) left) k h.now began host h.host left e
            (str_eq-false_symm h.host host e) (filter-left k began h.now rows s t c),
      )

  update_ratelimit_db-own :
      (k : ℕ) (h : Hit) (rows : List ApiRateLimit)
      → h.host ≡ host
      → start ≤ h.now
      → h.now ≤ start + limits.window_length
      → Counted k rows
      → let done = update_ratelimit_db limits h.now h.host rows in
        (done.0 ≡ suc k) × Counted (suc k) done.1
  unfolding update_ratelimit_db
  update_ratelimit_db-own k h rows e s' t (began, s, c) =
      let left = delete_where (is_over limits h.now) rows in
      let kept = filter-left k began h.now rows s t c in
      let own = create_or_count-own k h.now began host left kept in
      rw (e, find?-filter (is_of host) left, kept)
        (own.0, ((if k == 0 then h.now else began), later k began h.now s s', own.1))
    where
      later :
          (k began now : ℕ) → start ≤ began → start ≤ now → start ≤ (if k == 0 then now else began)
      later k began now s s' = ground arith

  -- The host's requests of a run are numbered on from `k`.
  check_all-Counted :
      (hits : List Hit) (k : ℕ) (rows : List ApiRateLimit)
      → All (λ h. (start ≤ h.now) × (h.now ≤ start + limits.window_length)) hits
      → Counted k rows
      → check_all limits host hits rows
        ≡ exceeded_from limits.request_limit k (count (λ h. str_eq h.host host) hits)
  unfolding check_all check_ratelimit
  check_all-Counted [] k rows within c = refl
  check_all-Counted (h ∷ hits) k rows within c = elim (Bool-cases (str_eq h.host host)) [
    | inl e ↦
        let own =
          update_ratelimit_db-own k h rows ((eq_iff h.host host).0 e) within.0.0 within.0.1 c in
        rw (e, own.0)
          (ap (λ l. ltb limits.request_limit (suc k) ∷ l)
            (check_all-Counted hits (suc k) (update_ratelimit_db limits h.now h.host rows).1
              within.1 own.1))
    | inr e ↦ rw e (
        check_all-Counted hits k (update_ratelimit_db limits h.now h.host rows).1 within.1
          (update_ratelimit_db-other k h rows e within.0.1 c))
  ]

-- Over any run of requests, of any hosts, within one window from `start` on: if the host had no
-- counter, its requests are counted one by one, so that those beyond `request_limit` exceed the
-- limit, in whatever order the times are, and no other host's requests count.
pub check_all-window :
    (limits : Limits) (start : ℕ) (host : String) (hits : List Hit) (rows : List ApiRateLimit)
    → filter (is_of host) rows ≡ []
    → All (λ h. (start ≤ h.now) × (h.now ≤ start + limits.window_length)) hits
    → check_all limits host hits rows
      ≡ exceeded_from limits.request_limit 0 (count (λ h. str_eq h.host host) hits)
check_all-window limits start host hits rows h within =
    check_all-Counted limits start host hits 0 rows within (start, omega arith, h)

count-exceeded_from :
    (limit k n : ℕ) → k + count not (exceeded_from limit k n) ≤ (if leb k limit then limit else k)
count-exceeded_from limit k zero = ground arith
count-exceeded_from limit k (suc n) = ground (arith, count-exceeded_from limit (suc k) n)

-- At most `request_limit` requests of a host that had no counter are let through in a window,
-- whatever the requests of the run and their order.
pub count-check_all :
    (limits : Limits) (start : ℕ) (host : String) (hits : List Hit) (rows : List ApiRateLimit)
    → filter (is_of host) rows ≡ []
    → All (λ h. (start ≤ h.now) × (h.now ≤ start + limits.window_length)) hits
    → count not (check_all limits host hits rows) ≤ limits.request_limit
count-check_all limits start host hits rows h within =
    rw (check_all-window limits start host hits rows h within) (
      ground
        (arith, count-exceeded_from limits.request_limit 0 (count (λ h. str_eq h.host host) hits)))

filter-over :
    (limits : Limits) (now : ℕ) (host : String) (rows : List ApiRateLimit)
    → All (λ r. is_of host r ≡ true → (r.window_start + limits.window_length) < now) rows
    → filter (is_of host) (delete_where (is_over limits now) rows) ≡ []
filter-over limits now host [] h = refl
filter-over limits now host (r ∷ rows) h =
    let rest = filter-over limits now host rows h.1 in
    elim (Bool-cases (is_of host r)) [
      | inl e ↦ ground (arith, rest, h.0 e)
      | inr e ↦ ground (arith, rest, e)
    ]

-- A request of a host whose counters, if any, all began more than `window_length` ago counts as the
-- first of a window that begins with it, whatever the counts were.
pub update_ratelimit_db-over :
    (limits : Limits) (now : ℕ) (host : String) (rows : List ApiRateLimit)
    → All (λ r. is_of host r ≡ true → (r.window_start + limits.window_length) < now) rows
    → let done = update_ratelimit_db limits now host rows in
      (done.0 ≡ 1) × (filter (is_of host) done.1 ≡ counter host 1 now)
unfolding update_ratelimit_db
update_ratelimit_db-over limits now host rows h =
    let left = delete_where (is_over limits now) rows in
    let kept = filter-over limits now host rows h in
    rw (find?-filter (is_of host) left, kept) (create_or_count-own 0 now now host left kept)
