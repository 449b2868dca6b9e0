-- ===== src/Retry.antt =====
-- aurweb/db.py: the decorators `retry_deadlock` and `async_retry_deadlock`, which run a function again
-- where the database has found a deadlock. The function changes a state `S`, of which nothing is
-- assumed: a transaction that fails has been rolled back, or not.
mod Tests
use aurweb.Prelude.{
  ℕ, zero, suc, ◌+◌, ◌≤◌, Bool, true, false, ◌&&◌, Option, none, some, ◌≡◌, refl, ◌⊎◌, inl, inr,
  ◌∙◌, ltb, if◌then◌else◌, arith, Bool-cases,
}

-- How a call ends: it returns, or raises an OperationalError, of a deadlock or another, or anything
-- else.
pub data Attempt (A : Type 0) : Type 0 where
  returned : A → Attempt A
  deadlock operational_error other_error : Attempt A

abbrev pub limit : ℕ
limit = 10

abbrev pub is_deadlock : {A : Type 0} → Attempt A → Bool
is_deadlock deadlock = true
is_deadlock _ = false

module _ {A S : Type 0} where
  -- The wrapper at its argument `_i`, on fuel.
  unfoldable pub wrapper : ℕ → ℕ → (S → Attempt A × S) → S → Option (Attempt A × S)
  wrapper zero i f s = none
  wrapper (suc fuel) i f s =
      let (result, after) = f s in
      let again = wrapper fuel (i + 1) f after in
      if ltb i limit && is_deadlock result then again else some (result, after)

  -- The state after some attempts, and that each of them met a deadlock.
  abbrev pub after : ℕ → (S → Attempt A × S) → S → S
  after zero f s = s
  after (suc n) f s = after n f (f s).1

  abbrev pub AllDeadlock : ℕ → (S → Attempt A × S) → S → Type 0
  AllDeadlock zero f s = Unit
  AllDeadlock (suc n) f s = (is_deadlock (f s).0 ≡ true) × AllDeadlock n f (f s).1

  -- The calls end with that of `k` deadlocks before it.
  abbrev pub EndsAfter : ℕ → ℕ → ℕ → (S → Attempt A × S) → S → Type 0
  EndsAfter fuel i k f s =
      AllDeadlock k f s
      × (wrapper fuel i f s ≡ some (f (after k f s)))
      × ((is_deadlock (f (after k f s)).0 ≡ false) ⊎ (i + k ≡ limit))

  wrapper-EndsAfter :
      (n i : ℕ) (f : S → Attempt A × S) (s : S)
      → i + n ≡ limit
      → (k : ℕ) × (k ≤ n) × EndsAfter (suc n) i k f s
  unfolding wrapper
  wrapper-EndsAfter zero i f s h = (0, omega arith, (tt, ground (arith, h), inr (omega (arith, h))))
  wrapper-EndsAfter (suc n) i f s h =
      let (k, below, (dead, ends, why)) =
        wrapper-EndsAfter n (i + 1) f (f s).1 (omega (arith, h)) in
      let early : ltb i limit ≡ true = ground (arith, h) in
      elim (Bool-cases (is_deadlock (f s).0)) [
        | inl e ↦ (
          suc k,
          omega (arith, below),
          (
            (e, dead),
            rw (early, e) ends,
            elim why [ inl w ↦ inl w | inr w ↦ inr (omega (arith, w)) ],
          ),
        )
        | inr e ↦ (0, omega arith, (tt, rw (early, e) refl, inl e))
      ]

-- A function that is retried is called at most eleven times, whatever it does, and the wrapper ends:
-- after as many deadlocks as there were, at most ten, it has the result of the next call. That is no
-- deadlock, unless there were ten before it.
pub wrapper-ends :
    {A S : Type 0} (f : S → Attempt A × S) (s : S) → (k : ℕ) × (k ≤ 10) × EndsAfter 11 0 k f s
wrapper-ends f s = wrapper-EndsAfter 10 0 f s refl
