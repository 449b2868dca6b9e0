-- ===== src/Accounts/Started.antt =====
-- The session that a login writes: `login` of aurweb/models/user.py.
use aurweb.Prelude.{
  String, ℕ, ◌==◌, Bool, true, false, some, List, [], ◌∷◌, ◌++◌, update_where, Bool-cases, inl, inr,
  ◌≡◌, arith, refl, All, subst, ◌∙◌, str_eq, any, find?, not, ◌&&◌, Option-cases, find?-All,
  find?-holds, ==_sound, str_eq_refl, if◌then◌else◌, ltb, str_eq-false_symm,
}
use aurweb.Accounts.{Env, Session}
use aurweb.Accounts.Login.{session_of, renewed, start_session}

-- The column SessionID is unique.
abbrev pub AreUnique : List Session → Type 0
AreUnique [] = Unit
AreUnique (x ∷ xs) = All (λ y. str_eq x.session_id y.session_id ≡ false) xs × AreUnique xs

abbrev pub has_sid : String → Session → Bool
has_sid sid s = str_eq s.session_id sid

find?-append {ℓ} :
    {A : Type ℓ} (p : A → Bool) (xs ys : List A)
    → any p xs ≡ false
    → find? p (xs ++ ys) ≡ find? p ys
find?-append p [] ys h = refl
find?-append p (x ∷ xs) ys h = ground (arith, h, find?-append p xs ys)

-- The session of a user, after its row is written, is the one with the ID, if no other has it.
find?-written :
    (uid : ℕ) (sid : String) (row s : Session) (xs : List Session)
    → has_sid sid row ≡ true
    → All (λ x. session_of uid x ≡ false → has_sid sid x ≡ false) xs
    → find? (session_of uid) xs ≡ some s
    → find? (has_sid sid) (update_where (session_of uid) (λ _. row) xs) ≡ some row
find?-written uid sid row s [] e h k = cc
find?-written uid sid row s (x ∷ xs) e h k = elim (Bool-cases (session_of uid x)) [
  | inl own ↦ rw own (rw e refl)
  | inr other ↦
      rw other (rw (h.0 other) (find?-written uid sid row s xs e h.1 (ground (arith, k, other))))
]

-- No row but the one that is found has its ID.
others_differ :
    (uid : ℕ) (s : Session) (xs : List Session)
    → AreUnique xs
    → find? (session_of uid) xs ≡ some s
    → All (λ x. session_of uid x ≡ false → has_sid s.session_id x ≡ false) xs
others_differ uid s [] h k = cc
others_differ uid s (x ∷ xs) h k = elim (Bool-cases (session_of uid x)) [
  | inl own ↦
      let same : x ≡ s = ground (arith, k, own) in
      (
        (λ other. cc),
        after xs (subst (λ z. All (λ y. str_eq z.session_id y.session_id ≡ false) xs) same h.0),
      )
  | inr other ↦
      let rest : find? (session_of uid) xs ≡ some s = ground (arith, k, other) in
      (
        (λ _.
            (find?-All (λ y. str_eq x.session_id y.session_id ≡ false) (session_of uid) s xs rest
              h.0).0),
        others_differ uid s xs h.1 rest,
      )
]
  where
    after :
        (ys : List Session)
        → All (λ y. str_eq s.session_id y.session_id ≡ false) ys
        → All (λ x. session_of uid x ≡ false → has_sid s.session_id x ≡ false) ys
    after [] g = tt
    after (y ∷ ys) g = ((λ _. str_eq-false_symm s.session_id y.session_id g.0), after ys g.1)

fresh_differs :
    (uid : ℕ) (sid : String) (xs : List Session)
    → any (has_sid sid) xs ≡ false
    → All (λ x. session_of uid x ≡ false → has_sid sid x ≡ false) xs
fresh_differs uid sid [] h = tt
fresh_differs uid sid (x ∷ xs) h =
    ((λ _. ground (arith, h)), fresh_differs uid sid xs (ground (arith, h)))

-- The session that a login starts is found by its ID, is the user's, and is as old as the login.
pub start_session-found :
    (env : Env) (uid : ℕ) (sessions : List Session)
    → AreUnique sessions
    → any (has_sid env.random) sessions ≡ false
    → (row : Session) × (find?
          (has_sid (start_session env uid (find? (session_of uid) sessions) sessions).0)
          (start_session env uid (find? (session_of uid) sessions) sessions).1
        ≡ some row)
      × (row.users_id ≡ uid)
      × (row.last_update_ts ≡ env.now)
start_session-found env uid sessions u fresh =
    elim (Option-cases (find? (session_of uid) sessions)) [
      | inl e ↦
          let row : Session = record {
            users_id = uid;
            session_id = env.random;
            last_update_ts = env.now;
          } in
          rw e (
            row,
            find?-append (has_sid env.random) sessions (row ∷ []) fresh
                ∙ rw (str_eq_refl env.random) refl,
            refl,
            refl,
          )
      | inr (s, e) ↦ rw e (
        renewed env s,
        again s e,
        ==_sound s.users_id uid (find?-holds (session_of uid) s sessions e),
        refl,
      )
    ]
  where
    again :
        (s : Session)
        → find? (session_of uid) sessions ≡ some s
        → find?
            (has_sid (renewed env s).session_id)
            (update_where (session_of uid) (λ _. renewed env s) sessions)
          ≡ some (renewed env s)
    again s e =
        find?-written uid (renewed env s).session_id (renewed env s) s sessions
          (str_eq_refl (renewed env s).session_id)
          (differ (not (s.last_update_ts == 0) && ltb s.last_update_ts env.now)) e
      where
        differ :
            (b : Bool)
            → All
                (λ x.
                  session_of uid x ≡ false
                  → has_sid (if b then env.random else s.session_id) x ≡ false)
                sessions
        differ true = fresh_differs uid env.random sessions fresh
        differ false = others_differ uid s sessions u e
