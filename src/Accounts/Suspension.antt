-- ===== src/Accounts/Suspension.antt =====
-- What suspending an account does.
use aurweb.Prelude.{
  String, ℕ, Bool, true, false, Option, none, some, List, [], ◌∷◌, update_where, Bool-cases, inl,
  inr, ◌⊎◌, ◌≢◌, ◌≡◌, arith, refl, All, sym, subst, ◌∙◌, ap, All-update_where, find?, delete_where,
  All-delete_where_self, if◌then◌else◌, find?-holds, ==_sound, true_ne_false,
}
use aurweb.Accounts.{Account, Store, Env, Form, is_id, account_of_id}
use aurweb.Accounts.Texts.{is_empty, strtobool}
use aurweb.Accounts.Login.{login, authenticate, logged_in, session_of, main}
use aurweb.Accounts.Updates.{
  Outcome, returned, raised, store_of, update_all, with_type, suspend, ◌>>=◌, simple, language,
  timezone, ssh_pubkey, account_type, password, simple_account,
}
use aurweb.Accounts.Forms.{account_edit_post, cleaned, of_outcome, complete, named, Response}
use aurweb.Accounts.Writes.{
  IsKept, update_all-Establishes, account_edit_post-cases, is_complete, of_outcome-store,
}
use aurweb.Accounts.ShutOut.{IsSuspended, NoSession, shut_out, connects_as}
use aurweb.Accounts.Sound.{IsSound, edit-IsSound}

-- A write that lets accounts be suspended.
keeps_suspended :
    (uid v : ℕ) (g : Account → Account) (xs : List Account)
    → ((c : Account) → (g c).user.id ≡ c.user.id)
    → ((c : Account) → c.user.suspended ≡ true → (g c).user.suspended ≡ true)
    → IsSuspended uid xs
    → IsSuspended uid (update_where (is_id v) g xs)
keeps_suspended uid v g xs i s h =
    All-update_where (λ c. is_id uid c ≡ true → c.user.suspended ≡ true) (is_id v) g xs
      (λ c _ k own. s c (k (rw (sym (i c)) own))) h

suspends :
    (env : Env) (f : Form) (uid : ℕ) (xs : List Account)
    → strtobool env f.s ≡ true
    → IsSuspended uid (update_where (is_id uid) (simple_account env f) xs)
suspends env f uid [] h = tt
suspends env f uid (x ∷ xs) h = (go (Bool-cases (is_id uid x)), suspends env f uid xs h)
  where
    go :
        ((is_id uid x ≡ true) ⊎ (is_id uid x ≡ false))
        → is_id uid (if is_id uid x then simple_account env f x else x) ≡ true
        → (if is_id uid x then simple_account env f x else x).user.suspended ≡ true
    go (inl e) = rw e (λ _. h)
    go (inr e) = rw e (λ own. absurd (true_ne_false (sym own ∙ e)))

IsSuspended-IsKept :
    (env : Env) (f : Form) (requester : ℕ) (a : Account)
    → strtobool env f.s ≡ true
    → IsKept env f requester a (λ _. IsSuspended a.user.id)
IsSuspended-IsKept env f requester a h =
    let keep = keeps_suspended a.user.id in
    record {
      by_simple = λ _ xs _. suspends env f a.user.id xs h;
      by_language = λ _ xs. keep a.user.id _ xs (λ c. refl) (λ c k. k);
      by_timezone = λ _ xs. keep a.user.id _ xs (λ c. refl) (λ c k. k);
      by_type = λ _ xs. by_type_lem f.t xs;
      by_password = λ uid _ xs. keep uid _ xs (λ c. refl) (λ c k. k);
      by_login = λ uid _ xs. keep uid (logged_in env) xs (λ c. refl) (λ c k. k);
    }
  where
    by_type_lem :
        (o : Option ℕ) (xs : List Account)
        → IsSuspended a.user.id xs
        → IsSuspended a.user.id (update_where (is_id a.user.id) (with_type o) xs)
    by_type_lem none xs =
        keeps_suspended a.user.id a.user.id (with_type none) xs (λ c. refl) (λ c k. k)
    by_type_lem (some t) xs =
        keeps_suspended a.user.id a.user.id (with_type (some t)) xs (λ c. refl) (λ c k. k)

-- Where all updates return, the last has ended the sessions of the account.
suspend-NoSession :
    (f : Form) (a : Account) (m : Outcome) (st : Store)
    → is_empty f.s ≡ false
    → (m >>= suspend f a) ≡ returned st
    → NoSession a.user.id st
suspend-NoSession f a (raised s) st e h = absurd (never h)
  where
    never : raised s ≢ returned st
    never k = cc
suspend-NoSession f a (returned s) st e h = go (is_empty f.s) e h
  where
    go :
        (b : Bool)
        → b ≡ false
        → (if b
            then returned s
            else returned (record s { sessions = delete_where (session_of a.user.id) s.sessions }))
          ≡ returned st
        → NoSession a.user.id st
    go true k l = cc
    go false k l =
        subst (All (λ r. session_of a.user.id r ≡ false))
          (ap (λ (o : Outcome). (store_of o).sessions) l)
          (All-delete_where_self (session_of a.user.id) s.sessions)

asked : (env : Env) (v : String) → strtobool env v ≡ true → is_empty v ≡ false
unfolding strtobool
asked env v h = elim (Bool-cases (is_empty v)) [ inr e ↦ e | inl e ↦ absurd (ground (arith, h, e)) ]

of_outcome-complete :
    (m : Outcome) → is_complete (of_outcome complete m).0 ≡ true → m ≡ returned (store_of m)
of_outcome-complete (returned st) h = refl
of_outcome-complete (raised st) h = cc

-- What all updates together leave, where they return.
update_all-IsSuspended :
    (env : Env) (f : Form) (requester : ℕ) (a : Account) (st : Store)
    → update_all env f requester a st ≡ returned (store_of (update_all env f requester a st))
    → strtobool env f.s ≡ true
    → IsSuspended a.user.id (store_of (update_all env f requester a st)).accounts
      × NoSession a.user.id (store_of (update_all env f requester a st))
unfolding update_all
update_all-IsSuspended env f requester a st done s = (
  update_all-Establishes env f requester a (IsSuspended-IsKept env f requester a s) st
      (suspends env f a.user.id st.accounts s),
  suspend-NoSession f a
      (simple env f a st
        >>= language f a
        >>= timezone f a
        >>= ssh_pubkey env f a
        >>= account_type f a
        >>= password env f requester a)
      _ (asked env f.s s) done,
)

-- Where the form for editing an account suspends it and is done, nobody is that account any more: no
-- cookie stands for it, no password logs it in, and no SSH key connects under its
-- name. The accounts are apart.
pub account_edit_post-suspended :
    (env : Env) (requester : Account) (name : String) (f : Form) (st : Store) (a b : Account)
    (env' : Env) (sid : String) (remembered : Bool) (passwd : String) (regex : String → Bool)
    (keytype keytext : String)
    → IsSound st
    → find? (named name) st.accounts ≡ some a
    → is_complete (account_edit_post env requester name f st).0 ≡ true
    → strtobool env f.s ≡ true
    → account_of_id a.user.id (account_edit_post env requester name f st).1 ≡ some b
    → ((authenticate env' sid remembered (account_edit_post env requester name f st).1).0 ≢ some b)
      × ((login env' b passwd (account_edit_post env requester name f st).1).0 ≡ none)
      × (connects_as b.user.username
            (main regex env' keytype keytext (account_edit_post env requester name f st).1)
          ≡ false)
account_edit_post-suspended env requester name f st a b env' sid remembered passwd regex keytype
      keytext h found done s here =
    elim (account_edit_post-cases env requester name f st) [
      | inl (_, undone) ↦ absurd (true_ne_false (sym done ∙ undone))
      | inr (c, found', may, ok, e) ↦
          let m = update_all env (cleaned f) requester.user.id c st in
          let same : c ≡ a = some_inj (sym found' ∙ found) in
          let store : (account_edit_post env requester name f st).1 ≡ store_of m =
            ap (λ (r : Response × Store). r.1) e ∙ of_outcome-store complete m in
          let finished =
            of_outcome-complete m
              (subst (λ (r : Response × Store). is_complete r.0 ≡ true) e done) in
          let out = update_all-IsSuspended env (cleaned f) requester.user.id c st finished s in
          let own : b.user.id ≡ c.user.id = ==_sound b.user.id c.user.id (
            find?-holds (is_id c.user.id) b _ (
              subst
                (λ z.
                  account_of_id z.user.id (account_edit_post env requester name f st).1 ≡ some b)
                (sym same) here)) in
          shut_out env' sid remembered passwd regex keytype keytext
            (account_edit_post env requester name f st).1 b (edit-IsSound env requester name f st h)
            (subst (λ v. account_of_id v (account_edit_post env requester name f st).1 ≡ some b)
              (ap (λ (z : Account). z.user.id) (sym same) ∙ sym own) here)
            (subst (λ v. IsSuspended v (account_edit_post env requester name f st).1.accounts)
              (sym own) (rw store out.0))
            (subst (λ v. NoSession v (account_edit_post env requester name f st).1) (sym own)
              (rw store out.1))
    ]
  where
    some_inj : {x y : Account} → some x ≡ some y → x ≡ y
    some_inj k = cc
