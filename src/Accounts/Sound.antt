-- ===== src/Accounts/Sound.antt =====
-- Accounts that are apart: what a write may not touch, and the form for editing.
use aurweb.Prelude.{
  String, ℕ, ◌<◌, true, Option, none, some, List, update_where, inl, inr, ◌⊎◌, ◌≡◌, refl, All,
  str_eq, All-update_where, All-map, str_eq_refl,
}
use aurweb.Accounts.{Account, Store, Env, Form, is_id}
use aurweb.Accounts.Login.{logged_in}
use aurweb.Accounts.Updates.{update_all, with_type}
use aurweb.Accounts.Forms.{account_edit_post, cleaned, complete, named}
use aurweb.Accounts.Writes.{
  IsKept, update_all-Holds, account_edit_post-cases, of_outcome-store, simple_account-keeps,
}
use aurweb.Accounts.Identity.{AllApart, AllApart-plain}
use aurweb.Accounts.Checked.{Checked, Checked-IsKept}
use aurweb.Accounts.Validated.{process_account_form-Checked, only_row}

abbrev pub IsNumbered : ℕ → List Account → Type 0
IsNumbered n xs = All (λ a. (0 < a.user.id) × (a.user.id < n)) xs

-- No two accounts have one ID, one name or one normalized address, and the next ID is new.
pub record IsSound (st : Store) : Type 0 where
  pub apart : AllApart st.accounts
  pub numbered : IsNumbered st.next_id st.accounts
  pub positive : 0 < st.next_id

-- A write that touches none of it.
abbrev pub IsPlain : (Account → Account) → Type 0
IsPlain g =
    (c : Account)
    → ((g c).user.id ≡ c.user.id)
      × ((g c).user.username ≡ c.user.username)
      × ((g c).normalized_email ≡ c.normalized_email)

pub IsNumbered-update :
    (n v : ℕ) (g : Account → Account) (xs : List Account)
    → ((c : Account) → (g c).user.id ≡ c.user.id)
    → IsNumbered n xs
    → IsNumbered n (update_where (is_id v) g xs)
IsNumbered-update n v g xs i h =
    All-update_where (λ a. (0 < a.user.id) × (a.user.id < n)) (is_id v) g xs (λ c _ k. rw (i c) k) h

pub plain-IsSound :
    (v : ℕ) (g : Account → Account) (st st' : Store)
    → IsPlain g
    → st'.accounts ≡ update_where (is_id v) g st.accounts
    → st'.next_id ≡ st.next_id
    → IsSound st
    → IsSound st'
plain-IsSound v g st st' p e n h = record {
  apart =
      rw e (AllApart-plain v g st.accounts (λ c. (p c).0) (λ c. (p c).1) (λ c. (p c).2) h.apart);
  numbered = rw (e, n) (IsNumbered-update st.next_id v g st.accounts (λ c. (p c).0) h.numbered);
  positive = rw n h.positive;
}

-- Nothing changes, or one ID's row, in what does not tell accounts apart.
abbrev pub IsPlainChange : Store → Store → Type 0
IsPlainChange st st' =
    (st' ≡ st)
    ⊎ ((v : ℕ) × (g : Account → Account) × IsPlain g
        × (st'.accounts ≡ update_where (is_id v) g st.accounts)
        × (st'.next_id ≡ st.next_id))

pub IsPlainChange-IsSound : {st st' : Store} → IsPlainChange st st' → IsSound st → IsSound st'
IsPlainChange-IsSound {st} {st'} (inl e) h = rw e h
IsPlainChange-IsSound {st} {st'} (inr (v, g, p, e, n)) h = plain-IsSound v g st st' p e n h

pub edit-IsSound :
    (env : Env) (requester : Account) (name : String) (f : Form) (st : Store)
    → IsSound st
    → IsSound (account_edit_post env requester name f st).1
edit-IsSound env requester name f st h = elim (account_edit_post-cases env requester name f st) [
  | inl (same, _) ↦ rw same h
  | inr (a, found, may, ok, e) ↦
      let only = only_row (named name) a st.accounts h.apart found in
      let own =
        All-map (λ y. is_id a.user.id y ≡ true → y ≡ a)
          (λ y. is_id a.user.id y ≡ true → str_eq a.email y.email ≡ true) st.accounts
          (λ y k i. rw (k i) (str_eq_refl a.email)) only in
      let checked = process_account_form-Checked env requester a (cleaned f) st h.apart own ok in
      let all =
        update_all-Holds env (cleaned f) requester.user.id a (both (cleaned f) a) st
          (checked, h.numbered, h.positive) in
      rw (e, of_outcome-store complete (update_all env (cleaned f) requester.user.id a st))
        (record { apart = all.0.0; numbered = all.1; positive = all.2 })
]
  where
    type_id : (o : Option ℕ) (c : Account) → (with_type o c).user.id ≡ c.user.id
    type_id none c = refl
    type_id (some t) c = refl

    both :
        (g : Form) (a : Account)
        → IsKept env g requester.user.id a
            (λ n xs. Checked env g a.user.id xs × IsNumbered n xs × (0 < n))
    both g a =
        let k = Checked-IsKept env g requester.user.id a in
        record {
          by_simple = λ n xs p. (
            k.by_simple n xs p.0,
            IsNumbered-update n a.user.id _ xs (λ c. (simple_account-keeps env g c).0) p.1,
            p.2,
          );
          by_language = λ n xs p.
              (k.by_language n xs p.0, IsNumbered-update n a.user.id _ xs (λ c. refl) p.1, p.2);
          by_timezone = λ n xs p.
              (k.by_timezone n xs p.0, IsNumbered-update n a.user.id _ xs (λ c. refl) p.1, p.2);
          by_type = λ n xs p.
              (k.by_type n xs p.0, IsNumbered-update n a.user.id _ xs (type_id g.t) p.1, p.2);
          by_password = λ uid n xs p.
              (k.by_password uid n xs p.0, IsNumbered-update n uid _ xs (λ c. refl) p.1, p.2);
          by_login = λ uid n xs p. (
            k.by_login uid n xs p.0,
            IsNumbered-update n uid (logged_in env) xs (λ c. refl) p.1,
            p.2,
          );
        }
