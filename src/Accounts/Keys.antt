-- ===== src/Accounts/Keys.antt =====
-- The SSH keys of an account after its form: a set of fingerprints.
use aurweb.Prelude.{
  String, ℕ, ◌==◌, Bool, List, [], ◌∷◌, Bool-cases, inl, inr, ◌≡◌, arith, refl, ◌∙◌, str_eq, any,
  not, ◌&&◌, eq_iff, any-append, filter, filter-append, ap, append-nil, ==_refl, map, some, ◌≢◌,
  false, subst,
}
use aurweb.Accounts.{SshPubKey, Env, Form, Account, Store}
use aurweb.Accounts.Texts.{Key, is_empty, parse_ssh_keys}
use aurweb.Accounts.Updates.{
  set_keys, is_row, row_of, has_fingerprint, new_keys, kept_keys, ssh_pubkey, store_keys, clashes,
  Outcome, returned, raised, store_of,
}

abbrev pub gives : String → List Key → Bool
gives fingerprint ks = any (λ k. str_eq k.fingerprint fingerprint) ks

abbrev is_foreign : ℕ → SshPubKey → Bool
is_foreign uid row = not (row.user_id == uid)

new_keys-any :
    (uid : ℕ) (fp : String) (ks : List Key) (rows : List SshPubKey)
    → any (is_row uid fp) (map (row_of uid) (new_keys uid ks rows))
      ≡ (gives fp ks && not (any (is_row uid fp) rows))
unfolding new_keys
new_keys-any uid fp [] rows = refl
new_keys-any uid fp (k ∷ ks) rows =
    let rest = new_keys-any uid fp ks rows in
    elim (Bool-cases (str_eq k.fingerprint fp)) [
      | inl e ↦
          let same : any (is_row uid k.fingerprint) rows ≡ any (is_row uid fp) rows =
            ap (λ (t : String). any (is_row uid t) rows) ((eq_iff k.fingerprint fp).0 e) in
          ground (arith, rest, same, e, ==_refl uid)
      | inr e ↦ ground (arith, rest, e)
    ]

kept_keys-any :
    (uid : ℕ) (fp : String) (ks : List Key) (rows : List SshPubKey)
    → any (is_row uid fp) (kept_keys uid ks rows) ≡ (any (is_row uid fp) rows && gives fp ks)
kept_keys-any uid fp ks [] = refl
kept_keys-any uid fp ks (r ∷ rows) = elim (Bool-cases (str_eq r.fingerprint fp)) [
  | inl e ↦
      let same : has_fingerprint ks r ≡ gives fp ks =
        ap (λ (t : String). gives t ks) ((eq_iff r.fingerprint fp).0 e) in
      ground (arith, kept_keys-any uid fp ks rows, same, e)
  | inr e ↦ ground (arith, kept_keys-any uid fp ks rows, e)
]

kept_keys-foreign :
    (uid : ℕ) (ks : List Key) (rows : List SshPubKey)
    → filter (is_foreign uid) (kept_keys uid ks rows) ≡ filter (is_foreign uid) rows
kept_keys-foreign uid ks [] = refl
kept_keys-foreign uid ks (r ∷ rows) = ground (arith, kept_keys-foreign uid ks rows)

own_rows : (uid : ℕ) (ks : List Key) → filter (is_foreign uid) (map (row_of uid) ks) ≡ []
own_rows uid [] = refl
own_rows uid (k ∷ ks) = rw (==_refl uid) (own_rows uid ks)

set_keys-gives :
    (uid : ℕ) (fp : String) (ks : List Key) (rows : List SshPubKey)
    → (any (is_row uid fp) (set_keys uid ks rows) ≡ gives fp ks)
      × (filter (is_foreign uid) (set_keys uid ks rows) ≡ filter (is_foreign uid) rows)
unfolding set_keys
set_keys-gives uid fp ks rows = (
  any-append (is_row uid fp) (kept_keys uid ks rows) (map (row_of uid) (new_keys uid ks rows))
      ∙ ground (arith, kept_keys-any uid fp ks rows, new_keys-any uid fp ks rows),
  filter-append (is_foreign uid) (kept_keys uid ks rows) (map (row_of uid) (new_keys uid ks rows))
      ∙ rw (own_rows uid (new_keys uid ks rows), kept_keys-foreign uid ks rows) (append-nil _),
)

-- Where the update of the SSH keys returns, the user has a key of a fingerprint exactly if the form gives
-- a key of it, whatever keys there were, and the keys of the others are as they were. The form has keys,
-- and they can be read.
pub ssh_pubkey-gives :
    (env : Env) (f : Form) (a : Account) (st st' : Store) (fp : String) (ks : List Key)
    → is_empty f.pk ≡ false
    → parse_ssh_keys env f.pk ≡ some ks
    → ssh_pubkey env f a st ≡ returned st'
    → (any (is_row a.user.id fp) st'.ssh_pub_keys ≡ gives fp ks)
      × (filter (is_foreign a.user.id) st'.ssh_pub_keys
          ≡ filter (is_foreign a.user.id) st.ssh_pub_keys)
unfolding ssh_pubkey
ssh_pubkey-gives env f a st st' fp ks given read h =
    let stored : store_keys a.user.id ks st ≡ returned st' =
      (rw given (rw (read, ssh_pubkey) refl)) ∙ h in
    elim (Bool-cases
      (clashes (kept_keys a.user.id ks st.ssh_pub_keys) (new_keys a.user.id ks st.ssh_pub_keys))) [
        | inl c ↦ absurd (never (rw c at stored))
        | inr c ↦
            subst
              (λ rows.
                (any (is_row a.user.id fp) rows ≡ gives fp ks)
                × (filter (is_foreign a.user.id) rows
                    ≡ filter (is_foreign a.user.id) st.ssh_pub_keys))
              (ap (λ (o : Outcome). (store_of o).ssh_pub_keys) (rw c at stored))
              (set_keys-gives a.user.id fp ks st.ssh_pub_keys)
      ]
  where
    never : raised st ≢ returned st'
    never k = cc
