-- ===== src/Accounts/Halfway.antt =====
-- Two forms that do something else than they mean to: suspending an account whose address changes, and
-- deleting an account of a higher type.
use aurweb.Prelude.{
  String, true, false, none, some, ◌≡◌, refl, find?, Distinct, find?-update_where_self,
}
use aurweb.Creds.{can_edit_user}
use aurweb.Accounts.{Account, Store, Env, Form, is_id, account_of_id, update_account}
use aurweb.Accounts.Texts.{is_empty, strtobool}
use aurweb.Accounts.Checks.{is_authenticated, process_account_form}
use aurweb.Accounts.Updates.{raised, simple_account, simple, send_to, email_changed, update_all}
use aurweb.Accounts.Forms.{internal_error, account_edit_post, cleaned, named, editing, edit}
use aurweb.Accounts.Writes.{simple_account-keeps}
use aurweb.Accounts.Ranks.{find?-Distinct}

-- `simple` raises after its write, if the account is suspended and its address changes.
simple-raises :
    (env : Env) (f : Form) (a : Account) (st : Store)
    → account_of_id a.user.id st ≡ some a
    → email_changed f a ≡ true
    → strtobool env f.s ≡ true
    → simple env f a st ≡ raised (update_account a.user.id (simple_account env f) st)
unfolding simple send_to
simple-raises env f a st h e s =
    let again =
      find?-update_where_self (is_id a.user.id) (simple_account env f) a st.accounts
        (λ c. rw ((simple_account-keeps env f c).0) refl) h in
    rw e (rw (again, send_to) (rw s refl))

-- A form that suspends an account and changes its address, and passes all checks, fails after the first
-- update: the mail to the new address is not written, as the account is suspended by then, and the
-- sessions of the account stay. No two accounts have one ID.
pub account_edit_post-halfway :
    (env : Env) (requester : Account) (name : String) (f : Form) (st : Store) (a : Account)
    → Distinct (λ x. x.user.id) st.accounts
    → is_authenticated requester ≡ true
    → find? (named name) st.accounts ≡ some a
    → can_edit_user requester.user a.user ≡ true
    → is_empty f.passwd ≡ false
    → process_account_form env requester a (cleaned f) st ≡ none
    → email_changed f a ≡ true
    → strtobool env f.s ≡ true
    → account_edit_post env requester name f st
      ≡ (internal_error, update_account a.user.id (simple_account env (cleaned f)) st)
unfolding account_edit_post update_all
account_edit_post-halfway env requester name f st a d auth found may given ok changed s =
    let first =
      simple-raises env (cleaned f) a st (find?-Distinct (named name) a st.accounts d found) changed
        s in
    rw (auth, found, may, given, ok, editing, edit) (rw first refl)
