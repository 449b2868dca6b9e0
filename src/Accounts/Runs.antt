-- ===== src/Accounts/Runs.antt =====
-- Runs of the forms: accounts stay apart whatever is sent, in whatever order.
use aurweb.Prelude.{String, Bool, List, [], ◌∷◌, All}
use aurweb.Accounts.{Account, Store, Env, Form}
use aurweb.Accounts.Login.{login_post}
use aurweb.Accounts.Forms.{
  Flags, passreset_post, account_register_post, account_verify, account_verify_resend,
  account_edit_post, account_delete_post,
}
use aurweb.Accounts.Sound.{IsPlainChange-IsSound, edit-IsSound, IsSound}
use aurweb.Accounts.Changes.{reset-plain, verify-plain, resend-plain, login_post-plain}
use aurweb.Accounts.Registering.{register-IsSound, delete-IsSound, IsGuest}

-- One request: who sends it, and what to. Each has an `Env` of its own.
pub data Event : Type 0 where
  reset_password : (requester : Account) (user resetkey password confirm : String) → Event
  register_account : (requester : Account) (f : Form) (flags : Flags) → Event
  verify_address : (token : String) → Event
  resend_mail : (requester : Account) (name : String) → Event
  edit_account : (requester : Account) (name : String) (f : Form) → Event
  remove_account : (requester : Account) (name passwd confirm : String) → Event
  log_in : (referer_ok : Bool) (user passwd : String) → Event

abbrev pub step : Env → Event → Store → Store
step env (reset_password r user key password confirm) st =
    (passreset_post env r user key password confirm st).1
step env (register_account r f flags) st = (account_register_post env r f flags st).1
step env (verify_address token) st = (account_verify env token st).1
step env (resend_mail r name) st = (account_verify_resend env r name st).1
step env (edit_account r name f) st = (account_edit_post env r name f st).1
step env (remove_account r name passwd confirm) st =
    (account_delete_post env r name passwd confirm st).1
step env (log_in referer_ok user passwd) st = (login_post env referer_ok user passwd st).1

unfoldable pub run : List (Env × Event) → Store → Store
run [] st = st
run ((env, e) ∷ es) st = run es (step env e st)

-- A request for an account comes from the guest's stub.
abbrev pub IsFrom : Env → Event → Type 0
IsFrom env (register_account r f flags) = IsGuest env r
IsFrom env e = Unit

step-IsSound :
    (env : Env) (e : Event) (st : Store) → IsFrom env e → IsSound st → IsSound (step env e st)
step-IsSound env (reset_password r user key password confirm) st g h =
    IsPlainChange-IsSound (reset-plain env r user key password confirm st) h
step-IsSound env (register_account r f flags) st g h = register-IsSound env r f flags st g h
step-IsSound env (verify_address token) st g h = IsPlainChange-IsSound (verify-plain env token st) h
step-IsSound env (resend_mail r name) st g h = IsPlainChange-IsSound (resend-plain env r name st) h
step-IsSound env (edit_account r name f) st g h = edit-IsSound env r name f st h
step-IsSound env (remove_account r name passwd confirm) st g h =
    delete-IsSound env r name passwd confirm st h
step-IsSound env (log_in referer_ok user passwd) st g h =
    IsPlainChange-IsSound (login_post-plain env referer_ok user passwd st) h

-- No two accounts get one ID, one name or one normalized address, whatever forms are sent, by whomever,
-- in whatever order and at whatever times: registering, editing, deleting, logging in, verifying an
-- address, and resetting a password. It must hold at first, with the next ID above all others, and the
-- address of a guest's stub, who registers, is no e-mail address.
pub run-IsSound :
    (es : List (Env × Event)) (st : Store)
    → All (λ x. IsFrom x.0 x.1) es
    → IsSound st
    → IsSound (run es st)
unfolding run
run-IsSound [] st g h = h
run-IsSound ((env, e) ∷ es) st g h =
    run-IsSound es (step env e st) g.1 (step-IsSound env e st g.0 h)
