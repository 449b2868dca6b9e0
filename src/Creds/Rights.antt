-- ===== src/Creds/Rights.antt =====
-- Who may do what: the credentials of aurweb/auth/creds.py by account type, and the account tests of
-- aurweb/models/user.py.
use aurweb.Prelude.{ℕ, ◌≤◌, ◌≡◌, ◌⊎◌, ◌↔◌, true, false, List, contains, arith}
use aurweb.Models.{User}
use aurweb.Creds.{
  Credential, pkgbase_flag, pkgbase_notify, pkgbase_vote, pkgreq_file, pm_add_vote, pm_vote,
  account_edit_dev, has_credential, is_package_maintainer, is_developer, is_elevated, can_edit_user,
}

-- What every registered user may do.
abbrev pub IsUserCredential : Credential → Type 0
IsUserCredential c =
    (c ≡ pkgbase_flag) ⊎ (c ≡ pkgbase_notify) ⊎ (c ≡ pkgbase_vote) ⊎ (c ≡ pkgreq_file)

-- A registered user without an elevated account type, and not approved, holds exactly the
-- credentials for flagging, notifications, votes and filing requests.
pub has_credential-user_iff :
    (u : User) (c : Credential) (approved : List ℕ)
    → u.account_type_id ≡ 1
    → contains approved u.id ≡ false
    → (has_credential u c approved ≡ true) ↔ IsUserCredential c
unfolding has_credential
has_credential-user_iff u c approved t a = (ground arith, ground arith)

-- A package maintainer holds every credential but the one for editing developers; a developer every
-- one but the two for voting on proposals; the account type for both holds them all.
pub has_credential-elevated :
    (u : User) (c : Credential) (approved : List ℕ)
    → is_elevated u ≡ true
    → (has_credential u c approved ≡ true)
      ⊎ (c ≡ account_edit_dev) × (is_developer u ≡ false)
      ⊎ (c ≡ pm_add_vote) × (is_package_maintainer u ≡ false)
      ⊎ (c ≡ pm_vote) × (is_package_maintainer u ≡ false)
unfolding has_credential is_elevated is_developer is_package_maintainer
has_credential-elevated u c approved e = ground arith

-- One may edit an account if one owns it or has an elevated account type, and its account type is
-- not above one's own; in no other case.
pub can_edit_user_iff :
    (u target : User)
    → (can_edit_user u target ≡ true) ↔ (
        ((target.id ≡ u.id) ⊎ (is_elevated u ≡ true))
        × (target.account_type_id ≤ u.account_type_id))
unfolding can_edit_user is_elevated
can_edit_user_iff u target = (ground arith, ground arith)
