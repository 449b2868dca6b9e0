-- ===== src/Creds/Tests.antt =====
-- The rights of the sample users.
use aurweb.Prelude.{◌≡◌, ◌≤◌, ◌⊎◌, ◌↔◌, refl, true, false, []}
use aurweb.Creds.{
  pkgbase_merge, account_edit_dev, pm_add_vote, pm_vote, has_credential, is_developer,
  is_package_maintainer, is_elevated, can_edit_user,
}
use aurweb.Creds.Rights.{
  IsUserCredential, has_credential-user_iff, has_credential-elevated, can_edit_user_iff,
}
use aurweb.Samples.{alice, carol}

has_credential-user_iff_example :
    (has_credential alice pkgbase_merge [] ≡ true) ↔ IsUserCredential pkgbase_merge
has_credential-user_iff_example = has_credential-user_iff alice pkgbase_merge [] refl refl

has_credential-elevated_example :
    (has_credential carol account_edit_dev [] ≡ true)
    ⊎ (account_edit_dev ≡ account_edit_dev) × (is_developer carol ≡ false)
    ⊎ (account_edit_dev ≡ pm_add_vote) × (is_package_maintainer carol ≡ false)
    ⊎ (account_edit_dev ≡ pm_vote) × (is_package_maintainer carol ≡ false)
unfolding is_elevated
has_credential-elevated_example = has_credential-elevated carol account_edit_dev [] refl

can_edit_user_iff_example : (can_edit_user carol alice ≡ true) ↔ (
    ((alice.id ≡ carol.id) ⊎ (is_elevated carol ≡ true))
    × (alice.account_type_id ≤ carol.account_type_id))
can_edit_user_iff_example = can_edit_user_iff carol alice
