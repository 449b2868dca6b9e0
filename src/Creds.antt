-- ===== src/Creds.antt =====
-- aurweb/auth/creds.py, aurweb/models/account_type.py and the account tests of
-- aurweb/models/user.py. A credential is a constant of creds.py; an account type is its integer, 0
-- standing for the anonymous user of aurweb/auth/__init__.py.
pub mod Rights
mod Tests
use aurweb.Prelude.{ℕ, Bool, ◌&&◌, ◌||◌, List, [], ◌∷◌, contains, leb}
use aurweb.Models.{User}

pub data Credential : Type 0 where
  account_change_type account_edit account_edit_dev account_last_login : Credential
  account_search account_list_comments : Credential
  comment_delete comment_undelete comment_view_deleted comment_edit comment_pin : Credential
  pkgbase_adopt pkgbase_set_keywords pkgbase_delete pkgbase_disown : Credential
  pkgbase_edit_comaintainers pkgbase_flag pkgbase_list_voters pkgbase_notify : Credential
  pkgbase_unflag pkgbase_vote pkgreq_file pkgreq_close pkgreq_list : Credential
  pm_add_vote pm_list_votes pm_vote pkgbase_merge : Credential

abbrev pub user_id : ℕ
user_id = 1

abbrev pub package_maintainer_id : ℕ
package_maintainer_id = 2

abbrev pub developer_id : ℕ
developer_id = 3

abbrev pub package_maintainer_and_dev_id : ℕ
package_maintainer_and_dev_id = 4

abbrev user_developer_or_package_maintainer : List ℕ
user_developer_or_package_maintainer =
    user_id ∷ package_maintainer_id ∷ developer_id ∷ package_maintainer_and_dev_id ∷ []

abbrev package_maintainer_or_dev : List ℕ
package_maintainer_or_dev =
    package_maintainer_id ∷ developer_id ∷ package_maintainer_and_dev_id ∷ []

abbrev developer : List ℕ
developer = developer_id ∷ package_maintainer_and_dev_id ∷ []

abbrev package_maintainer : List ℕ
package_maintainer = package_maintainer_id ∷ package_maintainer_and_dev_id ∷ []

unfoldable pub cred_filters : Credential → List ℕ
cred_filters pkgbase_flag = user_developer_or_package_maintainer
cred_filters pkgbase_notify = user_developer_or_package_maintainer
cred_filters pkgbase_vote = user_developer_or_package_maintainer
cred_filters pkgreq_file = user_developer_or_package_maintainer
cred_filters pm_add_vote = package_maintainer
cred_filters pm_vote = package_maintainer
cred_filters account_edit_dev = developer
cred_filters _ = package_maintainer_or_dev

-- `approved` lists the IDs of the users that it holds; its `None` entries match nobody.
unfoldable pub has_credential : User → Credential → List ℕ → Bool
unfolding cred_filters
has_credential u credential approved =
    contains approved u.id || contains (cred_filters credential) u.account_type_id

unfoldable pub is_package_maintainer : User → Bool
is_package_maintainer u = contains package_maintainer u.account_type_id

unfoldable pub is_developer : User → Bool
is_developer u = contains developer u.account_type_id

unfoldable pub is_elevated : User → Bool
is_elevated u = contains package_maintainer_or_dev u.account_type_id

unfoldable pub can_edit_user : User → User → Bool
unfolding has_credential
can_edit_user u target =
    has_credential u account_edit (target.id ∷ []) && leb target.account_type_id u.account_type_id
