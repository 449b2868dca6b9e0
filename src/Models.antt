-- ===== src/Models.antt =====
-- The tables of aurweb/schema.py that the modelled code reads or writes, each a list of rows in the
-- order of their primary key, and the database as a record of them. A nullable column is an
-- `Option`; a row refers to another by its ID. Columns that no modelled operation uses are left out
-- (so is Popularity, a decimal that popupdate computes beside NumVotes).
-- `sent` lists the notifications that have gone out, in order: what aurweb/scripts/notify.py is
-- called with.
use aurweb.Prelude.{
  ℕ, Bool, true, false, String, Option, List, ◌++◌, find?, ◌==◌, str_eq, update_where,
}

-- aurweb/models/request_type.py and aurweb/models/package_request.py
pub data ReqType : Type 0 where
  deletion orphan merge adoption : ReqType

pub data Status : Type 0 where
  pending closed accepted rejected : Status

pub record User : Type 0 where
  pub id : ℕ
  pub username : String
  pub account_type_id : ℕ
  pub suspended : Bool
  pub inactivity_ts : ℕ
  pub email_verified : Bool
  pub last_ssh_login : ℕ
  pub last_ssh_login_ip_address : Option String
  pub last_login : ℕ
  pub last_login_ip_address : Option String
  pub registration_ts : ℕ
  pub email_verification_expiry : Option ℕ

pub record PackageBase : Type 0 where
  pub id : ℕ
  pub name : String
  pub num_votes : ℕ
  pub out_of_date_ts : Option ℕ
  pub flagger_comment : String
  pub submitted_ts : ℕ
  pub flagger_uid : Option ℕ
  pub maintainer_uid : Option ℕ
  pub packager_uid : Option ℕ
  pub submitter_uid : Option ℕ
  pub modified_ts : ℕ

pub record PackageComaintainer : Type 0 where
  pub users_id : ℕ
  pub package_base_id : ℕ
  pub priority : ℕ

pub record PackageRequest : Type 0 where
  pub id : ℕ
  pub req_type : ReqType
  pub package_base_id : Option ℕ
  pub package_base_name : String
  pub merge_base_name : Option String
  pub users_id : Option ℕ
  pub comments : String
  pub closure_comment : String
  pub request_ts : ℕ
  pub closed_ts : Option ℕ
  pub closed_uid : Option ℕ
  pub status : Status

pub record PackageVote : Type 0 where
  pub users_id : ℕ
  pub package_base_id : ℕ
  pub vote_ts : ℕ

pub record PackageNotification : Type 0 where
  pub package_base_id : ℕ
  pub user_id : ℕ

pub record PackageComment : Type 0 where
  pub id : ℕ
  pub package_base_id : ℕ
  pub users_id : Option ℕ
  pub comments : String
  pub comment_ts : ℕ
  pub edited_ts : Option ℕ
  pub edited_users_id : Option ℕ
  pub del_ts : Option ℕ
  pub del_users_id : Option ℕ
  pub pinned_ts : ℕ

pub record PackageKeyword : Type 0 where
  pub package_base_id : ℕ
  pub keyword : String

pub record Package : Type 0 where
  pub id : ℕ
  pub package_base_id : ℕ
  pub name : String
  pub version : String
  pub description : Option String
  pub url : Option String

-- The classes of aurweb/scripts/notify.py, with the arguments of their constructors.
pub data Notification : Type 0 where
  comment_notification : (uid pkgbase_id comment_id : ℕ) → Notification
  flag_notification adopt_notification disown_notification : (uid pkgbase_id : ℕ) → Notification
  comaintainer_add_notification comaintainer_remove_notification :
      (uid pkgbase_id : ℕ) → Notification
  verification_reminder_notification : (uid days_left : ℕ) → Notification
  vote_reminder_notification : (vote_id : ℕ) → Notification
  update_notification : (uid pkgbase_id : ℕ) → Notification
  delete_notification : (uid old_pkgbase_id : ℕ) → Notification
  request_open_notification :
      (uid reqid : ℕ) (reqtype : ReqType) (pkgbase_id : ℕ) (merge_into : Option String)
      → Notification
  request_close_notification : (uid reqid : ℕ) (reason : Status) → Notification

pub record Db : Type 0 where
  pub users : List User
  pub package_bases : List PackageBase
  pub packages : List Package
  pub comaintainers : List PackageComaintainer
  pub requests : List PackageRequest
  pub votes : List PackageVote
  pub notifications : List PackageNotification
  pub comments : List PackageComment
  pub keywords : List PackageKeyword
  pub bans : List String
  pub next_request_id : ℕ
  pub next_comment_id : ℕ
  pub sent : List Notification
  -- The package bases whose Popularity was counted anew, each time it was.
  pub refreshed : List ℕ

-- The options of conf/config.defaults that the modelled code reads.
pub record Config : Type 0 where
  pub request_idle_time : ℕ
  pub auto_orphan_age : ℕ
  pub auto_delete_age : ℕ
  pub max_chars_comment : ℕ

-- What a handler reads beside the database: the user that makes the request, the time, which is read
-- once, and the options.
pub record Request : Type 0 where
  pub user : User
  pub now : ℕ
  pub config : Config

abbrev pub send : List Notification → Db → Db
send ns db = record db { sent = db.sent ++ ns }

abbrev pub same_req_type : ReqType → ReqType → Bool
same_req_type deletion deletion = true
same_req_type orphan orphan = true
same_req_type merge merge = true
same_req_type adoption adoption = true
same_req_type _ _ = false

abbrev pub same_status : Status → Status → Bool
same_status pending pending = true
same_status closed closed = true
same_status accepted accepted = true
same_status rejected rejected = true
same_status _ _ = false

-- Changes the row of a package base.
abbrev pub update_base : ℕ → (PackageBase → PackageBase) → Db → Db
update_base b f db = record db { package_bases = update_where (λ p. p.id == b) f db.package_bases }

abbrev pub base_of_id : ℕ → Db → Option PackageBase
base_of_id b db = find? (λ p. p.id == b) db.package_bases

abbrev pub base_of_name : String → Db → Option PackageBase
base_of_name name db = find? (λ p. str_eq p.name name) db.package_bases

abbrev pub user_of_name : String → Db → Option User
user_of_name name db = find? (λ u. str_eq u.username name) db.users
