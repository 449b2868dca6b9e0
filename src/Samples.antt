-- ===== src/Samples.antt =====
-- A small database for the tests: two package bases, of which one has no maintainer, with their
-- co-maintainers, requests, votes, notifications and comments.
use aurweb.Prelude.{ℕ, Bool, true, false, Option, none, some, [], ◌∷◌, String}
use aurweb.Models.{
  User, PackageBase, PackageComaintainer, PackageRequest, PackageVote, PackageComment, ReqType,
  orphan, adoption, pending, Db, Config, Request,
}
use aurweb.Serve.{Session}

abbrev pub user : ℕ → String → ℕ → Bool → User
user id username type verified = record {
  id = id;
  username = username;
  account_type_id = type;
  suspended = false;
  inactivity_ts = 0;
  email_verified = verified;
  last_ssh_login = 0;
  last_ssh_login_ip_address = none;
  last_login = 0;
  last_login_ip_address = none;
  registration_ts = 0;
  email_verification_expiry = none;
}

abbrev pub alice : User
alice = user 1 "alice" 1 true

abbrev pub bob : User
bob = user 2 "bob" 1 true

abbrev pub carol : User
carol = user 3 "carol" 2 true

abbrev pub dave : User
dave = user 4 "dave" 1 false

abbrev base : ℕ → String → ℕ → Option ℕ → PackageBase
base id name votes maintainer = record {
  id = id;
  name = name;
  num_votes = votes;
  out_of_date_ts = none;
  flagger_comment = "";
  submitted_ts = 100;
  flagger_uid = none;
  maintainer_uid = maintainer;
  packager_uid = maintainer;
  submitter_uid = none;
  modified_ts = 100;
}

abbrev pub foo : PackageBase
foo = base 10 "foo" 1 (some 1)

abbrev pub bar : PackageBase
bar = base 20 "bar" 2 none

abbrev pub comaintainer : ℕ → ℕ → PackageComaintainer
comaintainer uid priority = record { users_id = uid; package_base_id = 10; priority = priority }

abbrev request : ℕ → ReqType → PackageBase → PackageRequest
request id reqtype pkgbase = record {
  id = id;
  req_type = reqtype;
  package_base_id = some pkgbase.id;
  package_base_name = pkgbase.name;
  merge_base_name = none;
  users_id = some 2;
  comments = "Please.";
  closure_comment = "";
  request_ts = 100;
  closed_ts = none;
  closed_uid = none;
  status = pending;
}

abbrev vote : ℕ → ℕ → PackageVote
vote uid b = record { users_id = uid; package_base_id = b; vote_ts = 200 }

abbrev comment : PackageComment
comment = record {
  id = 1;
  package_base_id = 10;
  users_id = some 2;
  comments = "Thanks.";
  comment_ts = 300;
  edited_ts = none;
  edited_users_id = none;
  del_ts = none;
  del_users_id = none;
  pinned_ts = 0;
}

abbrev pub db : Db
db = record {
  users = alice ∷ bob ∷ carol ∷ dave ∷ [];
  package_bases = foo ∷ bar ∷ [];
  packages = [];
  comaintainers = comaintainer 3 5 ∷ comaintainer 2 4 ∷ [];
  requests = request 1 orphan foo ∷ request 2 adoption bar ∷ [];
  votes = vote 2 10 ∷ vote 1 20 ∷ vote 2 20 ∷ [];
  notifications = record { package_base_id = 10; user_id = 1 } ∷ [];
  comments = comment ∷ [];
  keywords = [];
  bans = [];
  next_request_id = 3;
  next_comment_id = 2;
  sent = [];
  refreshed = [];
}

abbrev pub options : Config
options = record {
  request_idle_time = 500;
  auto_orphan_age = 1000;
  auto_delete_age = 50;
  max_chars_comment = 5000;
}

-- A request by a user at a time.
abbrev pub request_by : User → ℕ → Request
request_by u now = record { user = u; now = now; config = options }

abbrev pub session : String → Session
session name = record {
  user = name;
  privileged = false;
  remote_addr = some "192.0.2.1";
  now = 1000;
}
