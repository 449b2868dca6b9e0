-- ===== src/Accounts/Samples.antt =====
-- A small site for the tests: an administrator, a user and a maintainer who is a developer.
use aurweb.Accounts.Sound.{IsSound}
use aurweb.Prelude.{
  ℕ, ◌≡◌, ◌≢◌, refl, true, false, none, some, [], ◌∷◌, String, str_eq, if◌then◌else◌, arith,
  f_string, eq_iff,
}
use aurweb.Samples.{user}
use aurweb.Accounts.{Account, Store, Env, Form, Session}

abbrev pub env : Env
env = record {
  now = 10000;
  client_ip = "192.0.2.1";
  random = "fresh";
  random_token = "token";
  validate_email = λ e.
      if str_eq e "N/A"
      then none
      else if str_eq e "A.l.ice+x@gmail.com"
      then some ("A.l.ice+x", "gmail.com")
      else some (e, "example.org");
  is_disposable = λ e. false;
  checkpw = λ p h. str_eq p h;
  hashpw = λ p. p;
  urlparse = λ u. some ("https", u);
  ssh_keygen = λ k. some k;
  lower = λ s. if str_eq s "A.l.ice" then "a.l.ice" else if str_eq s "Alice" then "alice" else s;
  captcha_salts = "aurweb-3" ∷ [];
  captcha_answer = λ s. s;
  supported_languages = "en" ∷ [];
  supported_timezones = "UTC" ∷ [];
  valid_keytypes = "ssh-ed25519" ∷ [];
  username_min_len = 3;
  username_max_len = 16;
  passwd_min_len = 8;
  disposable_email_check = true;
  default_lang = "en";
  default_timezone = "UTC";
  ttl = 86400;
  cooldown = 600;
  login_timeout = 7200;
  persistent_cookie_timeout = 2592000;
}

abbrev pub account : ℕ → String → ℕ → Account
account uid name type = record {
  user = user uid name type false;
  email = f_string (name ∷ "@example.org" ∷ []);
  normalized_email = some (f_string (name ∷ "@example.org" ∷ []));
  hide_email = false;
  backup_email = none;
  passwd = "password";
  reset_key = "key";
  real_name = "";
  lang_preference = "en";
  timezone = "UTC";
  homepage = none;
  irc_nick = "";
  pgp_key = none;
  comment_notify = true;
  update_notify = false;
  ownership_notify = true;
  hide_deleted_comments = false;
  email_verification_token = some "sent";
}

abbrev pub alice : Account
alice = account 1 "alice" 1

abbrev pub carol : Account
carol = account 2 "carol" 2

abbrev pub dan : Account
dan = account 3 "dan" 4

abbrev pub alice_session : Session
alice_session = record { users_id = 1; session_id = "cookie"; last_update_ts = 9000 }

abbrev pub st : Store
st = record {
  accounts = alice ∷ carol ∷ dan ∷ [];
  ssh_pub_keys =
      record { user_id = 1; fingerprint = "a"; pub_key = "ssh-ed25519 a" }
      ∷ record { user_id = 2; fingerprint = "c"; pub_key = "ssh-ed25519 c" }
      ∷ [];
  sessions = alice_session ∷ [];
  bans = [];
  next_id = 4;
  sent = [];
}

abbrev pub form : String → String → String → Form
form name email suspended = record {
  u = name;
  e = email;
  h = "";
  be = "";
  r = "";
  hp = "";
  i = "";
  k = "";
  l = "en";
  tz = "UTC";
  p = "";
  c = "";
  j = "";
  s = suspended;
  pk = "ssh-ed25519 a";
  cn = "on";
  un = "";
  on = "on";
  hdc = "";
  t = none;
  passwd = "password";
  captcha = "";
  captcha_salt = "";
}

texts_apart : (s t : String) → str_eq s t ≡ false → (n : String) → some s ≡ some n → some t ≢ some n
texts_apart s t h n e k = ground (arith, h, e, k, eq_iff s t)

pub st-IsSound : IsSound st
st-IsSound = record {
  apart = (
    (
      record {
        ids = refl;
        names = refl;
        addresses = texts_apart "alice@example.org" "carol@example.org" refl;
      },
      (
        record {
          ids = refl;
          names = refl;
          addresses = texts_apart "alice@example.org" "dan@example.org" refl;
        },
        tt,
      ),
    ),
    (
      (
        record {
          ids = refl;
          names = refl;
          addresses = texts_apart "carol@example.org" "dan@example.org" refl;
        },
        tt,
      ),
      (tt, tt),
    ),
  );
  numbered = omega arith;
  positive = omega arith;
}
