-- ===== src/Accounts/Texts.antt =====
-- aurweb/util.py: the texts of an account. A text is read as its characters, with the blanks of ASCII.
use Prim.Native.Char.{code}
use Prim.Native.String.{◌++◌ as append}
use aurweb.Prelude.{
  ℕ, Bool, true, false, not, ◌&&◌, ◌||◌, String, Option, none, some, List, [], ◌∷◌, leb, ◌==◌,
  if◌then◌else◌, str_eq, any, text_length, f_string, map,
}
use aurweb.Accounts.{Env}

abbrev is_alphanumeric : ℕ → Bool
is_alphanumeric c = leb b'a' c && leb c b'z' || leb b'A' c && leb c b'Z' || leb b'0' c && leb c b'9'

abbrev is_separator : ℕ → Bool
is_separator c = c == b'.' || c == b'-' || c == b'_'

-- Where the match of `^[a-zA-Z0-9]+[.\-_]?[a-zA-Z0-9]+$` stands: before the first character, after
-- one, after more, after the separator, and after what follows it.
pub data Progress : Type 0 where
  start one more separated tail : Progress

abbrev pub advance : Progress → ℕ → Option Progress
advance start c = if is_alphanumeric c then some one else none
advance one c =
    if is_alphanumeric c then some more else if is_separator c then some separated else none
advance more c =
    if is_alphanumeric c then some more else if is_separator c then some separated else none
advance separated c = if is_alphanumeric c then some tail else none
advance tail c = if is_alphanumeric c then some tail else none

abbrev pub is_final : Progress → Bool
is_final more = true
is_final tail = true
is_final _ = false

-- `$` is the end of the text, or a newline that ends it.
abbrev pub is_end : String → Bool
is_end String.[] = true
is_end (String.◌∷◌ c String.[]) = code c == 10
is_end _ = false

unfoldable pub matches : Progress → String → Bool
matches q String.[] = is_final q
matches q (String.◌∷◌ c s) =
    is_final q && is_end (String.◌∷◌ c s)
    || elim (advance q (code c)) [ none ↦ false | some q' ↦ matches q' s ]

unfoldable pub valid_username : Env → String → Bool
unfolding matches
valid_username env username =
    leb env.username_min_len (text_length username)
    && leb (text_length username) env.username_max_len
    && matches start username

unfoldable pub valid_email : Env → String → Bool
valid_email env email = elim (env.validate_email email) [ none ↦ false | some _ ↦ true ]

-- What stands before the first such character.
abbrev until : ℕ → String → String
until c String.[] = ""
until c (String.◌∷◌ d s) = let rest = until c s in if code d == c then "" else String.◌∷◌ d rest

-- `replace` of a character by nothing.
abbrev pub without : ℕ → String → String
without c String.[] = ""
without c (String.◌∷◌ d s) =
    let rest = without c s in if code d == c then rest else String.◌∷◌ d rest

abbrev pub default : String → String → String
default String.[] s = s
default (String.◌∷◌ c t) s = String.◌∷◌ c t

abbrev pub is_empty : String → Bool
is_empty String.[] = true
is_empty (String.◌∷◌ c s) = false

-- EMAIL_PROVIDER_RULES: whether the dots go, and the domain that stands for it.
abbrev in_texts : String → List String → Bool
in_texts s ss = any (λ t. str_eq t s) ss

abbrev email_provider_rules : String → Option (Bool × String)
email_provider_rules domain =
    if in_texts domain ("gmail.com" ∷ "googlemail.com" ∷ [])
    then some (true, "gmail.com")
    else if in_texts domain ("icloud.com" ∷ "me.com" ∷ "mac.com" ∷ [])
    then some (false, "icloud.com")
    else if in_texts domain ("protonmail.com" ∷ "proton.me" ∷ "pm.me" ∷ [])
    then some (false, "proton.me")
    else if in_texts domain (
        "outlook.com" ∷ "hotmail.com" ∷ "live.com" ∷ "msn.com" ∷ "yandex.com" ∷ "yandex.ru"
        ∷ "ya.ru" ∷ "zoho.com" ∷ "zohomail.com" ∷ "fastmail.com" ∷ "fastmail.fm" ∷ [])
    then some (false, "")
    else none

abbrev canonical : Env → Option (Bool × String) → String → String → String
canonical env none local domain = f_string (env.lower local ∷ "@" ∷ domain ∷ [])
canonical env (some (strip_dots, canonical_domain)) local domain =
    let bare = default (until b'+' local) local in
    let stripped = if strip_dots then without b'.' bare else bare in
    f_string (env.lower stripped ∷ "@" ∷ default canonical_domain domain ∷ [])

unfoldable pub normalize_email : Env → String → String
normalize_email env email = elim (env.validate_email email) [
  | none ↦ env.lower email
  | some (local, domain) ↦ canonical env (email_provider_rules domain) local domain
]

unfoldable pub valid_homepage : Env → String → Bool
valid_homepage env homepage = elim (env.urlparse homepage) [
  | none ↦ false
  | some (scheme, netloc) ↦ in_texts scheme ("http" ∷ "https" ∷ []) && not (is_empty netloc)
]

unfoldable pub valid_password : Env → String → Bool
valid_password env password = leb env.passwd_min_len (text_length password)

abbrev is_blank : ℕ → Bool
is_blank c = c == 32 || leb 9 c && leb c 13 || leb 28 c && leb c 31

abbrev is_hex : ℕ → Bool
is_hex c = leb b'0' c && leb c b'9' || leb b'a' c && leb c b'f' || leb b'A' c && leb c b'F'

-- Where `int(fp, 16)` stands, which takes blanks around the number, a sign, `0x` and single
-- underscores between the digits: before the number, after the sign, after a first 0, after `0x`, after
-- a digit, after an underscore, and behind the number.
pub data Reading : Type 0 where
  lead signed leading_zero prefixed digits underscore behind : Reading

abbrev digit_or : ℕ → Option Reading → Option Reading
digit_or c q = if is_hex c then some digits else q

abbrev after_digits : ℕ → Option Reading
after_digits c = if c == b'_' then some underscore else if is_blank c then some behind else none

abbrev pub read_on : Reading → ℕ → Option Reading
read_on lead c =
    if is_blank c
    then some lead
    else if c == b'+' || c == b'-'
    then some signed
    else if c == b'0'
    then some leading_zero
    else digit_or c none
read_on signed c = if c == b'0' then some leading_zero else digit_or c none
read_on leading_zero c =
    if c == b'x' || c == b'X' then some prefixed else digit_or c (after_digits c)
read_on prefixed c = digit_or c (if c == b'_' then some underscore else none)
read_on digits c = digit_or c (after_digits c)
read_on underscore c = digit_or c none
read_on behind c = if is_blank c then some behind else none

abbrev pub is_number : Reading → Bool
is_number leading_zero = true
is_number digits = true
is_number behind = true
is_number _ = false

unfoldable pub is_int : Reading → String → Bool
is_int q String.[] = is_number q
is_int q (String.◌∷◌ c s) = elim (read_on q (code c)) [ none ↦ false | some q' ↦ is_int q' s ]

unfoldable pub valid_pgp_fingerprint : String → Bool
unfolding is_int
valid_pgp_fingerprint fp = is_int lead fp && text_length fp == 40

unfoldable pub strtobool : Env → String → Bool
strtobool env value =
    not (is_empty value)
    && in_texts (env.lower value) ("y" ∷ "yes" ∷ "t" ∷ "true" ∷ "on" ∷ "1" ∷ [])

-- A key as `parse_ssh_key` returns it, joined by a blank, with the fingerprint of the joined text.
pub record Key : Type 0 where
  pub text : String
  pub fingerprint : String

-- `str.split`: `word` is the word that is read, or is empty.
abbrev push_word : String → List String → List String
push_word String.[] ws = ws
push_word (String.◌∷◌ c s) ws = String.◌∷◌ c s ∷ ws

abbrev split_from : (ℕ → Bool) → String → String → List String
split_from p word String.[] = push_word word []
split_from p word (String.◌∷◌ c s) =
    let rest = push_word word (split_from p "" s) in
    let longer = split_from p (append word (String.◌∷◌ c String.[])) s in
    if p (code c) then rest else longer

abbrev keygen : Env → String → Option Key
keygen env text = elim (env.ssh_keygen text) [
  | none ↦ none
  | some fingerprint ↦ some (record { text = text; fingerprint = fingerprint })
]

unfoldable pub parse_ssh_key : Env → List String → Option Key
parse_ssh_key env (prefix ∷ key ∷ _) =
    if in_texts prefix env.valid_keytypes
    then keygen env (f_string (prefix ∷ " " ∷ key ∷ []))
    else none
parse_ssh_key env _ = none

-- The keys of the lines that are not blank, or `none` if a line is no key. A set keeps a key once.
abbrev add_key : Key → List Key → List Key
add_key k ks = if any (λ j. str_eq j.text k.text) ks then ks else k ∷ ks

abbrev parse_lines : Env → List (List String) → Option (List Key)
parse_lines env [] = some []
parse_lines env ([] ∷ lines) = parse_lines env lines
parse_lines env ((w ∷ ws) ∷ lines) = elim (parse_ssh_key env (w ∷ ws)) [
  | none ↦ none
  | some k ↦ elim (parse_lines env lines) [ none ↦ none | some ks ↦ some (add_key k ks) ]
]

-- Where `str.splitlines` ends a line.
abbrev ends_line : ℕ → Bool
ends_line c = leb 10 c && leb c 13 || leb 28 c && leb c 30

unfoldable pub parse_ssh_keys : Env → String → Option (List Key)
unfolding parse_ssh_key
parse_ssh_keys env text =
    parse_lines env (map (split_from is_blank "") (split_from ends_line "" text))
