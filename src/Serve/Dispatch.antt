-- ===== src/Serve/Dispatch.antt =====
-- `serve` of aurweb/git/serve.py: the checks on a command and its dispatch. `repo_regex` stands for
-- the match with the option of that name, and `hook_access` for `os.access` on the update hook. A
-- command that replaces the process is a result of its own.
use Prim.Native.Char.{Char, code}
use aurweb.Prelude.{
  ℕ, zero, suc, ◌-◌, Bool, true, false, not, ◌&&◌, ◌||◌, String, Option, none, some, List, [], ◌∷◌,
  ◌==◌, if◌then◌else◌, ltb, length, drop, any, str_eq, f_string, text_length,
}
use aurweb.Serve.{
  maintenance, banned, email_not_verified, index_error, permission_denied, orphan_package_base,
  broken_update_hook, invalid_repository_name, invalid_arguments, M, ◌>>=◌, ◌>>◌, pure, throw,
  check, read, execute, Session, list_repos, validate_pkgbase, pkgbase_exists, user_email_verified,
  pkgbase_has_write_access, pkgbase_is_orphan, log_ssh_login, bans_match,
}
use aurweb.Serve.Commands.{
  pkgbase_adopt, pkgbase_flag, pkgbase_unflag, pkgbase_vote, pkgbase_unvote, pkgbase_set_keywords,
}
use aurweb.Serve.Ownership.{pkgbase_disown, pkgbase_set_comaintainers}

pub record ServeConfig : Type 0 where
  pub enable_maintenance : Bool
  pub maintenance_exc : List String
  pub repo_regex : String → Bool
  pub hook_access : Bool
  pub git_update_cmd : String

-- `git_shell` has the command and the package base of the environment.
pub data Effect : Type 0 where
  finished usage : Effect
  printed : List String → Effect
  git_shell : (cmd pkgbase : String) → Effect
  restore : (pkgbase : String) → Effect

abbrev pub argument : ℕ → List String → String
argument n [] = ""
argument zero (x ∷ xs) = x
argument (suc n) (x ∷ xs) = argument n xs

-- Lengths count the command itself, which `cmdargv` begins with.
unfoldable pub checkarg_atleast : List String → List String → M (Unit {0})
checkarg_atleast cmdargv argdesc =
    check (not (ltb (length cmdargv - 1) (length argdesc)))
      (invalid_arguments (f_string ("missing " ∷ argument (length cmdargv - 1) argdesc ∷ [])))

unfoldable pub checkarg_atmost : List String → List String → M (Unit {0})
checkarg_atmost cmdargv argdesc =
    check (not (ltb (length argdesc) (length cmdargv - 1))) (invalid_arguments "too many arguments")

unfoldable pub checkarg : List String → List String → M (Unit {0})
unfolding checkarg_atleast checkarg_atmost
checkarg cmdargv argdesc = do checkarg_atleast cmdargv argdesc; checkarg_atmost cmdargv argdesc

abbrev is_slash : Char → Bool
is_slash c = code c == b'/'

-- `rstrip("/")`
unfoldable pub rstrip_slash : String → String
rstrip_slash String.[] = ""
rstrip_slash (String.◌∷◌ c s) =
    let rest = rstrip_slash s in if is_slash c && str_eq rest "" then "" else String.◌∷◌ c rest

abbrev with_slash : String → String
with_slash String.[] = "/"
with_slash (String.◌∷◌ c s) =
    if is_slash c then String.◌∷◌ c s else f_string ("/" ∷ String.◌∷◌ c s ∷ [])

unfoldable pub ends_with : String → String → Bool
ends_with suffix String.[] = str_eq suffix ""
ends_with suffix (String.◌∷◌ c s) =
    let later = ends_with suffix s in later || str_eq suffix (String.◌∷◌ c s)

abbrev with_git : String → String
with_git path = if ends_with ".git" path then path else f_string (path ∷ ".git" ∷ [])

abbrev text_tail : String → String
text_tail String.[] = ""
text_tail (String.◌∷◌ c s) = s

abbrev text_take : ℕ → String → String
text_take zero s = ""
text_take (suc n) String.[] = ""
text_take (suc n) (String.◌∷◌ c s) = String.◌∷◌ c (text_take n s)

-- The name of the package base in a path: `path[1:-4]`.
unfoldable pub pkgbase_of_path : String → String
unfolding rstrip_slash ends_with
pkgbase_of_path path =
    let full = with_git (with_slash (rstrip_slash path)) in
    text_tail (text_take (text_length full - 4) full)

-- What is raised on a push without write access.
abbrev refuse_push : String → String → Bool → M (Unit {0})
refuse_push pkgbase user true = throw (orphan_package_base pkgbase)
refuse_push pkgbase user false = throw (permission_denied user)

abbrev pub may_push : Session → String → Bool → M (Unit {0})
may_push s pkgbase true = pure tt
may_push s pkgbase false = do
  orphan ← read (pkgbase_is_orphan pkgbase)
  refuse_push pkgbase s.user orphan

unfoldable pub serve_git : ServeConfig → Session → String → List String → M Effect
serve_git config s action cmdargv = do
  checkarg cmdargv ("path" ∷ [])
  pkgbase ← pure (pkgbase_of_path (argument 1 cmdargv))
  check (config.repo_regex pkgbase) (invalid_repository_name pkgbase)
  allowed ← read (λ db.
      not (str_eq action "git-receive-pack" && pkgbase_exists pkgbase db)
      || s.privileged
      || pkgbase_has_write_access pkgbase s.user db)
  may_push s pkgbase allowed
  check config.hook_access (broken_update_hook config.git_update_cmd)
  pure (git_shell action pkgbase)

abbrev then_finish : M (Unit {0}) → M Effect
then_finish m = do m; pure finished

-- The branches on the action, in the order of the source.
unfoldable pub run_action :
    (List ℕ → List ℕ) → ServeConfig → Session → String → List String → M Effect
unfolding serve_git
run_action set_order config s action cmdargv =
    let named = "repository name" ∷ [] in
    let pkgbase = argument 1 cmdargv in
    if str_eq action "git-upload-pack" || str_eq action "git-receive-pack"
    then serve_git config s action cmdargv
    else if str_eq action "set-keywords"
    then (do
      checkarg_atleast cmdargv named
      then_finish (pkgbase_set_keywords pkgbase (drop 2 cmdargv)))
    else if str_eq action "list-repos"
    then (do checkarg cmdargv []; lines ← list_repos s.user; pure (printed lines))
    else if str_eq action "restore"
    then (do
      checkarg cmdargv named
      validate_pkgbase config.repo_regex pkgbase s.user
      pure (restore pkgbase))
    else if str_eq action "adopt"
    then (do checkarg cmdargv named; then_finish (pkgbase_adopt s pkgbase))
    else if str_eq action "disown"
    then (do checkarg cmdargv named; then_finish (pkgbase_disown set_order s pkgbase))
    else if str_eq action "flag"
    then (do
      checkarg cmdargv ("repository name" ∷ "comment" ∷ [])
      then_finish (pkgbase_flag s pkgbase (argument 2 cmdargv)))
    else if str_eq action "unflag"
    then (do checkarg cmdargv named; then_finish (pkgbase_unflag s pkgbase))
    else if str_eq action "vote"
    then (do checkarg cmdargv named; then_finish (pkgbase_vote s pkgbase))
    else if str_eq action "unvote"
    then (do checkarg cmdargv named; then_finish (pkgbase_unvote s pkgbase))
    else if str_eq action "set-comaintainers"
    then (do
      checkarg_atleast cmdargv named
      then_finish (pkgbase_set_comaintainers set_order s pkgbase (drop 2 cmdargv)))
    else if str_eq action "help"
    then pure usage
    else throw (invalid_arguments (f_string ("invalid command: " ∷ action ∷ [])))

-- `git upload-pack` and `git receive-pack` as one word each.
abbrev is_pack : String → Bool
is_pack word = str_eq word "upload-pack" || str_eq word "receive-pack"

abbrev joined_action : String → List String → M (String × List String)
joined_action action [] = throw index_error
joined_action action (c ∷ []) = throw index_error
joined_action action (c ∷ word ∷ args) =
    if is_pack word
    then pure (f_string (action ∷ "-" ∷ word ∷ []), c ∷ args)
    else pure (action, c ∷ word ∷ args)

abbrev pub split_git : String → List String → M (String × List String)
split_git action cmdargv =
    if str_eq action "git" then joined_action action cmdargv else pure (action, cmdargv)

unfoldable pub is_readonly : String → List String → Bool
is_readonly action cmdargv =
    str_eq action "git-upload-pack"
    || str_eq action "list-repos"
    || str_eq action "help"
    || (str_eq action "git" && str_eq (argument 1 cmdargv) "upload-pack")

abbrev pub is_excepted : List String → Option String → Bool
is_excepted names none = false
is_excepted names (some a) = any (λ n. str_eq n a) names

unfoldable pub serve : (List ℕ → List ℕ) → ServeConfig → Session → String → List String → M Effect
serve set_order config s action cmdargv = do
  check (not config.enable_maintenance || is_excepted config.maintenance_exc s.remote_addr)
      maintenance
  is_banned ← read (bans_match s.remote_addr)
  check (not is_banned) banned
  execute (log_ssh_login s)
  verified ← read (user_email_verified s.user)
  check (is_readonly action cmdargv || verified) email_not_verified
  split ← split_git action cmdargv
  run_action set_order config s split.0 split.1
