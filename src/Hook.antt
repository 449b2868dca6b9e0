-- ===== src/Hook.antt =====
-- aurweb/git/update.py and aurweb/git/update_common.py: the Git hook that takes a push. What it reads
-- through pygit2 and through the parser of .SRCINFO files (alpm) is a value here: the trees of
-- commits, and a parsed file with, for each package and architecture, the package merged with its
-- base. What it writes to stderr is the reason of a refusal, or a list of warnings.
pub mod Relations
pub mod Metadata
pub mod Trees
pub mod Tables
pub mod Inserting
pub mod Saving
pub mod Push
pub mod Legacy
pub mod Passing
pub mod Allowed
pub mod Sound
pub mod Accepted
pub mod Described
pub mod Stored
pub mod Owners
pub mod Taking
pub mod Names
pub mod Pushes
mod Tests
use Prim.Native.String.{◌++◌ as append}
use text.Mathlib.Text.{find? as find_text?}
use aurweb.Prelude.{
  ℕ, Bool, true, false, ◌||◌, String, Option, none, some, List, [], ◌∷◌, is_some, str_eq, any,
  find?, if◌then◌else◌,
}

-- An entry of a Git tree: a file with its size and object ID, a directory, or a submodule.
mutual
  pub data TreeEntry : Type 0 where
    blob : (name : String) (size : ℕ) (oid : String) → TreeEntry
    tree : (name : String) (entries : TreeEntries) → TreeEntry
    link : (name : String) → TreeEntry

  pub data TreeEntries : Type 0 where
    nil : TreeEntries
    cons : TreeEntry → TreeEntries → TreeEntries

abbrev pub entries_of : TreeEntries → List TreeEntry
entries_of nil = []
entries_of (cons e es) = e ∷ entries_of es

pub record Commit : Type 0 where
  pub id : String
  pub tree : List TreeEntry

-- aurweb's `die` and `die_commit`, by what they write, and the exceptions that nothing catches. `srcinfo_unchanged` only warns.
--
-- `type_error` from a loop over a file, `key_error` from a name that a tree lacks.
pub data Refusal : Type 0 where
  invalid_arguments branch_restricted non_fast_forward : Refusal
  repository_not_found : String → Refusal
  missing_srcinfo : String → Refusal
  srcinfo_error : (message commit : String) → Refusal
  field_too_long : (field value commit : String) → Refusal
  missing_file : (field value commit : String) → Refusal
  source_too_long : (source commit : String) → Refusal
  missing_source : (source commit : String) → Refusal
  missing_pkgbuild : (commit : String) → Refusal
  has_subdirectories : (commit : String) → Refusal
  blob_too_large : (commit : String) → Refusal
  keys_not_pgp : (commit : String) → Refusal
  not_asc : (commit : String) → Refusal
  not_only_files : (commit : String) → Refusal
  license_check_failed : (commit : String) → Refusal
  license_check_timeout : (commit : String) → Refusal
  pkgctl_not_found : Refusal
  invalid_pkgbase : (found expected : String) → Refusal
  blacklisted_pkgbase : String → Refusal
  blacklisted_package : String → Refusal
  provided_package : (repo pkgname : String) → Refusal
  cannot_overwrite : String → Refusal
  type_error key_error attribute_error : Refusal
  srcinfo_unchanged : Refusal

-- A check passes, or the process ends.
pub data Check {ℓ} (A : Type ℓ) : Type ℓ where
  passed : A → Check A
  refused : Refusal → Check A

infixl 5 ◌>>=◌
abbrev pub ◌>>=◌ : {A B : Type 0} → Check A → (A → Check B) → Check B
passed a >>= f = f a
refused r >>= f = refused r

infixl 5 ◌>>◌
abbrev pub ◌>>◌ : {A B : Type 0} → Check A → Check B → Check B
passed a >> c = c
refused r >> c = refused r

-- `if not b: die(…)`
abbrev pub require : Bool → Refusal → Check (Unit {0})
require true r = passed tt
require false r = refused r

-- `for x in xs:` over a check.
abbrev pub check_each : {A : Type 0} → (A → Check (Unit {0})) → List A → Check (Unit {0})
check_each f [] = passed tt
check_each f (x ∷ xs) = f x >> check_each f xs

abbrev pub entry_name : TreeEntry → String
entry_name (blob name size oid) = name
entry_name (tree name entries) = name
entry_name (link name) = name

abbrev pub prepend : String → List String → List String
prepend c [] = c ∷ []
prepend c (s ∷ ss) = append c s ∷ ss

-- The names of a path.
abbrev pub path_names : String → List String
path_names String.[] = "" ∷ []
path_names (String.◌∷◌ c s) =
    let rest = path_names s in
    let first = String.◌∷◌ c String.[] in if str_eq first "/" then "" ∷ rest else prepend first rest

abbrev pub entry_named : String → List TreeEntry → Option TreeEntry
entry_named name es = find? (λ e. str_eq (entry_name e) name) es

abbrev pub entries_at : Option TreeEntry → List TreeEntry
entries_at (some (tree name es)) = entries_of es
entries_at _ = []

abbrev pub entry_at : List String → List TreeEntry → Option TreeEntry
entry_at [] es = none
entry_at (n ∷ []) es = entry_named n es
entry_at (n ∷ m ∷ ns) es = entry_at (m ∷ ns) (entries_at (entry_named n es))

-- `path in tree`
abbrev pub in_tree : String → List TreeEntry → Bool
in_tree path es = is_some (entry_at (path_names path) es)

abbrev pub is_in : String → List String → Bool
is_in s ts = any (λ t. str_eq t s) ts

-- `needle in text`
abbrev pub has_text : String → String → Bool
has_text needle text = is_some (find_text? text needle)

abbrev pub ends_with : String → String → Bool
ends_with String.[] suffix = str_eq String.[] suffix
ends_with (String.◌∷◌ c s) suffix = str_eq (String.◌∷◌ c s) suffix || ends_with s suffix
