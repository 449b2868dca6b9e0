-- ===== src/Hook/Metadata.antt =====
-- The parsed .SRCINFO file, and `validate_metadata`, which checks it against the head commit.
use aurweb.Prelude.{ℕ, Bool, ◌||◌, String, Option, none, some, List, leb, text_length}
use aurweb.Hook.{
  Commit, Check, passed, require, check_each, ◌>>◌, in_tree, has_text, field_too_long, missing_file,
  source_too_long, missing_source,
}
use aurweb.Hook.Relations.{Relation, Architecture, any_architecture}

-- What `MergedPackage(arch, base, package)` of alpm has.
pub record MergedPackage : Type 0 where
  pub name : String
  pub description : Option String
  pub url : Option String
  pub install : Option String
  pub changelog : Option String
  pub sources : List String
  pub dependencies : List Relation
  pub make_dependencies : List Relation
  pub check_dependencies : List Relation
  pub optional_dependencies : List Relation
  pub conflicts : List Relation
  pub provides : List Relation
  pub replaces : List Relation
  pub licenses : List String
  pub groups : List String

-- A package of the file: its name, and what it is merged with its base.
pub record SourcePackage : Type 0 where
  pub name : String
  pub merged : Architecture → MergedPackage

pub record SourceInfo : Type 0 where
  pub base_name : String
  pub version : String
  pub architectures : List Architecture
  pub packages : List SourcePackage

-- `str(value)` of a text or of `None`.
abbrev pub str : Option String → String
str none = "None"
str (some s) = s

abbrev pub max_name_length : ℕ
max_name_length = 255

abbrev pub max_url_length : ℕ
max_url_length = 8000

abbrev pub validate_length : Commit → String → ℕ → String → Check (Unit {0})
validate_length commit field limit value =
    require (leb (text_length value) limit) (field_too_long field value commit.id)

abbrev pub validate_file : Commit → String → Option String → Check (Unit {0})
validate_file commit field none = passed tt
validate_file commit field (some value) =
    require (in_tree value commit.tree) (missing_file field value commit.id)

abbrev pub is_remote : String → Bool
is_remote fname = has_text "://" fname || has_text "lp:" fname

abbrev pub validate_source : Commit → String → Check (Unit {0})
validate_source commit fname =
    require (leb (text_length fname) max_url_length) (source_too_long fname commit.id)
    >> require (is_remote fname || in_tree fname commit.tree) (missing_source fname commit.id)

unfoldable pub validate_package : SourceInfo → Commit → SourcePackage → Check (Unit {0})
validate_package metadata commit pkg =
    let merged = pkg.merged any_architecture in
    validate_length commit "pkgname" max_name_length merged.name
    >> validate_length commit "pkgdesc" max_name_length (str merged.description)
    >> validate_length commit "url" max_url_length (str merged.url)
    >> validate_file commit "install" merged.install
    >> validate_file commit "changelog" merged.changelog
    >> check_each (λ arch. check_each (validate_source commit) (pkg.merged arch).sources)
        metadata.architectures

unfoldable pub validate_metadata : SourceInfo → Commit → Check (Unit {0})
unfolding validate_package
validate_metadata metadata commit = check_each (validate_package metadata commit) metadata.packages
