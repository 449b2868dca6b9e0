-- ===== src/Hook/Relations.antt =====
-- The relations of a package, as aurweb/git/update.py stores them: dependencies, conflicts,
-- provisions and replacements. `alpm_types` prints the parts of a relation; they are texts here.
use aurweb.Prelude.{String, Option, none, some, f_string, [], ◌∷◌}

pub record PackageRelation : Type 0 where
  pub name : String
  pub version_requirement : Option String

-- The second part is the description of an optional dependency.
pub data Relation : Type 0 where
  package_relation : PackageRelation → Relation
  optional_dependency : PackageRelation → Option String → Relation
  soname_v1 : (name : String) (soname version architecture : Option String) → Relation
  soname_v2 : (prefix soname : String) → Relation

-- `None` if the architecture is `any`.
pub data Architecture : Type 0 where
  any_architecture : Architecture
  architecture : String → Architecture

unfoldable pub sql_rel_name : Relation → String
sql_rel_name (package_relation r) = r.name
sql_rel_name (optional_dependency r desc) = r.name
sql_rel_name (soname_v1 name soname version arch) = name
sql_rel_name (soname_v2 prefix soname) = f_string (prefix ∷ ":" ∷ soname ∷ [])

unfoldable pub sql_rel_description : Relation → String
sql_rel_description (optional_dependency r (some desc)) = desc
sql_rel_description _ = ""

abbrev pub elf_arch : Option String → String
elf_arch none = ""
elf_arch (some arch) = f_string ("-" ∷ arch ∷ [])

abbrev pub or_empty : Option String → String
or_empty none = ""
or_empty (some s) = s

unfoldable pub sql_rel_requirement : Relation → String
sql_rel_requirement (package_relation r) = or_empty r.version_requirement
sql_rel_requirement (optional_dependency r desc) = or_empty r.version_requirement
sql_rel_requirement (soname_v1 name (some soname) version arch) =
    f_string ("=" ∷ soname ∷ elf_arch arch ∷ [])
sql_rel_requirement (soname_v1 name none (some version) arch) =
    f_string ("=" ∷ version ∷ elf_arch arch ∷ [])
sql_rel_requirement (soname_v1 name none none arch) = ""
sql_rel_requirement (soname_v2 prefix soname) = ""

abbrev pub sql_architecture : Architecture → Option String
sql_architecture any_architecture = none
sql_architecture (architecture arch) = some arch
