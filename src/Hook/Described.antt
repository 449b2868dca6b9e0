-- ===== src/Hook/Described.antt =====
-- What a .SRCINFO file may say that the hook takes, stated on the file and the head commit.
use aurweb.Prelude.{
  ℕ, ◌≤◌, true, ◌||◌, String, Option, none, some, List, ◌≡◌, refl, ◌↔◌, All, arith, leb, leb→le,
  text_length,
}
use aurweb.Hook.{
  Commit, Check, Refusal, in_tree, require, check_each, ◌>>◌, field_too_long, missing_file,
  source_too_long, missing_source,
}
use aurweb.Hook.Passing.{Passes, require-Passes, both, check_each-Passes}
use aurweb.Prelude.{All-map}
use aurweb.Hook.Relations.{Architecture, any_architecture}
use aurweb.Hook.Metadata.{
  SourceInfo, SourcePackage, str, is_remote, validate_length, validate_file, validate_source,
  validate_package, validate_metadata,
}

-- A file that is named is in the commit.
abbrev pub IsThere : Commit → Option String → Type 0
IsThere commit none = Unit
IsThere commit (some name) = in_tree name commit.tree ≡ true

abbrev pub IsSource : Commit → String → Type 0
IsSource commit s = (text_length s ≤ 8000) × ((is_remote s || in_tree s commit.tree) ≡ true)

abbrev pub IsDescribed : SourceInfo → Commit → SourcePackage → Type 0
IsDescribed metadata commit pkg =
    let merged = pkg.merged any_architecture in
    ((text_length merged.name ≤ 255)
      × (text_length (str merged.description) ≤ 255)
      × (text_length (str merged.url) ≤ 8000))
    × (IsThere commit merged.install × IsThere commit merged.changelog)
    × All (λ arch. All (IsSource commit) (pkg.merged arch).sources) metadata.architectures

require_le : (a b : ℕ) (r : Refusal) → Passes (require (leb a b) r) ↔ (a ≤ b)
require_le a b r = (
  (λ h. leb→le a b ((require-Passes (leb a b) r).0 h)),
  λ h. (require-Passes (leb a b) r).1 (ground (arith, h)),
)

validate_file_lem :
    (commit : Commit) (field : String) (o : Option String)
    → Passes (validate_file commit field o) ↔ IsThere commit o
validate_file_lem commit field none = ((λ h. tt), λ h. refl)
validate_file_lem commit field (some name) =
    require-Passes (in_tree name commit.tree) (missing_file field name commit.id)

validate_source_lem :
    (commit : Commit) (s : String) → Passes (validate_source commit s) ↔ IsSource commit s
validate_source_lem commit s =
    both (require (leb (text_length s) 8000) (source_too_long s commit.id))
      (require (is_remote s || in_tree s commit.tree) (missing_source s commit.id))
      (require_le (text_length s) 8000 (source_too_long s commit.id))
      (require-Passes (is_remote s || in_tree s commit.tree) (missing_source s commit.id))

all : {A : Type 0} (P Q : A → Type 0) (xs : List A) → ((x : A) → P x ↔ Q x) → All P xs ↔ All Q xs
all P Q xs h = (All-map P Q xs (λ x. (h x).0), All-map Q P xs (λ x. (h x).1))

each :
    {A : Type 0} (f : A → Check (Unit {0})) (P : A → Type 0) (xs : List A)
    → ((x : A) → Passes (f x) ↔ P x)
    → Passes (check_each f xs) ↔ All P xs
each f P xs h =
    let c = check_each-Passes f xs in
    let a = all (λ x. Passes (f x)) P xs h in ((λ p. a.0 (c.0 p)), λ p. c.1 (a.1 p))

validate_package_lem :
    (metadata : SourceInfo) (commit : Commit) (pkg : SourcePackage)
    → Passes (validate_package metadata commit pkg) ↔ IsDescribed metadata commit pkg
unfolding validate_package
validate_package_lem metadata commit pkg =
    let m = pkg.merged any_architecture in
    let name = validate_length commit "pkgname" 255 m.name in
    let desc = validate_length commit "pkgdesc" 255 (str m.description) in
    let url = validate_length commit "url" 8000 (str m.url) in
    let install = validate_file commit "install" m.install in
    let changelog = validate_file commit "changelog" m.changelog in
    let of_arch =
      λ (arch : Architecture). check_each (validate_source commit) (pkg.merged arch).sources in
    let sources = check_each of_arch metadata.architectures in
    let n = require_le (text_length m.name) 255 (field_too_long "pkgname" m.name commit.id) in
    let d =
      require_le (text_length (str m.description)) 255
        (field_too_long "pkgdesc" (str m.description) commit.id) in
    let u =
      require_le (text_length (str m.url)) 8000 (field_too_long "url" (str m.url) commit.id) in
    let i = validate_file_lem commit "install" m.install in
    let c = validate_file_lem commit "changelog" m.changelog in
    let s =
      each of_arch (λ arch. All (IsSource commit) (pkg.merged arch).sources) metadata.architectures
        (λ arch.
          each (validate_source commit) (IsSource commit) (pkg.merged arch).sources
            (validate_source_lem commit)) in
    let c1 = both name desc n d in
    let c2 = both (name >> desc) url c1 u in
    let c3 = both (name >> desc >> url) install c2 i in
    let c4 = both (name >> desc >> url >> install) changelog c3 c in
    let c5 = both (name >> desc >> url >> install >> changelog) sources c4 s in
    (
      (λ h.
          let (r, srcs) = c5.0 h in
          let (q, cl) = r in
          let (t, ins) = q in let (nd, ur) = t in ((nd.0, nd.1, ur), (ins, cl), srcs)),
      λ h. c5.1 ((((((h.0.0, h.0.1), h.0.2), h.1.0), h.1.1), h.2)),
    )

-- The hook takes a .SRCINFO file exactly when each package has a name and a description of at most
-- 255 characters and a URL of at most 8000, the install file and the changelog that it names, if any,
-- are in the head commit, and each source, for each architecture, has at most 8000 characters and is
-- remote or in the head commit.
pub validate_metadata_iff :
    (metadata : SourceInfo) (commit : Commit)
    → Passes (validate_metadata metadata commit)
      ↔ All (IsDescribed metadata commit) metadata.packages
unfolding validate_metadata
validate_metadata_iff metadata commit =
    each (validate_package metadata commit) (IsDescribed metadata commit) metadata.packages
      (validate_package_lem metadata commit)
