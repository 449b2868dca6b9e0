-- ===== src/Hook/Legacy.antt =====
-- How aurweb/git/update_legacy.py takes a dependency apart, and the fields of each architecture. The
-- rest of that hook, which reads a .SRCINFO file with another parser, is not modelled.
use Prim.Native.String.{◌++◌ as append}
use Prim.Native.Char.{Char}
use text.Mathlib.TextLemmas.{nil-append, cons-append, append_assoc}
use aurweb.Prelude.{
  Option-cases, Bool, true, false, not, ◌&&◌, ◌||◌, String, Option, none, some, List, [], ◌∷◌, ◌++◌,
  ◌≡◌, refl, ap, sym, ◌∙◌, f_string, str_eq, map, if◌then◌else◌, Bool-cases, inl, inr, eq_iff,
  arith,
}

-- A value of a field, with its architecture or none.
pub record ArchField : Type 0 where
  pub value : String
  pub arch : Option String

abbrev values_or_none : Option (List String) → List String
values_or_none none = []
values_or_none (some vs) = vs

-- `pkginfo` is a dictionary: the values of a field, if it is there.
abbrev pub of_archs : (String → Option (List String)) → String → List String → List ArchField
of_archs pkginfo field [] = []
of_archs pkginfo field (a ∷ archs) =
    map (λ v. record { value = v; arch = some a })
      (values_or_none (pkginfo (f_string (field ∷ "_" ∷ a ∷ []))))
    ++ of_archs pkginfo field archs

abbrev pub extract_arch_fields :
    (String → Option (List String)) → List String → String → List ArchField
extract_arch_fields pkginfo archs field =
    map (λ v. record { value = v; arch = none }) (values_or_none (pkginfo field))
    ++ of_archs pkginfo field archs

-- `s.partition(": ")`: the texts before and after the first colon with a blank, if there is one.
abbrev after_blank : String → Option String
after_blank String.[] = none
after_blank (String.◌∷◌ c s) = if str_eq (String.◌∷◌ c String.[]) " " then some s else none

abbrev after_colon : String → Option String
after_colon String.[] = none
after_colon (String.◌∷◌ c s) = if str_eq (String.◌∷◌ c String.[]) ":" then after_blank s else none

pub record Partition : Type 0 where
  pub before : String
  pub rest : Option String

abbrev joined : String → Option String → Partition → Partition
joined (String.◌∷◌ c s) none p = record { before = String.◌∷◌ c p.before; rest = p.rest }
joined t none p = p
joined t (some rest) p = record { before = ""; rest = some rest }

abbrev pub partition : String → Partition
partition String.[] = record { before = ""; rest = none }
partition (String.◌∷◌ c s) =
    let p = partition s in joined (String.◌∷◌ c s) (after_colon (String.◌∷◌ c s)) p

abbrev pub is_operator : String → Bool
is_operator c = str_eq c "<" || str_eq c "=" || str_eq c ">"

abbrev pub is_newline : String → Bool
is_newline c = str_eq c "\n"

-- `re.sub(r"(<|=|>).*", "", dep)`: what stands from an operator to the end of its line is left out. The
-- argument tells whether an operator stands before the text on its line.
abbrev pub without_matches : Bool → String → String
without_matches matching String.[] = ""
without_matches matching (String.◌∷◌ c s) =
    let first = String.◌∷◌ c String.[] in
    let now = not (is_newline first) && (matching || is_operator first) in
    let rest = without_matches now s in if now then rest else String.◌∷◌ c rest

abbrev pub strip_condition : String → String
strip_condition s = without_matches false s

-- `dep[len(depname):]`
abbrev pub drop_length : String → String → String
drop_length String.[] t = t
drop_length (String.◌∷◌ c s) String.[] = ""
drop_length (String.◌∷◌ c s) (String.◌∷◌ d t) = drop_length s t

abbrev pub or_empty : Option String → String
or_empty none = ""
or_empty (some s) = s

pub record Dependency : Type 0 where
  pub depname : String
  pub desc : String
  pub depcond : String

abbrev pub parse_dep : String → Dependency
parse_dep depstring =
    let parts = partition depstring in
    let depname = strip_condition parts.before in
    record {
      depname = depname;
      desc = or_empty parts.rest;
      depcond = drop_length depname parts.before;
    }

-- The text of a dependency with a description, if it has one.
abbrev pub described : String → Option String → String
described s none = s
described s (some desc) = append s (append ": " desc)

described_cons :
    (c : Char) (s : String) (o : Option String)
    → described (String.◌∷◌ c s) o ≡ String.◌∷◌ c (described s o)
described_cons c s none = refl
described_cons c s (some desc) = cons-append c s (append ": " desc)

-- A text that begins with a given character.
begins :
    (c : Char) (s first : String)
    → str_eq (String.◌∷◌ c String.[]) first ≡ true
    → String.◌∷◌ c s ≡ append first s
begins c s first e =
    sym (cons-append c String.[] s ∙ ap (String.◌∷◌ c) (nil-append s))
    ∙ ap (λ (t : String). append t s) ((eq_iff (String.◌∷◌ c String.[]) first).0 e)

after_blank_lem : (s rest : String) → after_blank s ≡ some rest → s ≡ append " " rest
after_blank_lem String.[] rest h = cc
after_blank_lem (String.◌∷◌ c s) rest h = elim (Bool-cases (str_eq (String.◌∷◌ c String.[]) " ")) [
  | inl e ↦ let same : s ≡ rest = ground (arith, h, e) in begins c s " " e ∙ ap (append " ") same
  | inr e ↦ ground (arith, h, e)
]

after_colon_lem : (s rest : String) → after_colon s ≡ some rest → s ≡ append ": " rest
after_colon_lem String.[] rest h = cc
after_colon_lem (String.◌∷◌ c s) rest h = elim (Bool-cases (str_eq (String.◌∷◌ c String.[]) ":")) [
  | inl e ↦
      let blank : after_blank s ≡ some rest = ground (arith, h, e) in
      begins c s ":" e
      ∙ ap (append ":") (after_blank_lem s rest blank)
      ∙ sym (append_assoc ":" " " rest)
  | inr e ↦ ground (arith, h, e)
]

partition_lem : (s : String) → described (partition s).before (partition s).rest ≡ s
partition_lem String.[] = refl
partition_lem (String.◌∷◌ c s) = elim (Option-cases (after_colon (String.◌∷◌ c s))) [
  | inl e ↦ rw e (
      described_cons c (partition s).before (partition s).rest
      ∙ ap (String.◌∷◌ c) (partition_lem s))
  | inr (rest, e) ↦
      rw e (nil-append (append ": " rest) ∙ sym (after_colon_lem (String.◌∷◌ c s) rest e))
]

-- A text of several lines.
abbrev pub has_newline : String → Bool
has_newline String.[] = false
has_newline (String.◌∷◌ c s) = is_newline (String.◌∷◌ c String.[]) || has_newline s

partition-has_newline :
    (s : String) → has_newline s ≡ false → has_newline (partition s).before ≡ false
partition-has_newline String.[] h = refl
partition-has_newline (String.◌∷◌ c s) h = elim (Option-cases (after_colon (String.◌∷◌ c s))) [
  | inl e ↦ rw e (ground (arith, h, partition-has_newline s (ground (arith, h))))
  | inr (rest, e) ↦ rw e refl
]

-- On one line, all is left out after an operator.
without_matches-line : (s : String) → has_newline s ≡ false → without_matches true s ≡ ""
without_matches-line String.[] h = refl
without_matches-line (String.◌∷◌ c s) h =
    let here : is_newline (String.◌∷◌ c String.[]) ≡ false = ground (arith, h) in
    rw here (without_matches-line s (ground (arith, h)))

strip_condition_lem :
    (s : String)
    → has_newline s ≡ false
    → append (strip_condition s) (drop_length (strip_condition s) s) ≡ s
strip_condition_lem String.[] h = nil-append ""
strip_condition_lem (String.◌∷◌ c s) h =
    let here : is_newline (String.◌∷◌ c String.[]) ≡ false = ground (arith, h) in
    let later : has_newline s ≡ false = ground (arith, h) in
    elim (Bool-cases (is_operator (String.◌∷◌ c String.[]))) [
      | inl e ↦ rw (here, e) (rw (without_matches-line s later) (nil-append (String.◌∷◌ c s)))
      | inr e ↦
          rw (here, e)
            (cons-append c (strip_condition s) (drop_length (strip_condition s) s)
              ∙ ap (String.◌∷◌ c) (strip_condition_lem s later))
    ]

-- A text with an operator in it.
abbrev pub has_operator : String → Bool
has_operator String.[] = false
has_operator (String.◌∷◌ c s) = is_operator (String.◌∷◌ c String.[]) || has_operator s

-- A line break is no operator.
newline-is_operator : (c : String) → is_newline c ≡ true → is_operator c ≡ false
newline-is_operator c h = rw ((eq_iff c "\n").0 h) refl

without_matches-has_operator :
    (matching : Bool) (s : String) → has_operator (without_matches matching s) ≡ false
without_matches-has_operator matching String.[] = refl
without_matches-has_operator matching (String.◌∷◌ c s) =
    let first = String.◌∷◌ c String.[] in
    let now = not (is_newline first) && (matching || is_operator first) in
    let rest = without_matches-has_operator now s in
    elim (Bool-cases now) [
      | inl e ↦ ground (arith, e, rest)
      | inr e ↦ elim (Bool-cases (is_newline first)) [
        | inl n ↦ ground (arith, e, rest, newline-is_operator first n)
        | inr n ↦ ground (arith, e, n, rest)
      ]
    ]

-- The parts that `parse_dep` makes of a text of one line make up the text again: the name, the condition
-- and, if a colon with a blank was there, the description after it. The name has no operator.
pub parse_dep_lem :
    (depstring : String)
    → has_newline depstring ≡ false
    → let dep = parse_dep depstring in
      (described (append dep.depname dep.depcond) (partition depstring).rest ≡ depstring)
      × (or_empty (partition depstring).rest ≡ dep.desc)
      × (has_operator dep.depname ≡ false)
parse_dep_lem depstring h =
    let parts = partition depstring in
    (
      ap (λ (t : String). described t parts.rest)
            (strip_condition_lem parts.before (partition-has_newline depstring h))
          ∙ partition_lem depstring,
      refl,
      without_matches-has_operator false parts.before,
    )
