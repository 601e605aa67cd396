-- ===== src/ControlPlane/Env.antt =====
-- packages/lib/src/control-plane/env.ts: the merge of variables into an environment file. The
-- parser of dotenv is not in the repository.
pub mod OneLine
pub mod Lines
pub mod Merged
pub mod Setting
pub mod Ended
pub mod Tests
use openpalm.Base.{
  ℕ, suc, ◌++◌, Bool, true, false, ◌&&◌, ◌||◌, not, List, [], ◌∷◌, Option, none, some, Text,
  text_eq, codes, Map, get, delete, length, take, any_by, is_empty, trim, trim_start, strip_prefix,
  strip_suffix, split, join, nat_beq, if◌then◌else◌, ◌==◌,
}
use openpalm.ControlPlane.StackSpec.{index_of}

pub record MergeOptions : Type 0 where
  pub uncomment : Bool
  -- Empty where there is none.
  pub section_header : Text

-- `/[#"'\\\n\r$]/`
abbrev pub is_special : ℕ → Bool
is_special c =
    nat_beq c b'#'
    || nat_beq c b'"'
    || nat_beq c 39
    || nat_beq c 92
    || nat_beq c b'\n'
    || nat_beq c 13
    || nat_beq c b'$'

-- `s.replace(/c/g, ...)` for one code unit.
unfoldable pub replace_all : ℕ → Text → Text → Text
replace_all c by [] = []
replace_all c by (d ∷ s) =
    let rest = replace_all c by s in if nat_beq d c then by ++ rest else d ∷ rest

-- The five replacements of the source, one after the other.
unfoldable pub escape : Text → Text
unfolding replace_all
escape value = replace_all 13 (92 ∷ b'r' ∷ []) (
    replace_all b'\n' (92 ∷ b'n' ∷ []) (
      replace_all b'"' (92 ∷ b'"' ∷ [])
        (replace_all b'$' (92 ∷ b'$' ∷ []) (replace_all 92 (92 ∷ 92 ∷ []) value))))

unfoldable pub quote_env_value : Text → Text
unfolding escape
quote_env_value value =
    if is_empty value
    then []
    else if not (any_by is_special value || not (value == trim value))
    then value
    else if not (any_by (λ c. nat_beq c 39) value)
    then 39 ∷ (value ++ 39 ∷ [])
    else b'"' ∷ (escape value ++ b'"' ∷ [])

-- `replace(/^#\s*/, '').trim()`
abbrev pub without_hash : Text → Text
without_hash [] = []
without_hash (c ∷ s) = if nat_beq c b'#' then trim (trim_start s) else trim (c ∷ s)

-- A line that assigns a variable: whether it exports it, and its name.
pub record Assignment : Type 0 where
  pub had_export : Bool
  pub key : Text

unfoldable pub key_before : Bool → Text → Option Assignment
key_before had_export line = elim (index_of b'=' line) [
  | none ↦ none
  | some i ↦
      if nat_beq i 0
      then none
      else some (record { had_export = had_export; key = trim (take i line) })
]

unfoldable pub test_line : Bool → Text → Text
test_line uncomment line = if uncomment then without_hash (trim line) else trim line

unfoldable pub assignment : Bool → Text → Option Assignment
unfolding key_before
assignment uncomment line = elim (strip_prefix (codes "export ") (test_line uncomment line)) [
  | none ↦ key_before false (test_line uncomment line)
  | some rest ↦ key_before true (trim_start rest)
]

abbrev pub line_of : Assignment → Text → Text
line_of a value =
    (if a.had_export then codes "export " else []) ++ (a.key ++ b'=' ∷ quote_env_value value)

-- What becomes of a line, and what is left to be set.
unfoldable pub merge_line : Bool → Text → Map Text Text → Text × Map Text Text
merge_line uncomment line remaining = elim (assignment uncomment line) [
  | none ↦ (line, remaining)
  | some a ↦ elim (get a.key remaining) [
    | none ↦ (line, remaining)
    | some value ↦ (line_of a value, delete a.key remaining)
  ]
]

unfoldable pub merge_lines : Bool → List Text → Map Text Text → List Text × Map Text Text
unfolding merge_line
merge_lines uncomment [] remaining = ([], remaining)
merge_lines uncomment (line ∷ lines) remaining =
    let done = merge_line uncomment line remaining in
    let rest = merge_lines uncomment lines done.1 in (done.0 ∷ rest.0, rest.1)

abbrev pub new_lines : Map Text Text → List Text
new_lines [] = []
new_lines ((key, value) ∷ remaining) = (key ++ b'=' ∷ quote_env_value value) ∷ new_lines remaining

abbrev pub ends_empty : List Text → Bool
ends_empty [] = false
ends_empty (line ∷ []) = is_empty line
ends_empty (line ∷ next ∷ lines) = ends_empty (next ∷ lines)

abbrev pub header_lines : MergeOptions → List Text
header_lines options = if is_empty options.section_header then [] else options.section_header ∷ []

unfoldable pub append_remaining : MergeOptions → List Text → Map Text Text → List Text
append_remaining options lines [] = lines
append_remaining options lines (entry ∷ remaining) =
    (if ends_empty lines then lines else lines ++ [] ∷ [])
    ++ (header_lines options ++ new_lines (entry ∷ remaining))

unfoldable pub merged_lines : MergeOptions → List Text → Map Text Text → List Text
unfolding merge_lines append_remaining
merged_lines options lines updates =
    let done = merge_lines options.uncomment lines updates in append_remaining options done.0 done.1

unfoldable pub merge_env_content : Text → Map Text Text → MergeOptions → Text
unfolding merged_lines
merge_env_content content updates options =
    join b'\n' (merged_lines options (split b'\n' content) updates)

abbrev pub ends_with_break : Text → Bool
ends_with_break content = elim (strip_suffix (codes "\n") content) [
  | none ↦ false
  | some stem ↦ true
]

-- With a line break at the end.
abbrev pub ended : Text → Text
ended content = if ends_with_break content then content else content ++ codes "\n"
