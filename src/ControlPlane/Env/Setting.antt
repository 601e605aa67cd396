-- ===== src/ControlPlane/Env/Setting.antt =====
-- What a merge sets and what it leaves.
use openpalm.Base.{
  ℕ, ◌≡◌, ◌≢◌, inl, inr, ◌++◌, refl, arith, Bool, true, false, List, [], ◌∷◌, none, some,
  Bool-cases, Text, text_eq, trim, trim_start, trim_end, strip_prefix, Map, get, is_empty,
  if◌then◌else◌, split, join, split-join, split-Lacks, All,
}
use openpalm.ControlPlane.StackSpec.{index_of}
use openpalm.ControlPlane.Env.{
  MergeOptions, assignment, test_line, key_before, merge_lines, new_lines, ends_empty, header_lines,
  append_remaining, merged_lines, merge_env_content,
}
use openpalm.ControlPlane.Env.Merged.{
  assigns, first_line, or_first, first_line-append, first_line-new_lines, AreNames, IsLineFor,
  merge_lines-AreNames, merge_lines-other, merge_lines-set,
}
use openpalm.ControlPlane.Env.OneLine.{IsLine, AreLines, merged_lines-IsLine}

pub assigns-empty : (u : Bool) (k : Text) → assigns u k [] ≡ false
unfolding assignment test_line trim trim_start trim_end strip_prefix key_before index_of
assigns-empty true k = refl
assigns-empty false k = refl

first_line-gap :
    (u : Bool) (k : Text) (lines : List Text)
    → first_line u k (if ends_empty lines then lines else lines ++ [] ∷ []) ≡ first_line u k lines
first_line-gap u k lines = ground (arith, first_line-append u k lines ([] ∷ []), assigns-empty u k)

first_line-header :
    (u : Bool) (options : MergeOptions) (k : Text)
    → assigns u k options.section_header ≡ false
    → first_line u k (header_lines options) ≡ none
first_line-header u options k h = elim (Bool-cases (is_empty options.section_header)) [
  | inl e ↦ rw e refl
  | inr e ↦ rw (e, h) refl
]

first_line-append_remaining :
    (u : Bool) (options : MergeOptions) (k : Text) (lines : List Text) (m : Map Text Text)
    → assigns u k options.section_header ≡ false
    → first_line u k (append_remaining options lines m)
      ≡ or_first (first_line u k lines) (first_line u k (new_lines m))
unfolding append_remaining
first_line-append_remaining u options k lines [] h = ground arith
first_line-append_remaining u options k lines (entry ∷ m) h =
    let gap = if ends_empty lines then lines else lines ++ [] ∷ [] in
    ground (
      arith,
      first_line-header u options k h,
      first_line-gap u k lines,
      first_line-append u k gap (header_lines options ++ new_lines (entry ∷ m)),
      first_line-append u k (header_lines options) (new_lines (entry ∷ m)),
    )

IsLineFor-merged_lines :
    (options : MergeOptions) (lines : List Text) (updates : Map Text Text) (k v : Text)
    → AreNames updates
    → assigns options.uncomment k options.section_header ≡ false
    → get k updates ≡ some v
    → IsLineFor k v (first_line options.uncomment k (merged_lines options lines updates))
unfolding merged_lines
IsLineFor-merged_lines options lines updates k v h plain e =
    let u = options.uncomment in
    let done = merge_lines u lines updates in
    let all = first_line-append_remaining u options k done.0 done.1 plain in
    let new = first_line-new_lines u done.1 k (merge_lines-AreNames u lines updates h) in
    elim (merge_lines-set u lines updates k v h e) [
      | inl (exported, there) ↦ (exported, ground (arith, all, there))
      | inr (not_there, left) ↦ (false, ground (arith, all, not_there, left, new))
    ]

first_line-merged_lines :
    (options : MergeOptions) (lines : List Text) (updates : Map Text Text) (k : Text)
    → AreNames updates
    → assigns options.uncomment k options.section_header ≡ false
    → get k updates ≡ none
    → first_line options.uncomment k (merged_lines options lines updates)
      ≡ first_line options.uncomment k lines
unfolding merged_lines
first_line-merged_lines options lines updates k h plain e =
    let u = options.uncomment in
    let done = merge_lines u lines updates in
    ground (
      arith,
      first_line-append_remaining u options k done.0 done.1 plain,
      first_line-new_lines u done.1 k (merge_lines-AreNames u lines updates h),
      merge_lines-other u lines updates k h e,
    )

merge_lines-filled :
    (u : Bool) (lines : List Text) (m : Map Text Text) → lines ≢ [] → (merge_lines u lines m).0 ≢ []
unfolding merge_lines
merge_lines-filled u [] m h e = h refl
merge_lines-filled u (line ∷ lines) m h e = cc

append_remaining-filled :
    (options : MergeOptions) (lines : List Text) (m : Map Text Text)
    → lines ≢ []
    → append_remaining options lines m ≢ []
unfolding append_remaining
append_remaining-filled options lines [] h = h
append_remaining-filled options [] (entry ∷ m) h = absurd (h refl)
append_remaining-filled options (line ∷ lines) (entry ∷ m) h = ground arith

pub split-filled : (sep : ℕ) (s : Text) → split sep s ≢ []
unfolding split
split-filled sep [] = ground arith
split-filled sep (c ∷ s) = ground arith

split-join_lines :
    (lines : List Text) → lines ≢ [] → All IsLine lines → split b'\n' (join b'\n' lines) ≡ lines
split-join_lines [] h l = absurd (h refl)
split-join_lines (line ∷ lines) h l = split-join b'\n' line lines l.0 l.1

-- The merged content has the merged lines for its lines.
split-merge_env_content :
    (content : Text) (updates : Map Text Text) (options : MergeOptions)
    → AreNames updates
    → AreLines updates
    → IsLine options.section_header
    → split b'\n' (merge_env_content content updates options)
      ≡ merged_lines options (split b'\n' content) updates
unfolding merge_env_content merged_lines
split-merge_env_content content updates options h k s =
    let u = options.uncomment in
    let done = merge_lines u (split b'\n' content) updates in
    split-join_lines (merged_lines options (split b'\n' content) updates)
      (append_remaining-filled options done.0 done.1
        (merge_lines-filled u (split b'\n' content) updates (split-filled b'\n' content)))
      (merged_lines-IsLine options (split b'\n' content) updates s (split-Lacks b'\n' content) h k)

-- After a merge the first line that assigns a variable of the updates is the one written for it,
-- with its value quoted, if the variables' names have no blanks, equals signs or number signs and
-- are not empty, the header does not assign the variable, and neither it nor the values hold a line
-- break.
pub merge_env_content-IsLineFor :
    (content : Text) (updates : Map Text Text) (options : MergeOptions) (k v : Text)
    → AreNames updates
    → AreLines updates
    → IsLine options.section_header
    → assigns options.uncomment k options.section_header ≡ false
    → get k updates ≡ some v
    → IsLineFor k v
        (first_line options.uncomment k (split b'\n' (merge_env_content content updates options)))
merge_env_content-IsLineFor content updates options k v h l s plain e =
    rw (split-merge_env_content content updates options h l s)
      (IsLineFor-merged_lines options (split b'\n' content) updates k v h plain e)

-- A variable that is not among the updates keeps, in a merge, the first line that assigns it, if
-- the updates' names have no blanks, equals signs or number signs and are not empty, the header
-- does not assign the variable, and neither it nor the updates' values hold a line break.
pub merge_env_content-keeps :
    (content : Text) (updates : Map Text Text) (options : MergeOptions) (k : Text)
    → AreNames updates
    → AreLines updates
    → IsLine options.section_header
    → assigns options.uncomment k options.section_header ≡ false
    → get k updates ≡ none
    → first_line options.uncomment k (split b'\n' (merge_env_content content updates options))
      ≡ first_line options.uncomment k (split b'\n' content)
merge_env_content-keeps content updates options k h l s plain e =
    rw (split-merge_env_content content updates options h l s)
      (first_line-merged_lines options (split b'\n' content) updates k h plain e)
