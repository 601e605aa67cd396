-- ===== src/ControlPlane/Env/Tests.antt =====
-- Merges into a small file.
use openpalm.Base.{
  ◌≡◌, refl, arith, false, [], ◌∷◌, Text, text_eq, codes, Map, get, delete, is_space, trim,
  trim_start, trim_end, strip_prefix, split, join,
}
use openpalm.ControlPlane.StackSpec.{index_of}
use openpalm.ControlPlane.Env.{
  MergeOptions, assignment, test_line, key_before, quote_env_value, escape, replace_all, merge_line,
  merge_lines, append_remaining, merged_lines, merge_env_content,
}
use openpalm.ControlPlane.Env.Merged.{first_line, IsLineFor}
use openpalm.ControlPlane.Env.Setting.{merge_env_content-IsLineFor, merge_env_content-keeps}

abbrev options : MergeOptions
options = record { uncomment = false; section_header = codes "# New" }

abbrev content : Text
content = codes "A=1\nexport B=2\nA=2"

abbrev updates : Map Text Text
updates = (codes "B", codes "b c") ∷ (codes "A", codes "3") ∷ (codes "C", codes "x#y") ∷ []

-- The second assignment of A stays as it is.
all_merged :
    merge_env_content content updates options ≡ codes "A=3\nexport B=b c\nA=2\n\n# New\nC='x#y'"
unfolding merge_env_content merged_lines merge_lines merge_line append_remaining assignment
    test_line key_before quote_env_value escape replace_all get delete trim trim_start trim_end
    strip_prefix split join index_of
all_merged = refl

merge_env_content-IsLineFor_example :
    IsLineFor
      (codes "C")
      (codes "x#y")
      (first_line false (codes "C") (split b'\n' (merge_env_content content updates options)))
unfolding get assignment test_line key_before trim trim_start trim_end strip_prefix index_of
    is_space
merge_env_content-IsLineFor_example =
    merge_env_content-IsLineFor content updates options (codes "C") (codes "x#y") (ground arith)
      (ground arith) (ground arith) refl refl

merge_env_content-keeps_example :
    first_line false (codes "D") (split b'\n' (merge_env_content (codes "D=1") updates options))
    ≡ first_line false (codes "D") (split b'\n' (codes "D=1"))
unfolding get assignment test_line key_before trim trim_start trim_end strip_prefix index_of
    is_space
merge_env_content-keeps_example =
    merge_env_content-keeps (codes "D=1") updates options (codes "D") (ground arith) (ground arith)
      (ground arith) refl refl
