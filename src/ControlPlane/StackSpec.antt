-- ===== src/ControlPlane/StackSpec.antt =====
-- packages/lib/src/control-plane/stack-spec.ts: capability strings, and the reading of the
-- specification. The YAML parser is a parameter, `none` where it throws; the file's content is an
-- argument, `none` where there is no file. Writing and updating are not modelled.
pub mod Capability
pub mod Reading
pub mod Tests
use openpalm.Base.{
  ℕ, suc, ◌++◌, Bool, true, false, not, List, [], ◌∷◌, Option, none, some, Text, codes, take, drop,
  nat_beq, if◌then◌else◌,
}
use openpalm.Sdk.Value.{Value}
use openpalm.Sdk.Payload.{is_object, member}
use openpalm.ControlPlane.SpecValidator.{is_two}

-- `s.indexOf(c)`, none for -1.
unfoldable pub index_of : ℕ → Text → Option ℕ
index_of c [] = none
index_of c (d ∷ s) =
    let rest = index_of c s in
    if nat_beq d c then some 0 else elim rest [ none ↦ none | some i ↦ some (suc i) ]

-- The provider and the model.
unfoldable pub parse_capability_string : Text → Text × Text
parse_capability_string cap = elim (index_of b'/' cap) [
  | none ↦ (cap, [])
  | some i ↦ (take i cap, drop (suc i) cap)
]

unfoldable pub format_capability_string : Text → Text → Text
format_capability_string provider model = provider ++ b'/' ∷ model

-- What the parser returned, if it is a specification of the known version.
unfoldable pub recognize : Option Value → Option Value
recognize none = none
recognize (some raw) =
    if not (is_object raw)
    then none
    else if not (is_two (member (codes "version") raw))
    then none
    else if not (is_object (member (codes "capabilities") raw))
    then none
    else some raw

module _ (yaml_parse : Text → Option Value) where
  unfoldable pub read_stack_spec : Option Text → Option Value
  read_stack_spec none = none
  read_stack_spec (some content) = recognize (yaml_parse content)
