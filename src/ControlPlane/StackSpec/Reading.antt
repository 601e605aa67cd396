-- ===== src/ControlPlane/StackSpec/Reading.antt =====
-- What the validator passes is read.
use openpalm.Base.{◌≡◌, refl, [], some, Option, Text, codes}
use openpalm.Sdk.Value.{Value}
use openpalm.ControlPlane.SpecValidator.{validate_stack_spec}
use openpalm.ControlPlane.SpecValidator.Accepts.{
  IsStackSpec, validate_stack_spec_iff, object_if_member,
}
use openpalm.ControlPlane.StackSpec.{recognize, read_stack_spec}

recognize-valid : (v : Value) → IsStackSpec v → recognize (some v) ≡ some v
unfolding recognize
recognize-valid v h =
    rw (object_if_member (codes "version") v 2 h.version, h.version, h.an_object) refl

-- A file whose content parses to a value in which the validator finds no error is read as that
-- value.
pub read_stack_spec-validated :
    (yaml_parse : Text → Option Value) (content : Text) (v : Value)
    → yaml_parse content ≡ some v
    → validate_stack_spec v ≡ []
    → read_stack_spec yaml_parse (some content) ≡ some v
unfolding read_stack_spec
read_stack_spec-validated yaml_parse content v parsed valid =
    rw parsed (recognize-valid v ((validate_stack_spec_iff v).0 valid))
