-- ===== src/ControlPlane/StackSpec/Tests.antt =====
-- Capability strings and the reading of a concrete file.
use openpalm.Base.{◌≡◌, ◌≢◌, refl, [], codes, none}
use openpalm.Sdk.Value.{Value, property}
use openpalm.Sdk.Payload.{member}
use openpalm.ControlPlane.SpecValidator.{
  validate_stack_spec, require_capabilities, validate_capabilities, validate_llm, validate_slm,
  validate_embeddings, validate_memory, validate_image, validate_namespace, matches_from,
}
use openpalm.ControlPlane.SpecValidator.Tests.{stack}
use openpalm.ControlPlane.StackSpec.{index_of, parse_capability_string}

no_model : parse_capability_string (codes "ollama") ≡ (codes "ollama", [])
unfolding parse_capability_string index_of
no_model = refl

slash_found : index_of b'/' (codes "hf/org/model") ≢ none
unfolding index_of
slash_found e = cc

abbrev spec : Value
spec = stack (codes "ollama/qwen") (codes "my-org.dev")

spec_passes : validate_stack_spec spec ≡ []
unfolding validate_stack_spec require_capabilities validate_capabilities validate_llm validate_slm
    validate_embeddings validate_memory validate_image validate_namespace matches_from member
    property
spec_passes = refl
