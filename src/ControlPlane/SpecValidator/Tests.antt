-- ===== src/ControlPlane/SpecValidator/Tests.antt =====
-- The validator at concrete specifications.
use openpalm.Base.{◌++◌, ◌≡◌, ◌↔◌, refl, [], Text, codes}
use openpalm.Sdk.Value.{Value, string, number, object, field, end, property}
use openpalm.Sdk.Payload.{member}
use openpalm.ControlPlane.SpecValidator.{
  at, validate_stack_spec, require_capabilities, validate_capabilities, validate_llm, validate_slm,
  validate_embeddings, validate_memory, validate_image, validate_namespace, matches_from,
}
use openpalm.ControlPlane.SpecValidator.Accepts.{IsStackSpec, validate_stack_spec_iff}

-- A specification with this LLM and this namespace of the image.
abbrev pub stack : Text → Text → Value
stack llm namespace = object (
    field (codes "version") (number 2) (
      field (codes "capabilities")
        (object (
          field (codes "llm") (string llm) (
            field (codes "embeddings")
              (object (
                field (codes "provider") (string (codes "ollama")) (
                  field (codes "model") (string (codes "nomic"))
                    (field (codes "dims") (number 768) end))))
              (field (codes "memory") (object end) end))))
        (field (codes "image") (object (field (codes "namespace") (string namespace) end)) end)))

accepts : validate_stack_spec (stack (codes "ollama/qwen") (codes "my-org.dev")) ≡ []
unfolding validate_stack_spec require_capabilities validate_capabilities validate_llm validate_slm
    validate_embeddings validate_memory validate_image validate_namespace matches_from member
    property
accepts = refl

reports_each :
    validate_stack_spec (stack (codes "qwen") (codes "my--org"))
    ≡ at (codes "OP-CFG-008") (codes "capabilities.llm")
      ++ at (codes "OP-CFG-012") (codes "image.namespace")
unfolding validate_stack_spec require_capabilities validate_capabilities validate_llm validate_slm
    validate_embeddings validate_memory validate_image validate_namespace matches_from member
    property
reports_each = refl

validate_stack_spec_iff_example :
    (validate_stack_spec (stack (codes "qwen") (codes "my-org")) ≡ [])
    ↔ IsStackSpec (stack (codes "qwen") (codes "my-org"))
validate_stack_spec_iff_example = validate_stack_spec_iff (stack (codes "qwen") (codes "my-org"))
