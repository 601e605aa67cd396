-- ===== src/ControlPlane/SetupValidation/Tests.antt =====
-- An input with two connections, and one with the same id twice.
use openpalm.Base.{
  ℕ, ◌≡◌, refl, [], ◌∷◌, Text, text_eq, codes, All, true, trim, trim_start, trim_end, is_space,
}
use openpalm.Sdk.Value.{
  Value, string, number, array, object, nil, cons, Fields, end, field, property,
}
use openpalm.Sdk.Payload.{member}
use openpalm.ControlPlane.SetupValidation.{
  validate_security, validate_owner, validate_embedding_fields, validate_spec_capabilities,
  id_errors, validate_connections, validate_connections_array, validate_setup_spec,
  is_capability_id,
}
use openpalm.ControlPlane.SetupValidation.Distinct.{
  ids, connections_of, AreDistinct, validate_setup_spec-AreDistinct,
}

abbrev text : Text → Text → Fields → Fields
text key s rest = field key (string s) rest

abbrev connection : Text → Value
connection id = object (
    text (codes "id") id
      (text (codes "name") (codes "n") (text (codes "provider") (codes "p") end)))

abbrev capabilities : Value
capabilities = object (
    text (codes "llm") (codes "ollama/qwen") (
      field (codes "embeddings")
        (object
          (text (codes "provider") (codes "ollama") (text (codes "model") (codes "nomic") end)))
        (field (codes "memory") (object end) end)))

abbrev input : Text → Text → Value
input first second = object (
    field (codes "security") (object (text (codes "adminToken") (codes "12345678") end)) (
      field (codes "connections") (array (cons (connection first) (cons (connection second) nil)))
        (field (codes "version") (number 2) (field (codes "capabilities") capabilities end))))

abbrev digits : ℕ → Text
digits n = codes "1"

refuses_twice :
    validate_setup_spec digits (input (codes "main") (codes " main "))
    ≡ codes "Duplicate capability ID: main" ∷ []
unfolding validate_setup_spec validate_security validate_owner validate_spec_capabilities
    validate_embedding_fields validate_connections_array validate_connections id_errors member
    property trim trim_start trim_end is_space
refuses_twice = refl

validate_setup_spec-AreDistinct_example :
    let connections =
      ids (connections_of (member (codes "connections") (input (codes "main") (codes "b")))) in
    All (λ t. is_capability_id t ≡ true) connections × AreDistinct connections
unfolding validate_setup_spec validate_security validate_owner validate_spec_capabilities
    validate_embedding_fields validate_connections_array validate_connections id_errors member
    property trim trim_start trim_end is_space
validate_setup_spec-AreDistinct_example =
    validate_setup_spec-AreDistinct digits (input (codes "main") (codes "b")) refl
