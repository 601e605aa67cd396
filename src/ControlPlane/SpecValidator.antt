-- ===== src/ControlPlane/SpecValidator.antt =====
-- packages/lib/src/control-plane/spec-validator.ts: the validation of a stack specification, as
-- `input` comes from the YAML parser. An error is its code and path; messages and hints are left
-- out.
pub mod Accepts
pub mod Tests
use openpalm.Base.{
  ℕ, ◌++◌, Bool, true, false, ◌&&◌, ◌||◌, not, List, [], ◌∷◌, Option, none, some, Text, codes,
  is_empty, any_by, leb, ltb, nat_beq, if◌then◌else◌,
}
use openpalm.Sdk.Value.{Value, undefined, number, string, object}
use openpalm.Sdk.Payload.{is_object, member}

pub record ValidationError : Type 0 where
  pub code : Text
  pub path : Option Text

abbrev pub at : Text → Text → List ValidationError
at code path = record { code = code; path = some path } ∷ []

abbrev pub is_namespace_char : ℕ → Bool
is_namespace_char c = leb b'a' c && leb c b'z' || leb b'0' c && leb c b'9'

abbrev pub is_separator : ℕ → Bool
is_separator c = nat_beq c b'.' || nat_beq c b'_' || nat_beq c b'-'

-- The rest of a text that `IMAGE_NS_RE` matches; `fresh` at the start of a part.
unfoldable pub matches_from : Bool → Text → Bool
matches_from fresh [] = not fresh
matches_from fresh (c ∷ s) =
    let inside = matches_from false s in
    let next_part = matches_from true s in
    if is_namespace_char c then inside else if not fresh && is_separator c then next_part else false

abbrev pub has_slash : Text → Bool
has_slash s = any_by (λ c. nat_beq c b'/') s

unfoldable pub validate_llm : Value → List ValidationError
validate_llm (string s) =
    if is_empty s
    then at (codes "OP-CFG-008") (codes "capabilities.llm")
    else if not (has_slash s)
    then at (codes "OP-CFG-008") (codes "capabilities.llm")
    else []
validate_llm _ = at (codes "OP-CFG-008") (codes "capabilities.llm")

unfoldable pub validate_slm : Value → List ValidationError
validate_slm undefined = []
validate_slm (string s) =
    if not (has_slash s) then at (codes "OP-CFG-008") (codes "capabilities.slm") else []
validate_slm _ = at (codes "OP-CFG-008") (codes "capabilities.slm")

-- `!v || typeof v !== "string"`
abbrev pub lacks_text : Value → Bool
lacks_text (string s) = is_empty s
lacks_text _ = true

-- `v !== undefined && (typeof v !== "number" || v < 1)`
abbrev pub has_bad_dims : Value → Bool
has_bad_dims undefined = false
has_bad_dims (number n) = ltb n 1
has_bad_dims _ = true

unfoldable pub validate_embeddings : Value → List ValidationError
validate_embeddings emb =
    if not (is_object emb)
    then at (codes "OP-CFG-002") (codes "capabilities.embeddings")
    else (if lacks_text (member (codes "provider") emb)
        then at (codes "OP-CFG-004") (codes "capabilities.embeddings.provider")
        else [])
      ++ ((if lacks_text (member (codes "model") emb)
            then at (codes "OP-CFG-008") (codes "capabilities.embeddings.model")
            else [])
          ++ (if has_bad_dims (member (codes "dims") emb)
              then at (codes "OP-CFG-009") (codes "capabilities.embeddings.dims")
              else []))

unfoldable pub validate_memory : Value → List ValidationError
validate_memory memory =
    if not (is_object memory) then at (codes "OP-CFG-002") (codes "capabilities.memory") else []

unfoldable pub validate_capabilities : Value → List ValidationError
validate_capabilities capabilities =
    validate_llm (member (codes "llm") capabilities)
    ++ (validate_slm (member (codes "slm") capabilities)
        ++ (validate_embeddings (member (codes "embeddings") capabilities)
            ++ validate_memory (member (codes "memory") capabilities)))

unfoldable pub validate_namespace : Value → List ValidationError
validate_namespace (string s) =
    if not (matches_from true s) then at (codes "OP-CFG-012") (codes "image.namespace") else []
validate_namespace _ = []

-- `spec.version !== 2`, negated.
abbrev pub is_two : Value → Bool
is_two (number n) = nat_beq n 2
is_two _ = false

unfoldable pub require_capabilities : Value → List ValidationError
require_capabilities capabilities =
    if not (is_object capabilities)
    then at (codes "OP-CFG-001") (codes "capabilities")
    else validate_capabilities capabilities

unfoldable pub validate_image : Value → List ValidationError
validate_image image =
    if is_object image then validate_namespace (member (codes "namespace") image) else []

unfoldable pub validate_stack_spec : Value → List ValidationError
validate_stack_spec input =
    if not (is_object input)
    then record { code = codes "OP-CFG-000"; path = none } ∷ []
    else if not (is_two (member (codes "version") input))
    then at (codes "OP-CFG-020") (codes "version")
    else require_capabilities (member (codes "capabilities") input)
      ++ validate_image (member (codes "image") input)
