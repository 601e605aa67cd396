-- ===== src/ControlPlane/SetupValidation.antt =====
-- packages/lib/src/control-plane/setup-validation.ts: the checks of the input of a set-up. Errors are
-- their messages; the text of an index is a parameter.
pub mod Distinct
pub mod Tests
use openpalm.Base.{
  ℕ, suc, ◌++◌, Bool, true, false, ◌&&◌, ◌||◌, not, List, [], ◌∷◌, Text, text_eq, codes, length,
  all_by, any_by, is_empty, trim, leb, ltb, nat_beq, if◌then◌else◌, ◌==◌,
}
use openpalm.Sdk.Value.{Value, undefined, null, bool, number, string, array, object, items}
use openpalm.Sdk.Payload.{is_object, member}
use openpalm.ControlPlane.SpecValidator.{is_two}
use openpalm.Automation.Action.{truthy}

abbrev is_letter_or_digit : ℕ → Bool
is_letter_or_digit c =
    leb b'a' c && leb c b'z' || leb b'A' c && leb c b'Z' || leb b'0' c && leb c b'9'

-- `CAPABILITY_ID_RE`
abbrev pub is_capability_id : Text → Bool
is_capability_id [] = false
is_capability_id (c ∷ s) =
    is_letter_or_digit c && all_by (λ d. is_letter_or_digit d || nat_beq d b'_' || nat_beq d b'-') s

abbrev pub require_str : Text → Text → Value → List Text
require_str key msg obj = elim (member key obj) [
  | string s ↦ if is_empty s then msg ∷ [] else []
  | _ ↦ msg ∷ []
]

unfoldable pub validate_security : Value → List Text
validate_security security =
    if not (is_object security)
    then codes "security object is required" ∷ []
    else elim (member (codes "adminToken") security) [
      | string s ↦
          if is_empty s
          then codes "security.adminToken is required and must be a non-empty string" ∷ []
          else if ltb (length s) 8
          then codes "security.adminToken must be at least 8 characters" ∷ []
          else []
      | _ ↦ codes "security.adminToken is required and must be a non-empty string" ∷ []
    ]

-- A member that must be a text where it is given.
abbrev pub text_if_given : Text → Value → List Text
text_if_given msg undefined = []
text_if_given msg (string s) = []
text_if_given msg _ = msg ∷ []

unfoldable pub validate_owner : Value → List Text
validate_owner owner =
    if not (truthy owner)
    then []
    else text_if_given (codes "owner.name must be a string") (member (codes "name") owner)
      ++ text_if_given (codes "owner.email must be a string") (member (codes "email") owner)

abbrev pub validate_dims : Value → List Text
validate_dims undefined = []
validate_dims (number n) = []
validate_dims _ =
    codes "capabilities.embeddings.dims must be a positive integer or 0 (auto-resolve)" ∷ []

unfoldable pub validate_embedding_fields : Value → List Text
validate_embedding_fields emb =
    if not (is_object emb)
    then codes "capabilities.embeddings is required" ∷ []
    else require_str (codes "provider") (codes "capabilities.embeddings.provider is required") emb
      ++ (require_str (codes "model") (codes "capabilities.embeddings.model is required") emb
          ++ validate_dims (member (codes "dims") emb))

abbrev pub is_user_id : Text → Bool
is_user_id s = all_by (λ d. is_letter_or_digit d || nat_beq d b'_') s

abbrev pub validate_user_id : Value → List Text
validate_user_id undefined = []
validate_user_id (string s) =
    if is_empty s || is_user_id s
    then []
    else codes
        "capabilities.memory.userId contains invalid characters (alphanumeric and underscores only)"
      ∷ []
validate_user_id _ = codes "capabilities.memory.userId must be a string if provided" ∷ []

unfoldable pub validate_spec_capabilities : Value → List Text
unfolding validate_embedding_fields
validate_spec_capabilities body =
    let caps = member (codes "capabilities") body in
    let memory = member (codes "memory") caps in
    (if is_two (member (codes "version") body) then [] else codes "version must be 2" ∷ [])
    ++ (if not (is_object caps)
        then codes "capabilities is required" ∷ []
        else require_str (codes "llm")
            (codes "capabilities.llm is required (format: 'provider/model')") caps
          ++ (validate_embedding_fields (member (codes "embeddings") caps)
              ++ (if not (is_object memory)
                  then codes "capabilities.memory is required" ∷ []
                  else validate_user_id (member (codes "userId") memory))))

-- `typeof v === "string" ? v.trim() : ""`
abbrev pub trimmed : Value → Text
trimmed (string s) = trim s
trimmed _ = []

abbrev pub id_of : Value → Text
id_of v = trimmed (member (codes "id") v)

module _ (number_text : ℕ → Text) where
  abbrev pub at_index : ℕ → Text → Text
  at_index i rest = codes "connections[" ++ (number_text i ++ rest)

  unfoldable pub id_errors : List Text → ℕ → Text → List Text
  id_errors seen i id =
      if is_empty id
      then at_index i (codes "].id is required") ∷ []
      else if not (is_capability_id id)
      then at_index i
          (codes "].id must start with a letter or digit (allowed: A-Z, a-z, 0-9, _, -)")
        ∷ []
      else if any_by (λ s. s == id) seen
      then (codes "Duplicate capability ID: " ++ id) ∷ []
      else []

  abbrev pub filled_errors : Text → Text → List Text
  filled_errors msg text = if is_empty text then msg ∷ [] else []

  abbrev pub seen_after : List Text → List Text → Text → List Text
  seen_after [] seen id = id ∷ seen
  seen_after (e ∷ errors) seen id = seen

  -- From the index and the ids seen so far.
  unfoldable pub validate_connections : ℕ → List Text → List Value → List Text
  unfolding id_errors
  validate_connections i seen [] = []
  validate_connections i seen (c ∷ cs) =
      let errors = id_errors seen i (id_of c) in
      let rest =
        validate_connections (suc i)
          (if is_object c then seen_after errors seen (id_of c) else seen) cs in
      if not (is_object c)
      then at_index i (codes "] must be an object") ∷ rest
      else errors
        ++ (filled_errors (at_index i (codes "].name is required"))
              (trimmed (member (codes "name") c))
            ++ (filled_errors (at_index i (codes "].provider is required"))
                  (trimmed (member (codes "provider") c))
                ++ rest))

  unfoldable pub validate_connections_array : Value → List Text
  unfolding validate_connections
  validate_connections_array (array cs) = validate_connections 0 [] (items cs)
  validate_connections_array _ = codes "connections must be an array" ∷ []

  abbrev pub validate_credentials : Value → List Text
  validate_credentials undefined = []
  validate_credentials v =
      if is_object v then [] else codes "channelCredentials must be an object if provided" ∷ []

  -- The errors; the input is valid if there are none.
  unfoldable pub validate_setup_spec : Value → List Text
  unfolding validate_security validate_owner validate_connections_array validate_spec_capabilities
  validate_setup_spec input =
      if not (is_object input)
      then codes "Input must be a non-null object" ∷ []
      else validate_security (member (codes "security") input)
        ++ (validate_owner (member (codes "owner") input)
            ++ (validate_connections_array (member (codes "connections") input)
                ++ (validate_spec_capabilities input
                    ++ validate_credentials (member (codes "channelCredentials") input))))
