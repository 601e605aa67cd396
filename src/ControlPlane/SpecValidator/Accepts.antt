-- ===== src/ControlPlane/SpecValidator/Accepts.antt =====
-- Which specifications pass.
use openpalm.Base.{
  ℕ, ◌≤◌, ◌≡◌, ◌≢◌, ◌⊎◌, ◌↔◌, inl, inr, refl, ap, ◌++◌, true, false, List, [], ◌∷◌, Text, codes,
  nat_beq, arith, Bool-cases,
}
use openpalm.Sdk.Value.{Value, undefined, null, bool, number, string, array, object}
use openpalm.Sdk.Payload.{is_object, member}
use openpalm.ControlPlane.SpecValidator.{
  ValidationError, has_slash, lacks_text, has_bad_dims, is_two, matches_from, validate_llm,
  validate_slm, validate_embeddings, validate_memory, validate_capabilities, validate_namespace,
  validate_stack_spec, require_capabilities, validate_image,
}

-- "provider/model", either of which may be empty.
abbrev pub IsCapability : Value → Type 0
IsCapability v = (provider model : Text) × (v ≡ string (provider ++ b'/' ∷ model))

abbrev pub IsFilled : Value → Type 0
IsFilled v = (s : Text) × (s ≢ []) × (v ≡ string s)

pub record IsEmbeddings (v : Value) : Type 0 where
  pub an_object : is_object v ≡ true
  pub provider : IsFilled (member (codes "provider") v)
  pub model : IsFilled (member (codes "model") v)
  pub dims :
      (member (codes "dims") v ≡ undefined)
      ⊎ ((n : ℕ) × (1 ≤ n) × (member (codes "dims") v ≡ number n))

pub record IsCapabilities (v : Value) : Type 0 where
  pub llm : IsCapability (member (codes "llm") v)
  pub slm : (member (codes "slm") v ≡ undefined) ⊎ IsCapability (member (codes "slm") v)
  pub embeddings : IsEmbeddings (member (codes "embeddings") v)
  pub memory : is_object (member (codes "memory") v) ≡ true

-- Lower-case letters and digits in parts between single separators.
abbrev pub IsNamespace : Value → Type 0
IsNamespace v = (s : Text) → v ≡ string s → matches_from true s ≡ true

pub record IsStackSpec (v : Value) : Type 0 where
  pub version : member (codes "version") v ≡ number 2
  pub an_object : is_object (member (codes "capabilities") v) ≡ true
  pub capabilities : IsCapabilities (member (codes "capabilities") v)
  pub image :
      is_object (member (codes "image") v) ≡ true
      → IsNamespace (member (codes "namespace") (member (codes "image") v))

append_nil_iff : (es fs : List ValidationError) → (es ++ fs ≡ []) ↔ ((es ≡ []) × (fs ≡ []))
append_nil_iff [] fs = ground arith
append_nil_iff (e ∷ es) fs = ground arith

slash_at : (s : Text) → has_slash s ≡ true → (p m : Text) × (s ≡ p ++ b'/' ∷ m)
slash_at [] h = cc
slash_at (c ∷ s) h = elim (Bool-cases (nat_beq c b'/')) [
  | inl e ↦ ([], s, ground arith)
  | inr e ↦ let (p, m, found) = slash_at s (ground arith) in (c ∷ p, m, cc found)
]

has_slash-append : (p m : Text) → has_slash (p ++ b'/' ∷ m) ≡ true
has_slash-append [] m = ground arith
has_slash-append (c ∷ p) m = ground (arith, has_slash-append p m)

llm_to : (v : Value) → validate_llm v ≡ [] → IsCapability v
unfolding validate_llm
llm_to (string s) h = let (p, m, e) = slash_at s (ground arith) in (p, m, cc e)
llm_to undefined h = cc
llm_to null h = cc
llm_to (bool b) h = cc
llm_to (number n) h = cc
llm_to (array vs) h = cc
llm_to (object fs) h = cc

llm_passes : (p m : Text) → validate_llm (string (p ++ b'/' ∷ m)) ≡ []
unfolding validate_llm
llm_passes [] m = ground (arith, has_slash-append [] m)
llm_passes (c ∷ p) m = ground (arith, has_slash-append (c ∷ p) m)

llm_iff : (v : Value) → (validate_llm v ≡ []) ↔ IsCapability v
llm_iff v = (llm_to v, λ (p, m, e). rw e (llm_passes p m))

slm_to : (v : Value) → validate_slm v ≡ [] → (v ≡ undefined) ⊎ IsCapability v
unfolding validate_slm
slm_to (string s) h = let (p, m, e) = slash_at s (ground arith) in inr (p, m, cc e)
slm_to undefined h = inl refl
slm_to null h = cc
slm_to (bool b) h = cc
slm_to (number n) h = cc
slm_to (array vs) h = cc
slm_to (object fs) h = cc

slm_from : (v : Value) → (v ≡ undefined) ⊎ IsCapability v → validate_slm v ≡ []
unfolding validate_slm
slm_from v (inl e) = rw (e, validate_slm)
slm_from v (inr (p, m, e)) = rw (e, validate_slm) (ground (arith, has_slash-append p m))

lacks_text-IsFilled : (v : Value) → (lacks_text v ≡ false) ↔ IsFilled v
lacks_text-IsFilled (string []) = ((λ e. cc), λ (s, filled, e). absurd (filled (cc e)))
lacks_text-IsFilled (string (c ∷ s)) = ((λ e. (c ∷ s, (λ n. cc), refl)), λ h. refl)
lacks_text-IsFilled undefined = ground arith
lacks_text-IsFilled null = ground arith
lacks_text-IsFilled (bool b) = ground arith
lacks_text-IsFilled (number n) = ground arith
lacks_text-IsFilled (array vs) = ground arith
lacks_text-IsFilled (object fs) = ground arith

abbrev IsDims : Value → Type 0
IsDims v = (v ≡ undefined) ⊎ ((n : ℕ) × (1 ≤ n) × (v ≡ number n))

number_injective : (m n : ℕ) → number m ≡ number n → m ≡ n
number_injective m n e = cc

has_bad_dims-IsDims : (v : Value) → (has_bad_dims v ≡ false) ↔ IsDims v
has_bad_dims-IsDims undefined = ((λ h. inl refl), λ h. refl)
has_bad_dims-IsDims (number n) = (
  λ h. inr (n, ground arith, refl),
  elim [ inl e ↦ cc | inr (m, positive, e) ↦ ground (arith, number_injective n m e) ],
)
has_bad_dims-IsDims (string s) = ground arith
has_bad_dims-IsDims null = ground arith
has_bad_dims-IsDims (bool b) = ground arith
has_bad_dims-IsDims (array vs) = ground arith
has_bad_dims-IsDims (object fs) = ground arith

validate_embeddings-IsEmbeddings : (v : Value) → validate_embeddings v ≡ [] → IsEmbeddings v
unfolding validate_embeddings
validate_embeddings-IsEmbeddings v h = record {
  an_object = ground arith;
  provider = (lacks_text-IsFilled (member (codes "provider") v)).0 (ground arith);
  model = (lacks_text-IsFilled (member (codes "model") v)).0 (ground arith);
  dims = (has_bad_dims-IsDims (member (codes "dims") v)).0 (ground arith);
}

embeddings_from : (v : Value) → IsEmbeddings v → validate_embeddings v ≡ []
unfolding validate_embeddings
embeddings_from v h = ground (
  arith,
  h.an_object,
  (lacks_text-IsFilled (member (codes "provider") v)).1 h.provider,
  (lacks_text-IsFilled (member (codes "model") v)).1 h.model,
  (has_bad_dims-IsDims (member (codes "dims") v)).1 h.dims,
)

memory_iff : (v : Value) → (validate_memory v ≡ []) ↔ (is_object v ≡ true)
unfolding validate_memory
memory_iff v = ground arith

validate_capabilities-IsCapabilities : (v : Value) → validate_capabilities v ≡ [] → IsCapabilities v
unfolding validate_capabilities
validate_capabilities-IsCapabilities v h =
    let (llm, h') = (append_nil_iff _ _).0 h in
    let (slm, h'') = (append_nil_iff _ _).0 h' in
    let (embeddings, memory) = (append_nil_iff _ _).0 h'' in
    record {
      llm = llm_to (member (codes "llm") v) llm;
      slm = slm_to (member (codes "slm") v) slm;
      embeddings = validate_embeddings-IsEmbeddings (member (codes "embeddings") v) embeddings;
      memory = (memory_iff (member (codes "memory") v)).0 memory;
    }

capabilities_from : (v : Value) → IsCapabilities v → validate_capabilities v ≡ []
unfolding validate_capabilities
capabilities_from v h =
    rw
      (
        (llm_iff (member (codes "llm") v)).1 h.llm,
        slm_from (member (codes "slm") v) h.slm,
        embeddings_from (member (codes "embeddings") v) h.embeddings,
        (memory_iff (member (codes "memory") v)).1 h.memory,
      )
      refl

string_injective : (s t : Text) → string s ≡ string t → s ≡ t
string_injective s t e = cc

validate_namespace-IsNamespace : (v : Value) → (validate_namespace v ≡ []) ↔ IsNamespace v
unfolding validate_namespace
validate_namespace-IsNamespace (string s) =
    (λ h t e. rw (← string_injective s t e) (ground arith), λ h. ground (arith, h s refl))
validate_namespace-IsNamespace undefined = ((λ h s e. cc), λ h. refl)
validate_namespace-IsNamespace (number n) = ((λ h s e. cc), λ h. refl)
validate_namespace-IsNamespace null = ((λ h s e. cc), λ h. refl)
validate_namespace-IsNamespace (bool b) = ((λ h s e. cc), λ h. refl)
validate_namespace-IsNamespace (array vs) = ((λ h s e. cc), λ h. refl)
validate_namespace-IsNamespace (object fs) = ((λ h s e. cc), λ h. refl)

two_to : (v : Value) → is_two v ≡ true → v ≡ number 2
two_to (number n) h = ap number (ground arith)
two_to (string s) h = cc
two_to undefined h = cc
two_to null h = cc
two_to (bool b) h = cc
two_to (array vs) h = cc
two_to (object fs) h = cc

require_iff :
    (v : Value) → (require_capabilities v ≡ []) ↔ ((is_object v ≡ true) × IsCapabilities v)
unfolding require_capabilities
require_iff v = ground (arith, validate_capabilities-IsCapabilities v, capabilities_from v)

image_iff :
    (v : Value)
    → (validate_image v ≡ []) ↔ (is_object v ≡ true → IsNamespace (member (codes "namespace") v))
unfolding validate_image
image_iff v = elim (Bool-cases (is_object v)) [
  | inl o ↦ (
    λ h f. (validate_namespace-IsNamespace (member (codes "namespace") v)).0 (ground arith),
    λ h.
        let passes = (validate_namespace-IsNamespace (member (codes "namespace") v)).1 (h o) in
        ground arith,
  )
  | inr o ↦ ((λ h f. cc), λ h. ground arith)
]

spec_to : (v : Value) → validate_stack_spec v ≡ [] → IsStackSpec v
unfolding validate_stack_spec
spec_to v h =
    let (required, image) =
      (append_nil_iff (require_capabilities (member (codes "capabilities") v))
          (validate_image (member (codes "image") v))).0
        (ground arith) in
    let (an_object, capabilities) = (require_iff (member (codes "capabilities") v)).0 required in
    record {
      version = two_to (member (codes "version") v) (ground arith);
      an_object = an_object;
      capabilities = capabilities;
      image = (image_iff (member (codes "image") v)).0 image;
    }

pub object_if_member :
    (key : Text) (v : Value) (n : ℕ) → member key v ≡ number n → is_object v ≡ true
unfolding member
object_if_member key (object fs) n e = refl
object_if_member key (array vs) n e = refl
object_if_member key undefined n e = cc
object_if_member key null n e = cc
object_if_member key (bool b) n e = cc
object_if_member key (number m) n e = cc
object_if_member key (string s) n e = cc

spec_from : (v : Value) → IsStackSpec v → validate_stack_spec v ≡ []
unfolding validate_stack_spec
spec_from v h =
    let required =
      (require_iff (member (codes "capabilities") v)).1 (h.an_object, h.capabilities) in
    let image = (image_iff (member (codes "image") v)).1 h.image in
    let o = object_if_member (codes "version") v 2 h.version in
    rw (o, h.version, required, image) refl

-- The validator reports no error exactly for the values with version 2, an LLM in provider/model
-- format, an SLM in that format or none, embeddings with provider, model and, if any, positive
-- dimensions, a memory object, and an image whose namespace, if it is a text, is a well-formed one.
pub validate_stack_spec_iff : (v : Value) → (validate_stack_spec v ≡ []) ↔ IsStackSpec v
validate_stack_spec_iff v = (spec_to v, spec_from v)
