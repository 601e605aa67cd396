-- ===== src/ControlPlane/CapabilityVars.antt =====
-- packages/lib/src/control-plane/spec-to-env.ts, with the tables of provider-constants.ts: the
-- variables that a specification sets in vault/stack/stack.env. The parser of dotenv and `String`
-- of a number are parameters; whether the Ollama addon is enabled is an argument.
pub mod Set
pub mod Tests
use openpalm.Base.{
  ℕ, ◌++◌, Bool, true, false, ◌&&◌, ◌||◌, not, List, [], ◌∷◌, Option, none, some, Text, text_eq,
  codes, Map, get, map, or_else, any_by, is_empty, nat_beq, strip_suffix, if◌then◌else◌, ◌==◌,
}
use mathlib.Core.List.{reverse}
use openpalm.ControlPlane.StackSpec.{parse_capability_string}
use openpalm.ControlPlane.Env.{MergeOptions, merge_env_content, ended}

pub record Embeddings : Type 0 where
  pub provider : Text
  pub model : Text
  pub dims : ℕ

-- Text-to-speech, speech-to-text and the reranker, with empty texts and 0 where a member is missing.
pub record Tts : Type 0 where
  pub enabled : Bool
  pub provider : Text
  pub model : Text
  pub voice : Text
  pub format : Text

pub record Stt : Type 0 where
  pub enabled : Bool
  pub provider : Text
  pub model : Text
  pub language : Text

pub record Reranker : Type 0 where
  pub enabled : Bool
  pub provider : Text
  pub model : Text
  pub top_k : ℕ
  pub top_n : ℕ

pub record Capabilities : Type 0 where
  pub llm : Text
  -- Empty where there is none.
  pub slm : Text
  pub embeddings : Embeddings
  pub memory_user_id : Text
  pub tts : Option Tts
  pub stt : Option Stt
  pub reranking : Option Reranker

abbrev pub provider_default_urls : Map Text Text
provider_default_urls =
    (codes "openai", codes "https://api.openai.com")
    ∷ (codes "groq", codes "https://api.groq.com/openai")
    ∷ (codes "mistral", codes "https://api.mistral.ai")
    ∷ (codes "together", codes "https://api.together.xyz")
    ∷ (codes "deepseek", codes "https://api.deepseek.com")
    ∷ (codes "xai", codes "https://api.x.ai")
    ∷ (codes "lmstudio", codes "http://host.docker.internal:1234")
    ∷ (codes "ollama", codes "http://host.docker.internal:11434")
    ∷ (codes "model-runner", codes "http://model-runner.docker.internal/engines")
    ∷ (codes "google", codes "https://generativelanguage.googleapis.com")
    ∷ (codes "huggingface", codes "https://router.huggingface.co/v1")
    ∷ []

abbrev pub provider_key_map : Map Text Text
provider_key_map =
    (codes "openai", codes "OPENAI_API_KEY")
    ∷ (codes "anthropic", codes "ANTHROPIC_API_KEY")
    ∷ (codes "groq", codes "GROQ_API_KEY")
    ∷ (codes "mistral", codes "MISTRAL_API_KEY")
    ∷ (codes "google", codes "GOOGLE_API_KEY")
    ∷ (codes "deepseek", codes "DEEPSEEK_API_KEY")
    ∷ (codes "together", codes "TOGETHER_API_KEY")
    ∷ (codes "xai", codes "XAI_API_KEY")
    ∷ (codes "huggingface", codes "HF_TOKEN")
    ∷ []

abbrev pub base_url_env_map : Map Text Text
base_url_env_map =
    (codes "openai", codes "OPENAI_BASE_URL")
    ∷ (codes "anthropic", codes "ANTHROPIC_BASE_URL")
    ∷ (codes "groq", codes "GROQ_BASE_URL")
    ∷ (codes "mistral", codes "MISTRAL_BASE_URL")
    ∷ (codes "together", codes "TOGETHER_BASE_URL")
    ∷ (codes "deepseek", codes "DEEPSEEK_BASE_URL")
    ∷ (codes "xai", codes "XAI_BASE_URL")
    ∷ (codes "google", codes "GOOGLE_BASE_URL")
    ∷ (codes "huggingface", codes "HF_BASE_URL")
    ∷ (codes "ollama", codes "OLLAMA_BASE_URL")
    ∷ (codes "lmstudio", codes "LMSTUDIO_BASE_URL")
    ∷ (codes "model-runner", codes "MODEL_RUNNER_BASE_URL")
    ∷ (codes "openai-compatible", codes "OPENAI_COMPATIBLE_BASE_URL")
    ∷ []

abbrev pub ollama_instack_url : Text
ollama_instack_url = codes "http://ollama:11434"

-- What follows the slashes at the start.
unfoldable pub without_slashes : Text → Text
without_slashes [] = []
without_slashes (c ∷ s) = let rest = without_slashes s in if nat_beq c b'/' then rest else c ∷ s

abbrev pub ends_with_v1 : Text → Bool
ends_with_v1 url = elim (strip_suffix (codes "/v1") url) [ none ↦ false | some stem ↦ true ]

unfoldable pub ensure_v1 : Text → Text → Text
unfolding without_slashes
ensure_v1 url provider =
    if is_empty url || (provider == codes "ollama" || provider == codes "google")
    then url
    else if ends_with_v1 url
    then url
    else reverse (without_slashes (reverse url)) ++ codes "/v1"

-- `a || b`
abbrev pub or_text : Text → Text → Text
or_text a b = if is_empty a then b else a

module _ (stack_env : Map Text Text) (has_ollama : Bool) (number_text : ℕ → Text) where
  unfoldable pub resolve_key : Text → Text
  resolve_key provider = elim (get provider provider_key_map) [
    | none ↦ []
    | some key_var ↦ or_else (get key_var stack_env) []
  ]

  abbrev pub base_url_override : Text → Text
  base_url_override provider = elim (get provider base_url_env_map) [
    | none ↦ []
    | some key_var ↦ or_else (get key_var stack_env) []
  ]

  unfoldable pub resolve_url : Text → Text
  unfolding ensure_v1
  resolve_url provider =
      if provider == codes "ollama" && has_ollama
      then ollama_instack_url
      else if not (is_empty (base_url_override provider))
      then ensure_v1 (base_url_override provider) provider
      else ensure_v1 (or_else (get provider provider_default_urls) []) provider

  -- The four variables that every capability has.
  abbrev pub service_vars : Text → Text → Text → Map Text Text
  service_vars prefix provider model =
      (prefix ++ codes "_PROVIDER", provider)
      ∷ (prefix ++ codes "_MODEL", model)
      ∷ (prefix ++ codes "_BASE_URL", resolve_url provider)
      ∷ (prefix ++ codes "_API_KEY", resolve_key provider)
      ∷ []

  abbrev pub clear_cap_vars : Text → List Text → Map Text Text
  clear_cap_vars prefix fields = map (λ f. (prefix ++ b'_' ∷ f, [])) fields

  abbrev pub service_fields : List Text
  service_fields = codes "PROVIDER" ∷ codes "MODEL" ∷ codes "BASE_URL" ∷ codes "API_KEY" ∷ []

  unfoldable pub slm_vars : Text → Map Text Text
  slm_vars slm =
      if is_empty slm
      then clear_cap_vars (codes "OP_CAP_SLM") service_fields
      else let (provider, model) = parse_capability_string slm in
        service_vars (codes "OP_CAP_SLM") provider model

  abbrev no_tts : Map Text Text
  no_tts =
      clear_cap_vars (codes "OP_CAP_TTS") (service_fields ++ codes "VOICE" ∷ codes "FORMAT" ∷ [])

  unfoldable pub tts_vars : Text → Option Tts → Map Text Text
  tts_vars fallback none = no_tts
  tts_vars fallback (some t) =
      if t.enabled
      then service_vars (codes "OP_CAP_TTS") (or_text t.provider fallback) t.model
        ++ (codes "OP_CAP_TTS_VOICE", t.voice) ∷ (codes "OP_CAP_TTS_FORMAT", t.format) ∷ []
      else no_tts

  abbrev no_stt : Map Text Text
  no_stt = clear_cap_vars (codes "OP_CAP_STT") (service_fields ++ codes "LANGUAGE" ∷ [])

  unfoldable pub stt_vars : Text → Option Stt → Map Text Text
  stt_vars fallback none = no_stt
  stt_vars fallback (some t) =
      if t.enabled
      then service_vars (codes "OP_CAP_STT") (or_text t.provider fallback) t.model
        ++ (codes "OP_CAP_STT_LANGUAGE", t.language) ∷ []
      else no_stt

  abbrev positive_text : ℕ → Text
  positive_text n = if nat_beq n 0 then [] else number_text n

  abbrev no_reranking : Map Text Text
  no_reranking =
      clear_cap_vars (codes "OP_CAP_RERANKING")
        (service_fields ++ codes "TOP_K" ∷ codes "TOP_N" ∷ [])

  unfoldable pub reranking_vars : Text → Option Reranker → Map Text Text
  reranking_vars fallback none = no_reranking
  reranking_vars fallback (some r) =
      if r.enabled
      then service_vars (codes "OP_CAP_RERANKING") (or_text r.provider fallback) r.model
        ++ (codes "OP_CAP_RERANKING_TOP_K", positive_text r.top_k)
          ∷ (codes "OP_CAP_RERANKING_TOP_N", positive_text r.top_n)
          ∷ []
      else no_reranking

  unfoldable pub capability_vars : Capabilities → Map Text Text
  unfolding slm_vars tts_vars stt_vars reranking_vars
  capability_vars c =
      let llm = parse_capability_string c.llm in
      service_vars (codes "OP_CAP_LLM") llm.0 llm.1
      ++ (slm_vars c.slm
          ++ (service_vars (codes "OP_CAP_EMBEDDINGS") c.embeddings.provider c.embeddings.model
              ++ ((codes "OP_CAP_EMBEDDINGS_DIMS", number_text c.embeddings.dims) ∷ [])
              ++ (tts_vars llm.0 c.tts
                  ++ (stt_vars llm.0 c.stt
                      ++ (reranking_vars llm.0 c.reranking
                          ++ (
                            codes "MEMORY_USER_ID",
                            or_text c.memory_user_id (codes "default_user"),
                          )
                            ∷ [])))))

abbrev pub section_header : Text
section_header = codes "# ── Resolved Capabilities (from stack.yml) ─────────────────────────"

-- What is written into the file, whose content is `none` where there is no file.
unfoldable pub write_capability_vars :
    (Text → Map Text Text) → Bool → (ℕ → Text) → Capabilities → Option Text → Text
write_capability_vars dotenv_parse has_ollama number_text c file =
    let stack_env : Map Text Text = elim file [ none ↦ [] | some content ↦ dotenv_parse content ] in
    let caps = capability_vars stack_env has_ollama number_text c in
    let content =
      merge_env_content (or_else file []) caps
        (record { uncomment = false; section_header = section_header }) in
    ended content
