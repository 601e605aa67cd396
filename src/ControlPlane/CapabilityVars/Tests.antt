-- ===== src/ControlPlane/CapabilityVars/Tests.antt =====
-- A specification with an LLM of Ollama and without the optional capabilities.
use openpalm.Base.{
  ℕ, ◌≡◌, refl, true, [], ◌∷◌, none, some, Text, text_eq, codes, Map, get, strip_prefix,
  strip_suffix,
}
use openpalm.ControlPlane.StackSpec.{index_of, parse_capability_string}
use openpalm.ControlPlane.CapabilityVars.{
  Capabilities, ensure_v1, without_slashes, resolve_key, resolve_url, slm_vars, tts_vars, stt_vars,
  reranking_vars, capability_vars,
}

abbrev capabilities : Capabilities
capabilities = record {
  llm = codes "openai/gpt";
  slm = [];
  embeddings = record { provider = codes "ollama"; model = codes "nomic"; dims = 768 };
  memory_user_id = [];
  tts = none;
  stt = none;
  reranking = none;
}

abbrev digits : ℕ → Text
digits n = codes "768"

abbrev parsed : Text → Map Text Text
parsed content =
    (codes "OPENAI_API_KEY", codes "sk") ∷ (codes "OPENAI_BASE_URL", codes "http://x//") ∷ []

url_of_llm :
    get (codes "OP_CAP_LLM_BASE_URL") (capability_vars (parsed []) true digits capabilities)
    ≡ some (codes "http://x/v1")
unfolding capability_vars parse_capability_string index_of resolve_url resolve_key ensure_v1
    without_slashes slm_vars tts_vars stt_vars reranking_vars get strip_suffix strip_prefix
url_of_llm = refl
