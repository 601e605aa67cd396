-- ===== src/ControlPlane/Secrets.antt =====
-- packages/lib/src/control-plane/secret-mappings.ts: which variable holds which secret. The index
-- is a value, empty where there is no file or none that can be read. The hex digest of SHA-256 in
-- upper case and `toLowerCase` are parameters, and the time of an entry is an argument.
pub mod Segments
pub mod Backend
pub mod Tests
use openpalm.Base.{
  ℕ, ◌++◌, Bool, true, false, ◌&&◌, ◌||◌, not, List, [], ◌∷◌, Option, none, some, Text, text_eq,
  codes, Map, get, set, delete, has, take, all_by, is_empty, trim, starts_with, strip_prefix,
  strip_suffix, leb, nat_beq, if◌then◌else◌, ◌==◌, ◌>>=◌,
}
use openpalm.Guardian.Secrets.{is_upper_word}

pub data SecretScope : Type 0 where
  user_scope system_scope : SecretScope

pub data SecretKind : Type 0 where
  core component custom : SecretKind

pub record IndexedSecretEntry : Type 0 where
  pub env_key : Text
  pub scope : SecretScope
  pub kind : SecretKind
  pub updated_at : ℕ

pub record CoreSecretMapping : Type 0 where
  pub secret_key : Text
  pub env_key : Text
  pub scope : SecretScope

abbrev user_secret : Text → Text → CoreSecretMapping
user_secret key env = record {
  secret_key = codes "openpalm/" ++ key;
  env_key = env;
  scope = user_scope;
}

abbrev system_secret : Text → Text → CoreSecretMapping
system_secret key env = record {
  secret_key = codes "openpalm/" ++ key;
  env_key = env;
  scope = system_scope;
}

abbrev pub static_core_mappings : List CoreSecretMapping
static_core_mappings =
    system_secret (codes "admin-token") (codes "OP_ADMIN_TOKEN")
    ∷ system_secret (codes "assistant-token") (codes "OP_ASSISTANT_TOKEN")
    ∷ system_secret (codes "memory/auth-token") (codes "OP_MEMORY_TOKEN")
    ∷ system_secret (codes "opencode/server-password") (codes "OP_OPENCODE_PASSWORD")
    ∷ user_secret (codes "openai/api-key") (codes "OPENAI_API_KEY")
    ∷ user_secret (codes "anthropic/api-key") (codes "ANTHROPIC_API_KEY")
    ∷ user_secret (codes "groq/api-key") (codes "GROQ_API_KEY")
    ∷ user_secret (codes "mistral/api-key") (codes "MISTRAL_API_KEY")
    ∷ user_secret (codes "google/api-key") (codes "GOOGLE_API_KEY")
    ∷ user_secret (codes "together/api-key") (codes "TOGETHER_API_KEY")
    ∷ user_secret (codes "deepseek/api-key") (codes "DEEPSEEK_API_KEY")
    ∷ user_secret (codes "xai/api-key") (codes "XAI_API_KEY")
    ∷ user_secret (codes "huggingface/token") (codes "HF_TOKEN")
    ∷ user_secret (codes "mcp/api-key") (codes "MCP_API_KEY")
    ∷ user_secret (codes "embedding/api-key") (codes "EMBEDDING_API_KEY")
    ∷ user_secret (codes "lmstudio/api-key") (codes "LMSTUDIO_API_KEY")
    ∷ user_secret (codes "openviking/api-key") (codes "OPENVIKING_API_KEY")
    ∷ user_secret (codes "openviking/vlm-api-key") (codes "VLM_API_KEY")
    ∷ user_secret (codes "discord/bot-token") (codes "DISCORD_BOT_TOKEN")
    ∷ user_secret (codes "slack/bot-token") (codes "SLACK_BOT_TOKEN")
    ∷ user_secret (codes "slack/app-token") (codes "SLACK_APP_TOKEN")
    ∷ user_secret (codes "voice/stt-api-key") (codes "STT_API_KEY")
    ∷ user_secret (codes "voice/tts-api-key") (codes "TTS_API_KEY")
    ∷ []

abbrev pub SecretIndex : Type 0
SecretIndex = Map Text IndexedSecretEntry

-- `replace(/\/+/g, '/')`
unfoldable pub merge_slashes : Text → Text
merge_slashes [] = []
merge_slashes (c ∷ s) =
    let rest = merge_slashes s in
    if nat_beq c b'/' && starts_with rest (codes "/") then rest else c ∷ rest

abbrev pub without_prefix : Text → Text → Text
without_prefix p s = elim (strip_prefix p s) [ none ↦ s | some rest ↦ rest ]

abbrev pub without_suffix : Text → Text → Text
without_suffix p s = elim (strip_suffix p s) [ none ↦ s | some rest ↦ rest ]

unfoldable pub normalize_indexed_key : Text → Text
unfolding merge_slashes
normalize_indexed_key key =
    without_suffix (codes "/") (without_prefix (codes "/") (merge_slashes (trim key)))

abbrev pub is_component : Text → Bool
is_component key = starts_with key (codes "openpalm/component/")

abbrev pub is_custom : Text → Bool
is_custom key = starts_with key (codes "openpalm/custom/")

unfoldable pub classify_secret_key : Text → SecretKind
classify_secret_key key =
    if is_component key then component else if is_custom key then custom else core

abbrev pub by_key : Text → CoreSecretMapping → Bool
by_key key m = m.secret_key == key

abbrev pub by_env_key : Text → CoreSecretMapping → Bool
by_env_key key m = m.env_key == key

unfoldable pub find_mapping :
    (CoreSecretMapping → Bool) → List CoreSecretMapping → Option CoreSecretMapping
find_mapping test [] = none
find_mapping test (m ∷ ms) = let rest = find_mapping test ms in if test m then some m else rest

unfoldable pub classify_secret_scope : Text → SecretScope
classify_secret_scope key =
    if is_component key
    then system_scope
    else if is_custom key
    then user_scope
    else elim (find_mapping (by_key key) static_core_mappings) [
      | none ↦ system_scope
      | some m ↦ m.scope
    ]

abbrev pub with_mapping : Option CoreSecretMapping → List CoreSecretMapping → List CoreSecretMapping
with_mapping none ms = ms
with_mapping (some m) ms = m ∷ ms

module _ (to_lower_case : Text → Text) where
  -- The middle of a name like CHANNEL_..._SECRET.
  unfoldable pub channel_mapping : Text → Option CoreSecretMapping
  channel_mapping env_key = do
    behind ← strip_prefix (codes "CHANNEL_") env_key
    middle ← strip_suffix (codes "_SECRET") behind
    if not (is_empty middle) && all_by is_upper_word middle
        then some (record {
          secret_key = codes "openpalm/channel/" ++ (to_lower_case middle ++ codes "/secret");
          env_key = env_key;
          scope = system_scope;
        })
        else none

  unfoldable pub dynamic_mappings : Map Text Text → List CoreSecretMapping
  dynamic_mappings [] = []
  dynamic_mappings ((env_key, value) ∷ env) =
      with_mapping (channel_mapping env_key) (dynamic_mappings env)

  unfoldable pub get_core_secret_mappings : Map Text Text → List CoreSecretMapping
  get_core_secret_mappings system_env = static_core_mappings ++ dynamic_mappings system_env

  unfoldable pub find_core_secret_by_key : Text → Map Text Text → Option CoreSecretMapping
  find_core_secret_by_key key system_env =
      find_mapping (by_key key) (get_core_secret_mappings system_env)

  unfoldable pub find_core_secret_by_env_key : Text → Map Text Text → Option CoreSecretMapping
  find_core_secret_by_env_key key system_env =
      find_mapping (by_env_key key) (get_core_secret_mappings system_env)

module _ (digest : Text → Text) where
  unfoldable pub generate_plaintext_env_key : Text → Text
  generate_plaintext_env_key secret_key = codes "OP_SECRET_" ++ take 32 (digest secret_key)

  abbrev pub new_entry : ℕ → Text → Option SecretScope → IndexedSecretEntry
  new_entry now key scope = record {
    env_key = generate_plaintext_env_key key;
    scope = elim scope [
      | some s ↦ s
      | none ↦ if is_component key then system_scope else user_scope
    ];
    kind = elim (classify_secret_key key) [ component ↦ component | _ ↦ custom ];
    updated_at = now;
  }

  unfoldable pub ensure_plaintext_secret_entry :
      ℕ → Text → Option SecretScope → SecretIndex → IndexedSecretEntry × SecretIndex
  ensure_plaintext_secret_entry now key scope index =
      let normalized = normalize_indexed_key key in
      elim (get normalized index) [
        | some existing ↦ (existing, index)
        | none ↦
            (new_entry now normalized scope, set normalized (new_entry now normalized scope) index)
      ]

unfoldable pub remove_plaintext_secret_entry : Text → SecretIndex → SecretIndex
remove_plaintext_secret_entry key index = delete (normalize_indexed_key key) index
