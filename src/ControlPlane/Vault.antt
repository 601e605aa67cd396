-- ===== src/ControlPlane/Vault.antt =====
-- packages/lib/src/control-plane/secrets.ts: the writing of vault/stack/stack.env, whose content is
-- `none` where there is no file. The parser of dotenv is a parameter; the modes of files and
-- directories are left out.
pub mod Tokens
use openpalm.Base.{
  ◌++◌, Bool, true, false, ◌&&◌, not, [], ◌∷◌, Option, none, some, Text, text_eq, codes, Map, get,
  or_else, is_empty, join,
}
use openpalm.ControlPlane.Env.{merge_env_content, ended}

-- What a call finds beside the file: the state's token, the process's environment, and the random
-- tokens that it draws.
pub record VaultInput : Type 0 where
  pub admin_token : Text
  pub owner_name : Text
  pub owner_email : Text
  pub fresh_assistant : Text
  pub fresh_memory : Text

unfoldable pub merge_vault_env_file : Map Text Text → Bool → Option Text → Option Text
merge_vault_env_file [] uncomment file = file
merge_vault_env_file (update ∷ updates) uncomment file = some (
    ended (
      merge_env_content (or_else file []) (update ∷ updates)
        (record { uncomment = uncomment; section_header = [] })))

abbrev pub is_missing : Text → Map Text Text → Bool
is_missing key env = is_empty (or_else (get key env) [])

-- One more update where the condition holds.
abbrev pub when : Bool → Text → Text → Map Text Text → Map Text Text
when true key value m = (key, value) ∷ m
when false key value m = m

unfoldable pub system_updates : VaultInput → Map Text Text → Map Text Text
system_updates i existing =
    when (is_missing (codes "OP_ADMIN_TOKEN") existing && not (is_empty i.admin_token))
      (codes "OP_ADMIN_TOKEN") i.admin_token
      (when (is_missing (codes "OP_ASSISTANT_TOKEN") existing) (codes "OP_ASSISTANT_TOKEN")
        i.fresh_assistant
        (when (is_missing (codes "OP_MEMORY_TOKEN") existing) (codes "OP_MEMORY_TOKEN")
          i.fresh_memory []))

-- The file that is written where there is none.
unfoldable pub stack_header : VaultInput → Text
stack_header i = join b'\n' (
    codes "# OpenPalm — Stack Configuration"
    ∷ codes "# All secrets and configuration live here. Advanced users may edit directly."
    ∷ []
    ∷ codes "# ── Authentication ──────────────────────────────────────────────────"
    ∷ codes "OP_ADMIN_TOKEN="
    ∷ codes "OP_ASSISTANT_TOKEN="
    ∷ []
    ∷ codes "# ── Service Auth ─────────────────────────────────────────────────────"
    ∷ codes "OP_MEMORY_TOKEN="
    ∷ codes "OP_OPENCODE_PASSWORD="
    ∷ []
    ∷ codes "# ── Provider API Keys ────────────────────────────────────────────────"
    ∷ codes "OPENAI_API_KEY="
    ∷ codes "OPENAI_BASE_URL="
    ∷ codes "ANTHROPIC_API_KEY="
    ∷ codes "GROQ_API_KEY="
    ∷ codes "MISTRAL_API_KEY="
    ∷ codes "GOOGLE_API_KEY="
    ∷ codes "OPENVIKING_API_KEY="
    ∷ codes "MCP_API_KEY="
    ∷ codes "EMBEDDING_API_KEY="
    ∷ codes "LMSTUDIO_API_KEY="
    ∷ []
    ∷ codes "# ── Owner ────────────────────────────────────────────────────────────"
    ∷ (codes "OWNER_NAME=" ++ i.owner_name)
    ∷ (codes "OWNER_EMAIL=" ++ i.owner_email)
    ∷ []
    ∷ [])

module _ (dotenv_parse : Text → Map Text Text) where
  unfoldable pub read_stack_env : Option Text → Map Text Text
  read_stack_env none = []
  read_stack_env (some content) = dotenv_parse content

  unfoldable pub ensure_system_secrets : VaultInput → Option Text → Option Text
  unfolding read_stack_env
  ensure_system_secrets i none = some (
      ended (
        merge_env_content (stack_header i) (system_updates i [])
          (record { uncomment = false; section_header = [] })))
  ensure_system_secrets i (some content) =
      merge_vault_env_file (system_updates i (dotenv_parse content)) true (some content)

  unfoldable pub update_system_secrets_env : VaultInput → Map Text Text → Option Text → Option Text
  update_system_secrets_env i updates none =
      merge_vault_env_file updates true (ensure_system_secrets i none)
  update_system_secrets_env i updates (some content) =
      merge_vault_env_file updates true (some content)

-- `none` is a call that throws, where there is no file.
unfoldable pub update_secrets_env : Map Text Text → Option Text → Option (Option Text)
update_secrets_env updates none = none
update_secrets_env updates (some content) = some (merge_vault_env_file updates true (some content))
