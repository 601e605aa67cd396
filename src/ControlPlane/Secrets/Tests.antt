-- ===== src/ControlPlane/Secrets/Tests.antt =====
-- Secrets of a component and of the user, with functions that change nothing for the parameters.
use openpalm.Base.{
  ◌≡◌, refl, [], none, some, Text, text_eq, codes, Map, get, set, trim, trim_start, trim_end,
  is_space, starts_with, strip_prefix, strip_suffix,
}
use openpalm.ControlPlane.Secrets.{
  IndexedSecretEntry, normalize_indexed_key, merge_slashes, find_mapping, channel_mapping,
  dynamic_mappings, get_core_secret_mappings, find_core_secret_by_key, find_core_secret_by_env_key,
  classify_secret_key, ensure_plaintext_secret_entry, remove_plaintext_secret_entry,
  generate_plaintext_env_key, classify_secret_scope, system_scope,
}
use openpalm.ControlPlane.Secrets.Segments.{
  dashed, without_dashes, sanitize_secret_segment, secret_key_from_component_field, IsSegment,
  secret_key_injective,
}
use openpalm.ControlPlane.Secrets.Backend.{
  BackendState, resolve_plaintext_target, update_file, write, remove, exists,
}
use openpalm.ControlPlane.Env.Lines.{IsName}
use openpalm.ControlPlane.Secrets.Backend.Removed.{Clears, remove-Clears}
use openpalm.ControlPlane.Vault.Tokens.{AreTokens, Completes, ensure_system_secrets-Completes}
use openpalm.ControlPlane.Vault.{
  ensure_system_secrets, VaultInput, read_stack_env, update_secrets_env,
}
use openpalm.ControlPlane.CapabilityVars.Set.{units-IsLine, is_name-IsName}
use openpalm.ControlPlane.Secrets.Backend.Written.{Sets, write-Sets}

abbrev as_is : Text → Text
as_is s = s

slashes_merged : normalize_indexed_key (codes " //openpalm//custom/a/") ≡ codes "openpalm/custom/a"
unfolding normalize_indexed_key merge_slashes trim trim_start trim_end is_space starts_with
    strip_prefix strip_suffix
slashes_merged = refl

abbrev no_variables : Text → Map Text Text
no_variables content = []

abbrev input : VaultInput
input = record {
  admin_token = codes "admin";
  owner_name = [];
  owner_email = [];
  fresh_assistant = codes "t1";
  fresh_memory = codes "t2";
}

abbrev stack_file : Text
stack_file = codes "# OPENAI_API_KEY=\nOWNER_NAME=me"

abbrev file_state : BackendState
file_state = record { file = some stack_file; index = [] }

resolve_plaintext_target-IsName :
    IsName
      (resolve_plaintext_target as_is as_is no_variables input 1
        (codes "openpalm/openai/api-key")
        file_state).0.env_key
unfolding resolve_plaintext_target find_core_secret_by_key get_core_secret_mappings find_mapping
    is_space
resolve_plaintext_target-IsName = is_name-IsName (codes "OPENAI_API_KEY") refl

write-Sets_example :
    Sets as_is as_is no_variables input
      (codes "openpalm/openai/api-key")
      (codes "secret")
      stack_file
      (write as_is as_is no_variables input 1
        (codes "openpalm/openai/api-key")
        (codes "secret")
        file_state)
write-Sets_example =
    write-Sets as_is as_is no_variables input 1 (codes "openpalm/openai/api-key") (codes "secret")
      stack_file file_state refl resolve_plaintext_target-IsName
      (units-IsLine (codes "secret") refl)

remove-Clears_example :
    Clears as_is as_is no_variables input
      (codes "openpalm/openai/api-key")
      (codes "OPENAI_API_KEY")
      stack_file
      (remove as_is as_is no_variables input 1 (codes "openpalm/openai/api-key") file_state)
unfolding resolve_plaintext_target find_core_secret_by_key get_core_secret_mappings find_mapping
remove-Clears_example =
    remove-Clears as_is as_is no_variables input 1 (codes "openpalm/openai/api-key") stack_file
      file_state refl resolve_plaintext_target-IsName

tokens : AreTokens input
tokens = record {
  admin = units-IsLine (codes "admin") refl;
  assistant = units-IsLine (codes "t1") refl;
  memory = units-IsLine (codes "t2") refl;
}

ensure_system_secrets-Completes_example :
    (content' : Text) × (ensure_system_secrets no_variables input (some stack_file) ≡ some content')
    × Completes input (no_variables stack_file) stack_file content'
ensure_system_secrets-Completes_example =
    ensure_system_secrets-Completes no_variables input stack_file tokens

-- Where there is no file, a user's secret is not written, though its entry is made.
unwritten :
    (write as_is as_is no_variables input 1
      (codes "openpalm/custom/a")
      (codes "secret")
      (record { file = none; index = [] })).0
    ≡ none
unfolding write resolve_plaintext_target find_core_secret_by_key get_core_secret_mappings
    dynamic_mappings find_mapping ensure_plaintext_secret_entry normalize_indexed_key merge_slashes
    classify_secret_key generate_plaintext_env_key update_file update_secrets_env read_stack_env get
    set trim trim_start trim_end is_space starts_with strip_prefix strip_suffix
unwritten = refl

-- Asking whether a secret exists makes an entry for it.
asking_makes_entry :
    get
      (codes "openpalm/custom/a")
      (exists as_is as_is no_variables input 1 (codes "openpalm/custom/a") file_state).1.index
    ≡ some (record {
      env_key = generate_plaintext_env_key as_is (codes "openpalm/custom/a");
      scope = openpalm.ControlPlane.Secrets.user_scope;
      kind = openpalm.ControlPlane.Secrets.custom;
      updated_at = 1;
    })
unfolding exists resolve_plaintext_target read_stack_env find_core_secret_by_key
    get_core_secret_mappings dynamic_mappings find_mapping ensure_plaintext_secret_entry
    normalize_indexed_key merge_slashes classify_secret_key get set trim trim_start trim_end
    is_space starts_with strip_prefix strip_suffix
asking_makes_entry = refl

secret_key_injective_example :
    (sanitize_secret_segment as_is (codes "my bot")
      ≡ sanitize_secret_segment as_is (codes " my-bot!"))
    × (sanitize_secret_segment as_is (codes "key") ≡ sanitize_secret_segment as_is (codes "key"))
    × IsSegment (sanitize_secret_segment as_is (codes "my bot"))
    × IsSegment (sanitize_secret_segment as_is (codes "key"))
unfolding secret_key_from_component_field sanitize_secret_segment dashed without_dashes trim
    trim_start trim_end is_space starts_with
secret_key_injective_example =
    secret_key_injective as_is (codes "my bot") (codes "key") (codes " my-bot!") (codes "key") refl
