-- ===== src/ControlPlane/Secrets/Backend.antt =====
-- packages/lib/src/control-plane/secret-backend.ts: the backend that keeps secrets in plain text, on
-- the text of vault/stack/stack.env. Listings and generated values are left out.
pub mod Written
pub mod Removed
use openpalm.Base.{
  ℕ, Bool, true, false, not, List, [], ◌∷◌, Option, none, some, Text, text_eq, codes, Map, get,
  or_else, is_empty, if◌then◌else◌, ◌==◌,
}
use openpalm.ControlPlane.Vault.{
  VaultInput, read_stack_env, update_secrets_env, update_system_secrets_env,
}
use openpalm.ControlPlane.Secrets.{
  SecretScope, user_scope, system_scope, SecretKind, core, component, custom, is_component,
  is_custom, SecretIndex, IndexedSecretEntry, find_core_secret_by_key,
  ensure_plaintext_secret_entry, remove_plaintext_secret_entry,
}

pub record ResolvedSecretTarget : Type 0 where
  pub scope : SecretScope
  pub env_key : Text

-- The file, `none` where there is none, and the index.
pub record BackendState : Type 0 where
  pub file : Option Text
  pub index : SecretIndex

pub record SecretEntryMetadata : Type 0 where
  pub key : Text
  pub scope : SecretScope
  pub kind : SecretKind
  pub present : Bool
  pub env_key : Text

abbrev pub kind_of : Text → SecretKind
kind_of key = if is_component key then component else if is_custom key then custom else core

module _ (to_lower_case digest : Text → Text) (dotenv_parse : Text → Map Text Text)
    (input : VaultInput) where
  unfoldable pub current_value : ResolvedSecretTarget → BackendState → Text
  current_value target s =
      if is_empty target.env_key
      then []
      else or_else (get target.env_key (read_stack_env dotenv_parse s.file)) []

  unfoldable pub resolve_plaintext_target :
      ℕ → Text → BackendState → ResolvedSecretTarget × BackendState
  resolve_plaintext_target now key s =
      elim (find_core_secret_by_key to_lower_case key (read_stack_env dotenv_parse s.file)) [
        | some m ↦ (record { scope = m.scope; env_key = m.env_key }, s)
        | none ↦
            let (indexed, index) = ensure_plaintext_secret_entry digest now key none s.index in
            (
              record { scope = indexed.scope; env_key = indexed.env_key },
              record s { index = index },
            )
      ]

  -- The update of the file for the scope; `none` is a call that throws.
  unfoldable pub update_file : SecretScope → Map Text Text → Option Text → Option (Option Text)
  update_file system_scope updates file =
      some (update_system_secrets_env dotenv_parse input updates file)
  update_file user_scope updates file = update_secrets_env updates file

  -- The answer is `none` where the call throws.
  unfoldable pub write : ℕ → Text → Text → BackendState → Option SecretEntryMetadata × BackendState
  write now key value s =
      let (target, s') = resolve_plaintext_target now key s in
      if is_empty target.env_key
      then (none, s')
      else elim (update_file target.scope ((target.env_key, value) ∷ []) s'.file) [
        | none ↦ (none, s')
        | some file ↦ (
          some (record {
            key = key;
            scope = target.scope;
            kind = kind_of key;
            present = true;
            env_key = target.env_key;
          }),
          record s' { file = file },
        )
      ]

  -- Behind the clearing of the value.
  unfoldable pub remove_entry : Text → BackendState → BackendState
  remove_entry key s =
      elim (find_core_secret_by_key to_lower_case key (read_stack_env dotenv_parse s.file)) [
        | some m ↦ s
        | none ↦ record s { index = remove_plaintext_secret_entry key s.index }
      ]

  -- `false` is a call that throws.
  unfoldable pub remove : ℕ → Text → BackendState → Bool × BackendState
  remove now key s =
      let (target, s') = resolve_plaintext_target now key s in
      if is_empty target.env_key
      then (true, remove_entry key s')
      else elim (update_file target.scope ((target.env_key, []) ∷ []) s'.file) [
        | none ↦ (false, s')
        | some file ↦ (true, remove_entry key (record s' { file = file }))
      ]

  unfoldable pub exists : ℕ → Text → BackendState → Bool × BackendState
  exists now key s =
      let (target, s') = resolve_plaintext_target now key s in
      (not (is_empty (current_value target s')), s')
