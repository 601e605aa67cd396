-- ===== src/ControlPlane/Secrets/Backend/Written.antt =====
-- What a written secret makes of the file.
use openpalm.Base.{
  ℕ, ◌≡◌, ◌≢◌, ◌⊎◌, inl, inr, refl, arith, true, false, [], ◌∷◌, Option, none, some, Option-cases,
  Text, text_eq, text_beq_iff, Map, get, set, get-set, is_empty, split,
}
use openpalm.ControlPlane.Env.{MergeOptions, merge_env_content, ended}
use openpalm.ControlPlane.Env.Lines.{IsName}
use openpalm.ControlPlane.Env.OneLine.{IsLine}
use openpalm.ControlPlane.Env.Merged.{first_line, IsLineFor}
use openpalm.ControlPlane.Env.Setting.{
  assigns-empty, merge_env_content-IsLineFor, merge_env_content-keeps,
}
use openpalm.ControlPlane.Env.Ended.{first_line-ended}
use openpalm.ControlPlane.Vault.{
  VaultInput, merge_vault_env_file, read_stack_env, update_secrets_env, update_system_secrets_env,
}
use openpalm.ControlPlane.Secrets.{
  SecretScope, user_scope, system_scope, CoreSecretMapping, IndexedSecretEntry, SecretIndex,
  find_core_secret_by_key, normalize_indexed_key, ensure_plaintext_secret_entry,
}
use openpalm.ControlPlane.Secrets.Backend.{
  BackendState, SecretEntryMetadata, kind_of, resolve_plaintext_target, update_file, write,
}

abbrev bare : MergeOptions
bare = record { uncomment = true; section_header = [] }

-- The file with the one variable set.
abbrev pub with_variable : Text → Text → Text → Text
with_variable k value content = ended (merge_env_content content ((k, value) ∷ []) bare)

pub IsLineFor-with_variable :
    (k value content : Text)
    → IsName k
    → IsLine value
    → IsLineFor k value (first_line true k (split b'\n' (with_variable k value content)))
unfolding get
IsLineFor-with_variable k value content h l =
    rw (first_line-ended true k (merge_env_content content ((k, value) ∷ []) bare)) (
      merge_env_content-IsLineFor content ((k, value) ∷ []) bare k value (h, tt) (l, tt) tt
        (assigns-empty true k) (ground (arith, text_beq_iff k k)))

pub with_variable-keeps :
    (k value content j : Text)
    → IsName k
    → IsLine value
    → j ≢ k
    → first_line true j (split b'\n' (with_variable k value content))
      ≡ first_line true j (split b'\n' content)
unfolding get
with_variable-keeps k value content j h l other =
    rw (first_line-ended true j (merge_env_content content ((k, value) ∷ []) bare)) (
      merge_env_content-keeps content ((k, value) ∷ []) bare j (h, tt) (l, tt) tt
        (assigns-empty true j) (ground (arith, text_beq_iff k j, other)))

pub IsName-filled : (k : Text) → IsName k → is_empty k ≡ false
IsName-filled [] h = absurd h
IsName-filled (c ∷ k) h = refl

get-set_same : {V : Type 0} → (k : Text) (v : V) (m : Map Text V) → get k (set k v m) ≡ some v
get-set_same k v m = ground (arith, get-set k k v m, text_beq_iff k k)

ensure-there :
    (digest : Text → Text) (now : ℕ) (key : Text) (index : SecretIndex)
    → get (normalize_indexed_key key) (ensure_plaintext_secret_entry digest now key none index).1
      ≡ some (ensure_plaintext_secret_entry digest now key none index).0
unfolding ensure_plaintext_secret_entry
ensure-there digest now key index = elim (Option-cases (get (normalize_indexed_key key) index)) [
  | inr (e, f) ↦ rw (ensure_plaintext_secret_entry, f) f
  | inl f ↦ rw (ensure_plaintext_secret_entry, f) (get-set_same (normalize_indexed_key key) _ index)
]

module _ (to_lower_case digest : Text → Text) (dotenv_parse : Text → Map Text Text)
    (input : VaultInput) where
  pub update_file-set :
      (scope : SecretScope) (k value content : Text)
      → update_file to_lower_case digest dotenv_parse input scope ((k, value) ∷ []) (some content)
        ≡ some (some (with_variable k value content))
  unfolding update_file update_secrets_env update_system_secrets_env merge_vault_env_file
  update_file-set user_scope k value content = refl
  update_file-set system_scope k value content = refl

  -- The variable is that of a core secret of the key, or of the key's entry in the index.
  abbrev pub BelongsTo : Text → Text → Text → SecretIndex → Type 0
  BelongsTo key variable content index =
      ((m : CoreSecretMapping) × (find_core_secret_by_key to_lower_case key (dotenv_parse content)
          ≡ some m)
        × (m.env_key ≡ variable))
      ⊎ ((e : IndexedSecretEntry) × (get (normalize_indexed_key key) index ≡ some e)
          × (e.env_key ≡ variable))

  pub resolve-BelongsTo :
      (now : ℕ) (key content : Text) (s : BackendState)
      → s.file ≡ some content
      → let r = resolve_plaintext_target to_lower_case digest dotenv_parse input now key s in
        BelongsTo key r.0.env_key content r.1.index × (r.1.file ≡ some content)
  unfolding resolve_plaintext_target read_stack_env
  resolve-BelongsTo now key content s there =
      elim (Option-cases (find_core_secret_by_key to_lower_case key (dotenv_parse content))) [
        | inr (m, e) ↦ (
          rw (there, read_stack_env, e, resolve_plaintext_target) (inl (m, refl, refl)),
          rw (there, read_stack_env, e, resolve_plaintext_target) there,
        )
        | inl e ↦ (
          rw (there, read_stack_env, e, resolve_plaintext_target)
              (inr (_, ensure-there digest now key s.index, refl)),
          rw (there, read_stack_env, e, resolve_plaintext_target) there,
        )
      ]

  -- The answer of a written secret, and the file behind it.
  pub record Sets (key value content : Text) (r : Option SecretEntryMetadata × BackendState)
      : Type 0 where
    pub entry : SecretEntryMetadata
    pub written : Text
    pub answer : r.0 ≡ some entry
    pub file : r.1.file ≡ some written
    pub belongs : BelongsTo key entry.env_key content r.1.index
    pub holds : IsLineFor entry.env_key value (first_line true entry.env_key (split b'\n' written))
    pub keeps :
        (k : Text)
        → k ≢ entry.env_key
        → first_line true k (split b'\n' written) ≡ first_line true k (split b'\n' content)

  write-eq :
      (now : ℕ) (key value content : Text) (s : BackendState)
      → s.file ≡ some content
      → let r = resolve_plaintext_target to_lower_case digest dotenv_parse input now key s in
        IsName r.0.env_key
        → write to_lower_case digest dotenv_parse input now key value s ≡ (
          some (record {
            key = key;
            scope = r.0.scope;
            kind = kind_of key;
            present = true;
            env_key = r.0.env_key;
          }),
          record r.1 { file = some (with_variable r.0.env_key value content) },
        )
  unfolding write
  write-eq now key value content s there named =
      let r = resolve_plaintext_target to_lower_case digest dotenv_parse input now key s in
      rw
        (
          write,
          IsName-filled r.0.env_key named,
          (resolve-BelongsTo now key content s there).1,
          update_file-set r.0.scope r.0.env_key value content,
        )
        refl

  -- Where the environment file exists, a secret whose variable has a name without blanks, equals
  -- signs and number signs and whose value has no line break is written: the variable is that of the
  -- core secret or of the entry that the index has for the key then; the first line that assigns
  -- it, commented out before or not, is one that assigns the value, quoted; and each other variable
  -- keeps the first such line.
  pub write-Sets :
      (now : ℕ) (key value content : Text) (s : BackendState)
      → s.file ≡ some content
      → IsName
          (resolve_plaintext_target to_lower_case digest dotenv_parse input now key s).0.env_key
      → IsLine value
      → Sets key value content (write to_lower_case digest dotenv_parse input now key value s)
  write-Sets now key value content s there named line =
      let r = resolve_plaintext_target to_lower_case digest dotenv_parse input now key s in
      rw (write-eq now key value content s there named) (record {
        entry = record {
          key = key;
          scope = r.0.scope;
          kind = kind_of key;
          present = true;
          env_key = r.0.env_key;
        };
        written = with_variable r.0.env_key value content;
        answer = refl;
        file = refl;
        belongs = (resolve-BelongsTo now key content s there).0;
        holds = IsLineFor-with_variable r.0.env_key value content named line;
        keeps = λ k other. with_variable-keeps r.0.env_key value content k named line other;
      })
