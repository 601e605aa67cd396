-- ===== src/ControlPlane/Secrets/Backend/Removed.antt =====
-- What the removal of a secret makes of the file and of the index.
use openpalm.Base.{
  ℕ, ◌≡◌, ◌≢◌, ◌⊎◌, inl, inr, refl, arith, Bool, true, [], none, some, Option-cases, Text, text_eq,
  text_beq_iff, Map, get, get-delete, split,
}
use openpalm.ControlPlane.Env.Lines.{IsName}
use openpalm.ControlPlane.Env.Merged.{first_line, IsLineFor}
use openpalm.ControlPlane.Vault.{VaultInput, read_stack_env}
use openpalm.ControlPlane.Secrets.{
  find_core_secret_by_key, normalize_indexed_key, remove_plaintext_secret_entry,
}
use openpalm.ControlPlane.Secrets.Backend.{
  BackendState, resolve_plaintext_target, remove_entry, remove,
}
use openpalm.ControlPlane.Secrets.Backend.Written.{
  with_variable, IsLineFor-with_variable, with_variable-keeps, IsName-filled, update_file-set,
  resolve-BelongsTo,
}

module _ (to_lower_case digest : Text → Text) (dotenv_parse : Text → Map Text Text)
    (input : VaultInput) where
  -- The key is that of a core secret of the file, or has no entry in the index.
  abbrev pub IsDropped : Text → Text → BackendState → Type 0
  IsDropped key content s =
      (find_core_secret_by_key to_lower_case key (dotenv_parse content) ≢ none)
      ⊎ (get (normalize_indexed_key key) s.index ≡ none)

  remove_entry-IsDropped :
      (key content : Text) (s : BackendState)
      → s.file ≡ some content
      → let s' = remove_entry to_lower_case digest dotenv_parse input key s in
        IsDropped key content s' × (s'.file ≡ some content)
  unfolding remove_entry read_stack_env remove_plaintext_secret_entry
  remove_entry-IsDropped key content s there =
      elim (Option-cases (find_core_secret_by_key to_lower_case key (dotenv_parse content))) [
        | inr (m, e) ↦
            (inl (λ f. ground (arith, e, f)), rw (there, read_stack_env, e, remove_entry) there)
        | inl e ↦ (
          rw (there, read_stack_env, e, remove_entry, remove_plaintext_secret_entry)
              (inr (
                ground (
                  arith,
                  get-delete (normalize_indexed_key key) (normalize_indexed_key key) s.index,
                  text_beq_iff (normalize_indexed_key key) (normalize_indexed_key key),
                ))),
          rw (there, read_stack_env, e, remove_entry) there,
        )
      ]

  -- What is left of a secret that stood in this variable.
  pub record Clears (key variable content : Text) (r : Bool × BackendState) : Type 0 where
    pub written : Text
    pub done : r.0 ≡ true
    pub file : r.1.file ≡ some written
    pub empty : IsLineFor variable [] (first_line true variable (split b'\n' written))
    pub dropped : IsDropped key written r.1
    pub keeps :
        (k : Text)
        → k ≢ variable
        → first_line true k (split b'\n' written) ≡ first_line true k (split b'\n' content)

  remove-eq :
      (now : ℕ) (key content : Text) (s : BackendState)
      → s.file ≡ some content
      → let r = resolve_plaintext_target to_lower_case digest dotenv_parse input now key s in
        IsName r.0.env_key
        → remove to_lower_case digest dotenv_parse input now key s ≡ (
          true,
          remove_entry to_lower_case digest dotenv_parse input key
              (record r.1 { file = some (with_variable r.0.env_key [] content) }),
        )
  unfolding remove
  remove-eq now key content s there named =
      let r = resolve_plaintext_target to_lower_case digest dotenv_parse input now key s in
      rw
        (
          remove,
          IsName-filled r.0.env_key named,
          (resolve-BelongsTo to_lower_case digest dotenv_parse input now key content s there).1,
          update_file-set to_lower_case digest dotenv_parse input r.0.scope r.0.env_key [] content,
        )
        refl

  -- Where the environment file exists, and the name of the secret's variable has no blanks, equals
  -- signs and number signs, a removal ends: the first line that assigns the variable, commented out
  -- before or not, assigns it the empty text then; each other variable keeps the first such line;
  -- and the index has no entry for the key, unless the file then has a core secret of that key.
  pub remove-Clears :
      (now : ℕ) (key content : Text) (s : BackendState)
      → s.file ≡ some content
      → let target =
          (resolve_plaintext_target to_lower_case digest dotenv_parse input now key s).0 in
        IsName target.env_key
        → Clears key target.env_key content
            (remove to_lower_case digest dotenv_parse input now key s)
  remove-Clears now key content s there named =
      let r = resolve_plaintext_target to_lower_case digest dotenv_parse input now key s in
      let written = with_variable r.0.env_key [] content in
      let after = remove_entry-IsDropped key written (record r.1 { file = some written }) refl in
      rw (remove-eq now key content s there named) (record {
        written = written;
        done = refl;
        file = after.1;
        empty = IsLineFor-with_variable r.0.env_key [] content named tt;
        dropped = after.0;
        keeps = λ k other. with_variable-keeps r.0.env_key [] content k named tt other;
      })
