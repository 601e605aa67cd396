-- ===== src/ControlPlane/Vault/Tokens.antt =====
-- The tokens of the system in the environment file.
use openpalm.Base.{
  ◌≡◌, ◌≢◌, ◌∙◌, refl, arith, Bool, true, false, ◌&&◌, not, [], ◌∷◌, none, some, Text, text_eq,
  text_beq_iff, codes, Map, get, is_empty, split, ◌==◌,
}
use openpalm.ControlPlane.Env.{MergeOptions, merge_env_content, ended}
use openpalm.ControlPlane.Env.Lines.{IsName}
use openpalm.ControlPlane.Env.OneLine.{IsLine, AreLines}
use openpalm.ControlPlane.Env.Merged.{first_line, AreNames, IsLineFor}
use openpalm.ControlPlane.Env.Setting.{
  assigns-empty, merge_env_content-IsLineFor, merge_env_content-keeps,
}
use openpalm.ControlPlane.Env.Ended.{first_line-ended}
use openpalm.ControlPlane.CapabilityVars.Set.{is_name-IsName}
use openpalm.ControlPlane.Vault.{
  VaultInput, merge_vault_env_file, is_missing, when, system_updates, ensure_system_secrets,
}

-- The file has the updates, and all else as it was.
record HasUpdates (m : Map Text Text) (content content' : Text) : Type 0 where
  pub set :
      (k v : Text) → get k m ≡ some v → IsLineFor k v (first_line true k (split b'\n' content'))
  pub keeps :
      (k : Text)
      → get k m ≡ none
      → first_line true k (split b'\n' content') ≡ first_line true k (split b'\n' content)

merge_vault-HasUpdates :
    (m : Map Text Text) (content : Text)
    → AreNames m
    → AreLines m
    → (content' : Text) × (merge_vault_env_file m true (some content) ≡ some content')
      × HasUpdates m content content'
unfolding merge_vault_env_file get
merge_vault-HasUpdates [] content h l =
    (content, refl, record { set = λ k v e. cc; keeps = λ k e. refl })
merge_vault-HasUpdates (u ∷ us) content h l =
    let options : MergeOptions = record { uncomment = true; section_header = [] } in
    let merged = merge_env_content content (u ∷ us) options in
    (
      ended merged,
      refl,
      record {
        set = λ k v e. rw (first_line-ended true k merged) (
            merge_env_content-IsLineFor content (u ∷ us) options k v h l tt (assigns-empty true k)
              e);
        keeps = λ k e.
            rw (first_line-ended true k merged)
              (merge_env_content-keeps content (u ∷ us) options k h l tt (assigns-empty true k) e);
      },
    )

get-when :
    (b : Bool) (key value : Text) (m : Map Text Text)
    → b ≡ true
    → get key (when b key value m) ≡ some value
unfolding get
get-when true key value m e = ground (arith, text_beq_iff key key)
get-when false key value m e = cc

get-when_other :
    (b : Bool) (key value j : Text) (m : Map Text Text)
    → (key == j) ≡ false
    → get j (when b key value m) ≡ get j m
unfolding get
get-when_other true key value j m e = rw (get, e) refl
get-when_other false key value j m e = refl

get-when_absent :
    (b : Bool) (key value j : Text) (m : Map Text Text)
    → (b ≡ true → key ≢ j)
    → get j m ≡ none
    → get j (when b key value m) ≡ none
unfolding get
get-when_absent true key value j m h e = ground (arith, text_beq_iff key j, h refl)
get-when_absent false key value j m h e = e

and_first : (a b : Bool) → (a && b) ≡ true → a ≡ true
and_first true b e = refl
and_first false b e = e

and_both : (a : Bool) (t : Text) → a ≡ true → t ≢ [] → (a && not (is_empty t)) ≡ true
and_both a t e h = ground (arith, e, h)

missing-ne :
    (key k : Text) (existing : Map Text Text)
    → is_missing k existing ≡ false
    → is_missing key existing ≡ true
    → key ≢ k
missing-ne key k existing there missing e =
    let here : is_missing key existing ≡ false = rw e there in ground (arith, here, missing)

when-AreNames :
    (b : Bool) (key value : Text) (m : Map Text Text)
    → IsName key
    → AreNames m
    → AreNames (when b key value m)
when-AreNames true key value m h r = (h, r)
when-AreNames false key value m h r = r

when-AreLines :
    (b : Bool) (key value : Text) (m : Map Text Text)
    → IsLine value
    → AreLines m
    → AreLines (when b key value m)
when-AreLines true key value m h r = (h, r)
when-AreLines false key value m h r = r

abbrev admin_key : Text
admin_key = codes "OP_ADMIN_TOKEN"

abbrev assistant_key : Text
assistant_key = codes "OP_ASSISTANT_TOKEN"

abbrev memory_key : Text
memory_key = codes "OP_MEMORY_TOKEN"

-- None of the tokens holds a line break.
pub record AreTokens (i : VaultInput) : Type 0 where
  pub admin : IsLine i.admin_token
  pub assistant : IsLine i.fresh_assistant
  pub memory : IsLine i.fresh_memory

module _ (i : VaultInput) (existing : Map Text Text) where
  abbrev no_admin : Bool
  no_admin = is_missing admin_key existing && not (is_empty i.admin_token)

  abbrev no_assistant : Bool
  no_assistant = is_missing assistant_key existing

  abbrev no_memory : Bool
  no_memory = is_missing memory_key existing

  abbrev last : Map Text Text
  last = when no_memory memory_key i.fresh_memory []

  abbrev more : Map Text Text
  more = when no_assistant assistant_key i.fresh_assistant last

  system_updates-AreNames : AreNames (system_updates i existing)
  unfolding system_updates
  system_updates-AreNames =
      when-AreNames no_admin admin_key i.admin_token more (is_name-IsName admin_key refl) (
        when-AreNames no_assistant assistant_key i.fresh_assistant last
          (is_name-IsName assistant_key refl)
          (when-AreNames no_memory memory_key i.fresh_memory [] (is_name-IsName memory_key refl)
            tt))

  system_updates-AreLines : AreTokens i → AreLines (system_updates i existing)
  unfolding system_updates
  system_updates-AreLines t = when-AreLines no_admin admin_key i.admin_token more t.admin (
      when-AreLines no_assistant assistant_key i.fresh_assistant last t.assistant
        (when-AreLines no_memory memory_key i.fresh_memory [] t.memory tt))

  get-admin : no_admin ≡ true → get admin_key (system_updates i existing) ≡ some i.admin_token
  unfolding system_updates
  get-admin = get-when no_admin admin_key i.admin_token more

  get-assistant :
      no_assistant ≡ true → get assistant_key (system_updates i existing) ≡ some i.fresh_assistant
  unfolding system_updates
  get-assistant e =
      get-when_other no_admin admin_key i.admin_token assistant_key more refl
      ∙ get-when no_assistant assistant_key i.fresh_assistant last e

  get-memory : no_memory ≡ true → get memory_key (system_updates i existing) ≡ some i.fresh_memory
  unfolding system_updates
  get-memory e =
      get-when_other no_admin admin_key i.admin_token memory_key more refl
      ∙ get-when_other no_assistant assistant_key i.fresh_assistant memory_key last refl
      ∙ get-when no_memory memory_key i.fresh_memory [] e

  get-none : (k : Text) → is_missing k existing ≡ false → get k (system_updates i existing) ≡ none
  unfolding system_updates get
  get-none k h =
      get-when_absent no_admin admin_key i.admin_token k more
        (λ e. missing-ne admin_key k existing h (and_first (is_missing admin_key existing) _ e))
        (get-when_absent no_assistant assistant_key i.fresh_assistant k last
          (missing-ne assistant_key k existing h)
          (get-when_absent no_memory memory_key i.fresh_memory k []
            (missing-ne memory_key k existing h) refl))

-- What the file is afterwards: `existing` are the variables that were read from it before.
pub record Completes (i : VaultInput) (existing : Map Text Text) (content content' : Text)
    : Type 0 where
  pub admin :
      is_missing (codes "OP_ADMIN_TOKEN") existing ≡ true
      → i.admin_token ≢ []
      → IsLineFor
          (codes "OP_ADMIN_TOKEN")
          i.admin_token
          (first_line true (codes "OP_ADMIN_TOKEN") (split b'\n' content'))
  pub assistant :
      is_missing (codes "OP_ASSISTANT_TOKEN") existing ≡ true
      → IsLineFor
          (codes "OP_ASSISTANT_TOKEN")
          i.fresh_assistant
          (first_line true (codes "OP_ASSISTANT_TOKEN") (split b'\n' content'))
  pub memory :
      is_missing (codes "OP_MEMORY_TOKEN") existing ≡ true
      → IsLineFor
          (codes "OP_MEMORY_TOKEN")
          i.fresh_memory
          (first_line true (codes "OP_MEMORY_TOKEN") (split b'\n' content'))
  pub keeps :
      (k : Text)
      → is_missing k existing ≡ false
      → first_line true k (split b'\n' content') ≡ first_line true k (split b'\n' content)

-- Where the environment file exists, the set-up of the system's secrets ends with a file in which
-- each of the three tokens that was missing, or empty, as dotenv reads the file, is in the first
-- line that assigns it, commented out before or not: the admin's if there is one, new ones for the
-- assistant and the memory; and each variable that was there and not empty keeps the first such
-- line. None of the tokens may hold a line break.
pub ensure_system_secrets-Completes :
    (dotenv_parse : Text → Map Text Text) (i : VaultInput) (content : Text)
    → AreTokens i
    → (content' : Text) × (ensure_system_secrets dotenv_parse i (some content) ≡ some content')
      × Completes i (dotenv_parse content) content content'
unfolding ensure_system_secrets
ensure_system_secrets-Completes dotenv_parse i content t =
    let existing = dotenv_parse content in
    let m = system_updates i existing in
    let (content', written, has) =
      merge_vault-HasUpdates m content (system_updates-AreNames i existing)
        (system_updates-AreLines i existing t) in
    (
      content',
      written,
      record {
        admin = λ e f.
            has.set admin_key i.admin_token
              (get-admin i existing (and_both (is_missing admin_key existing) i.admin_token e f));
        assistant = λ e. has.set assistant_key i.fresh_assistant (get-assistant i existing e);
        memory = λ e. has.set memory_key i.fresh_memory (get-memory i existing e);
        keeps = λ k e. has.keeps k (get-none i existing k e);
      },
    )
