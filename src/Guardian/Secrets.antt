-- ===== src/Guardian/Secrets.antt =====
-- core/guardian/src/signature.ts: the channel secrets and their cache. The parser of `dotenv` and
-- `toLowerCase` are parameters. A secret is looked up among the entries set; what JavaScript
-- objects inherit is left out.
pub mod Laws
use openpalm.Base.{
  ℕ, ◌-◌, Bool, true, false, ◌&&◌, ◌||◌, not, List, [], ◌∷◌, Option, none, some, Text, text_eq,
  codes, Map, set, all_by, is_empty, leb, ltb, nat_beq, if◌then◌else◌, ◌>>=◌, strip_prefix,
  strip_suffix,
}

-- `[A-Z0-9_]`
abbrev pub is_upper_word : ℕ → Bool
is_upper_word c = leb b'A' c && leb c b'Z' || leb b'0' c && leb c b'9' || nat_beq c b'_'

-- An empty value sets no secret.
unfoldable pub store_secret : Option Text → Text → Map Text Text → Map Text Text
store_secret none val secrets = secrets
store_secret (some ch) val secrets = if is_empty val then secrets else set ch val secrets

module _ (to_lower_case : Text → Text) where
  -- The channel that a variable's name stands for, if it matches `CHANNEL_SECRET_RE`.
  unfoldable pub channel_of_key : Text → Option Text
  channel_of_key key = do
    behind ← strip_prefix (codes "CHANNEL_") key
    middle ← strip_suffix (codes "_SECRET") behind
    if not (is_empty middle) && all_by is_upper_word middle
        then some (to_lower_case middle)
        else none

  -- The loop over the variables, from the secrets found so far.
  unfoldable pub collect_secrets : List (Text × Text) → Map Text Text → Map Text Text
  collect_secrets [] secrets = secrets
  collect_secrets ((key, val) ∷ entries) secrets =
      collect_secrets entries (store_secret (channel_of_key key) val secrets)

  module _ (dotenv_parse : Text → List (Text × Text)) where
    unfoldable pub parse_channel_secrets : Text → Map Text Text
    parse_channel_secrets content = collect_secrets (dotenv_parse content) []

pub record SecretsCache : Type 0 where
  pub mtime : ℕ
  pub loaded_at : ℕ
  pub secrets : Map Text Text

-- The secrets file as a call finds it; `none` for content that cannot be read.
pub record SecretsFile : Type 0 where
  pub mtime : ℕ
  pub content : Option Text

-- What the process is configured with: the file's path is set or not.
pub record SecretsSource : Type 0 where
  pub file : Option SecretsFile
  pub env : List (Text × Text)
  pub ttl : ℕ

-- A cached copy serves while the file is the same and the copy is young.
unfoldable pub cached_secrets : ℕ → SecretsFile → ℕ → Option SecretsCache → Option (Map Text Text)
cached_secrets now file ttl none = none
cached_secrets now file ttl (some c) =
    if nat_beq c.mtime file.mtime && ltb (now - c.loaded_at) ttl then some c.secrets else none

module _ (to_lower_case : Text → Text) (dotenv_parse : Text → List (Text × Text)) where
  -- Behind a miss of the cache: the content, `none` where it cannot be read.
  unfoldable pub read_secrets :
      ℕ → ℕ → Option Text → Option SecretsCache → Map Text Text × Option SecretsCache
  read_secrets now mtime none cache = ([], cache)
  read_secrets now mtime (some content) cache =
      let secrets = parse_channel_secrets to_lower_case dotenv_parse content in
      (secrets, some (record { mtime = mtime; loaded_at = now; secrets = secrets }))

  unfoldable pub load_secrets_file :
      ℕ → SecretsFile → ℕ → Option SecretsCache → Map Text Text × Option SecretsCache
  load_secrets_file now file ttl cache = elim (cached_secrets now file ttl cache) [
    | some secrets ↦ (secrets, cache)
    | none ↦ read_secrets now file.mtime file.content cache
  ]

  unfoldable pub load_channel_secrets :
      ℕ → SecretsSource → Option SecretsCache → Map Text Text × Option SecretsCache
  load_channel_secrets now source cache = elim source.file [
    | none ↦ (collect_secrets to_lower_case source.env [], cache)
    | some file ↦ load_secrets_file now file source.ttl cache
  ]
