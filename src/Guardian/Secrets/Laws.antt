-- ===== src/Guardian/Secrets/Laws.antt =====
-- No empty secret is ever handed out.
use openpalm.Base.{
  ℕ, ◌≡◌, ◌≢◌, none, some, [], ◌∷◌, List, Option, Text, text_eq, Map, get, set, get-set, arith,
  Option-cases, subst, inl, inr,
}
use openpalm.Guardian.Secrets.{
  SecretsCache, SecretsFile, SecretsSource, channel_of_key, store_secret, collect_secrets,
  parse_channel_secrets, load_channel_secrets, cached_secrets, read_secrets, load_secrets_file,
}

-- Every secret that can be looked up is a text that is not empty.
abbrev pub HasSecrets : Map Text Text → Type 0
HasSecrets m = (ch val : Text) → get ch m ≡ some val → val ≢ []

abbrev pub IsSound : Option SecretsCache → Type 0
IsSound none = Unit
IsSound (some c) = HasSecrets c.secrets

HasSecrets-nil : HasSecrets []
unfolding get
HasSecrets-nil ch val e = cc

HasSecrets-set :
    (key val : Text) (m : Map Text Text) → val ≢ [] → HasSecrets m → HasSecrets (set key val m)
HasSecrets-set key val m h hs ch v e = ground (arith, get-set key ch val m, hs ch v)

HasSecrets-store :
    (ch : Option Text) (val : Text) (m : Map Text Text)
    → HasSecrets m
    → HasSecrets (store_secret ch val m)
unfolding store_secret
HasSecrets-store none val m h = h
HasSecrets-store (some ch) [] m h = h
HasSecrets-store (some ch) (c ∷ cs) m h = HasSecrets-set ch (c ∷ cs) m (λ e. cc) h

module _ (to_lower_case : Text → Text) where
  collect-HasSecrets :
      (entries : List (Text × Text)) (m : Map Text Text)
      → HasSecrets m
      → HasSecrets (collect_secrets to_lower_case entries m)
  unfolding collect_secrets
  collect-HasSecrets [] m h = h
  collect-HasSecrets ((key, val) ∷ entries) m h =
      collect-HasSecrets entries _ (HasSecrets-store (channel_of_key to_lower_case key) val m h)

-- What a load returns: the secrets and the cache that is kept.
abbrev pub AreSound : Map Text Text × Option SecretsCache → Type 0
AreSound (m, cache) = HasSecrets m × IsSound cache

cached-HasSecrets :
    (now : ℕ) (file : SecretsFile) (ttl : ℕ) (cache : Option SecretsCache) (m : Map Text Text)
    → IsSound cache
    → cached_secrets now file ttl cache ≡ some m
    → HasSecrets m
unfolding cached_secrets
cached-HasSecrets now file ttl none m s e = cc
cached-HasSecrets now file ttl (some c) m s e = subst HasSecrets (ground arith) s

module _ (to_lower_case : Text → Text) (dotenv_parse : Text → List (Text × Text)) where
  read-AreSound :
      (now mtime : ℕ) (content : Option Text) (cache : Option SecretsCache)
      → IsSound cache
      → AreSound (read_secrets to_lower_case dotenv_parse now mtime content cache)
  unfolding read_secrets parse_channel_secrets
  read-AreSound now mtime none cache s = (HasSecrets-nil, s)
  read-AreSound now mtime (some content) cache s =
      let h = collect-HasSecrets to_lower_case (dotenv_parse content) [] HasSecrets-nil in (h, h)

  load_file-AreSound :
      (now : ℕ) (file : SecretsFile) (ttl : ℕ) (cache : Option SecretsCache)
      → IsSound cache
      → AreSound (load_secrets_file to_lower_case dotenv_parse now file ttl cache)
  unfolding load_secrets_file
  load_file-AreSound now file ttl cache s =
      elim (Option-cases (cached_secrets now file ttl cache)) [
        | inl e ↦ rw (e, load_secrets_file) (read-AreSound now file.mtime file.content cache s)
        | inr (m, e) ↦ rw (e, load_secrets_file) (cached-HasSecrets now file ttl cache m s e, s)
      ]

  -- Whether the secrets come from the file, from the cache or from the environment, none of them
  -- is empty, and the cache that is kept hands out none that is, if the cache before did not.
  pub load_channel_secrets-AreSound :
      (now : ℕ) (source : SecretsSource) (cache : Option SecretsCache)
      → IsSound cache
      → AreSound (load_channel_secrets to_lower_case dotenv_parse now source cache)
  unfolding load_channel_secrets
  load_channel_secrets-AreSound now source cache s = elim (Option-cases source.file) [
    | inl e ↦
        rw (e, load_channel_secrets)
          (collect-HasSecrets to_lower_case source.env [] HasSecrets-nil, s)
    | inr (file, e) ↦ rw (e, load_channel_secrets) (load_file-AreSound now file source.ttl cache s)
  ]
