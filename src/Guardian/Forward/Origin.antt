-- ===== src/Guardian/Forward/Origin.antt =====
-- Which session a message is taken to.
use openpalm.Base.{ℕ, ◌<◌, ◌≡◌, ◌-◌, ◌⊎◌, List, [], ◌∷◌, Option, none, some, Text, text_eq, get}
use openpalm.Guardian.Forward.{
  SessionTarget, CachedSession, Session, Assistant, ForwardState, Outcome, answered, thrown,
}

-- One of the sessions has the title and the id.
abbrev pub HasTitle : Text → Text → List Session → Type 0
HasTitle title id [] = ⊥
HasTitle title id (x ∷ xs) = (x.title ≡ title) × (x.id ≡ id) ⊎ HasTitle title id xs

module _ (a : Assistant) (ttl : ℕ) (target : SessionTarget) (before : ForwardState a.World) where
  open a use {World, clock, send_message, create_session, list_sessions}

  -- The session is the one that is cached for the conversation and was used less than the time to
  -- live ago, or is kept under its title, or the assistant lists it under its title, or makes it
  -- under its title.
  abbrev pub IsOwn : Text → Type 0
  IsOwn id =
      ((c : CachedSession) × (get target.cache_key before.session_cache ≡ some c)
        × (c.session_id ≡ id)
        × (clock before.world - c.last_used < ttl))
      ⊎ (get target.title before.title_cache ≡ some id)
      ⊎ ((w : World) × (found : List Session) × ((list_sessions w).0 ≡ some found)
          × HasTitle target.title id found)
      ⊎ ((w : World) × ((create_session target.title w).0 ≡ some id))

  abbrev pub FromOwn : Outcome × ForwardState World → Type 0
  FromOwn (answered text id, s) = IsOwn id
  FromOwn (thrown, s) = Unit

  -- What is kept under the title is the conversation's own.
  abbrev TitleIsOwn : ForwardState World → Type 0
  TitleIsOwn s = (id : Text) → get target.title s.title_cache ≡ some id → IsOwn id

  -- What the search has found is the conversation's own.
  abbrev FoundIsOwn : Option (Option Text) → Type 0
  FoundIsOwn none = Unit
  FoundIsOwn (some none) = Unit
  FoundIsOwn (some (some id)) = IsOwn id
