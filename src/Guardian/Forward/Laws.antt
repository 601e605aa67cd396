-- ===== src/Guardian/Forward/Laws.antt =====
-- What the session caches say after a message was answered, and after a clear.
use openpalm.Base.{
  ℕ, ◌≡◌, ◌∙◌, refl, false, [], ◌∷◌, Option, none, some, Text, text_eq, same_refl, Map, get,
  get-set, get-delete, arith, ◌==◌, Option-cases, inl, inr,
}
use openpalm.Guardian.Forward.{
  SessionTarget, CachedSession, Assistant, ForwardState, Outcome, answered, thrown, forget,
  remember, live_session, reload_titles, find_existing_session_id, try_session, send_first,
  start_session, or_then, use_existing, reattach, ask_assistant, clear_assistant_sessions,
}

-- The sessions of all other conversations are as they were.
abbrev pub KeepsOthers : SessionTarget → Map Text CachedSession → Map Text CachedSession → Type 0
KeepsOthers target before after =
    (k : Text) → (target.cache_key == k) ≡ false → get k after ≡ get k before

module _ (a : Assistant) (ttl : ℕ) where
  open a use {World, clock, send_message, create_session, list_sessions}

  -- An answer comes from a session that both caches now name, stamped with the present.
  abbrev pub Post : SessionTarget → Map Text CachedSession → Outcome × ForwardState World → Type 0
  Post target before (answered text id, s) =
      (get target.cache_key s.session_cache
        ≡ some (record { session_id = id; last_used = clock s.world }))
      × (get target.title s.title_cache ≡ some id)
      × KeepsOthers target before s.session_cache
  Post target before (thrown, s) = KeepsOthers target before s.session_cache

  remember-Post :
      (target : SessionTarget) (before : Map Text CachedSession) (text id : Text)
      (s : ForwardState World)
      → KeepsOthers target before s.session_cache
      → Post target before (answered text id, remember a ttl target id s)
  unfolding remember
  remember-Post target before text id s h = (
    rw (
      get-set target.cache_key target.cache_key
          (record { session_id = id; last_used = clock s.world }) s.session_cache,
      same_refl target.cache_key,
    ),
    rw (get-set target.title target.title id s.title_cache, same_refl target.title),
    λ k other.
        rw
          (
            get-set target.cache_key k (record { session_id = id; last_used = clock s.world })
                s.session_cache,
            other,
          )
          (h k other),
  )

  forget-KeepsOthers :
      (target : SessionTarget) (before : Map Text CachedSession) (s : ForwardState World)
      → KeepsOthers target before s.session_cache
      → KeepsOthers target before (forget target s).session_cache
  unfolding forget
  forget-KeepsOthers target before s h k other =
      rw (get-delete target.cache_key k s.session_cache, other) (h k other)

  -- A next way to an answer that meets the postcondition from wherever it starts.
  Meets :
      SessionTarget
      → Map Text CachedSession
      → (ForwardState World → Outcome × ForwardState World)
      → Type 0
  Meets target before next =
      (s : ForwardState World)
      → KeepsOthers target before s.session_cache
      → Post target before (next s)

  or_then-Post :
      (target : SessionTarget) (before : Map Text CachedSession) (id message : Text)
      (next : ForwardState World → Outcome × ForwardState World) (s : ForwardState World)
      → Meets target before next
      → KeepsOthers target before s.session_cache
      → Post target before (or_then a ttl id next (try_session a ttl target id message s))
  unfolding or_then try_session Meets
  or_then-Post target before id message next s m h =
      elim (Option-cases (send_message id message s.world).0) [
        | inl e ↦
            rw (e, try_session)
              (m _ (
                forget-KeepsOthers target before
                  (record s { world = (send_message id message s.world).1 }) h))
        | inr (text, e) ↦
            rw (e, try_session)
              (remember-Post target before text id
                (record s { world = (send_message id message s.world).1 }) h)
      ]

  send_first-Post :
      (target : SessionTarget) (before : Map Text CachedSession) (id message : Text)
      (s : ForwardState World)
      → KeepsOthers target before s.session_cache
      → Post target before (send_first a ttl target id message s)
  unfolding send_first
  send_first-Post target before id message s h =
      elim (Option-cases (send_message id message s.world).0) [
        | inl e ↦ rw (e, send_first) h
        | inr (text, e) ↦
            rw (e, send_first)
              (remember-Post target before text id
                (record s { world = (send_message id message s.world).1 }) h)
      ]

  start_session-Post :
      (target : SessionTarget) (before : Map Text CachedSession) (message : Text)
      → Meets target before (start_session a ttl target message)
  unfolding start_session Meets
  start_session-Post target before message s h =
      elim (Option-cases (create_session target.title s.world).0) [
        | inl e ↦ rw (e, start_session) h
        | inr (id, e) ↦
            rw (e, start_session)
              (send_first-Post target before id message
                (record s { world = (create_session target.title s.world).1 }) h)
      ]

  use_existing-Post :
      (target : SessionTarget) (before : Map Text CachedSession) (message : Text)
      (found : Option (Option Text)) (s : ForwardState World)
      → KeepsOthers target before s.session_cache
      → Post target before (use_existing a ttl target message (found, s))
  unfolding use_existing Meets
  use_existing-Post target before message none s h = h
  use_existing-Post target before message (some none) s h =
      start_session-Post target before message s h
  use_existing-Post target before message (some (some [])) s h =
      start_session-Post target before message s h
  use_existing-Post target before message (some (some (c ∷ cs))) s h =
      or_then-Post target before (c ∷ cs) message (start_session a ttl target message) s
        (start_session-Post target before message) h

  session_cache-reload :
      (s : ForwardState World) → (reload_titles a ttl s).1.session_cache ≡ s.session_cache
  unfolding reload_titles
  session_cache-reload s = elim (Option-cases (list_sessions s.world).0) [
    | inl e ↦ rw (e, reload_titles)
    | inr (found, e) ↦ rw (e, reload_titles)
  ]

  session_cache-find :
      (target : SessionTarget) (s : ForwardState World)
      → (find_existing_session_id a ttl target s).1.session_cache ≡ s.session_cache
  unfolding find_existing_session_id
  session_cache-find target s = ground (arith, session_cache-reload s)

  reattach-Post :
      (target : SessionTarget) (before : Map Text CachedSession) (message : Text)
      → Meets target before (reattach a ttl target message)
  unfolding reattach Meets
  reattach-Post target before message s h =
      let r = find_existing_session_id a ttl target s in
      use_existing-Post target before message r.0 r.1 (rw (session_cache-find target s) h)

  -- A message that is answered leaves both caches naming the session that answered it, stamped
  -- with the time of the answer; and answered or not, it leaves the cached sessions of all other
  -- conversations as they were.
  pub ask_assistant-Post :
      (message : Text) (target : SessionTarget) (s : ForwardState World)
      → Post target s.session_cache (ask_assistant a ttl message target s)
  unfolding ask_assistant Meets
  ask_assistant-Post message target s = elim (Option-cases (live_session a ttl target s)) [
    | inl e ↦
        rw (e, ask_assistant) (reattach-Post target s.session_cache message s (λ k other. refl))
    | inr (id, e) ↦
        rw (e, ask_assistant)
          (or_then-Post target s.session_cache id message (reattach a ttl target message) s
            (reattach-Post target s.session_cache message) (λ k other. refl))
  ]

  clear-forget :
      (target : SessionTarget) (s : ForwardState World)
      → let s' = (clear_assistant_sessions a ttl target s).1 in
        (s'.session_cache ≡ (forget target s).session_cache)
        × (s'.title_cache ≡ (forget target s).title_cache)
        × (s'.list_loaded ≡ (forget target s).list_loaded)
  unfolding clear_assistant_sessions
  clear-forget target s = elim (Option-cases (list_sessions (forget target s).world).0) [
    | inl e ↦ rw (e, clear_assistant_sessions) (refl, refl, refl)
    | inr (found, e) ↦ rw (e, clear_assistant_sessions) (refl, refl, refl)
  ]

  forget_lem :
      (target : SessionTarget) (s : ForwardState World)
      → (get target.cache_key (forget target s).session_cache ≡ none)
        × (get target.title (forget target s).title_cache ≡ none)
        × ((forget target s).list_loaded ≡ 0)
  unfolding forget
  forget_lem target s = (
    rw (get-delete target.cache_key target.cache_key s.session_cache, same_refl target.cache_key),
    rw (get-delete target.title target.title s.title_cache, same_refl target.title),
    refl,
  )

  -- After a clear, whether the listing failed or not, neither cache names a session of the
  -- conversation and the list of sessions counts as never loaded; the cached sessions of the
  -- others are as they were.
  pub clear_forgets :
      (target : SessionTarget) (s : ForwardState World)
      → let s' = (clear_assistant_sessions a ttl target s).1 in
        (get target.cache_key s'.session_cache ≡ none)
        × (get target.title s'.title_cache ≡ none)
        × (s'.list_loaded ≡ 0)
        × KeepsOthers target s.session_cache s'.session_cache
  clear_forgets target s =
      let (sessions, titles, loaded) = clear-forget target s in
      let (no_session, no_title, never) = forget_lem target s in
      (
        rw sessions no_session,
        rw titles no_title,
        loaded ∙ never,
        λ k other.
            rw sessions (forget-KeepsOthers target s.session_cache s (λ j different. refl) k other),
      )
