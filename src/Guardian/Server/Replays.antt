-- ===== src/Guardian/Server/Replays.antt =====
-- A message that was taken to the assistant is not taken there again.
use openpalm.Base.{
  Bool-cases, ℕ, ◌+◌, ◌≤◌, ◌≡◌, inl, inr, refl, sym, Bool, true, false, ◌&&◌, List, [], ◌∷◌, some,
  Text, text_eq, text_beq_iff, subst, arith, length, ◌==◌, if◌then◌else◌, suc,
}
use openpalm.Sdk.Value.{Value}
use openpalm.Sdk.Payload.{ChannelPayload, ok, validate_payload}
use openpalm.Guardian.Replay.{check_nonce, nonce_max_size, Seen, prune_nonce_cache}
use openpalm.Guardian.Replay.Once.{
  IsSpent, check-IsSpent, accept-IsSpent, spent_refused, prune-IsSpent,
}
use openpalm.Guardian.Forward.{
  ForwardState, Outcome, answered, thrown, resolve_session_target, clear_assistant_sessions,
  ask_assistant, SessionTarget,
}
use openpalm.Guardian.Server.Types.{Runtime, Request, Response}
use openpalm.Guardian.Server.{
  State, reject, forward_message, finish_clear, finish_ask, check_replay, authenticate, inbound,
}
use openpalm.Guardian.Server.Authentic.{
  IsForwarded, Reached, inbound-Reached, fresh_of_replay, allowed_of_channel, allowed_of_user,
  secret_checked, is_forwarded, is_forwarded_iff,
}
use openpalm.Guardian.Server.Rejected.{inbound-Keeps}

module _ (rt : Runtime) (req : Request) where
  finish_clear-seen :
      (p : ChannelPayload) (target : SessionTarget) (s : State rt)
      (r : Bool × ForwardState rt.assistant.World)
      → (finish_clear rt req p target s r).1.seen ≡ s.seen
  unfolding finish_clear reject
  finish_clear-seen p target s (false, f) = refl
  finish_clear-seen p target s (true, f) = refl

  finish_ask-seen :
      (p : ChannelPayload) (target : SessionTarget) (s : State rt)
      (r : Outcome × ForwardState rt.assistant.World)
      → (finish_ask rt req p target s r).1.seen ≡ s.seen
  unfolding finish_ask reject
  finish_ask-seen p target s (thrown, f) = refl
  finish_ask-seen p target s (answered text id, f) = refl

  forward_message-seen :
      (p : ChannelPayload) (s : State rt) → (forward_message rt req p s).1.seen ≡ s.seen
  unfolding forward_message
  forward_message-seen p s =
      let target = resolve_session_target p.user_id p.channel p.metadata in
      ground (
        arith,
        finish_clear-seen p target s
            (clear_assistant_sessions rt.assistant rt.session_ttl target s.forward),
        finish_ask-seen p target s
            (ask_assistant rt.assistant rt.session_ttl p.text target s.forward),
      )

  check_replay-seen :
      (p : ChannelPayload) (s : State rt)
      → (check_replay rt req p s).1.seen
        ≡ (check_nonce nonce_max_size req.nonce_time p.nonce p.timestamp s.seen).0
  unfolding check_replay reject
  check_replay-seen p s =
      let noted = (check_nonce nonce_max_size req.nonce_time p.nonce p.timestamp s.seen).0 in
      ground (arith, forward_message-seen p (record s { seen = noted }))

  -- What serving this payload does to the nonces.
  record Notes (p : ChannelPayload) (s : State rt) (r : Response × State rt) : Type 0 where
    pub fresh : (check_nonce nonce_max_size req.nonce_time p.nonce p.timestamp s.seen).1 ≡ true
    pub noted : r.1.seen ≡ (check_nonce nonce_max_size req.nonce_time p.nonce p.timestamp s.seen).0

  authenticate-Notes :
      (p : ChannelPayload) (s : State rt)
      → IsForwarded (authenticate rt req p s)
      → Notes p s (authenticate rt req p s)
  unfolding authenticate
  authenticate-Notes p s h =
      let (_, at_user, by_secret) = secret_checked rt req p _ _ h in
      let (_, at_channel, by_user) = allowed_of_user rt req p _ at_user in
      let (_, at_replay, by_channel) = allowed_of_channel rt req p _ at_channel in
      record {
        fresh = fresh_of_replay rt req p _ at_replay;
        noted = rw (by_secret, by_user, by_channel) (check_replay-seen p _);
      }

  inbound-Notes :
      (s : State rt)
      → (h : IsForwarded (inbound rt req s))
      → Notes (inbound-Reached rt req s h).payload s (inbound rt req s)
  inbound-Notes s h =
      let r = inbound-Reached rt req s h in
      subst (Notes r.payload s) (sym r.served)
        (authenticate-Notes r.payload s (subst IsForwarded r.served h))

-- What comes to the guardian: a request for the message path, or the timer that prunes the nonces.
pub data Arrival : Type 0 where
  message : Request → Arrival
  prune_timer : ℕ → Arrival

abbrev pub arrival_time : Arrival → ℕ
arrival_time (message req) = req.nonce_time
arrival_time (prune_timer now) = now

-- The clock does not go back between the replay checks.
abbrev pub InOrder : ℕ → List Arrival → Type 0
InOrder now [] = Unit
InOrder now (a ∷ rest) = (now ≤ arrival_time a) × InOrder (arrival_time a) rest

module _ (rt : Runtime) where
  unfoldable pub serve : Arrival → State rt → State rt
  serve (message req) s = (inbound rt req s).1
  serve (prune_timer now) s = record s { seen = prune_nonce_cache nonce_max_size now s.seen }

  abbrev pub takes : Text → Arrival → State rt → Bool
  takes raw (message req) s = (req.raw == raw) && is_forwarded (inbound rt req s)
  takes raw (prune_timer now) s = false

  -- How often a message with this body is taken to the assistant.
  unfoldable pub times_taken : Text → List Arrival → State rt → ℕ
  times_taken raw [] s = 0
  times_taken raw (a ∷ rest) s = (if takes raw a s then 1 else 0) + times_taken raw rest (serve a s)

  -- The hard cap of the nonces is not reached on the way.
  unfoldable pub HasRoom : List Arrival → State rt → Type 0
  HasRoom [] s = Unit
  HasRoom (a ∷ rest) s = (suc (length s.seen) ≤ nonce_max_size) × HasRoom rest (serve a s)

  module _ (nonce : Text) (ts : ℕ) where
    IsSpent-later :
        (before now : ℕ) (seen : Seen)
        → before ≤ now
        → IsSpent nonce ts before seen
        → IsSpent nonce ts now seen
    IsSpent-later before now seen h (inl e) = inl e
    IsSpent-later before now seen h (inr l) = inr (omega arith)

    inbound-IsSpent :
        (req : Request) (s : State rt)
        → suc (length s.seen) ≤ nonce_max_size
        → IsSpent nonce ts req.nonce_time s.seen
        → IsSpent nonce ts req.nonce_time (inbound rt req s).1.seen
    inbound-IsSpent req s room h = elim (Bool-cases (is_forwarded (inbound rt req s))) [
      | inl e ↦
          let f = (is_forwarded_iff (inbound rt req s)).0 e in
          let p = (inbound-Reached rt req s f).payload in
          subst (IsSpent nonce ts req.nonce_time) (sym (inbound-Notes rt req s f).noted)
            (check-IsSpent nonce_max_size nonce ts req.nonce_time p.nonce p.timestamp s.seen room h)
      | inr e ↦
          subst (IsSpent nonce ts req.nonce_time)
            (sym (
              (inbound-Keeps rt req s).nonces
                (λ f. cc ((is_forwarded_iff (inbound rt req s)).1 f))))
            h
    ]

    serve-IsSpent :
        (a : Arrival) (before : ℕ) (s : State rt)
        → before ≤ arrival_time a
        → suc (length s.seen) ≤ nonce_max_size
        → IsSpent nonce ts before s.seen
        → IsSpent nonce ts (arrival_time a) (serve a s).seen
    unfolding serve
    serve-IsSpent (message req) before s o room h =
        inbound-IsSpent req s room (IsSpent-later before req.nonce_time s.seen o h)
    serve-IsSpent (prune_timer now) before s o room h =
        prune-IsSpent nonce_max_size now nonce ts s.seen (omega arith)
          (IsSpent-later before now s.seen o h)

  module _ (raw : Text) (body : Value) (p : ChannelPayload) (parsed : rt.json_parse raw ≡ some body)
      (valid : validate_payload body ≡ ok p) where
    same_payload :
        (req : Request) (s : State rt) → req.raw ≡ raw → (r : Reached rt req s) → r.payload ≡ p
    same_payload req s e r = cc (e, parsed, valid, r.parsed, r.valid)

    spent_stays_out :
        (req : Request) (s : State rt)
        → req.raw ≡ raw
        → IsSpent p.nonce p.timestamp req.nonce_time s.seen
        → ¬ (IsForwarded (inbound rt req s))
    spent_stays_out req s e h f =
        let fresh = (inbound-Notes rt req s f).fresh in
        let same = same_payload req s e (inbound-Reached rt req s f) in
        let refused = spent_refused nonce_max_size p.nonce p.timestamp req.nonce_time s.seen h in
        cc (
          subst
              (λ (q : ChannelPayload).
                (check_nonce nonce_max_size req.nonce_time q.nonce q.timestamp s.seen).1 ≡ true)
              same fresh,
          refused,
        )

    spent_not_taken :
        (a : Arrival) (before : ℕ) (s : State rt)
        → before ≤ arrival_time a
        → IsSpent p.nonce p.timestamp before s.seen
        → takes raw a s ≡ false
    spent_not_taken (prune_timer now) before s o h = refl
    spent_not_taken (message req) before s o h = ground (
      arith,
      text_beq_iff req.raw raw,
      is_forwarded_iff (inbound rt req s),
      λ (e : req.raw ≡ raw).
          spent_stays_out req s e
            (IsSpent-later p.nonce p.timestamp before req.nonce_time s.seen o h),
    )

    spent_never_taken :
        (rest : List Arrival) (now : ℕ) (s : State rt)
        → InOrder now rest
        → HasRoom rest s
        → IsSpent p.nonce p.timestamp now s.seen
        → times_taken raw rest s ≡ 0
    unfolding times_taken HasRoom
    spent_never_taken [] now s o room h = refl
    spent_never_taken (a ∷ rest) now s o room h = rw (spent_not_taken a now s o.0 h) (
        omega (
          arith,
          spent_never_taken rest (arrival_time a) (serve a s) o.1 room.1
              (serve-IsSpent p.nonce p.timestamp a now s o.0 room.0 h),
        ))

  -- Once a message has been taken to the assistant, a message with the same body never is again,
  -- whatever else arrives and however often the nonces are pruned, as long as the clock does not
  -- go back between the replay checks and the hard cap of the nonces is not reached.
  pub taken_once :
      (req : Request) (s : State rt) (later : List Arrival)
      → suc (length s.seen) ≤ nonce_max_size
      → IsForwarded (inbound rt req s)
      → InOrder req.nonce_time later
      → HasRoom later (inbound rt req s).1
      → times_taken req.raw later (inbound rt req s).1 ≡ 0
  taken_once req s later room f o h =
      let r = inbound-Reached rt req s f in
      let notes = inbound-Notes rt req s f in
      spent_never_taken req.raw r.body r.payload r.parsed r.valid later req.nonce_time _ o h (
        subst (IsSpent r.payload.nonce r.payload.timestamp req.nonce_time) (sym notes.noted) (
          accept-IsSpent nonce_max_size r.payload.nonce r.payload.timestamp req.nonce_time s.seen
            room notes.fresh))
