-- ===== src/Channels/SessionKeys.antt =====
-- packages/channel-slack/src/session.ts: the keys of its conversations, under which they are queued
-- and which the adapter sends along as the session's key.
pub mod Tests
use openpalm.Base.{
  ℕ, ◌≡◌, ◌≢◌, ◌++◌, refl, ap, Bool, true, false, List, [], ◌∷◌, Text, codes, arith, is_empty, not,
  Lacks, append-sep_injective, if◌then◌else◌,
}

unfoldable pub build_thread_session_key : Text → Text → Text
build_thread_session_key channel_id thread_ts =
    codes "slack:thread:" ++ (channel_id ++ b':' ∷ thread_ts)

unfoldable pub build_dm_session_key : Text → Text
build_dm_session_key user_id = codes "slack:dm:" ++ user_id

unfoldable pub build_channel_user_session_key : Text → Text → Text
build_channel_user_session_key channel_id user_id =
    codes "slack:channel:" ++ (channel_id ++ b':' ∷ (codes "user:" ++ user_id))

-- `thread_ts` is empty where there is no thread.
pub record Context : Type 0 where
  pub channel_id : Text
  pub user_id : Text
  pub thread_ts : Text
  pub is_dm : Bool

unfoldable pub resolve_session_key : Context → Text
resolve_session_key context =
    if not (is_empty context.thread_ts)
    then build_thread_session_key context.channel_id context.thread_ts
    else if context.is_dm
    then build_dm_session_key context.user_id
    else build_channel_user_session_key context.channel_id context.user_id

-- What a message is part of: a thread, the user's direct messages, or what the user writes in a
-- channel.
pub data Conversation : Type 0 where
  thread : Text → Text → Conversation
  direct : Text → Conversation
  in_channel : Text → Text → Conversation

abbrev pub conversation_of : Context → Conversation
conversation_of context =
    if not (is_empty context.thread_ts)
    then thread context.channel_id context.thread_ts
    else if context.is_dm
    then direct context.user_id
    else in_channel context.channel_id context.user_id

unfoldable key_of : Conversation → Text
unfolding build_thread_session_key build_dm_session_key build_channel_user_session_key
key_of (thread c t) = build_thread_session_key c t
key_of (direct u) = build_dm_session_key u
key_of (in_channel c u) = build_channel_user_session_key c u

resolve_key_of : (x : Context) → resolve_session_key x ≡ key_of (conversation_of x)
unfolding resolve_session_key key_of
resolve_key_of x = ground arith

HasPlainChannel : Conversation → Type 0
HasPlainChannel (thread c t) = Lacks b':' c
HasPlainChannel (direct u) = Unit
HasPlainChannel (in_channel c u) = Lacks b':' c

key_of_injective :
    (x y : Conversation) → HasPlainChannel x → HasPlainChannel y → key_of x ≡ key_of y → x ≡ y
unfolding key_of HasPlainChannel build_thread_session_key build_dm_session_key
    build_channel_user_session_key
key_of_injective (thread c t) (thread c' t') h h' e =
    let (p, q) = append-sep_injective b':' c c' t t' h h' (ground arith) in cc (p, q)
key_of_injective (thread c t) (direct u) h h' e = ground arith
key_of_injective (thread c t) (in_channel c' u) h h' e = ground arith
key_of_injective (direct u) (thread c t) h h' e = ground arith
key_of_injective (direct u) (direct u') h h' e = ap direct (ground arith)
key_of_injective (direct u) (in_channel c u') h h' e = ground arith
key_of_injective (in_channel c u) (thread c' t) h h' e = ground arith
key_of_injective (in_channel c u) (direct u') h h' e = ground arith
key_of_injective (in_channel c u) (in_channel c' u') h h' e =
    let (p, q) =
      append-sep_injective b':' c c' (codes "user:" ++ u) (codes "user:" ++ u') h h'
        (ground arith) in
    let r : u ≡ u' = ground arith in cc (p, r)

of_HasPlainChannel : (x : Context) → Lacks b':' x.channel_id → HasPlainChannel (conversation_of x)
unfolding HasPlainChannel
of_HasPlainChannel x h = ground arith

-- Two Slack messages have one session key only if they are part of the same conversation, if the
-- ids of their channels have no colon.
pub resolve_session_key_injective :
    (x y : Context)
    → Lacks b':' x.channel_id
    → Lacks b':' y.channel_id
    → resolve_session_key x ≡ resolve_session_key y
    → conversation_of x ≡ conversation_of y
resolve_session_key_injective x y h h' e =
    key_of_injective (conversation_of x) (conversation_of y) (of_HasPlainChannel x h)
      (of_HasPlainChannel y h') (cc (e, resolve_key_of x, resolve_key_of y))
