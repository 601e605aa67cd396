-- ===== src/Channels/SessionKeys/Tests.antt =====
-- Session keys of concrete messages.
use openpalm.Base.{◌≡◌, refl, [], codes, arith, false}
use openpalm.Channels.SessionKeys.{
  Context, conversation_of, resolve_session_key, build_channel_user_session_key,
  resolve_session_key_injective,
}

abbrev post : Context
post = record { channel_id = codes "C1"; user_id = codes "U1"; thread_ts = []; is_dm = false }

named : resolve_session_key post ≡ codes "slack:channel:C1:user:U1"
unfolding resolve_session_key build_channel_user_session_key
named = refl

resolve_session_key_injective_example :
    conversation_of post ≡ conversation_of (record post { channel_id = codes "C1" })
resolve_session_key_injective_example =
    resolve_session_key_injective post (record post { channel_id = codes "C1" }) (omega arith)
      (omega arith) refl
