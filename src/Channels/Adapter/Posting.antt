-- ===== src/Channels/Adapter/Posting.antt =====
-- What a channel adapter sends to the guardian.
use openpalm.Base.{◌≤◌, ◌<◌, ◌≡◌, ◌⊎◌, Option, none, some, Text, text_eq, codes}
use openpalm.Sdk.Value.{Value, string, number, object, field}
use openpalm.Sdk.Payload.{non_blank}
use openpalm.Channels.Adapter.{
  Guardian, HandleResult, failed, message, ChannelRequest, ChannelReply, GuardianResponse, refused,
  guardian_error, relayed, uncaught, metadata_field,
}

module _ (g : Guardian) (hmac : Text → Text → Text) (json_stringify : Value → Text)
    (name secret : Text) where
  -- What the one who asked is told, by the guardian's answer; `none` is a guardian that is not
  -- reached.
  pub record Tells (answer : Option GuardianResponse) (reply : ChannelReply) : Type 0 where
    pub unreached : answer ≡ none → reply ≡ refused 502 (codes "guardian_error")
    pub failed :
        (a : GuardianResponse)
        → answer ≡ some a
        → 500 ≤ a.status
        → reply ≡ guardian_error 502 a.status
    pub declined :
        (a : GuardianResponse)
        → answer ≡ some a
        → (a.status < 200) ⊎ (300 ≤ a.status)
        → a.status < 500
        → reply ≡ guardian_error a.status a.status
    pub passed_on :
        (a : GuardianResponse) (v : Value)
        → answer ≡ some a
        → 200 ≤ a.status
        → a.status < 300
        → a.body ≡ some v
        → reply ≡ relayed v
    pub unreadable :
        (a : GuardianResponse)
        → answer ≡ some a
        → 200 ≤ a.status
        → a.status < 300
        → a.body ≡ none
        → reply ≡ uncaught

  -- The one message that a request makes the adapter send, with its signature.
  pub record Posts (req : ChannelRequest) (w : g.World) (r : ChannelReply × g.World) : Type 0 where
    pub result : HandleResult
    pub user_id : Text
    pub text : Text
    pub body : Text
    pub handled : req.handled ≡ message result
    pub has_text : non_blank result.text ≡ some text
    pub has_user : non_blank result.user_id ≡ some user_id
    pub written :
        body
        ≡ json_stringify (
            object (
              field (codes "userId") (string user_id) (
                field (codes "channel") (string name) (
                  field (codes "text") (string text) (
                    field (codes "nonce") (string req.nonce) (
                      field
                        (codes "timestamp")
                        (number req.now)
                        (metadata_field result.metadata)))))))
    pub posted : r.1 ≡ (g.post body (hmac secret body) w).1
    pub tells : Tells (g.post body (hmac secret body) w).0 r.0
