-- ===== src/Channels/Api/Handler.antt =====
-- packages/channel-api/src/index.ts: the routes. The guardian is the one of Channels.Adapter; random
-- ids and times are left out of the answers; `String(p)` of a number is a parameter.
use openpalm.Base.{
  ℕ, Bool, true, false, ◌&&◌, not, List, [], ◌∷◌, ◌++◌, Option, none, some, Text, text_eq, codes,
  or_else, is_empty, trim, if◌then◌else◌, ◌==◌,
}
use openpalm.Sdk.Value.{
  Value, undefined, null, string, number, array, object, field, end, as_record, is_true, property,
  items,
}
use openpalm.Sdk.Payload.{non_blank, member}
use openpalm.Channels.Adapter.{Guardian, GuardianResponse, is_ok, relayed_status, forward}
use openpalm.Channels.Api.{ApiRequest, check_open_ai_auth, check_anthropic_auth}
use openpalm.Channels.Api.ChatText.{extract_chat_text}

pub data Family : Type 0 where
  open_ai anthropic : Family

pub data Endpoint : Type 0 where
  chat_completions completions messages : Endpoint

pub data ApiReply : Type 0 where
  models : ApiReply
  -- An error in the form of one of the two interfaces: the status and the message.
  failure : Family → ℕ → Text → ApiReply
  guardian_failure : Family → ℕ → ℕ → ApiReply
  -- The endpoint, the model and the answer.
  completed : Endpoint → Text → Text → ApiReply
  -- An exception that nothing catches.
  uncaught : ApiReply

abbrev pub family : Endpoint → Family
family chat_completions = open_ai
family completions = open_ai
family messages = anthropic

abbrev pub authorized : Text → Endpoint → ApiRequest → Bool
authorized api_key chat_completions req = check_open_ai_auth api_key req.authorization
authorized api_key completions req = check_open_ai_auth api_key req.authorization
authorized api_key messages req = check_anthropic_auth api_key req.x_api_key

abbrev pub is_nullish : Value → Bool
is_nullish null = true
is_nullish undefined = true
is_nullish _ = false

-- `typeof v === "string" && v.trim() ? v : fallback`
abbrev pub text_or : Text → Value → Text
text_or fallback v = or_else (non_blank v) fallback

-- The parts of a prompt, if all of them are texts or numbers.
unfoldable pub prompt_parts : (ℕ → Text) → List Value → Option (List Text)
prompt_parts number_text [] = some []
prompt_parts number_text (v ∷ vs) = elim (prompt_parts number_text vs) [
  | none ↦ none
  | some ts ↦ elim v [ string s ↦ some (s ∷ ts) | number n ↦ some (number_text n ∷ ts) | _ ↦ none ]
]

abbrev pub spaced : List Text → Text
spaced [] = []
spaced (t ∷ ts) = elim ts [ [] ↦ t | _ ∷ _ ↦ t ++ b' ' ∷ spaced ts ]

unfoldable pub prompt_text : (ℕ → Text) → Value → Option Text
prompt_text number_text (array parts) = elim (prompt_parts number_text (items parts)) [
  | none ↦ none
  | some ts ↦ if is_empty (trim (spaced ts)) then none else some (spaced ts)
]
prompt_text number_text v = non_blank v

-- An empty text counts as none.
abbrev pub filled : Option Text → Option Text
filled none = none
filled (some t) = if is_empty t then none else some t

module _ (number_text : ℕ → Text) where
  unfoldable pub text_of : Endpoint → Value → Option Text
  text_of chat_completions body = filled (extract_chat_text (member (codes "messages") body))
  text_of completions body = filled (prompt_text number_text (member (codes "prompt") body))
  text_of messages body = filled (extract_chat_text (member (codes "messages") body))

abbrev pub missing_text : Endpoint → Text
missing_text chat_completions = codes "messages with user content is required"
missing_text completions = codes "prompt is required"
missing_text messages = codes "messages with user content is required"

unfoldable pub user_of : Endpoint → Value → Text
user_of chat_completions body = text_or (codes "api-user") (member (codes "user") body)
user_of completions body = text_or (codes "api-user") (member (codes "user") body)
user_of messages body = elim (as_record (member (codes "metadata") body)) [
  | none ↦ codes "api-user"
  | some meta ↦ text_or (codes "api-user") (property (codes "user_id") meta)
]

-- What becomes of the guardian's answer: an error reply, or the text of the answer.
unfoldable pub read_guardian : Endpoint → Text → Option GuardianResponse → ApiReply
read_guardian e model none = failure (family e) 502 (codes "Guardian unavailable")
read_guardian e model (some r) =
    if not (is_ok r) then guardian_failure (family e) (relayed_status r) r.status else elim r.body [
      | none ↦ failure (family e) 502 (codes "Guardian returned invalid JSON")
      | some v ↦ if is_nullish v then uncaught else elim (member (codes "answer") v) [
        | string answer ↦ completed e model answer
        | _ ↦ completed e model []
      ]
    ]

module _ (g : Guardian) (hmac : Text → Text → Text) (json_stringify : Value → Text)
    (number_text : ℕ → Text) (name secret api_key : Text) where
  unfoldable pub forward_text : Endpoint → ApiRequest → Value → Text → g.World → ApiReply × g.World
  forward_text e req body text w =
      let model = text_or (codes "openpalm") (member (codes "model") body) in
      let metadata = object (field (codes "model") (string model) end) in
      let (response, w') =
        forward g hmac json_stringify name secret req.nonce req.now (user_of e body) text metadata
          w in
      (read_guardian e model response, w')

  unfoldable pub handle_body : Endpoint → ApiRequest → Value → g.World → ApiReply × g.World
  handle_body e req body w =
      if is_nullish body
      then (uncaught, w)
      else if is_true (member (codes "stream") body)
      then (failure (family e) 400 (codes "Streaming is not supported"), w)
      else elim (text_of number_text e body) [
        | none ↦ (failure (family e) 400 (missing_text e), w)
        | some text ↦ forward_text e req body text w
      ]

  unfoldable pub handle_endpoint : Endpoint → ApiRequest → g.World → ApiReply × g.World
  handle_endpoint e req w =
      if not (authorized api_key e req)
      then (failure (family e) 401 (codes "Unauthorized"), w)
      else elim req.body [
        | none ↦ (failure (family e) 400 (codes "Invalid JSON"), w)
        | some body ↦ handle_body e req body w
      ]

  unfoldable pub route : ApiRequest → g.World → ApiReply × g.World
  route req w =
      if req.path == codes "/v1/models" && req.method == codes "GET"
      then (models, w)
      else if req.path == codes "/v1/chat/completions" && req.method == codes "POST"
      then handle_endpoint chat_completions req w
      else if req.path == codes "/v1/completions" && req.method == codes "POST"
      then handle_endpoint completions req w
      else if req.path == codes "/v1/messages" && req.method == codes "POST"
      then handle_endpoint messages req w
      else (failure open_ai 404 (codes "Not found"), w)
