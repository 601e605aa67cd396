-- ===== src/Channels/Api/Access.antt =====
-- Who reaches the guardian through the API, and with what.
use openpalm.Base.{
  ℕ, ◌≡◌, ◌⊎◌, ◌↔◌, inl, inr, refl, arith, true, false, ◌||◌, [], ◌∷◌, Option, none, some,
  Option-cases, Bool-cases, Text, or_else, trim, codes, text_eq,
}
use openpalm.Sdk.Value.{Value, string, object, field, end, is_true}
use openpalm.Sdk.Compare.Laws.{constant_time_equal_iff}
use openpalm.Sdk.Payload.{member}
use openpalm.Channels.Adapter.{Guardian, forward}
use openpalm.Channels.Api.{ApiRequest, bearer_token, check_open_ai_auth, check_anthropic_auth}
use openpalm.Channels.Api.Handler.{
  Endpoint, chat_completions, completions, messages, authorized, is_nullish, text_or, text_of,
  user_of, forward_text, handle_body, handle_endpoint, route,
}

-- The key that a request shows at an endpoint.
abbrev pub shown_key : Endpoint → ApiRequest → Text
shown_key chat_completions req = bearer_token (trim (or_else req.authorization []))
shown_key completions req = bearer_token (trim (or_else req.authorization []))
shown_key messages req = trim (or_else req.x_api_key [])

no_token : bearer_token (trim []) ≡ []
unfolding bearer_token trim
no_token = refl

open_ai_iff :
    (key : Text) (header : Option Text)
    → (check_open_ai_auth key header ≡ true)
      ↔ ((key ≡ []) ⊎ (bearer_token (trim (or_else header [])) ≡ key))
unfolding check_open_ai_auth
open_ai_iff [] header = ground arith
open_ai_iff (c ∷ key) none = ground (arith, no_token)
open_ai_iff (c ∷ key) (some []) = ground (arith, no_token)
open_ai_iff (c ∷ key) (some (d ∷ header)) =
    ground (arith, constant_time_equal_iff (bearer_token (trim (d ∷ header))) (c ∷ key))

anthropic_iff :
    (key : Text) (header : Option Text)
    → (check_anthropic_auth key header ≡ true) ↔ ((key ≡ []) ⊎ (trim (or_else header []) ≡ key))
unfolding check_anthropic_auth
anthropic_iff [] header = ground arith
anthropic_iff (c ∷ key) header =
    ground (arith, constant_time_equal_iff (trim (or_else header [])) (c ∷ key))

-- A request may use an endpoint exactly when no key is configured or it shows the key: as bearer
-- token at the endpoints of OpenAI, in its own header at that of Anthropic.
pub authorized_iff :
    (key : Text) (e : Endpoint) (req : ApiRequest)
    → (authorized key e req ≡ true) ↔ ((key ≡ []) ⊎ (shown_key e req ≡ key))
authorized_iff key chat_completions req = open_ai_iff key req.authorization
authorized_iff key completions req = open_ai_iff key req.authorization
authorized_iff key messages req = anthropic_iff key req.x_api_key

module _ (g : Guardian) (hmac : Text → Text → Text) (json_stringify : Value → Text)
    (number_text : ℕ → Text) (name secret api_key : Text) where
  -- The one message that a request sends to the guardian, and who may send it.
  pub record Sends (req : ApiRequest) (w w' : g.World) : Type 0 where
    pub endpoint : Endpoint
    pub body : Value
    pub text : Text
    pub allowed : (api_key ≡ []) ⊎ (shown_key endpoint req ≡ api_key)
    pub parsed : req.body ≡ some body
    pub not_streamed : is_true (member (codes "stream") body) ≡ false
    pub asked : text_of number_text endpoint body ≡ some text
    pub posted :
        w'
        ≡ (forward g hmac json_stringify name secret req.nonce req.now
            (user_of endpoint body)
            text
            (object (
              field
                (codes "model")
                (string (text_or (codes "openpalm") (member (codes "model") body)))
                end))
            w).1

  body-Sends :
      (e : Endpoint) (req : ApiRequest) (body : Value) (w : g.World)
      → (api_key ≡ []) ⊎ (shown_key e req ≡ api_key)
      → req.body ≡ some body
      → let r = handle_body g hmac json_stringify number_text name secret api_key e req body w in
        (r.1 ≡ w) ⊎ Sends req w r.1
  unfolding handle_body forward_text
  body-Sends e req body w may parsed = elim (Option-cases (text_of number_text e body)) [
    | inl none_there ↦ inl (ground (arith, none_there))
    | inr (text, asked) ↦
        elim (Bool-cases (is_nullish body || is_true (member (codes "stream") body))) [
          | inl early ↦ inl (ground (arith, asked))
          | inr on ↦ inr (record {
            endpoint = e;
            body = body;
            text = text;
            allowed = may;
            parsed = parsed;
            not_streamed = ground arith;
            asked = asked;
            posted = ground (arith, asked);
          })
        ]
  ]

  endpoint-Sends :
      (e : Endpoint) (req : ApiRequest) (w : g.World)
      → let r = handle_endpoint g hmac json_stringify number_text name secret api_key e req w in
        (r.1 ≡ w) ⊎ Sends req w r.1
  unfolding handle_endpoint
  endpoint-Sends e req w = elim (Bool-cases (authorized api_key e req)) [
    | inr denied ↦ inl (ground (arith, denied))
    | inl granted ↦ elim (Option-cases req.body) [
      | inl none_there ↦ inl (ground (arith, none_there))
      | inr (body, parsed) ↦ ground (
        arith,
        granted,
        parsed,
        body-Sends e req body w ((authorized_iff api_key e req).0 granted) parsed,
      )
    ]
  ]

  -- A request to the API leaves the guardian alone, or sends it exactly one message. It sends one
  -- only if no key is configured or it shows the key, and if its body is JSON that asks for no
  -- streaming and holds a text for the endpoint; that text is the message's.
  pub route-Sends :
      (req : ApiRequest) (w : g.World)
      → let r = route g hmac json_stringify number_text name secret api_key req w in
        (r.1 ≡ w) ⊎ Sends req w r.1
  unfolding route
  route-Sends req w = ground (
    arith,
    endpoint-Sends chat_completions req w,
    endpoint-Sends completions req w,
    endpoint-Sends messages req w,
  )
