-- ===== src/Channels/Api.antt =====
-- packages/channel-api/src/index.ts: who may use the adapter for the interfaces of
-- OpenAI and Anthropic.
pub mod ChatText
pub mod Handler
pub mod Access
pub mod Tests
use openpalm.Base.{
  ℕ, Bool, true, false, ◌&&◌, not, List, [], ◌∷◌, Option, none, some, Text, text_eq, codes, or_else,
  is_empty, is_space, trim, drop, take, any_by, nat_beq, leb, ◌+◌, map, if◌then◌else◌, ◌==◌,
}
use openpalm.Sdk.Value.{
  Value, undefined, string, number, array, object, as_record, Fields, property, items,
}
use openpalm.Sdk.Compare.{constant_time_equal}
use openpalm.Sdk.Payload.{non_blank, member}

-- A request; the body is `none` where it is no JSON.
pub record ApiRequest : Type 0 where
  pub path : Text
  pub method : Text
  pub authorization : Option Text
  pub x_api_key : Option Text
  pub body : Option Value
  pub nonce : Text
  pub now : ℕ

-- `toLowerCase` on ASCII, as the flag `i` compares.
abbrev pub lower : ℕ → ℕ
lower c = if leb b'A' c && leb c b'Z' then c + 32 else c

-- `/^Bearer\s+(\S+)\s*$/i` on a trimmed text, where no blanks follow the token.
unfoldable pub bearer_token : Text → Text
bearer_token header =
    let rest = drop 6 header in
    let token = trim rest in
    if map lower (take 6 header) == codes "bearer"
      && any_by (λ c. is_space c) (take 1 rest)
      && not (any_by (λ c. is_space c) token)
    then token
    else []

unfoldable pub check_open_ai_auth : Text → Option Text → Bool
check_open_ai_auth api_key header =
    if is_empty api_key
    then true
    else if is_empty (or_else header [])
    then false
    else let token = bearer_token (trim (or_else header [])) in
      if is_empty token then false else constant_time_equal token api_key

unfoldable pub check_anthropic_auth : Text → Option Text → Bool
check_anthropic_auth api_key header =
    if is_empty api_key
    then true
    else let given = trim (or_else header []) in
      if is_empty given then false else constant_time_equal given api_key
