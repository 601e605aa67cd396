-- ===== src/Channels/Api/Tests.antt =====
-- The API at concrete requests.
use openpalm.Base.{ℕ, suc, ◌≡◌, ◌⊎◌, refl, [], ◌++◌, some, none, Text, codes, trim, join}
use openpalm.Sdk.Value.{Value, null, string, array, object, field, end, nil, cons, property}
use openpalm.Sdk.Compare.{constant_time_equal, diff_from}
use openpalm.Sdk.Payload.{member, non_blank}
use openpalm.Channels.Adapter.{Guardian, forward, forward_channel_message}
use openpalm.Channels.Api.{ApiRequest, bearer_token, check_open_ai_auth}
use openpalm.Channels.Api.ChatText.{
  extract_chat_text, last_text, message_text, user_text, joined_parts, text_parts,
}
use openpalm.Channels.Api.Handler.{
  chat_completions, completed, uncaught, text_of, read_guardian, forward_text, handle_body,
  handle_endpoint, route,
}
use openpalm.Channels.Api.Access.{Sends, route-Sends}

-- A guardian that counts what it is sent and always answers "yes".
abbrev yes_guardian : Guardian
yes_guardian = record {
  World = ℕ;
  post = λ body sig w. (
    some (record {
      status = 200;
      body = some (object (field (codes "answer") (string (codes "yes")) end));
    }),
    suc w,
  );
}

-- Two messages: the user's, in parts, and one of the system.
abbrev chat : Value
chat = object (
    field (codes "messages")
      (array (
        cons
          (object (
            field (codes "role") (string (codes "user")) (
              field (codes "content")
                (array (
                  cons
                    (object (
                      field (codes "type") (string (codes "text"))
                        (field (codes "text") (string (codes "a")) end)))
                    (cons
                      (object (
                        field (codes "type") (string (codes "text"))
                          (field (codes "text") (string (codes "b")) end)))
                      nil)))
                end)))
          (cons (object (field (codes "role") (string (codes "system")) end)) nil)))
      end)

abbrev request : Text → Value → ApiRequest
request key body = record {
  path = codes "/v1/chat/completions";
  method = codes "POST";
  authorization = some (codes "bearer  " ++ key);
  x_api_key = none;
  body = some body;
  nonce = codes "n";
  now = 1;
}

abbrev digits : ℕ → Text
digits n = codes "#"

last_of_user : extract_chat_text (array (cons (string (codes "x")) nil)) ≡ none
unfolding extract_chat_text last_text message_text
last_of_user = refl

joins_parts : extract_chat_text (member (codes "messages") chat) ≡ some (codes "a\nb")
unfolding extract_chat_text last_text message_text user_text joined_parts text_parts member property
    non_blank trim join
joins_parts = refl

answers :
    route yes_guardian
      (λ k t. k)
      (λ v. [])
      digits
      (codes "api")
      (codes "s")
      (codes "key")
      (request (codes "key") chat)
      0
    ≡ (completed chat_completions (codes "openpalm") (codes "yes"), 1)
unfolding route handle_endpoint check_open_ai_auth bearer_token trim constant_time_equal diff_from
    handle_body text_of extract_chat_text last_text message_text user_text joined_parts text_parts
    member property non_blank join forward_text forward forward_channel_message read_guardian
answers = refl

-- A body of null passes the parser and breaks the handler.
null_breaks :
    (route yes_guardian
      (λ k t. k)
      (λ v. [])
      digits
      (codes "api")
      (codes "s")
      []
      (request [] null)
      0).0
    ≡ uncaught
unfolding route handle_endpoint check_open_ai_auth handle_body
null_breaks = refl

route-Sends_example :
    let r =
      route yes_guardian
        (λ k t. k)
        (λ v. [])
        digits
        (codes "api")
        (codes "s")
        (codes "key")
        (request (codes "key") chat)
        0 in
    (r.1 ≡ 0)
    ⊎ Sends yes_guardian
        (λ k t. k)
        (λ v. [])
        digits
        (codes "api")
        (codes "s")
        (codes "key")
        (request (codes "key") chat)
        0
        r.1
route-Sends_example =
    route-Sends yes_guardian (λ k t. k) (λ v. []) digits (codes "api") (codes "s") (codes "key")
      (request (codes "key") chat) 0
