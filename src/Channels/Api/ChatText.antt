-- ===== src/Channels/Api/ChatText.antt =====
-- packages/channels-sdk/src/utils.ts: `extractChatText`, the text of the last message of the user.
use openpalm.Base.{List, [], ◌∷◌, Option, none, some, Text, text_eq, codes, join, if◌then◌else◌}
use openpalm.Sdk.Value.{Value, array, items, is_text, as_record, Fields, property}
use openpalm.Sdk.Payload.{non_blank}

-- The texts of the parts that are texts and not blank.
unfoldable pub text_parts : List Value → List Text
text_parts [] = []
text_parts (part ∷ parts) =
    let rest = text_parts parts in
    elim (as_record part) [
      | none ↦ rest
      | some p ↦
          if is_text (codes "text") (property (codes "type") p)
          then elim (non_blank (property (codes "text") p)) [ none ↦ rest | some t ↦ t ∷ rest ]
          else rest
    ]

unfoldable pub joined_parts : Value → Option Text
joined_parts (array parts) = elim (text_parts (items parts)) [
  | [] ↦ none
  | t ∷ ts ↦ some (join b'\n' (t ∷ ts))
]
joined_parts _ = none

-- What one message of the user gives.
unfoldable pub user_text : Fields → Option Text
user_text message =
    if is_text (codes "user") (property (codes "role") message)
    then elim (non_blank (property (codes "content") message)) [
      | some text ↦ some text
      | none ↦ joined_parts (property (codes "content") message)
    ]
    else none

unfoldable pub message_text : Value → Option Text
message_text v = elim (as_record v) [ none ↦ none | some message ↦ user_text message ]

-- The last message that gives a text.
unfoldable pub last_text : List Value → Option Text
last_text [] = none
last_text (v ∷ vs) = elim (last_text vs) [ some text ↦ some text | none ↦ message_text v ]

unfoldable pub extract_chat_text : Value → Option Text
extract_chat_text (array messages) = last_text (items messages)
extract_chat_text _ = none
