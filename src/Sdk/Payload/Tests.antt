-- ===== src/Sdk/Payload/Tests.antt =====
-- Validation of concrete messages.
use openpalm.Base.{◌≡◌, ◌↔◌, refl, Text, codes, trim}
use openpalm.Sdk.Value.{Value, string, number, object, field, end, property}
use openpalm.Sdk.Payload.{
  ChannelPayload, invalid_payload, ok, err, required, bounded, member, non_blank, number_of,
  validate_payload,
}
use openpalm.Sdk.Payload.Laws.{Holds, validate_payload_iff, validate_payload_error}

abbrev message : Text → Value
message text = object (
    field (codes "userId") (string (codes "u1")) (
      field (codes "channel") (string (codes "chat")) (
        field (codes "text") (string text) (
          field (codes "nonce") (string (codes "n1"))
            (field (codes "timestamp") (number 1_000_000) end)))))

abbrev greeting : ChannelPayload
greeting = record {
  user_id = codes "u1";
  channel = codes "chat";
  text = codes "hi";
  nonce = codes "n1";
  timestamp = 1_000_000;
  metadata = Value.undefined;
}

accepts : validate_payload (message (codes "hi")) ≡ ok greeting
unfolding validate_payload required bounded member non_blank number_of property trim
accepts = refl

rejects_blank : validate_payload (message (codes " ")) ≡ err invalid_payload
unfolding validate_payload required bounded member non_blank number_of property trim
rejects_blank = refl

validate_payload_iff_example :
    (validate_payload (message (codes "hi")) ≡ ok greeting) ↔ Holds (message (codes "hi")) greeting
validate_payload_iff_example = validate_payload_iff (message (codes "hi")) greeting

validate_payload_error_example : invalid_payload ≡ invalid_payload
validate_payload_error_example =
    validate_payload_error (message (codes " ")) invalid_payload rejects_blank
