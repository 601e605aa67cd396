-- ===== src/Sdk/Payload/Laws.antt =====
-- Which values are payloads.
use openpalm.Base.{
  ℕ, ◌≤◌, ◌≡◌, ◌≢◌, ◌↔◌, true, some, [], Option-cases, Text, codes, trim, subst, length, arith, inl,
  inr,
}
use openpalm.Sdk.Value.{Value, number, string}
use openpalm.Sdk.Payload.{
  ErrorCode, invalid_payload, ChannelPayload, ok, err, is_object, member, non_blank, number_of,
  required, bounded, validate_payload,
}

-- The member of that name is a string that is not blank and not too long.
abbrev pub IsText : Text → Value → Text → ℕ → Type 0
IsText key o s most = (member key o ≡ string s) × (trim s ≢ []) × (length s ≤ most)

-- The value holds the payload, field by field.
pub record Holds (o : Value) (p : ChannelPayload) : Type 0 where
  pub user_id : IsText (codes "userId") o p.user_id 256
  pub channel : IsText (codes "channel") o p.channel 64
  pub text : IsText (codes "text") o p.text 10_000
  pub nonce : IsText (codes "nonce") o p.nonce 128
  pub timestamp : member (codes "timestamp") o ≡ number p.timestamp
  pub metadata : member (codes "metadata") o ≡ p.metadata

non_blank_iff : (v : Value) (s : Text) → (non_blank v ≡ some s) ↔ ((v ≡ string s) × (trim s ≢ []))
unfolding non_blank
non_blank_iff v s = ground arith

number_of_iff : (v : Value) (n : ℕ) → (number_of v ≡ some n) ↔ (v ≡ number n)
unfolding number_of
number_of_iff v n = ground arith

is_object_of_member :
    (key : Text) (v : Value) (s : Text) → member key v ≡ string s → is_object v ≡ true
unfolding member
is_object_of_member key v s h = ground arith

-- What the fields give one by one.
record Reads (o : Value) (p : ChannelPayload) : Type 0 where
  user_id : non_blank (member (codes "userId") o) ≡ some p.user_id
  channel : non_blank (member (codes "channel") o) ≡ some p.channel
  text : non_blank (member (codes "text") o) ≡ some p.text
  nonce : non_blank (member (codes "nonce") o) ≡ some p.nonce
  timestamp : number_of (member (codes "timestamp") o) ≡ some p.timestamp
  metadata : member (codes "metadata") o ≡ p.metadata

required-Reads : (o : Value) (p : ChannelPayload) → required o ≡ some p → Reads o p
unfolding required
required-Reads o p h = ground arith

Reads-required : (o : Value) (p : ChannelPayload) → Reads o p → required o ≡ some p
unfolding required
Reads-required o p r = ground arith

record IsBounded (p : ChannelPayload) : Type 0 where
  user_id : length p.user_id ≤ 256
  channel : length p.channel ≤ 64
  text : length p.text ≤ 10_000
  nonce : length p.nonce ≤ 128

bounded-IsBounded : (p q : ChannelPayload) → bounded p ≡ ok q → (p ≡ q) × IsBounded p
unfolding bounded
bounded-IsBounded p q h = ground arith

IsBounded-bounded : (p : ChannelPayload) → IsBounded p → bounded p ≡ ok p
unfolding bounded
IsBounded-bounded p h = ground arith

-- A value that is rejected is rejected as an invalid payload.
pub validate_payload_error :
    (body : Value) (e : ErrorCode) → validate_payload body ≡ err e → e ≡ invalid_payload
unfolding validate_payload bounded
validate_payload_error body e h = ground arith

validate_sound : (v : Value) (p : ChannelPayload) → validate_payload v ≡ ok p → Holds v p
unfolding validate_payload
validate_sound v p h = elim (Option-cases (required v)) [
  | inl e ↦ absurd (ground (arith, e))
  | inr (q, e) ↦
      let r = required-Reads v q e in
      let (same, b) = bounded-IsBounded q p (ground (arith, e)) in
      subst (Holds v) same (record {
        user_id =
            (((non_blank_iff _ _).0 r.user_id).0, ((non_blank_iff _ _).0 r.user_id).1, b.user_id);
        channel =
            (((non_blank_iff _ _).0 r.channel).0, ((non_blank_iff _ _).0 r.channel).1, b.channel);
        text = (((non_blank_iff _ _).0 r.text).0, ((non_blank_iff _ _).0 r.text).1, b.text);
        nonce = (((non_blank_iff _ _).0 r.nonce).0, ((non_blank_iff _ _).0 r.nonce).1, b.nonce);
        timestamp = (number_of_iff _ _).0 r.timestamp;
        metadata = r.metadata;
      })
]

validate_complete : (v : Value) (p : ChannelPayload) → Holds v p → validate_payload v ≡ ok p
unfolding validate_payload
validate_complete v p h = ground (
  arith,
  is_object_of_member (codes "userId") v p.user_id,
  Reads-required v p (record {
    user_id = (non_blank_iff _ _).1 (h.user_id.0, h.user_id.1);
    channel = (non_blank_iff _ _).1 (h.channel.0, h.channel.1);
    text = (non_blank_iff _ _).1 (h.text.0, h.text.1);
    nonce = (non_blank_iff _ _).1 (h.nonce.0, h.nonce.1);
    timestamp = (number_of_iff _ _).1 h.timestamp;
    metadata = h.metadata;
  }),
  IsBounded-bounded p
      (record { user_id = h.user_id.2; channel = h.channel.2; text = h.text.2; nonce = h.nonce.2 }),
)

-- A value is accepted as a payload exactly when its members are that payload's: the four strings
-- not blank and within 256, 64, 10,000 and 128 code units, and the timestamp a number.
pub validate_payload_iff :
    (body : Value) (p : ChannelPayload) → (validate_payload body ≡ ok p) ↔ Holds body p
validate_payload_iff body p = (validate_sound body p, validate_complete body p)
