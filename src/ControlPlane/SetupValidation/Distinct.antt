-- ===== src/ControlPlane/SetupValidation/Distinct.antt =====
-- The connections of an input without errors.
use openpalm.Base.{
  ℕ, suc, ◌≡◌, ◌≢◌, ◌++◌, inl, inr, refl, ap, arith, true, false, List, [], ◌∷◌, Bool-cases, Text,
  text_eq, text_beq_iff, codes, map, any_by, ◌==◌, All,
}
use openpalm.Sdk.Value.{Value, undefined, null, bool, number, string, array, object, items}
use openpalm.Sdk.Payload.{is_object, member}
use openpalm.ControlPlane.SetupValidation.{
  is_capability_id, id_of, trimmed, id_errors, validate_connections, validate_connections_array,
  validate_setup_spec, validate_security, validate_owner, filled_errors, at_index,
}

-- Each id is well-formed and none of those before it.
abbrev AreNew : List Text → List Text → Type 0
AreNew seen [] = Unit
AreNew seen (id ∷ ids) =
    (is_capability_id id ≡ true) × (any_by (λ s. s == id) seen ≡ false) × AreNew (id ∷ seen) ids

-- The ids of the connections.
abbrev pub ids : List Value → List Text
ids cs = map id_of cs

append-nil_left : (xs ys : List Text) → xs ++ ys ≡ [] → xs ≡ []
append-nil_left [] ys e = refl
append-nil_left (x ∷ xs) ys e = cc

append-nil_right : (xs ys : List Text) → xs ++ ys ≡ [] → ys ≡ []
append-nil_right [] ys e = e
append-nil_right (x ∷ xs) ys e = cc

module _ (number_text : ℕ → Text) where
  no_id_error :
      (seen : List Text) (i : ℕ) (id : Text)
      → id_errors number_text seen i id ≡ []
      → (is_capability_id id ≡ true) × (any_by (λ s. s == id) seen ≡ false)
  unfolding id_errors
  no_id_error seen i id e = elim (Bool-cases (is_capability_id id)) [
    | inr bad ↦ ground (arith, e, bad)
    | inl good ↦ elim (Bool-cases (any_by (λ s. s == id) seen)) [
      | inl twice ↦ ground (arith, e, good, twice)
      | inr new ↦ (good, new)
    ]
  ]

  connections-AreNew :
      (i : ℕ) (seen : List Text) (cs : List Value)
      → validate_connections number_text i seen cs ≡ []
      → AreNew seen (ids cs)
  unfolding validate_connections
  connections-AreNew i seen [] e = tt
  connections-AreNew i seen (c ∷ cs) e = elim (Bool-cases (is_object c)) [
    | inr no_object ↦ ground (arith, rw (validate_connections, no_object) at e)
    | inl an_object ↦
        let f = rw (validate_connections, an_object) at e in
        let none_here = append-nil_left (id_errors number_text seen i (id_of c)) _ f in
        let id = no_id_error seen i (id_of c) none_here in
        let after_id = append-nil_right (id_errors number_text seen i (id_of c)) _ f in
        let after_name =
          append-nil_right
            (filled_errors number_text (at_index number_text i (codes "].name is required"))
              (trimmed (member (codes "name") c)))
            _ after_id in
        let after_provider =
          append-nil_right
            (filled_errors number_text (at_index number_text i (codes "].provider is required"))
              (trimmed (member (codes "provider") c)))
            _ after_name in
        (
          id.0,
          id.1,
          connections-AreNew (suc i) (id_of c ∷ seen) cs (rw none_here at after_provider),
        )
  ]

-- No two of the texts are the same.
abbrev pub AreDistinct : List Text → Type 0
AreDistinct [] = Unit
AreDistinct (t ∷ ts) = All (λ u. u ≢ t) ts × AreDistinct ts

abbrev IsSeen : Text → List Text → Type 0
IsSeen t seen = any_by (λ s. s == t) seen ≡ true

contrary :
    (t u : Text) (seen : List Text) → u ≡ t → IsSeen t seen → any_by (λ s. s == u) seen ≡ false → ⊥
contrary t u seen e h n = ground (arith, (ap (λ x. any_by (λ s. s == x) seen) e), h, n)

AreNew-apart :
    (t : Text) (seen ts : List Text) → IsSeen t seen → AreNew seen ts → All (λ u. u ≢ t) ts
AreNew-apart t seen [] h n = tt
AreNew-apart t seen (u ∷ ts) h n =
    (λ e. contrary t u seen e h n.1, AreNew-apart t (u ∷ seen) ts (ground (arith, h)) n.2)

AreNew-AreDistinct :
    (seen ts : List Text)
    → AreNew seen ts
    → All (λ t. is_capability_id t ≡ true) ts × AreDistinct ts
AreNew-AreDistinct seen [] n = (tt, tt)
AreNew-AreDistinct seen (t ∷ ts) n =
    let rest = AreNew-AreDistinct (t ∷ seen) ts n.2 in
    let apart = AreNew-apart t (t ∷ seen) ts (ground (arith, text_beq_iff t t)) n.2 in
    ((n.0, rest.0), (apart, rest.1))

-- The connections of a value, if it is an array of them.
abbrev pub connections_of : Value → List Value
connections_of (array cs) = items cs
connections_of _ = []

module _ (number_text : ℕ → Text) where
  array-AreNew :
      (v : Value)
      → validate_connections_array number_text v ≡ []
      → AreNew [] (ids (connections_of v))
  unfolding validate_connections_array
  array-AreNew (array cs) e = connections-AreNew number_text 0 [] (items cs) e
  array-AreNew undefined e = cc
  array-AreNew null e = cc
  array-AreNew (bool b) e = cc
  array-AreNew (number n) e = cc
  array-AreNew (string s) e = cc
  array-AreNew (object fs) e = cc

  -- In an input without errors the ids of the connections are well-formed and all different, after
  -- the blanks around them are taken off.
  pub validate_setup_spec-AreDistinct :
      (input : Value)
      → validate_setup_spec number_text input ≡ []
      → let connections = ids (connections_of (member (codes "connections") input)) in
        All (λ t. is_capability_id t ≡ true) connections × AreDistinct connections
  unfolding validate_setup_spec
  validate_setup_spec-AreDistinct input e = elim (Bool-cases (is_object input)) [
    | inr no_object ↦ absurd (ground (arith, rw (validate_setup_spec, no_object) at e))
    | inl an_object ↦
        let f = rw (validate_setup_spec, an_object) at e in
        let after_security =
          append-nil_right (validate_security (member (codes "security") input)) _ f in
        let after_owner =
          append-nil_right (validate_owner (member (codes "owner") input)) _ after_security in
        let none_here =
          append-nil_left
            (validate_connections_array number_text (member (codes "connections") input)) _
            after_owner in
        AreNew-AreDistinct [] (ids (connections_of (member (codes "connections") input)))
          (array-AreNew (member (codes "connections") input) none_here)
  ]
