-- ===== src/ControlPlane/Secrets/Segments.antt =====
-- packages/lib/src/control-plane/secret-mappings.ts: the segments of a component's secret key.
use openpalm.Base.{
  ℕ, zero, suc, All-append, append-sep_injective, Lacks, ◌≡◌, ◌≤◌, ◌++◌, arith, Bool, true, ◌&&◌,
  ◌||◌, [], ◌∷◌, Text, codes, length, length-take, take, trim, leb, nat_beq, starts_with,
  if◌then◌else◌, All,
}
use mathlib.Core.List.{reverse, reverse-cons, append_cancel_left}

-- `[a-z0-9]`
abbrev pub is_plain : ℕ → Bool
is_plain c = leb b'a' c && leb c b'z' || leb b'0' c && leb c b'9'

-- `replace(/[^a-z0-9]+/g, '-')`
unfoldable pub dashed : Text → Text
dashed [] = []
dashed (c ∷ s) =
    let rest = dashed s in
    if is_plain c then c ∷ rest else if starts_with rest (codes "-") then rest else b'-' ∷ rest

unfoldable pub without_dashes : Text → Text
without_dashes [] = []
without_dashes (c ∷ s) = let rest = without_dashes s in if nat_beq c b'-' then rest else c ∷ s

module _ (to_lower_case : Text → Text) where
  -- The dashes are taken from the start and from the end, and then the text is cut.
  unfoldable pub sanitize_secret_segment : Text → Text
  sanitize_secret_segment input =
      take 63
        (reverse (without_dashes (reverse (without_dashes (dashed (to_lower_case (trim input)))))))

  unfoldable pub secret_key_from_component_field : Text → Text → Text
  unfolding sanitize_secret_segment
  secret_key_from_component_field instance_id field_name =
      codes "openpalm/component/"
      ++ (sanitize_secret_segment instance_id ++ b'/' ∷ sanitize_secret_segment field_name)

-- A unit of a segment: a small letter, a digit or a dash.
abbrev pub is_segment_unit : ℕ → Bool
is_segment_unit c = is_plain c || nat_beq c b'-'

abbrev AreUnits : Text → Type 0
AreUnits s = All (λ c. is_segment_unit c ≡ true) s

dashed-AreUnits : (s : Text) → AreUnits (dashed s)
unfolding dashed
dashed-AreUnits [] = tt
dashed-AreUnits (c ∷ s) = ground (arith, dashed-AreUnits s)

without_dashes-AreUnits : (s : Text) → AreUnits s → AreUnits (without_dashes s)
unfolding without_dashes
without_dashes-AreUnits [] h = tt
without_dashes-AreUnits (c ∷ s) h = ground (arith, h.0, h.1, without_dashes-AreUnits s h.1)

reverse-AreUnits : (s : Text) → AreUnits s → AreUnits (reverse s)
reverse-AreUnits [] h = tt
reverse-AreUnits (c ∷ s) h = rw (reverse-cons c s) (
    All-append (λ d. is_segment_unit d ≡ true) (reverse s) (c ∷ []) (reverse-AreUnits s h.1)
      (h.0, tt))

take-AreUnits : (n : ℕ) (s : Text) → AreUnits s → AreUnits (take n s)
take-AreUnits zero s h = tt
take-AreUnits (suc n) [] h = tt
take-AreUnits (suc n) (c ∷ s) h = (h.0, take-AreUnits n s h.1)

AreUnits-Lacks : (s : Text) → AreUnits s → Lacks b'/' s
AreUnits-Lacks [] h = tt
AreUnits-Lacks (c ∷ s) h = (ground (arith, h.0), AreUnits-Lacks s h.1)

-- A segment: at most 63 small letters, digits and dashes.
abbrev pub IsSegment : Text → Type 0
IsSegment s = All (λ c. is_segment_unit c ≡ true) s × (length s ≤ 63)

module _ (to_lower_case : Text → Text) where
  sanitize-IsSegment : (input : Text) → IsSegment (sanitize_secret_segment to_lower_case input)
  unfolding sanitize_secret_segment
  sanitize-IsSegment input =
      let started = without_dashes (dashed (to_lower_case (trim input))) in
      let ended = reverse (without_dashes (reverse started)) in
      let units =
        without_dashes-AreUnits (dashed (to_lower_case (trim input)))
          (dashed-AreUnits (to_lower_case (trim input))) in
      (
        take-AreUnits 63 ended (
            reverse-AreUnits (without_dashes (reverse started))
              (without_dashes-AreUnits (reverse started) (reverse-AreUnits started units))),
        omega (arith, length-take 63 ended),
      )

  -- The fields of components share a secret only if their sanitized ids and names are the same, and
  -- what is sanitized holds at most 63 units, all of them small letters, digits and dashes.
  pub secret_key_injective :
      (instance_id field_name other_id other_name : Text)
      → secret_key_from_component_field to_lower_case instance_id field_name
        ≡ secret_key_from_component_field to_lower_case other_id other_name
      → (sanitize_secret_segment to_lower_case instance_id
          ≡ sanitize_secret_segment to_lower_case other_id)
        × (sanitize_secret_segment to_lower_case field_name
            ≡ sanitize_secret_segment to_lower_case other_name)
        × IsSegment (sanitize_secret_segment to_lower_case instance_id)
        × IsSegment (sanitize_secret_segment to_lower_case field_name)
  unfolding secret_key_from_component_field
  secret_key_injective instance_id field_name other_id other_name e =
      let id = sanitize-IsSegment instance_id in
      let parts =
        append-sep_injective b'/' (sanitize_secret_segment to_lower_case instance_id)
          (sanitize_secret_segment to_lower_case other_id)
          (sanitize_secret_segment to_lower_case field_name)
          (sanitize_secret_segment to_lower_case other_name)
          (AreUnits-Lacks (sanitize_secret_segment to_lower_case instance_id) id.0)
          (AreUnits-Lacks (sanitize_secret_segment to_lower_case other_id)
            (sanitize-IsSegment other_id).0)
          (append_cancel_left (codes "openpalm/component/") _ _ e) in
      (parts.0, parts.1, id, sanitize-IsSegment field_name)
