-- ===== src/Channels/Commands/Template.antt =====
-- packages/channel-discord/src/commands.ts: `resolvePromptTemplate`. The search for the next
-- placeholder runs on fuel, which the length of the template bounds.
use openpalm.Base.{
  ℕ, zero, suc, ◌≤◌, ◌<◌, ◌≡◌, ◌++◌, refl, arith, Bool, ◌&&◌, ◌||◌, [], ◌∷◌, Option, none, some,
  Option-cases, inl, inr, Text, text_eq, codes, Map, get, length, is_empty, or_else, leb, nat_beq,
  if◌then◌else◌, strip_prefix,
}

-- `\w`
abbrev pub is_word : ℕ → Bool
is_word c =
    leb b'a' c && leb c b'z'
    || leb b'A' c && leb c b'Z'
    || leb b'0' c && leb c b'9'
    || nat_beq c b'_'

-- The word at the start, and what follows it.
unfoldable pub word_at : Text → Text × Text
word_at [] = ([], [])
word_at (c ∷ s) =
    let (word, rest) = word_at s in if is_word c then (c ∷ word, rest) else ([], c ∷ s)

-- The key and the rest, if the text starts with a placeholder.
unfoldable pub placeholder : Text → Option (Text × Text)
placeholder s = elim (strip_prefix (codes "{{") s) [
  | none ↦ none
  | some inside ↦
      let (key, behind) = word_at inside in
      if is_empty key
      then none
      else elim (strip_prefix (codes "}}") behind) [ none ↦ none | some rest ↦ some (key, rest) ]
]

module _ (options : Map Text Text) where
  -- `none` where the fuel does not suffice.
  unfoldable pub expand : ℕ → Text → Option Text
  expand zero s = none
  expand (suc fuel) [] = some []
  expand (suc fuel) (c ∷ s) = elim (placeholder (c ∷ s)) [
    | none ↦ elim (expand fuel s) [ none ↦ none | some t ↦ some (c ∷ t) ]
    | some (key, rest) ↦ elim (expand fuel rest) [
      | none ↦ none
      | some t ↦ some (or_else (get key options) [] ++ t)
    ]
  ]

  unfoldable pub resolve_prompt_template : Text → Text
  resolve_prompt_template template = or_else (expand (suc (length template)) template) []

length-word_at : (s : Text) → length (word_at s).1 ≤ length s
unfolding word_at
length-word_at [] = omega arith
length-word_at (c ∷ s) = ground (arith, length-word_at s)

length-strip_prefix : (p s rest : Text) → strip_prefix p s ≡ some rest → length rest ≤ length s
unfolding strip_prefix
length-strip_prefix [] s rest e = ground arith
length-strip_prefix (c ∷ p) [] rest e = cc
length-strip_prefix (c ∷ p) (d ∷ s) rest e = ground (arith, length-strip_prefix p s rest)

length-open : (s rest : Text) → strip_prefix (codes "{{") s ≡ some rest → length rest < length s
unfolding strip_prefix
length-open [] rest e = cc
length-open (c ∷ []) rest e = ground arith
length-open (c ∷ d ∷ s) rest e = ground arith

-- What follows a placeholder is shorter.
length-placeholder : (s key rest : Text) → placeholder s ≡ some (key, rest) → length rest < length s
unfolding placeholder
length-placeholder s key rest e = elim (Option-cases (strip_prefix (codes "{{") s)) [
  | inl f ↦ ground (arith, f)
  | inr (inside, f) ↦ elim (Option-cases (strip_prefix (codes "}}") (word_at inside).1)) [
    | inl h ↦ ground (arith, f, h)
    | inr (behind, h) ↦
        let short = length-strip_prefix (codes "}}") (word_at inside).1 behind h in
        ground (arith, f, h, length-open s inside f, length-word_at inside, short)
  ]
]

module _ (options : Map Text Text) where
  -- Fuel beyond the length of the text gives a result, and more fuel gives the same.
  expand-enough :
      (fuel more : ℕ) (s : Text)
      → length s < fuel
      → fuel ≤ more
      → (t : Text) × (expand options fuel s ≡ some t) × (expand options more s ≡ some t)
  unfolding expand
  expand-enough zero more s h k = absurd (omega arith)
  expand-enough (suc fuel) zero s h k = absurd (omega arith)
  expand-enough (suc fuel) (suc more) [] h k = ([], refl, refl)
  expand-enough (suc fuel) (suc more) (c ∷ s) h k = elim (Option-cases (placeholder (c ∷ s))) [
    | inl e ↦
        let (t, f, g) = expand-enough fuel more s (omega arith) (omega arith) in
        (c ∷ t, rw (e, expand, f) refl, rw (e, expand, g) refl)
    | inr ((key, rest), e) ↦
        let short = length-placeholder (c ∷ s) key rest e in
        let (t, f, g) = expand-enough fuel more rest (omega arith) (omega arith) in
        (or_else (get key options) [] ++ t, rw (e, expand, f) refl, rw (e, expand, g) refl)
  ]

  -- The resolution of a template ends: with any fuel beyond the template's length it gives the text
  -- that `resolve_prompt_template` returns.
  pub resolve-terminates :
      (fuel : ℕ) (template : Text)
      → length template < fuel
      → expand options fuel template ≡ some (resolve_prompt_template options template)
  unfolding resolve_prompt_template
  resolve-terminates fuel template h =
      let (t, f, g) =
        expand-enough (suc (length template)) fuel template (omega arith) (omega arith) in
      rw (f, g) refl
