-- ===== src/Sdk/Split/Places.antt =====
-- The places at which a message without code blocks is split.
use openpalm.Base.{
  ℕ, zero, suc, ◌+◌, ◌*◌, ◌≤◌, ◌≡◌, ◌++◌, refl, ap, ◌∙◌, arith, true, false, not, List, [], ◌∷◌,
  Option-cases, Bool-cases, some, inl, inr, Text, codes, length, take, drop, keep, is_empty,
  is_space, trim, trim_start, trim_end, starts_with, ltb, All, Lacks, length-take, length-trim,
}
use openpalm.Sdk.Split.{fences_from, is_open, last_index_of, index_or, split_index}

-- What is no blank.
abbrev pub solid : Text → Text
solid = keep (λ c. not (is_space c))

abbrev pub glue : List Text → Text
glue [] = []
glue (s ∷ ss) = s ++ glue ss

pub solid-append : (s t : Text) → solid (s ++ t) ≡ solid s ++ solid t
solid-append [] t = refl
solid-append (c ∷ s) t = ground (arith, solid-append s t)

solid-trim_start : (s : Text) → solid (trim_start s) ≡ solid s
unfolding trim_start
solid-trim_start [] = refl
solid-trim_start (c ∷ s) = ground (arith, solid-trim_start s)

solid-trim_end : (s : Text) → solid (trim_end s) ≡ solid s
unfolding trim_end
solid-trim_end [] = refl
solid-trim_end (c ∷ s) = elim (Bool-cases (is_space c)) [
  | inr e ↦ rw (e, trim_end) (rw e (ap (λ r. c ∷ r) (solid-trim_end s)))
  | inl e ↦ elim (Bool-cases (is_empty (trim_end s))) [
    | inr f ↦ rw (trim_end, e, f) (rw e (solid-trim_end s))
    | inl f ↦ rw (trim_end, e, f) (ground (arith, f, solid-trim_end s))
  ]
]

pub solid-trim : (s : Text) → solid (trim s) ≡ solid s
unfolding trim
solid-trim s = solid-trim_end (trim_start s) ∙ solid-trim_start s

-- Blanks at the end do not count.
length-trim_end_blank :
    (x p : Text) → All (λ c. is_space c ≡ true) p → length (trim_end (x ++ p)) ≤ length x
unfolding trim_end
length-trim_end_blank [] [] h = omega arith
length-trim_end_blank [] (c ∷ p) h = ground (arith, h.0, length-trim_end_blank [] p h.1)
length-trim_end_blank (c ∷ x) p h = ground (arith, length-trim_end_blank x p h)

length-trim_blank :
    (x p : Text) → All (λ c. is_space c ≡ true) p → length (trim (x ++ p)) ≤ length x
unfolding trim trim_start
length-trim_blank [] [] h = length-trim_end_blank [] [] h
length-trim_blank [] (c ∷ p) h = rw (trim_start, h.0) (length-trim_blank [] p h.1)
length-trim_blank (c ∷ x) p h = elim (Bool-cases (is_space c)) [
  | inl e ↦ rw (trim_start, e) (omega (arith, length-trim_blank x p h))
  | inr e ↦ rw (trim_start, e) (length-trim_end_blank (c ∷ x) p h)
]

fences_from-without : (run : ℕ) (s : Text) → Lacks b'`' s → fences_from run s ≡ 0
unfolding fences_from
fences_from-without run [] h = refl
fences_from-without run (c ∷ s) h = ground (arith, h.0, fences_from-without 0 s h.1)

pub take-Lacks : (d n : ℕ) (s : Text) → Lacks d s → Lacks d (take n s)
take-Lacks d zero s h = tt
take-Lacks d (suc n) [] h = tt
take-Lacks d (suc n) (c ∷ s) h = (h.0, take-Lacks d n s h.1)

pub drop-Lacks : (d n : ℕ) (s : Text) → Lacks d s → Lacks d (drop n s)
drop-Lacks d zero s h = h
drop-Lacks d (suc n) [] h = tt
drop-Lacks d (suc n) (c ∷ s) h = drop-Lacks d n s h.1

pub is_open-without : (s : Text) → Lacks b'`' s → is_open s ≡ false
is_open-without s h = ground (arith, fences_from-without 0 s h)

-- An index found is within the bound, and the pattern stands there.
last_index_of-found :
    (p : Text) (k : ℕ) (s : Text) (i : ℕ)
    → last_index_of p k s ≡ some i
    → (i ≤ k) × (starts_with (drop i s) p ≡ true)
unfolding last_index_of
last_index_of-found p zero s i e = elim (Bool-cases (starts_with s p)) [
  | inl f ↦ ground (arith, e, f)
  | inr f ↦ ground (arith, e, f)
]
last_index_of-found p (suc k) [] i e = cc
last_index_of-found p (suc k) (c ∷ s) i e = elim (Option-cases (last_index_of p k s)) [
  | inl f ↦ elim (Bool-cases (starts_with (c ∷ s) p)) [
    | inl g ↦ ground (arith, e, f, g)
    | inr g ↦ ground (arith, e, f, g)
  ]
  | inr (j, f) ↦
      let (low, there) = last_index_of-found p k s j f in
      let same : i ≡ suc j = ground (arith, e, f) in rw same (omega arith, there)
]

take-prefix : (p s : Text) → starts_with s p ≡ true → take (length p) s ≡ p
unfolding starts_with
take-prefix [] s e = refl
take-prefix (c ∷ p) [] e = cc
take-prefix (c ∷ p) (d ∷ s) e = ground (arith, take-prefix p s)

take-found :
    (p s : Text) (i : ℕ) → starts_with (drop i s) p ≡ true → take (i + length p) s ≡ take i s ++ p
unfolding starts_with
take-found p s zero e =
    let start : 0 + length p ≡ length p = omega arith in
    ap (λ n. take n s) start ∙ take-prefix p s e
take-found [] [] (suc i) e = let same : suc i + 0 ≡ suc i = omega arith in ap (λ n. take n []) same
take-found (c ∷ p) [] (suc i) e = cc
take-found p (d ∷ s) (suc i) e =
    let same : suc i + length p ≡ suc (i + length p) = omega arith in
    ap (λ n. take n (d ∷ s)) same ∙ ap (λ r. d ∷ r) (take-found p s i e)

AreBlanks : (p : Text) → Type 0
AreBlanks p = All (λ c. is_space c ≡ true) p

-- The first chunk at an index with blanks behind it is as long as the index, once trimmed.
chunk-found :
    (p : Text) (max_length : ℕ) (s : Text) (i : ℕ)
    → AreBlanks p
    → last_index_of p max_length s ≡ some i
    → length (trim (take (i + length p) s)) ≤ max_length
unfolding AreBlanks
chunk-found p max_length s i h e =
    let (low, there) = last_index_of-found p max_length s i e in
    let short = length-trim_blank (take i s) p h in
    rw (take-found p s i there) (omega (arith, short, length-take i s))

length-trim-take : (n : ℕ) (s : Text) → length (trim (take n s)) ≤ n
length-trim-take n s = omega (arith, length-trim (take n s), length-take n s)

-- A place to split at: not the start, and the trimmed chunk before it is within the limit.
pub record IsPlace (max_length : ℕ) (s : Text) (i : ℕ) : Type 0 where
  pub moves : 1 ≤ i
  pub fits : length (trim (take i s)) ≤ max_length

index_or-IsPlace :
    (p : Text) (max_length : ℕ) (s : Text) (other : ℕ)
    → AreBlanks p
    → IsPlace max_length s other
    → IsPlace max_length s (index_or max_length (length p) (last_index_of p max_length s) other)
index_or-IsPlace p max_length s other h k = elim (Option-cases (last_index_of p max_length s)) [
  | inl e ↦ rw e k
  | inr (i, e) ↦ elim (Bool-cases (ltb max_length (2 * i))) [
    | inr g ↦ rw (e, g) k
    | inl g ↦ rw (e, g) (record { moves = ground arith; fits = chunk-found p max_length s i h e })
  ]
]

breaks : (AreBlanks (codes "\n")) × (AreBlanks (codes "\n\n"))
unfolding AreBlanks is_space
breaks = ((refl, tt), (refl, (refl, tt)))

pub split_index-IsPlace :
    (max_length : ℕ) (s : Text)
    → 1 ≤ max_length
    → Lacks b'`' s
    → IsPlace max_length s (split_index max_length s)
unfolding split_index
split_index-IsPlace max_length s h l =
    rw (split_index, is_open-without (take max_length s) (take-Lacks b'`' max_length s l))
      (index_or-IsPlace (codes "\n\n") max_length s _ breaks.1 (
        index_or-IsPlace (codes "\n") max_length s max_length breaks.0
          (record { moves = h; fits = length-trim-take max_length s })))
