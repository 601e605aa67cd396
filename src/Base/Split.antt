-- ===== src/Base/Split.antt =====
-- JavaScript's `split` and `join` by one code unit.
use Prim.Native.Nat.{ℕ}
use mathlib.Core.Path.{◌≡◌, refl, ap, ◌∙◌}
use mathlib.Core.Logic.{◌≢◌, inl, inr}
use mathlib.Core.List.{List, [], ◌∷◌, ◌++◌}
use native.Mathlib.Omega.{arith}
use openpalm.Base.Tests.{Bool-cases, nat_beq, if◌then◌else◌}
use openpalm.Base.Lists.{All}
use openpalm.Base.Units.{Text}

abbrev pub onto_first : Text → List Text → List Text
onto_first s [] = s ∷ []
onto_first s (t ∷ ts) = (s ++ t) ∷ ts

unfoldable pub split : ℕ → Text → List Text
split sep [] = [] ∷ []
split sep (c ∷ s) =
    let rest = split sep s in if nat_beq c sep then [] ∷ rest else onto_first (c ∷ []) rest

unfoldable pub join : ℕ → List Text → Text
join sep [] = []
join sep (s ∷ []) = s
join sep (s ∷ t ∷ ts) = s ++ sep ∷ join sep (t ∷ ts)

-- The text does not hold the code unit.
abbrev pub Lacks : ℕ → Text → Type 0
Lacks sep s = All (λ c. c ≢ sep) s

onto_first-Lacks :
    (sep c : ℕ) (ts : List Text)
    → c ≢ sep
    → All (Lacks sep) ts
    → All (Lacks sep) (onto_first (c ∷ []) ts)
onto_first-Lacks sep c [] h hs = ((h, tt), tt)
onto_first-Lacks sep c (t ∷ ts) h hs = ((h, hs.0), hs.1)

pub split-without : (sep : ℕ) (s : Text) → Lacks sep s → split sep s ≡ s ∷ []
unfolding split
split-without sep [] h = refl
split-without sep (c ∷ s) h = ground (arith, split-without sep s h.1)

pub split-append :
    (sep : ℕ) (s rest : Text) → Lacks sep s → split sep (s ++ sep ∷ rest) ≡ s ∷ split sep rest
unfolding split
split-append sep [] rest h = ground arith
split-append sep (c ∷ s) rest h = ground (arith, split-append sep s rest h.1)

-- Texts that lack the separator come back out of their join, if there is one at all.
pub split-join :
    (sep : ℕ) (s : Text) (ts : List Text)
    → Lacks sep s
    → All (Lacks sep) ts
    → split sep (join sep (s ∷ ts)) ≡ s ∷ ts
unfolding join
split-join sep s [] h hs = split-without sep s h
split-join sep s (t ∷ ts) h hs =
    split-append sep s (join sep (t ∷ ts)) h ∙ ap (λ r. s ∷ r) (split-join sep t ts hs.0 hs.1)

-- Two texts are parted at their first separator.
pub append-sep_injective :
    (sep : ℕ) (c c' s s' : Text)
    → Lacks sep c
    → Lacks sep c'
    → c ++ sep ∷ s ≡ c' ++ sep ∷ s'
    → (c ≡ c') × (s ≡ s')
append-sep_injective sep [] [] s s' h h' e = ground arith
append-sep_injective sep [] (d ∷ ds) s s' h h' e = ground arith
append-sep_injective sep (d ∷ ds) [] s s' h h' e = ground arith
append-sep_injective sep (d ∷ ds) (d' ∷ ds') s s' h h' e =
    ground (arith, append-sep_injective sep ds ds' s s' h.1 h'.1)

-- The parts of a text lack the separator.
pub split-Lacks : (sep : ℕ) (s : Text) → All (Lacks sep) (split sep s)
unfolding split
split-Lacks sep [] = (tt, tt)
split-Lacks sep (c ∷ s) = elim (Bool-cases (nat_beq c sep)) [
  | inl e ↦ rw e (tt, split-Lacks sep s)
  | inr e ↦ rw e (onto_first-Lacks sep c (split sep s) (ground arith) (split-Lacks sep s))
]
