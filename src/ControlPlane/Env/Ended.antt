-- ===== src/ControlPlane/Env/Ended.antt =====
-- The line break at the end of a file that is written.
use openpalm.Base.{
  ◌≡◌, ◌≢◌, ◌++◌, inl, inr, refl, ap, ◌∙◌, arith, Bool, List, [], ◌∷◌, Bool-cases, Text, text_eq,
  codes, split, onto_first, nat_beq,
}
use openpalm.ControlPlane.Env.{ends_with_break, ended}
use openpalm.ControlPlane.Env.Merged.{first_line, first_line-append}
use openpalm.ControlPlane.Env.Setting.{assigns-empty, split-filled}

onto_first-append :
    (s : Text) (ts us : List Text) → ts ≢ [] → onto_first s (ts ++ us) ≡ onto_first s ts ++ us
onto_first-append s [] us h = absurd (h refl)
onto_first-append s (t ∷ ts) us h = refl

-- A line break at the end adds an empty line.
split-break : (s : Text) → split b'\n' (s ++ codes "\n") ≡ split b'\n' s ++ [] ∷ []
unfolding split
split-break [] = refl
split-break (c ∷ s) = elim (Bool-cases (nat_beq c b'\n')) [
  | inl e ↦ rw (e, split) (ap (λ r. [] ∷ r) (split-break s))
  | inr e ↦
      rw (e, split)
        (ap (λ r. onto_first (c ∷ []) r) (split-break s)
          ∙ onto_first-append (c ∷ []) (split b'\n' s) ([] ∷ []) (split-filled b'\n' s))
]

pub first_line-ended :
    (u : Bool) (k content : Text)
    → first_line u k (split b'\n' (ended content)) ≡ first_line u k (split b'\n' content)
first_line-ended u k content = elim (Bool-cases (ends_with_break content)) [
  | inl e ↦ rw e refl
  | inr e ↦
      rw (e, split-break content)
        (ground (arith, first_line-append u k (split b'\n' content) ([] ∷ []), assigns-empty u k))
]
