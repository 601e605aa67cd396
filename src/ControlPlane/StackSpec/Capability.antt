-- ===== src/ControlPlane/StackSpec/Capability.antt =====
-- Capability strings there and back.
use openpalm.Base.{
  ℕ, zero, suc, ◌≡◌, ◌≢◌, ◌++◌, ap, refl, [], ◌∷◌, none, some, inl, inr, Option-cases, Text, length,
  take, drop, Lacks, arith,
}
use openpalm.ControlPlane.StackSpec.{index_of, parse_capability_string, format_capability_string}

pub take-length-append : (s t : Text) → take (length s) (s ++ t) ≡ s
take-length-append [] t = refl
take-length-append (c ∷ s) t = ap (λ r. c ∷ r) (take-length-append s t)

drop-length-append : (c : ℕ) (s t : Text) → drop (suc (length s)) (s ++ c ∷ t) ≡ t
drop-length-append c [] t = refl
drop-length-append c (d ∷ s) t = drop-length-append c s t

pub index_of-append : (c : ℕ) (s t : Text) → Lacks c s → index_of c (s ++ c ∷ t) ≡ some (length s)
unfolding index_of
index_of-append c [] t h = ground arith
index_of-append c (d ∷ s) t h = ground (arith, index_of-append c s t h.1)

-- A provider without a slash and any model come back from their capability string.
pub parse-format :
    (provider model : Text)
    → Lacks b'/' provider
    → parse_capability_string (format_capability_string provider model) ≡ (provider, model)
unfolding parse_capability_string format_capability_string
parse-format provider model h =
    rw
      (
        parse_capability_string,
        index_of-append b'/' provider model h,
        take-length-append provider (b'/' ∷ model),
        drop-length-append b'/' provider model,
      )
      refl

cut_at_index :
    (c : ℕ) (s : Text) (i : ℕ) → index_of c s ≡ some i → take i s ++ c ∷ drop (suc i) s ≡ s
unfolding index_of
cut_at_index c [] i e = cc
cut_at_index c (d ∷ s) zero e = ground arith
cut_at_index c (d ∷ s) (suc i) e = ap (λ r. d ∷ r) (cut_at_index c s i (ground arith))

-- A capability string with a slash in it is formatted from its parts again.
pub format-parse :
    (text : Text)
    → index_of b'/' text ≢ none
    → format_capability_string (parse_capability_string text).0 (parse_capability_string text).1
      ≡ text
unfolding parse_capability_string format_capability_string
format-parse text h = elim (Option-cases (index_of b'/' text)) [
  | inl e ↦ absurd (h e)
  | inr (i, e) ↦ rw (e, parse_capability_string) (cut_at_index b'/' text i e)
]
