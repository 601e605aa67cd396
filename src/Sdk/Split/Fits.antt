-- ===== src/Sdk/Split/Fits.antt =====
-- Messages without code blocks are split within the limit.
use openpalm.Base.{
  ℕ, zero, suc, ◌≤◌, ◌<◌, ◌≡◌, ◌++◌, refl, sym, ap, ◌∙◌, arith, false, not, List, [], ◌∷◌, Option,
  Bool-cases, some, inl, inr, Text, length, take, drop, take-append-drop, keep, is_empty, trim, leb,
  All, Lacks, length-drop,
}
use openpalm.Sdk.Split.{split_index, close_block, cut, split_loop, split_message}
use openpalm.Sdk.Split.Places.{
  solid, glue, solid-append, solid-trim, take-Lacks, drop-Lacks, is_open-without, IsPlace,
  split_index-IsPlace,
}

cut-without :
    (max_length : ℕ) (s : Text)
    → Lacks b'`' s
    → cut max_length s
      ≡ (trim (take (split_index max_length s) s), drop (split_index max_length s) s)
unfolding cut close_block
cut-without max_length s l =
    let i = split_index max_length s in
    rw (cut, close_block, is_open-without (take i s) (take-Lacks b'`' i s l)) refl

pub record Splits (max_length : ℕ) (s : Text) (result : Option (List Text)) : Type 0 where
  pub chunks : List Text
  pub done : result ≡ some chunks
  pub fit : All (λ c. length c ≤ max_length) chunks
  pub whole : solid (glue chunks) ≡ solid s

append-empty : (s : Text) → s ++ [] ≡ s
append-empty [] = refl
append-empty (c ∷ s) = ap (λ r. c ∷ r) (append-empty s)

-- One more round of the loop.
round-Splits :
    (fuel max_length : ℕ) (c : ℕ) (s : Text)
    → Lacks b'`' (c ∷ s)
    → leb (length (c ∷ s)) max_length ≡ false
    → IsPlace max_length (c ∷ s) (split_index max_length (c ∷ s))
    → (rest : Splits max_length
        (drop (split_index max_length (c ∷ s)) (c ∷ s))
        (split_loop fuel max_length (drop (split_index max_length (c ∷ s)) (c ∷ s))))
    → Splits max_length (c ∷ s) (split_loop (suc fuel) max_length (c ∷ s))
unfolding split_loop
round-Splits fuel max_length c s l long place rest =
    let i = split_index max_length (c ∷ s) in
    let parted = cut-without max_length (c ∷ s) l in
    record {
      chunks = trim (take i (c ∷ s)) ∷ rest.chunks;
      done = rw (split_loop, long, parted, rest.done, parted) refl;
      fit = (place.fits, rest.fit);
      whole =
          solid-append (trim (take i (c ∷ s))) (glue rest.chunks)
          ∙ (rw (solid-trim (take i (c ∷ s)), rest.whole)
              (sym (solid-append (take i (c ∷ s)) (drop i (c ∷ s)))
                ∙ ap solid (take-append-drop i (c ∷ s))));
    }

split_loop-Splits :
    (fuel max_length : ℕ) (s : Text)
    → 1 ≤ max_length
    → Lacks b'`' s
    → length s < fuel
    → Splits max_length s (split_loop fuel max_length s)
unfolding split_loop
split_loop-Splits zero max_length s h l k = absurd (omega arith)
split_loop-Splits (suc fuel) max_length [] h l k = record {
  chunks = [];
  done = refl;
  fit = tt;
  whole = refl;
}
split_loop-Splits (suc fuel) max_length (c ∷ s) h l k =
    elim (Bool-cases (leb (length (c ∷ s)) max_length)) [
      | inl short ↦ record {
        chunks = (c ∷ s) ∷ [];
        done = rw (split_loop, short) refl;
        fit = (ground arith, tt);
        whole = ap solid (append-empty (c ∷ s));
      }
      | inr long ↦
          let i = split_index max_length (c ∷ s) in
          let place = split_index-IsPlace max_length (c ∷ s) h l in
          let shorter = length-drop i (c ∷ s) in
          round-Splits fuel max_length c s l long place (
            split_loop-Splits fuel max_length (drop i (c ∷ s)) h (drop-Lacks b'`' i (c ∷ s) l)
              (omega (arith, shorter, place.moves)))
    ]

keep-filled :
    (max_length : ℕ) (chunks : List Text)
    → All (λ c. length c ≤ max_length) chunks
    → All (λ c. length c ≤ max_length) (keep (λ c. not (is_empty c)) chunks)
      × (glue (keep (λ c. not (is_empty c)) chunks) ≡ glue chunks)
keep-filled max_length [] h = (tt, refl)
keep-filled max_length ([] ∷ chunks) h = keep-filled max_length chunks h.1
keep-filled max_length ((c ∷ s) ∷ chunks) h =
    let rest = keep-filled max_length chunks h.1 in ((h.0, rest.0), ap (λ r. (c ∷ s) ++ r) rest.1)

-- With a limit of at least one, a message without ticks is split as soon as there is more fuel than
-- it has units: into chunks within the limit that hold all of it, in its order, but for blanks.
pub split_message-Splits :
    (fuel max_length : ℕ) (content : Text)
    → 1 ≤ max_length
    → Lacks b'`' content
    → length content < fuel
    → Splits max_length content (split_message fuel content max_length)
unfolding split_message
split_message-Splits fuel max_length [] h l k = record {
  chunks = [];
  done = refl;
  fit = tt;
  whole = refl;
}
split_message-Splits fuel max_length (c ∷ s) h l k =
    elim (Bool-cases (leb (length (c ∷ s)) max_length)) [
      | inl short ↦ record {
        chunks = (c ∷ s) ∷ [];
        done = rw (split_message, short) refl;
        fit = (ground arith, tt);
        whole = ap solid (append-empty (c ∷ s));
      }
      | inr long ↦
          let loop = split_loop-Splits fuel max_length (c ∷ s) h l k in
          let filled = keep-filled max_length loop.chunks loop.fit in
          record {
            chunks = keep (λ c. not (is_empty c)) loop.chunks;
            done = rw (split_message, long, loop.done) refl;
            fit = filled.0;
            whole = ap solid filled.1 ∙ loop.whole;
          }
    ]
