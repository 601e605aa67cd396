-- ===== src/Sdk/Split/Diverges.antt =====
-- A message that `splitMessage` never stops splitting.
use openpalm.Base.{
  ℕ, zero, suc, ◌<◌, ◌≡◌, ◌++◌, refl, ap, ◌∙◌, arith, true, false, [], ◌∷◌, none, some, Text, codes,
  length, length-append, take, drop, starts_with, strip_prefix, leb, All,
}
use openpalm.Channels.Commands.Template.{is_word, word_at}
use openpalm.Sdk.Split.{
  fences_from, is_open, last_index_of, split_index, behind_fence, language, close_block, cut,
  split_loop, split_message,
}

abbrev pub IsWord : Text → Type 0
IsWord w = All (λ c. is_word c ≡ true) w

take-length-append : (s t : Text) → take (length s) (s ++ t) ≡ s
take-length-append [] t = refl
take-length-append (c ∷ s) t = ap (λ r. c ∷ r) (take-length-append s t)

drop-length-append : (s t : Text) → drop (length s) (s ++ t) ≡ t
drop-length-append [] t = refl
drop-length-append (c ∷ s) t = drop-length-append s t

word-fences : (w : Text) → IsWord w → fences_from 0 w ≡ 0
unfolding fences_from
word-fences [] h = refl
word-fences (c ∷ w) h = ground (arith, h.0, word-fences w h.1)

last_index_of-break :
    (s t : Text) → last_index_of (codes "\n") (length s) (s ++ b'\n' ∷ t) ≡ some (length s)
unfolding last_index_of starts_with
last_index_of-break [] [] = refl
last_index_of-break [] (c ∷ t) = refl
last_index_of-break (c ∷ s) t = rw (last_index_of-break s t) refl

word_at-append : (w t : Text) → IsWord w → (word_at (w ++ b'\n' ∷ t)).0 ≡ w
unfolding word_at
word_at-append [] t h = refl
word_at-append (c ∷ w) t h = rw (h.0) (ap (λ r. c ∷ r) (word_at-append w t h.1))

-- A code block that begins with the word.
abbrev pub block : Text → Text
block w = codes "```" ++ w

is_open-block : (w : Text) → IsWord w → is_open (block w) ≡ true
unfolding fences_from
is_open-block w h = rw (word-fences w h) refl

language-block : (w t : Text) → IsWord w → language (block w ++ b'\n' ∷ t) ≡ w
unfolding language behind_fence strip_prefix
language-block w t h = word_at-append w t h

split_index-block :
    (w t : Text)
    → IsWord w
    → split_index (length (block w)) (block w ++ b'\n' ∷ t) ≡ length (block w)
unfolding split_index
split_index-block w t h =
    rw
      (
        split_index,
        take-length-append (block w) (b'\n' ∷ t),
        is_open-block w h,
        last_index_of-break (block w) t,
      )
      (ground arith)

close_block-block : (w r : Text) → IsWord w → (close_block (block w) r).1 ≡ block w ++ b'\n' ∷ r
unfolding close_block
close_block-block w r h = rw (close_block, is_open-block w h, language-block w (codes "```") h) refl

cut-block :
    (w t : Text)
    → IsWord w
    → (cut (length (block w)) (block w ++ b'\n' ∷ t)).1 ≡ block w ++ b'\n' ∷ b'\n' ∷ t
unfolding cut
cut-block w t h =
    let s = block w ++ b'\n' ∷ t in
    let n = length (block w) in
    ap (λ i. (close_block (take i s) (drop i s)).1) (split_index-block w t h)
    ∙ (ap (λ c. (close_block c (drop n s)).1) (take-length-append (block w) (b'\n' ∷ t))
        ∙ (ap (λ r. (close_block (block w) r).1) (drop-length-append (block w) (b'\n' ∷ t))
            ∙ close_block-block w (b'\n' ∷ t) h))

length-block_line : (w t : Text) → length (block w) < length (block w ++ b'\n' ∷ t)
length-block_line w t = omega (arith, length-append (block w) (b'\n' ∷ t))

split_loop-block :
    (fuel : ℕ) (w t : Text)
    → IsWord w
    → split_loop fuel (length (block w)) (block w ++ b'\n' ∷ t) ≡ none
unfolding split_loop
split_loop-block zero w t h = refl
split_loop-block (suc fuel) w t h =
    let long : leb (length (block w ++ b'\n' ∷ t)) (length (block w)) ≡ false =
      ground (arith, length-block_line w t) in
    rw (split_loop, long, cut-block w t h, split_loop-block fuel w (b'\n' ∷ t) h) refl

-- The splitting does not end, however long it runs, on a message that begins with three ticks, a
-- word that reaches to the limit and a line break: each round opens the next with the same line.
pub split_message-diverges :
    (fuel : ℕ) (word rest : Text)
    → IsWord word
    → split_message fuel (block word ++ b'\n' ∷ rest) (length (block word)) ≡ none
unfolding split_message
split_message-diverges fuel word rest h =
    let long : leb (length (block word ++ b'\n' ∷ rest)) (length (block word)) ≡ false =
      ground (arith, length-block_line word rest) in
    rw (split_message, long, split_loop-block fuel word rest h) refl
