-- ===== src/Sdk/Split.antt =====
-- packages/channels-sdk/src/utils.ts: `splitMessage`. The loop runs on fuel: `none` is a run that has
-- not ended yet.
pub mod Places
pub mod Fits
pub mod Diverges
pub mod Tests
use openpalm.Base.{
  ℕ, zero, suc, ◌+◌, ◌*◌, ◌%◌, ◌++◌, Bool, true, false, ◌&&◌, not, List, [], ◌∷◌, Option, none,
  some, Text, codes, length, take, drop, keep, is_empty, trim, starts_with, strip_prefix, leb, ltb,
  nat_beq, if◌then◌else◌,
}
use openpalm.Channels.Commands.Template.{word_at}

abbrev pub is_tick : ℕ → Bool
is_tick c = nat_beq c b'`'

-- How often three ticks occur, one occurrence behind the other; `run` ticks stand in front.
unfoldable pub fences_from : ℕ → Text → ℕ
fences_from run [] = 0
fences_from run (c ∷ s) =
    let rest = fences_from (if is_tick c && not (nat_beq run 2) then suc run else 0) s in
    if is_tick c && nat_beq run 2 then suc rest else rest

abbrev pub fences : Text → ℕ
fences s = fences_from 0 s

-- Whether a code block is left open.
abbrev pub is_open : Text → Bool
is_open s = nat_beq (fences s % 2) 1

-- `s.lastIndexOf(pattern, k)`, none for -1.
unfoldable pub last_index_of : Text → ℕ → Text → Option ℕ
last_index_of pattern zero s = if starts_with s pattern then some 0 else none
last_index_of pattern (suc k) [] = none
last_index_of pattern (suc k) (c ∷ s) = elim (last_index_of pattern k s) [
  | some i ↦ some (suc i)
  | none ↦ if starts_with (c ∷ s) pattern then some 0 else none
]

-- The index and what is added to it, if it lies behind the half of the limit.
abbrev pub index_or : ℕ → ℕ → Option ℕ → ℕ → ℕ
index_or max_length more none other = other
index_or max_length more (some i) other = if ltb max_length (2 * i) then i + more else other

unfoldable pub split_index : ℕ → Text → ℕ
split_index max_length s =
    let single = last_index_of (codes "\n") max_length s in
    if is_open (take max_length s)
    then index_or max_length 0 single max_length
    else index_or max_length 2 (last_index_of (codes "\n\n") max_length s)
        (index_or max_length 1 single max_length)

-- What stands behind the first three ticks.
unfoldable pub behind_fence : Text → Option Text
behind_fence [] = none
behind_fence (c ∷ s) = elim (strip_prefix (codes "```") (c ∷ s)) [
  | some rest ↦ some rest
  | none ↦ behind_fence s
]

-- The word behind them, empty where there is none.
unfoldable pub language : Text → Text
unfolding behind_fence
language chunk = elim (behind_fence chunk) [ none ↦ [] | some rest ↦ (word_at rest).0 ]

abbrev closed : Text → Text
closed chunk = chunk ++ codes "\n```"

-- The chunk and what remains.
unfoldable pub close_block : Text → Text → Text × Text
unfolding language
close_block chunk remaining =
    if is_open chunk
    then (trim (closed chunk), codes "```" ++ (language (closed chunk) ++ b'\n' ∷ remaining))
    else (trim chunk, remaining)

unfoldable pub cut : ℕ → Text → Text × Text
unfolding split_index close_block
cut max_length s = let i = split_index max_length s in close_block (take i s) (drop i s)

unfoldable pub split_loop : ℕ → ℕ → Text → Option (List Text)
unfolding cut
split_loop zero max_length s = none
split_loop (suc fuel) max_length s =
    if is_empty s
    then some []
    else if leb (length s) max_length
    then some (s ∷ [])
    else let part = cut max_length s in
      elim (split_loop fuel max_length part.1) [
        | none ↦ none
        | some chunks ↦ some (part.0 ∷ chunks)
      ]

unfoldable pub split_message : ℕ → Text → ℕ → Option (List Text)
unfolding split_loop
split_message fuel content max_length =
    if is_empty content
    then some []
    else if leb (length content) max_length
    then some (content ∷ [])
    else elim (split_loop fuel max_length content) [
      | none ↦ none
      | some chunks ↦ some (keep (λ c. not (is_empty c)) chunks)
    ]
