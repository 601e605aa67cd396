-- ===== src/Sdk/Split/Tests.antt =====
-- Messages split at small limits.
use openpalm.Base.{
  ◌≡◌, ◌++◌, refl, arith, [], ◌∷◌, none, some, Text, codes, is_space, trim, trim_start, trim_end,
  starts_with, strip_prefix,
}
use openpalm.Channels.Commands.Template.{word_at}
use openpalm.Sdk.Split.{
  fences_from, last_index_of, split_index, behind_fence, language, close_block, cut, split_loop,
  split_message,
}
use openpalm.Sdk.Split.Fits.{Splits, split_message-Splits}
use openpalm.Sdk.Split.Diverges.{block, split_message-diverges}

abbrev paragraphs : Text
paragraphs = codes "one two\n\nthree\nfour five six"

at_breaks :
    split_message 9 paragraphs 12
    ≡ some (codes "one two" ∷ codes "three\nfour f" ∷ codes "ive six" ∷ [])
unfolding split_message split_loop cut split_index close_block last_index_of fences_from starts_with
    trim trim_start trim_end is_space
at_breaks = refl

-- The fence that is added takes the first chunk beyond the limit of 10.
fence_beyond_limit :
    split_message 9 (codes "```js\nabcdefg\n```") 10
    ≡ some (codes "```js\nabcd\n```" ∷ codes "```js\nefg\n```" ∷ codes "```js\n\n```" ∷ [])
unfolding split_message split_loop cut split_index close_block last_index_of fences_from starts_with
    trim trim_start trim_end is_space language behind_fence strip_prefix word_at
fence_beyond_limit = refl

split_message-Splits_example : Splits 12 paragraphs (split_message 40 paragraphs 12)
split_message-Splits_example =
    split_message-Splits 40 12 paragraphs (omega arith) (ground arith) (omega arith)

split_message-diverges_example :
    split_message 1000 (block (codes "typescript") ++ b'\n' ∷ codes "let") 13 ≡ none
split_message-diverges_example =
    split_message-diverges 1000 (codes "typescript") (codes "let") (ground arith)
