-- ===== src/Sdk/Compare.antt =====
-- packages/channels-sdk/src/utils.ts `constantTimeEqual`, and crypto.ts. The HMAC of
-- `Bun.CryptoHasher` is a parameter: a function of the secret and the body.
pub mod Laws
pub mod Tests
use openpalm.Base.{
  ℕ, Bool, true, false, ◌||◌, not, [], ◌∷◌, List, Text, length, nat_beq, if◌then◌else◌, bit_or,
  bit_xor, is_empty,
}

-- The loop over the positions, from the difference found so far.
unfoldable pub diff_from : ℕ → Text → Text → ℕ
diff_from diff [] t = diff
diff_from diff (a ∷ s) [] = diff
diff_from diff (a ∷ s) (b ∷ t) = diff_from (bit_or diff (bit_xor a b)) s t

unfoldable pub constant_time_equal : Text → Text → Bool
constant_time_equal a b =
    if not (nat_beq (length a) (length b)) then false else nat_beq (diff_from 0 a b) 0

module _ (hmac : Text → Text → Text) where
  unfoldable pub sign_payload : Text → Text → Text
  sign_payload secret body = hmac secret body

  unfoldable pub verify_signature : Text → Text → Text → Bool
  unfolding sign_payload
  verify_signature secret body sig =
      if is_empty secret || is_empty sig
      then false
      else let expected = sign_payload secret body in
        if not (nat_beq (length expected) (length sig))
        then false
        else nat_beq (diff_from 0 expected sig) 0
