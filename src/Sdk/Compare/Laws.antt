-- ===== src/Sdk/Compare/Laws.antt =====
-- The comparison that reads every position decides equality.
use openpalm.Base.{
  ℕ, ◌≡◌, ◌≢◌, ◌↔◌, refl, true, [], ◌∷◌, Text, length, arith, bit_or, bit_xor, bit_or-eq-zero_iff,
  bit_xor-eq-zero_iff,
}
use openpalm.Sdk.Compare.{diff_from, constant_time_equal, verify_signature}

diff_from-eq-zero :
    (d : ℕ) (s t : Text) → length s ≡ length t → diff_from d s t ≡ 0 → (d ≡ 0) × (s ≡ t)
unfolding diff_from
diff_from-eq-zero d [] [] h e = (e, refl)
diff_from-eq-zero d [] (b ∷ t) h e = absurd (omega arith)
diff_from-eq-zero d (a ∷ s) [] h e = absurd (omega arith)
diff_from-eq-zero d (a ∷ s) (b ∷ t) h e = ground (
  arith,
  bit_or-eq-zero_iff d (bit_xor a b),
  bit_xor-eq-zero_iff a b,
  diff_from-eq-zero (bit_or d (bit_xor a b)) s t (omega arith) e,
)

diff_from_self : (s : Text) → diff_from 0 s s ≡ 0
unfolding diff_from
diff_from_self [] = refl
diff_from_self (a ∷ s) =
    let z : bit_or 0 (bit_xor a a) ≡ 0 =
      (bit_or-eq-zero_iff 0 (bit_xor a a)).1 (refl, (bit_xor-eq-zero_iff a a).1 refl) in
    rw z (diff_from_self s)

-- The comparison answers true exactly on equal strings, of every length and content.
pub constant_time_equal_iff : (a b : Text) → (constant_time_equal a b ≡ true) ↔ (a ≡ b)
unfolding constant_time_equal
constant_time_equal_iff a b =
    (λ e. ground (arith, diff_from-eq-zero 0 a b), λ e. rw e (ground (arith, diff_from_self b)))

module _ (hmac : Text → Text → Text) where
  -- A signature is accepted exactly when neither it nor the secret is empty and it is the HMAC of
  -- the body under the secret.
  pub verify_signature_iff :
      (secret body sig : Text)
      → (verify_signature hmac secret body sig ≡ true)
        ↔ ((secret ≢ []) × (sig ≢ []) × (hmac secret body ≡ sig))
  unfolding verify_signature
  verify_signature_iff [] body sig = ground arith
  verify_signature_iff (c ∷ cs) body [] = ground arith
  verify_signature_iff (c ∷ cs) body (d ∷ ds) = (
    λ e. ground (arith, diff_from-eq-zero 0 (hmac (c ∷ cs) body) (d ∷ ds)),
    λ e. rw e.2 (ground (arith, diff_from_self (d ∷ ds))),
  )
