-- ===== src/Sdk/Compare/Tests.antt =====
-- Comparisons of concrete strings.
use openpalm.Base.{◌≡◌, ◌≢◌, ◌↔◌, refl, true, false, [], Text, codes, ◌++◌}
use openpalm.Sdk.Compare.{diff_from, constant_time_equal, verify_signature}
use openpalm.Sdk.Compare.Laws.{verify_signature_iff}

-- A stand-in for the digest.
abbrev joined : Text → Text → Text
joined secret body = secret ++ body

differs : constant_time_equal (codes "token-1") (codes "token-2") ≡ false
unfolding constant_time_equal diff_from
differs = refl

verify_signature_iff_example :
    (verify_signature joined (codes "k") (codes "body") (codes "kbody") ≡ true)
    ↔ ((codes "k" ≢ []) × (codes "kbody" ≢ []) × (codes "kbody" ≡ codes "kbody"))
verify_signature_iff_example =
    verify_signature_iff joined (codes "k") (codes "body") (codes "kbody")
