-- ===== src/ControlPlane/Env/Lines.antt =====
-- The lines that a merge writes are read back as the assignments that they are.
use openpalm.Base.{
  ℕ, ◌≡◌, ◌≢◌, ◌++◌, refl, arith, Bool, true, false, [], ◌∷◌, none, some, Text, codes, is_space,
  trim_start, trim_end, trim, strip_prefix, All, Lacks, Bool-cases, inl, inr,
}
use openpalm.ControlPlane.StackSpec.Capability.{take-length-append, index_of-append}
use openpalm.ControlPlane.Env.{
  Assignment, key_before, test_line, assignment, without_hash, line_of, quote_env_value,
}

-- A unit that a name may hold: no blank, no equals sign and no number sign.
abbrev pub IsNameUnit : ℕ → Type 0
IsNameUnit c = (is_space c ≡ false) × (c ≢ b'=') × (c ≢ b'#')

abbrev pub IsName : Text → Type 0
IsName [] = ⊥
IsName (c ∷ s) = IsNameUnit c × All IsNameUnit s

-- What stands before an equals sign is never trimmed at its end.
trim_end-append : (key s : Text) → trim_end (key ++ b'=' ∷ s) ≡ key ++ b'=' ∷ trim_end s
unfolding trim_end is_space
trim_end-append [] s = ground arith
trim_end-append (c ∷ []) s = ground (arith, trim_end-append [] s)
trim_end-append (c ∷ d ∷ key) s = ground (arith, trim_end-append (d ∷ key) s)

trim_start-solid : (c : ℕ) (s : Text) → is_space c ≡ false → trim_start (c ∷ s) ≡ c ∷ s
unfolding trim_start
trim_start-solid c s h = rw h refl

trim_end-name : (key : Text) → All IsNameUnit key → trim_end key ≡ key
unfolding trim_end
trim_end-name [] h = refl
trim_end-name (c ∷ key) h = rw (h.0.0, trim_end-name key h.1) refl

trim-name : (key : Text) → IsName key → trim key ≡ key
unfolding trim
trim-name [] h = absurd h
trim-name (c ∷ key) h = rw (trim_start-solid c key h.0.0) (trim_end-name (c ∷ key) h)

trim-line :
    (c : ℕ) (key s : Text)
    → is_space c ≡ false
    → trim (c ∷ key ++ b'=' ∷ s) ≡ c ∷ key ++ b'=' ∷ trim_end s
unfolding trim
trim-line c key s h = rw (trim_start-solid c (key ++ b'=' ∷ s) h) (trim_end-append (c ∷ key) s)

strip_prefix-name :
    (q key s : Text)
    → Lacks b'=' q
    → All IsNameUnit key
    → strip_prefix (q ++ b' ' ∷ []) (key ++ b'=' ∷ s) ≡ none
unfolding strip_prefix is_space
strip_prefix-name [] [] s hq h = refl
strip_prefix-name [] (c ∷ key) s hq h = ground arith
strip_prefix-name (p ∷ q) [] s hq h = ground arith
strip_prefix-name (p ∷ q) (c ∷ key) s hq h = ground (arith, strip_prefix-name q key s hq.1 h.1)

-- `without_hash` after the trimming leaves such a line alone.
uncommented_line :
    (c : ℕ) (key s : Text)
    → IsNameUnit c
    → without_hash (trim (c ∷ key ++ b'=' ∷ s)) ≡ c ∷ key ++ b'=' ∷ trim_end (trim_end s)
uncommented_line c key s h =
    rw (trim-line c key s h.0) (ground (arith, h.1, h.2, trim-line c key (trim_end s) h.0))

test-line :
    (uncomment : Bool) (c : ℕ) (key s : Text)
    → IsNameUnit c
    → (t : Text) × (test_line uncomment (c ∷ key ++ b'=' ∷ s) ≡ c ∷ key ++ b'=' ∷ t)
unfolding test_line
test-line true c key s h = (trim_end (trim_end s), uncommented_line c key s h)
test-line false c key s h = (trim_end s, trim-line c key s h.0)

All-Lacks : (key : Text) → All IsNameUnit key → Lacks b'=' key
All-Lacks [] h = tt
All-Lacks (c ∷ key) h = (h.0.1, All-Lacks key h.1)

key_before-name :
    (had_export : Bool) (key s : Text)
    → IsName key
    → key_before had_export (key ++ b'=' ∷ s) ≡ some (record { had_export = had_export; key = key })
unfolding key_before
key_before-name had_export [] s h = absurd h
key_before-name had_export (c ∷ key) s h =
    rw
      (
        key_before,
        index_of-append b'=' (c ∷ key) s (All-Lacks (c ∷ key) h),
        take-length-append (c ∷ key) (b'=' ∷ s),
        trim-name (c ∷ key) h,
      )
      (ground arith)

pub assignment-key :
    (uncomment : Bool) (key s : Text)
    → IsName key
    → assignment uncomment (key ++ b'=' ∷ s) ≡ some (record { had_export = false; key = key })
unfolding assignment
assignment-key uncomment [] s h = absurd h
assignment-key uncomment (c ∷ key) s h =
    let (t, e) = test-line uncomment c key s h.0 in
    let plain = strip_prefix-name (codes "export") (c ∷ key) t (ground arith) h in
    rw (assignment, e, plain, e) (key_before-name false (c ∷ key) t h)

export_unit : IsNameUnit b'e'
unfolding is_space
export_unit = (refl, omega arith, omega arith)

strip-export : (s : Text) → strip_prefix (codes "export ") (codes "export " ++ s) ≡ some s
unfolding strip_prefix
strip-export s = refl

assignment-export :
    (uncomment : Bool) (key s : Text)
    → IsName key
    → assignment uncomment (codes "export " ++ (key ++ b'=' ∷ s))
      ≡ some (record { had_export = true; key = key })
unfolding assignment
assignment-export uncomment [] s h = absurd h
assignment-export uncomment (c ∷ key) s h =
    let (t, e) = test-line uncomment b'e' (codes "xport " ++ (c ∷ key)) s export_unit in
    rw
      (
        assignment,
        e,
        strip-export (c ∷ key ++ b'=' ∷ t),
        trim_start-solid c (key ++ b'=' ∷ t) h.0.0,
      )
      (key_before-name true (c ∷ key) t h)

-- Whatever its value, a line written for an assignment is read as that assignment.
pub assignment-line_of :
    (uncomment : Bool) (a : Assignment) (value : Text)
    → IsName a.key
    → assignment uncomment (line_of a value) ≡ some a
assignment-line_of uncomment a value h = elim (Bool-cases a.had_export) [
  | inl e ↦ rw e (assignment-export uncomment a.key (quote_env_value value) h)
  | inr e ↦ rw e (assignment-key uncomment a.key (quote_env_value value) h)
]
