-- ===== src/ControlPlane/CapabilityVars/Set.antt =====
-- Which variables are set, and what they are in the file afterwards.
use openpalm.Base.{
  ℕ, ◌≡◌, ◌++◌, inl, inr, refl, ap, arith, Bool, true, false, ◌&&◌, ◌||◌, not, List, [], ◌∷◌,
  Option, none, some, Bool-cases, Text, text_eq, codes, Map, map, all_by, is_space, All, leb,
  nat_beq,
}
use openpalm.ControlPlane.StackSpec.{parse_capability_string}
use openpalm.ControlPlane.Env.Lines.{IsNameUnit, IsName}
use openpalm.ControlPlane.Env.OneLine.{IsLine}
use openpalm.ControlPlane.CapabilityVars.{
  Capabilities, Tts, Stt, Reranker, slm_vars, tts_vars, stt_vars, reranking_vars, capability_vars,
}

abbrev pub names : Map Text Text → List Text
names m = map (λ (e : Text × Text). e.0) m

abbrev pub prefixed : Text → List Text → List Text
prefixed prefix fields = map (λ f. prefix ++ b'_' ∷ f) fields

abbrev service : Text → List Text → List Text
service prefix more =
    prefixed prefix (codes "PROVIDER" ∷ codes "MODEL" ∷ codes "BASE_URL" ∷ codes "API_KEY" ∷ more)

-- The variables of all capabilities.
abbrev pub capability_names : List Text
capability_names =
    service (codes "OP_CAP_LLM") []
    ++ (service (codes "OP_CAP_SLM") []
        ++ (service (codes "OP_CAP_EMBEDDINGS") (codes "DIMS" ∷ [])
            ++ (service (codes "OP_CAP_TTS") (codes "VOICE" ∷ codes "FORMAT" ∷ [])
                ++ (service (codes "OP_CAP_STT") (codes "LANGUAGE" ∷ [])
                    ++ (service (codes "OP_CAP_RERANKING") (codes "TOP_K" ∷ codes "TOP_N" ∷ [])
                        ++ codes "MEMORY_USER_ID" ∷ [])))))

names-append : (m n : Map Text Text) → names (m ++ n) ≡ names m ++ names n
names-append [] n = refl
names-append (e ∷ m) n = ap (λ r. e.0 ∷ r) (names-append m n)

module _ (env : Map Text Text) (has_ollama : Bool) (number_text : ℕ → Text) where
  names-slm_vars :
      (slm : Text)
      → names (slm_vars env has_ollama number_text slm) ≡ service (codes "OP_CAP_SLM") []
  unfolding slm_vars
  names-slm_vars [] = refl
  names-slm_vars (c ∷ s) = refl

  names-tts_vars :
      (p : Text) (t : Option Tts)
      → names (tts_vars env has_ollama number_text p t)
        ≡ service (codes "OP_CAP_TTS") (codes "VOICE" ∷ codes "FORMAT" ∷ [])
  unfolding tts_vars
  names-tts_vars p none = refl
  names-tts_vars p (some t) = elim (Bool-cases t.enabled) [
    | inl e ↦ rw (e, tts_vars) refl
    | inr e ↦ rw (e, tts_vars) refl
  ]

  names-stt_vars :
      (p : Text) (t : Option Stt)
      → names (stt_vars env has_ollama number_text p t)
        ≡ service (codes "OP_CAP_STT") (codes "LANGUAGE" ∷ [])
  unfolding stt_vars
  names-stt_vars p none = refl
  names-stt_vars p (some t) = elim (Bool-cases t.enabled) [
    | inl e ↦ rw (e, stt_vars) refl
    | inr e ↦ rw (e, stt_vars) refl
  ]

  names-reranking_vars :
      (p : Text) (r : Option Reranker)
      → names (reranking_vars env has_ollama number_text p r)
        ≡ service (codes "OP_CAP_RERANKING") (codes "TOP_K" ∷ codes "TOP_N" ∷ [])
  unfolding reranking_vars
  names-reranking_vars p none = refl
  names-reranking_vars p (some r) = elim (Bool-cases r.enabled) [
    | inl e ↦ rw (e, reranking_vars) refl
    | inr e ↦ rw (e, reranking_vars) refl
  ]

  -- Whatever is enabled, the same variables are set, in the same order, those of the capabilities
  -- that are not enabled included.
  pub names-capability_vars :
      (c : Capabilities) → names (capability_vars env has_ollama number_text c) ≡ capability_names
  unfolding capability_vars
  names-capability_vars c =
      let p = (parse_capability_string c.llm).0 in
      let slm = slm_vars env has_ollama number_text c.slm in
      let tts = tts_vars env has_ollama number_text p c.tts in
      let stt = stt_vars env has_ollama number_text p c.stt in
      let reranking = reranking_vars env has_ollama number_text p c.reranking in
      rw
        (
          names-append slm _,
          names-slm_vars c.slm,
          names-append tts _,
          names-tts_vars p c.tts,
          names-append stt _,
          names-stt_vars p c.stt,
          names-append reranking _,
          names-reranking_vars p c.reranking,
        )
        refl

-- A test for names, on which the literals compute.
abbrev is_name_unit : ℕ → Bool
is_name_unit c = leb b'A' c && leb c b'Z' || nat_beq c b'_'

name_unit : (c : ℕ) → is_name_unit c ≡ true → IsNameUnit c
unfolding is_space
name_unit c h = ground arith

abbrev is_name : Text → Bool
is_name [] = false
is_name (c ∷ s) = all_by is_name_unit (c ∷ s)

units-IsName : (s : Text) → all_by is_name_unit s ≡ true → All IsNameUnit s
units-IsName [] h = tt
units-IsName (c ∷ s) h = (name_unit c (ground arith), units-IsName s (ground arith))

pub is_name-IsName : (s : Text) → is_name s ≡ true → IsName s
is_name-IsName [] h = cc
is_name-IsName (c ∷ s) h = units-IsName (c ∷ s) h

pub units-IsLine : (s : Text) → all_by (λ c. not (nat_beq c b'\n')) s ≡ true → IsLine s
units-IsLine [] h = tt
units-IsLine (c ∷ s) h = (ground arith, units-IsLine s (ground arith))
