-- ===== src/ControlPlane/Env/Merged.antt =====
-- What the variables are after a merge.
use openpalm.Base.{
  ◌≡◌, ◌⊎◌, inl, inr, ◌++◌, refl, sym, subst, ◌∙◌, arith, Bool, true, false, List, [], ◌∷◌, Option,
  none, some, Option-cases, Bool-cases, Text, text_eq, text_beq_iff, Map, get, delete, get-delete,
  if◌then◌else◌, ◌==◌,
}
use openpalm.ControlPlane.Env.{
  assignment, line_of, quote_env_value, merge_line, merge_lines, new_lines,
}
use openpalm.ControlPlane.Env.Lines.{IsName, assignment-key, assignment-line_of}

abbrev pub assigns : Bool → Text → Text → Bool
assigns uncomment key line = elim (assignment uncomment line) [
  | none ↦ false
  | some a ↦ a.key == key
]

-- The first line that assigns the variable.
abbrev pub first_line : Bool → Text → List Text → Option Text
first_line uncomment key [] = none
first_line uncomment key (line ∷ lines) =
    let rest = first_line uncomment key lines in
    if assigns uncomment key line then some line else rest

abbrev pub or_first : Option Text → Option Text → Option Text
or_first none o = o
or_first (some line) o = some line

pub first_line-append :
    (u : Bool) (key : Text) (xs ys : List Text)
    → first_line u key (xs ++ ys) ≡ or_first (first_line u key xs) (first_line u key ys)
first_line-append u key [] ys = refl
first_line-append u key (x ∷ xs) ys = ground (arith, first_line-append u key xs ys)

-- The names of all entries are names.
abbrev pub AreNames : Map Text Text → Type 0
AreNames [] = Unit
AreNames ((key, value) ∷ m) = IsName key × AreNames m

pub get-AreNames : (m : Map Text Text) (k v : Text) → AreNames m → get k m ≡ some v → IsName k
unfolding get
get-AreNames [] k v h e = cc
get-AreNames ((key, value) ∷ m) k v h e = elim (Bool-cases (key == k)) [
  | inl same ↦ subst IsName ((text_beq_iff key k).0 same) h.0
  | inr other ↦ get-AreNames m k v h.1 (ground arith)
]

pub delete-AreNames : (k : Text) (m : Map Text Text) → AreNames m → AreNames (delete k m)
unfolding delete
delete-AreNames k [] h = tt
delete-AreNames k ((key, value) ∷ m) h = elim (Bool-cases (key == k)) [
  | inl same ↦ rw same (delete-AreNames k m h.1)
  | inr other ↦ rw other (h.0, delete-AreNames k m h.1)
]

-- The line for the variable that is set, exported or not.
abbrev pub IsLineFor : Text → Text → Option Text → Type 0
IsLineFor key value o =
    (had_export : Bool) × (o ≡ some (line_of (record { had_export = had_export; key = key }) value))

pub first_line-new_lines :
    (u : Bool) (m : Map Text Text) (k : Text)
    → AreNames m
    → (get k m ≡ none) × (first_line u k (new_lines m) ≡ none)
      ⊎ (v : Text) × (get k m ≡ some v)
        × (first_line u k (new_lines m) ≡ some (k ++ b'=' ∷ quote_env_value v))
unfolding get
first_line-new_lines u [] k h = inl (refl, refl)
first_line-new_lines u ((key, value) ∷ m) k h = elim (Bool-cases (key == k)) [
  | inl same ↦ inr (
    value,
    ground (arith, same),
    ground (arith, same, text_beq_iff key k, assignment-key u key (quote_env_value value) h.0),
  )
  | inr other ↦ ground (
    arith,
    other,
    assignment-key u key (quote_env_value value) h.0,
    first_line-new_lines u m k h.1,
  )
]

merge_line-set :
    (u : Bool) (line : Text) (m : Map Text Text) (k v : Text)
    → AreNames m
    → get k m ≡ some v
    → let r = merge_line u line m in
      (assigns u k r.0 ≡ true) × IsLineFor k v (some r.0)
      ⊎ (assigns u k r.0 ≡ false) × (get k r.1 ≡ some v)
unfolding merge_line
merge_line-set u line m k v h e = elim (Option-cases (assignment u line)) [
  | inl f ↦ inr (ground (arith, f, e))
  | inr (a, f) ↦ elim (Option-cases (get a.key m)) [
    | inl g ↦ inr (ground (arith, f, g, e, text_beq_iff a.key k))
    | inr (w, g) ↦ elim (Bool-cases (a.key == k)) [
      | inl same ↦
          let is_k = (text_beq_iff a.key k).0 same in
          let written = assignment-line_of u a w (get-AreNames m a.key w h g) in
          inl (
            rw (f, merge_line, g)
              (rw (assigns, written) same, (a.had_export, ground (arith, is_k, e, g))))
      | inr other ↦
          let written = assignment-line_of u a w (get-AreNames m a.key w h g) in
          inr (
            rw (f, merge_line, g)
              (rw (assigns, written) other, ground (arith, other, e, get-delete a.key k m)))
    ]
  ]
]

merge_line-other :
    (u : Bool) (line : Text) (m : Map Text Text) (k : Text)
    → AreNames m
    → get k m ≡ none
    → let r = merge_line u line m in
      (first_line u k (r.0 ∷ []) ≡ first_line u k (line ∷ [])) × (get k r.1 ≡ none)
unfolding merge_line
merge_line-other u line m k h e = elim (Option-cases (assignment u line)) [
  | inl f ↦ ground (arith, f, e)
  | inr (a, f) ↦ elim (Option-cases (get a.key m)) [
    | inl g ↦ ground (arith, f, g, e)
    | inr (w, g) ↦ ground (
      arith,
      f,
      g,
      e,
      text_beq_iff a.key k,
      get-delete a.key k m,
      assignment-line_of u a w (get-AreNames m a.key w h g),
    )
  ]
]

pub merge_line-AreNames :
    (u : Bool) (line : Text) (m : Map Text Text) → AreNames m → AreNames (merge_line u line m).1
unfolding merge_line
merge_line-AreNames u line m h = elim (Option-cases (assignment u line)) [
  | inl f ↦ rw (f, merge_line) h
  | inr (a, f) ↦ elim (Option-cases (get a.key m)) [
    | inl g ↦ rw (f, merge_line, g) h
    | inr (w, g) ↦ rw (f, merge_line, g) (delete-AreNames a.key m h)
  ]
]

pub merge_lines-AreNames :
    (u : Bool) (lines : List Text) (m : Map Text Text)
    → AreNames m
    → AreNames (merge_lines u lines m).1
unfolding merge_lines
merge_lines-AreNames u [] m h = h
merge_lines-AreNames u (line ∷ lines) m h =
    merge_lines-AreNames u lines (merge_line u line m).1 (merge_line-AreNames u line m h)

-- The first line of a variable is that of a line where this one assigns it.
here :
    (u : Bool) (k v line : Text) (lines : List Text)
    → (assigns u k line ≡ true) × IsLineFor k v (some line)
    → IsLineFor k v (first_line u k (line ∷ lines))
here u k v line lines h = rw (h.0) h.1

behind :
    (u : Bool) (k line : Text) (lines : List Text)
    → assigns u k line ≡ false
    → first_line u k (line ∷ lines) ≡ first_line u k lines
behind u k line lines h = rw h refl

pub merge_lines-other :
    (u : Bool) (lines : List Text) (m : Map Text Text) (k : Text)
    → AreNames m
    → get k m ≡ none
    → let r = merge_lines u lines m in
      (first_line u k r.0 ≡ first_line u k lines) × (get k r.1 ≡ none)
unfolding merge_lines
merge_lines-other u [] m k h e = (refl, e)
merge_lines-other u (line ∷ lines) m k h e =
    let (same, gone) = merge_line-other u line m k h e in
    let later =
      merge_lines-other u lines (merge_line u line m).1 k (merge_line-AreNames u line m h) gone in
    (
      first_line-append u k ((merge_line u line m).0 ∷ [])
            (merge_lines u lines (merge_line u line m).1).0
          ∙ (rw (same, later.0) (sym (first_line-append u k (line ∷ []) lines))),
      later.1,
    )

pub merge_lines-set :
    (u : Bool) (lines : List Text) (m : Map Text Text) (k v : Text)
    → AreNames m
    → get k m ≡ some v
    → let r = merge_lines u lines m in
      IsLineFor k v (first_line u k r.0) ⊎ (first_line u k r.0 ≡ none) × (get k r.1 ≡ some v)
unfolding merge_lines
merge_lines-set u [] m k v h e = inr (refl, e)
merge_lines-set u (line ∷ lines) m k v h e =
    let done = merge_line u line m in
    let rest = merge_lines u lines done.1 in
    elim (merge_line-set u line m k v h e) [
      | inl now ↦ inl (here u k v done.0 rest.0 now)
      | inr (not_now, left) ↦
          elim (merge_lines-set u lines done.1 k v (merge_line-AreNames u line m h) left) [
            | inl later ↦ inl (rw (behind u k done.0 rest.0 not_now) later)
            | inr (never, still) ↦ inr (behind u k done.0 rest.0 not_now ∙ never, still)
          ]
    ]
