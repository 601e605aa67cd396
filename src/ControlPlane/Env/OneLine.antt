-- ===== src/ControlPlane/Env/OneLine.antt =====
-- The merged lines are lines: none of them holds a line break.
use openpalm.Base.{
  ℕ, ◌≡◌, ◌≢◌, inl, inr, ◌++◌, subst, arith, Bool, true, false, ◌||◌, not, List, [], ◌∷◌, some,
  Option-cases, Bool-cases, Text, text_eq, codes, Map, get, delete, is_empty, is_space, any_by,
  trim, nat_beq, if◌then◌else◌, ◌==◌, All, All-append, Lacks,
}
use openpalm.ControlPlane.Env.{
  MergeOptions, Assignment, assignment, line_of, is_special, replace_all, escape, quote_env_value,
  merge_line, merge_lines, new_lines, ends_empty, header_lines, append_remaining, merged_lines,
}
use openpalm.ControlPlane.Env.Lines.{IsNameUnit, IsName}
use openpalm.ControlPlane.Env.Merged.{
  AreNames, get-AreNames, merge_line-AreNames, merge_lines-AreNames,
}

abbrev pub IsLine : Text → Type 0
IsLine s = Lacks b'\n' s

abbrev pub AreLines : Map Text Text → Type 0
AreLines [] = Unit
AreLines ((key, value) ∷ m) = IsLine value × AreLines m

replace_all-IsLine : (c : ℕ) (by s : Text) → IsLine by → IsLine s → IsLine (replace_all c by s)
unfolding replace_all
replace_all-IsLine c by [] hb h = tt
replace_all-IsLine c by (d ∷ s) hb h = elim (Bool-cases (nat_beq d c)) [
  | inl e ↦
      rw e
        (All-append (λ c. c ≢ b'\n') by (replace_all c by s) hb (replace_all-IsLine c by s hb h.1))
  | inr e ↦ rw e (h.0, replace_all-IsLine c by s hb h.1)
]

escaped-IsLine :
    (c d : ℕ) (s : Text) → d ≢ b'\n' → IsLine s → IsLine (replace_all c (92 ∷ d ∷ []) s)
escaped-IsLine c d s h k = replace_all-IsLine c (92 ∷ d ∷ []) s (omega arith, (h, tt)) k

escape-IsLine : (value : Text) → IsLine value → IsLine (escape value)
unfolding escape
escape-IsLine value h =
    let slashes = replace_all 92 (92 ∷ 92 ∷ []) value in
    let dollars = replace_all b'$' (92 ∷ b'$' ∷ []) slashes in
    let quotes = replace_all b'"' (92 ∷ b'"' ∷ []) dollars in
    let breaks = replace_all b'\n' (92 ∷ b'n' ∷ []) quotes in
    escaped-IsLine 13 b'r' breaks (omega arith) (
      escaped-IsLine b'\n' b'n' quotes (omega arith) (
        escaped-IsLine b'"' b'"' dollars (omega arith) (
          escaped-IsLine b'$' b'$' slashes (omega arith)
            (escaped-IsLine 92 92 value (omega arith) h))))

wrap-IsLine : (q : ℕ) (s : Text) → q ≢ b'\n' → IsLine s → IsLine (q ∷ (s ++ q ∷ []))
wrap-IsLine q s h hs = (h, All-append (λ c. c ≢ b'\n') s (q ∷ []) hs (h, tt))

if-IsLine : (b : Bool) (s t : Text) → IsLine s → IsLine t → IsLine (if b then s else t)
if-IsLine true s t h k = h
if-IsLine false s t h k = k

quote_env_value-IsLine : (value : Text) → IsLine value → IsLine (quote_env_value value)
unfolding quote_env_value
quote_env_value-IsLine value h =
    let wrapped = 39 ∷ (value ++ 39 ∷ []) in
    let escaped = b'"' ∷ (escape value ++ b'"' ∷ []) in
    let quoted = if not (any_by (λ c. nat_beq c 39) value) then wrapped else escaped in
    let plain =
      if not (any_by is_special value || not (value == trim value)) then value else quoted in
    if-IsLine (is_empty value) [] plain tt (
      if-IsLine (not (any_by is_special value || not (value == trim value))) value quoted h (
        if-IsLine (not (any_by (λ c. nat_beq c 39) value)) wrapped escaped
          (wrap-IsLine 39 value (omega arith) h)
          (wrap-IsLine b'"' (escape value) (omega arith) (escape-IsLine value h))))

unit-ne : (c : ℕ) → is_space c ≡ false → c ≢ b'\n'
unfolding is_space
unit-ne c h = ground arith

units-IsLine : (key : Text) → All IsNameUnit key → IsLine key
units-IsLine [] h = tt
units-IsLine (c ∷ key) h = (unit-ne c h.0.0, units-IsLine key h.1)

name-IsLine : (key : Text) → IsName key → IsLine key
name-IsLine [] h = absurd h
name-IsLine (c ∷ key) h = units-IsLine (c ∷ key) h

setting-IsLine :
    (key value : Text) → IsName key → IsLine value → IsLine (key ++ b'=' ∷ quote_env_value value)
setting-IsLine key value h k =
    All-append (λ c. c ≢ b'\n') key (b'=' ∷ quote_env_value value) (name-IsLine key h)
      (omega arith, quote_env_value-IsLine value k)

export-IsLine : IsLine (codes "export ")
export-IsLine = ground arith

line_of-IsLine :
    (a : Assignment) (value : Text) → IsName a.key → IsLine value → IsLine (line_of a value)
line_of-IsLine a value h k =
    All-append (λ c. c ≢ b'\n') (if a.had_export then codes "export " else [])
      (a.key ++ b'=' ∷ quote_env_value value)
      (if-IsLine a.had_export (codes "export ") [] export-IsLine tt)
      (setting-IsLine a.key value h k)

AreLines-get : (m : Map Text Text) (k v : Text) → AreLines m → get k m ≡ some v → IsLine v
unfolding get
AreLines-get [] k v h e = cc
AreLines-get ((key, value) ∷ m) k v h e = elim (Bool-cases (key == k)) [
  | inl same ↦ subst IsLine (ground (arith, same, e)) h.0
  | inr other ↦ AreLines-get m k v h.1 (ground arith)
]

AreLines-delete : (k : Text) (m : Map Text Text) → AreLines m → AreLines (delete k m)
unfolding delete
AreLines-delete k [] h = tt
AreLines-delete k ((key, value) ∷ m) h = elim (Bool-cases (key == k)) [
  | inl same ↦ rw same (AreLines-delete k m h.1)
  | inr other ↦ rw other (h.0, AreLines-delete k m h.1)
]

merge_line-IsLine :
    (u : Bool) (line : Text) (m : Map Text Text)
    → AreNames m
    → AreLines m
    → IsLine line
    → IsLine (merge_line u line m).0 × AreLines (merge_line u line m).1
unfolding merge_line
merge_line-IsLine u line m h k l = elim (Option-cases (assignment u line)) [
  | inl f ↦ rw (f, merge_line) (l, k)
  | inr (a, f) ↦ elim (Option-cases (get a.key m)) [
    | inl g ↦ rw (f, merge_line, g) (l, k)
    | inr (w, g) ↦
        rw (f, merge_line, g)
          (
            line_of-IsLine a w (get-AreNames m a.key w h g) (AreLines-get m a.key w k g),
            AreLines-delete a.key m k,
          )
  ]
]

merge_lines-IsLine :
    (u : Bool) (lines : List Text) (m : Map Text Text)
    → AreNames m
    → AreLines m
    → All IsLine lines
    → All IsLine (merge_lines u lines m).0 × AreLines (merge_lines u lines m).1
unfolding merge_lines
merge_lines-IsLine u [] m h k l = (tt, k)
merge_lines-IsLine u (line ∷ lines) m h k l =
    let one = merge_line-IsLine u line m h k l.0 in
    let rest =
      merge_lines-IsLine u lines (merge_line u line m).1 (merge_line-AreNames u line m h) one.1
        l.1 in
    ((one.0, rest.0), rest.1)

new_lines-IsLine : (m : Map Text Text) → AreNames m → AreLines m → All IsLine (new_lines m)
new_lines-IsLine [] h k = tt
new_lines-IsLine ((key, value) ∷ m) h k =
    (setting-IsLine key value h.0 k.0, new_lines-IsLine m h.1 k.1)

gap-IsLine :
    (lines : List Text)
    → All IsLine lines
    → All IsLine (if ends_empty lines then lines else lines ++ [] ∷ [])
gap-IsLine lines h = elim (Bool-cases (ends_empty lines)) [
  | inl e ↦ rw e h
  | inr e ↦ rw e (All-append IsLine lines ([] ∷ []) h (tt, tt))
]

header_lines-IsLine :
    (options : MergeOptions) → IsLine options.section_header → All IsLine (header_lines options)
header_lines-IsLine options h = elim (Bool-cases (is_empty options.section_header)) [
  | inl e ↦ rw e tt
  | inr e ↦ rw e (h, tt)
]

append_remaining-IsLine :
    (options : MergeOptions) (lines : List Text) (m : Map Text Text)
    → IsLine options.section_header
    → All IsLine lines
    → AreNames m
    → AreLines m
    → All IsLine (append_remaining options lines m)
unfolding append_remaining
append_remaining-IsLine options lines [] s l h k = l
append_remaining-IsLine options lines (entry ∷ m) s l h k =
    All-append IsLine (if ends_empty lines then lines else lines ++ [] ∷ [])
      (header_lines options ++ new_lines (entry ∷ m)) (gap-IsLine lines l)
      (All-append IsLine (header_lines options) (new_lines (entry ∷ m))
        (header_lines-IsLine options s) (new_lines-IsLine (entry ∷ m) h k))

pub merged_lines-IsLine :
    (options : MergeOptions) (lines : List Text) (m : Map Text Text)
    → IsLine options.section_header
    → All IsLine lines
    → AreNames m
    → AreLines m
    → All IsLine (merged_lines options lines m)
unfolding merged_lines
merged_lines-IsLine options lines m s l h k =
    let done = merge_lines-IsLine options.uncomment lines m h k l in
    append_remaining-IsLine options (merge_lines options.uncomment lines m).0
      (merge_lines options.uncomment lines m).1 s done.0
      (merge_lines-AreNames options.uncomment lines m h) done.1
