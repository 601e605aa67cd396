-- ===== src/Guardian/Forward/Turns/Links.antt =====
-- How the calls of a key are linked, and that entering and going on keep it so.
use openpalm.Base.{
  ℕ, ◌<◌, ◌≡◌, ◌++◌, inl, inr, refl, subst, arith, Bool, true, false, ◌&&◌, List, [], ◌∷◌, Option,
  none, some, Option-cases, Bool-cases, Text, text_eq, text_beq_iff, Map, get, set, get-set, map,
  count_by, if◌then◌else◌, ◌==◌, All,
}
use openpalm.Guardian.Forward.Turns.{Call, is_live, resume}

-- The first call of the key.
abbrev pub first_of : Text → List Call → Option Call
first_of key [] = none
first_of key (c ∷ calls) = let rest = first_of key calls in if c.key == key then some c else rest

-- The next call of its key waits for this one and does not run; if there is none, the map names it.
abbrev pub Follows : Map Text ℕ → Call → Option Call → Type 0
Follows last c none = get c.key last ≡ some c.number
Follows last c (some d) = (d.previous ≡ some c.number) × (d.running ≡ false)

abbrev pub Linked : Map Text ℕ → List Call → Type 0
Linked last [] = Unit
Linked last (c ∷ calls) = Follows last c (first_of c.key calls) × Linked last calls

abbrev pub Rising : List Call → Type 0
Rising [] = Unit
Rising (c ∷ calls) = All (λ (d : Call). c.number < d.number) calls × Rising calls

abbrev pub Below : ℕ → List Call → Type 0
Below n calls = All (λ (d : Call). d.number < n) calls

abbrev pub runs : Text → Call → Bool
runs key c = c.key == key && c.running

-- Behind a call of the key none of the key runs.
pub none_behind :
    (last : Map Text ℕ) (c : Call) (calls : List Call)
    → Linked last (c ∷ calls)
    → count_by (runs c.key) calls ≡ 0
none_behind last c [] h = refl
none_behind last c (d ∷ calls) h = elim (Bool-cases (d.key == c.key)) [
  | inl same ↦
      let equal = (text_beq_iff d.key c.key).0 same in
      let rest = none_behind last d calls h.1 in
      let idle = (rw same at h.0).1 in
      let own : count_by (runs d.key) (d ∷ calls) ≡ 0 = ground (arith, idle, rest) in
      subst (λ k. count_by (runs k) (d ∷ calls) ≡ 0) equal own
  | inr other ↦
      let rest = none_behind last c calls (rw other at h.0, h.1.1) in ground (arith, other, rest)
]

pub first_of-append :
    (key : Text) (calls : List Call) (w : Call)
    → first_of key (calls ++ w ∷ []) ≡ elim (first_of key calls) as (λ x. Option Call) [
      | some c ↦ some c
      | none ↦ if w.key == key then some w else none
    ]
first_of-append key [] w = refl
first_of-append key (c ∷ calls) w = ground (arith, first_of-append key calls w)

pub enter-Linked :
    (last : Map Text ℕ) (calls : List Call) (key : Text) (n : ℕ)
    → Linked last calls
    → Linked
        (set key n last)
        (calls ++ record { key = key; number = n; previous = get key last; running = false } ∷ [])
enter-Linked last [] key n h = (ground (arith, get-set key key n last, text_beq_iff key key), tt)
enter-Linked last (c ∷ calls) key n h =
    let w : Call = record { key = key; number = n; previous = get key last; running = false } in
    (
      elim (Option-cases (first_of c.key calls)) [
        | inr (d, e) ↦ rw (first_of-append c.key calls w, e) (rw e at h.0)
        | inl e ↦ elim (Bool-cases (key == c.key)) [
          | inl same ↦
              rw (first_of-append c.key calls w, e, same)
                (ground (arith, rw e at h.0, text_beq_iff key c.key), refl)
          | inr other ↦
              rw (first_of-append c.key calls w, e, other)
                (ground (arith, rw e at h.0, get-set key c.key n last))
        ]
      ],
      enter-Linked last calls key n h.1,
    )

-- A call resumes nothing that waits for a live one.
pub resume-waiting :
    (calls : List Call) (n m : ℕ) (d : Call)
    → is_live calls m ≡ true
    → d.previous ≡ some m
    → resume calls n d ≡ d
resume-waiting calls n m d live e = ground (arith, live, e)

pub first_of-map :
    (calls : List Call) (n : ℕ) (key : Text) (cs : List Call)
    → first_of key (map (resume calls n) cs) ≡ elim (first_of key cs) as (λ x. Option Call) [
      | none ↦ none
      | some d ↦ some (resume calls n d)
    ]
first_of-map calls n key [] = refl
first_of-map calls n key (c ∷ cs) = ground (arith, first_of-map calls n key cs)

pub resume-number : (calls : List Call) (n : ℕ) (c : Call) → (resume calls n c).number ≡ c.number
resume-number calls n c = ground arith

pub resume-key : (calls : List Call) (n : ℕ) (c : Call) → (resume calls n c).key ≡ c.key
resume-key calls n c = ground arith

unfoldable pub AreLive : List Call → List Call → Type 0
AreLive calls cs = All (λ (c : Call). is_live calls c.number ≡ true) cs

pub resume-Follows :
    (last : Map Text ℕ) (calls : List Call) (n : ℕ) (c : Call) (o : Option Call)
    → is_live calls c.number ≡ true
    → Follows last c o
    → Follows last
        (resume calls n c)
        (elim o as (λ x. Option Call) [ none ↦ none | some d ↦ some (resume calls n d) ])
resume-Follows last calls n c none live h = rw (resume-number calls n c, resume-key calls n c) h
resume-Follows last calls n c (some d) live h =
    rw (resume-waiting calls n c.number d live h.0, resume-number calls n c) h

pub resume-Linked :
    (last : Map Text ℕ) (calls : List Call) (n : ℕ) (cs : List Call)
    → AreLive calls cs
    → Linked last cs
    → Linked last (map (resume calls n) cs)
unfolding AreLive
resume-Linked last calls n [] live h = tt
resume-Linked last calls n (c ∷ cs) live h = (
  rw (resume-key calls n c, first_of-map calls n c.key cs)
      (resume-Follows last calls n c (first_of c.key cs) live.0 h.0),
  resume-Linked last calls n cs live.1 h.1,
)

pub AreLive-more : (c : Call) (calls cs : List Call) → AreLive calls cs → AreLive (c ∷ calls) cs
unfolding AreLive
AreLive-more c calls [] h = tt
AreLive-more c calls (d ∷ cs) h = (ground (arith, h.0), AreLive-more c calls cs h.1)

pub AreLive-self : (calls : List Call) → AreLive calls calls
unfolding AreLive
AreLive-self [] = tt
AreLive-self (c ∷ calls) = (ground arith, AreLive-more c calls calls (AreLive-self calls))

-- What is said of the numbers only.
pub resume-All :
    (P : ℕ → Type 0) (calls : List Call) (n : ℕ) (cs : List Call)
    → All (λ (c : Call). P c.number) cs
    → All (λ (c : Call). P c.number) (map (resume calls n) cs)
resume-All P calls n [] h = tt
resume-All P calls n (c ∷ cs) h = (rw (resume-number calls n c) h.0, resume-All P calls n cs h.1)

pub resume-Rising :
    (calls : List Call) (n : ℕ) (cs : List Call) → Rising cs → Rising (map (resume calls n) cs)
resume-Rising calls n [] h = tt
resume-Rising calls n (c ∷ cs) h = (
  rw (resume-number calls n c) (resume-All (λ m. c.number < m) calls n cs h.0),
  resume-Rising calls n cs h.1,
)
