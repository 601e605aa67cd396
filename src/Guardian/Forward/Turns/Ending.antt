-- ===== src/Guardian/Forward/Turns/Ending.antt =====
-- That the calls stay linked when one ends.
use openpalm.Base.{
  ℕ, ◌≤◌, ◌<◌, ◌≡◌, ◌≢◌, inl, inr, refl, ◌∙◌, subst, arith, false, ◌&&◌, not, List, [], ◌∷◌, Option,
  none, some, Option-cases, Bool-cases, Text, text_eq, text_beq_iff, Map, get, get-delete, keep,
  count_by, nat_beq, ◌==◌, All,
}
use openpalm.Guardian.Forward.Turns.{Call, running_call, forget_own}
use openpalm.Guardian.Forward.Turns.Links.{first_of, Follows, Linked, Rising, runs, none_behind}

-- Nothing is dropped where no call has the number.
pub keep-others :
    (n : ℕ) (cs : List Call)
    → All (λ (c : Call). n < c.number) cs
    → keep (λ (d : Call). not (nat_beq d.number n)) cs ≡ cs
keep-others n [] h = refl
keep-others n (c ∷ cs) h = ground (arith, h.0, keep-others n cs h.1)

pub running_call-others :
    (n : ℕ) (cs : List Call) → All (λ (c : Call). n < c.number) cs → running_call n cs ≡ none
unfolding running_call
running_call-others n [] h = refl
running_call-others n (c ∷ cs) h = ground (arith, h.0, running_call-others n cs h.1)

pub running_call-runs :
    (n : ℕ) (cs : List Call) (c : Call)
    → running_call n cs ≡ some c
    → (c.number ≡ n) × (1 ≤ count_by (runs c.key) cs)
unfolding running_call
running_call-runs n [] c e = cc
running_call-runs n (d ∷ cs) c e = elim (Bool-cases (nat_beq d.number n && d.running)) [
  | inl this ↦
      let is_c : d ≡ c = ground (arith, e, this) in
      ground (arith, this, is_c, text_beq_iff d.key c.key)
  | inr other ↦
      let (number, some_run) = running_call-runs n cs c (ground (arith, e, other)) in
      ground (arith, number, some_run)
]

pub get-forget_own :
    (c : Call) (last : Map Text ℕ) (k : Text)
    → (c.key == k) ≡ false
    → get k (forget_own c last) ≡ get k last
get-forget_own c last k h = elim (Option-cases (get c.key last)) [
  | inl e ↦ ground (arith, e)
  | inr (n, e) ↦ ground (arith, e, h, get-delete c.key k last)
]

-- The entry of another call stays.
pub get-forget_other :
    (c : Call) (last : Map Text ℕ) (k : Text) (n : ℕ)
    → get k last ≡ some n
    → n ≢ c.number
    → get k (forget_own c last) ≡ some n
get-forget_other c last k n e h = elim (Bool-cases (c.key == k)) [
  | inr other ↦ get-forget_own c last k other ∙ e
  | inl same ↦
      let equal = (text_beq_iff c.key k).0 same in
      let found : get c.key last ≡ some n = ground (arith, equal, e) in ground (arith, found, h, e)
]

pub forget-Linked :
    (c : Call) (last : Map Text ℕ) (cs : List Call)
    → All (λ (d : Call). c.number < d.number) cs
    → Linked last cs
    → Linked (forget_own c last) cs
forget-Linked c last [] h l = tt
forget-Linked c last (d ∷ cs) h l = (
  elim (Option-cases (first_of d.key cs)) [
    | inr (e, f) ↦ rw f (rw f at l.0)
    | inl f ↦ rw f (get-forget_other c last d.key d.number (rw f at l.0) (omega (arith, h.0)))
  ],
  forget-Linked c last cs h.1 l.1,
)

pub first_of-keep :
    (n : ℕ) (cs : List Call) (c : Call) (k : Text)
    → Rising cs
    → running_call n cs ≡ some c
    → (c.key == k) ≡ false
    → first_of k (keep (λ (d : Call). not (nat_beq d.number n)) cs) ≡ first_of k cs
unfolding running_call
first_of-keep n [] c k r e h = cc
first_of-keep n (d ∷ cs) c k r e h = elim (Bool-cases (nat_beq d.number n)) [
  | inr other ↦ ground (arith, other, first_of-keep n cs c k r.1 (ground (arith, e, other)) h)
  | inl same ↦
      let above : All (λ (x : Call). n < x.number) cs =
        subst (λ m. All (λ (x : Call). m < x.number) cs) (ground (arith, same)) r.0 in
      let is_c : d ≡ c = ground (arith, e, same, running_call-others n cs above) in
      ground (arith, same, is_c, h, keep-others n cs above)
]

pub forget-Follows :
    (c : Call) (last : Map Text ℕ) (d : Call) (o : Option Call)
    → (c.key == d.key) ≡ false
    → Follows last d o
    → Follows (forget_own c last) d o
forget-Follows c last d none h f = get-forget_own c last d.key h ∙ f
forget-Follows c last d (some x) h f = f

pub finish-Linked :
    (n : ℕ) (last : Map Text ℕ) (cs : List Call) (c : Call)
    → Rising cs
    → Linked last cs
    → running_call n cs ≡ some c
    → Linked (forget_own c last) (keep (λ (d : Call). not (nat_beq d.number n)) cs)
unfolding running_call
finish-Linked n last [] c r l e = cc
finish-Linked n last (d ∷ cs) c r l e = elim (Bool-cases (nat_beq d.number n)) [
  | inl same ↦
      let above : All (λ (x : Call). n < x.number) cs =
        subst (λ m. All (λ (x : Call). m < x.number) cs) (ground (arith, same)) r.0 in
      let is_c : d ≡ c = ground (arith, e, same, running_call-others n cs above) in
      rw (same, keep-others n cs above)
        (subst (λ x. Linked (forget_own x last) cs) is_c (forget-Linked d last cs r.0 l.1))
  | inr other ↦
      let found : running_call n cs ≡ some c = ground (arith, e, other) in
      let (number, some_run) = running_call-runs n cs c found in
      let idle = none_behind last d cs l in
      let apart : (c.key == d.key) ≡ false = elim (Bool-cases (c.key == d.key)) [
        | inr no_key ↦ no_key
        | inl same_key ↦
            let equal = (text_beq_iff c.key d.key).0 same_key in
            let moved : 1 ≤ count_by (runs d.key) cs =
              subst (λ k. 1 ≤ count_by (runs k) cs) equal some_run in
            absurd (omega (arith, moved, idle))
      ] in
      rw other (
        rw (first_of-keep n cs c d.key r.1 found apart)
            (forget-Follows c last d (first_of d.key cs) apart l.0),
        finish-Linked n last cs c r.1 l.1 found,
      )
]
