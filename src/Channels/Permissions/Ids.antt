-- ===== src/Channels/Permissions/Ids.antt =====
-- Lists of ids.
use openpalm.Base.{
  true, false, ◌≡◌, ◌≢◌, ◌⊎◌, ◌↔◌, ap, sym, subst, Bool-cases, inl, inr, refl, arith, not, List, [],
  ◌∷◌, Text, text_eq, text_beq_iff, any_by, is_empty, join, Lacks, split-join, trim, keep, map, All,
}
use openpalm.Channels.Permissions.{is_none, has_id, is_kept_out, is_blocked, parse_id_list}

abbrev pub Among : Text → List Text → Type 0
Among id [] = ⊥
Among id (i ∷ ids) = (i ≡ id) ⊎ Among id ids

-- A list of allowed ids that is not empty admits just those.
abbrev pub Admits : List Text → Text → Type 0
Admits ids id = (ids ≡ []) ⊎ ((id ≢ []) × Among id ids)

pub has_id_iff : (ids : List Text) (id : Text) → (has_id ids id ≡ true) ↔ Among id ids
has_id_iff [] id = ground arith
has_id_iff (i ∷ ids) id = ground (arith, text_beq_iff i id, has_id_iff ids id)

shares_to :
    (ids roles : List Text)
    → any_by (λ r. has_id ids r) roles ≡ true
    → (r : Text) × Among r roles × Among r ids
shares_to ids [] e = cc
shares_to ids (role ∷ roles) e = elim (Bool-cases (has_id ids role)) [
  | inl h ↦ (role, inl refl, (has_id_iff ids role).0 h)
  | inr h ↦ let (r, among, listed) = shares_to ids roles (ground arith) in (r, inr among, listed)
]

shares_from :
    (ids roles : List Text) (r : Text)
    → Among r roles
    → Among r ids
    → any_by (λ r. has_id ids r) roles ≡ true
shares_from ids [] r among listed = absurd among
shares_from ids (role ∷ roles) r (inl e) listed =
    ground (arith, (has_id_iff ids role).1 (subst (λ x. Among x ids) (sym e) listed))
shares_from ids (role ∷ roles) r (inr among) listed =
    ground (arith, shares_from ids roles r among listed)

pub shares_iff :
    (ids roles : List Text)
    → (any_by (λ r. has_id ids r) roles ≡ true) ↔ ((r : Text) × Among r roles × Among r ids)
shares_iff ids roles =
    (shares_to ids roles, λ (r, among, listed). shares_from ids roles r among listed)

pub is_none_iff : (ids : List Text) → (is_none ids ≡ true) ↔ (ids ≡ [])
is_none_iff [] = ground arith
is_none_iff (i ∷ ids) = ground arith

pub is_kept_out_iff : (ids : List Text) (id : Text) → (is_kept_out ids id ≡ false) ↔ Admits ids id
is_kept_out_iff [] id = ground arith
is_kept_out_iff (i ∷ ids) [] = ground arith
is_kept_out_iff (i ∷ ids) (c ∷ id) = ground (arith, has_id_iff (i ∷ ids) (c ∷ id))

pub is_blocked_iff :
    (ids : List Text) (id : Text) → (is_blocked ids id ≡ false) ↔ ((id ≡ []) ⊎ (¬ (Among id ids)))
is_blocked_iff ids [] = ground arith
is_blocked_iff ids (c ∷ id) = ground (arith, has_id_iff ids (c ∷ id))

-- An id as the lists are written: not empty, without blanks around it and without a comma.
abbrev pub IsPlain : Text → Type 0
IsPlain id = (id ≢ []) × (trim id ≡ id) × Lacks b',' id

keep-plain : (ids : List Text) → All IsPlain ids → keep (λ s. not (is_empty s)) (map trim ids) ≡ ids
keep-plain [] h = refl
keep-plain ([] ∷ ids) h = absurd (h.0.0 refl)
keep-plain ((c ∷ id) ∷ ids) h = rw h.0.1 (ap (λ l. (c ∷ id) ∷ l) (keep-plain ids h.1))

All-Lacks : (ids : List Text) → All IsPlain ids → All (Lacks b',') ids
All-Lacks [] h = tt
All-Lacks (id ∷ ids) h = (h.0.2, All-Lacks ids h.1)

join-filled : (id : Text) (ids : List Text) → id ≢ [] → is_empty (join b',' (id ∷ ids)) ≡ false
unfolding join
join-filled [] ids h = absurd (h refl)
join-filled (c ∷ id) [] h = refl
join-filled (c ∷ id) (i ∷ ids) h = refl

-- Ids that are not empty, have no blanks around them and no comma in them are read back from the
-- list of them that is separated by commas, in their order.
pub parse_id_list-join : (ids : List Text) → All IsPlain ids → parse_id_list (join b',' ids) ≡ ids
unfolding parse_id_list join
parse_id_list-join [] h = refl
parse_id_list-join (id ∷ ids) h =
    rw (join-filled id ids h.0.0, split-join b',' id ids h.0.2 (All-Lacks ids h.1))
      (keep-plain (id ∷ ids) h)
