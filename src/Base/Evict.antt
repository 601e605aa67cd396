-- ===== src/Base/Evict.antt =====
-- The hard cap of the three caches of the guardian: the oldest entries beyond it are deleted.
use Prim.Native.Nat.{ℕ, zero, suc, ◌-◌, ◌≤◌}
use mathlib.Core.Path.{◌≡◌, refl, sym, ◌∙◌}
use mathlib.Core.Bool.{Bool, not}
use mathlib.Core.Option.{none, some}
use mathlib.Core.List.{List, [], ◌∷◌, map}
use mathlib.Core.Logic.{inl, inr}
use native.Mathlib.Omega.{arith}
use openpalm.Base.Tests.{ltb, if◌then◌else◌, Bool-cases}
use openpalm.Base.Lists.{length, take, count_by, any_by}
use openpalm.Base.Keys.{Key, ◌==◌, same_refl}
use openpalm.Base.Dict.{Map, get, delete, get-delete, IsUnique, delete-IsUnique}
use openpalm.Base.Sort.{sort_by, count-sort_by, length-sort_by}

abbrev names : {K : Type 0} ⦃e : Key K⦄ → K → List K → Bool
names k ks = any_by (λ j. j == k) ks

module _ {K V : Type 0} ⦃e : Key K⦄ where
  unfoldable pub delete_all : List K → Map K V → Map K V
  delete_all [] m = m
  delete_all (k ∷ ks) m = delete_all ks (delete k m)

  -- `[...m.entries()].sort((a, b) => stamp(a) - stamp(b)).slice(0, m.size - max)`
  unfoldable pub oldest : (V → ℕ) → ℕ → Map K V → Map K V
  oldest stamp max m = take (length m - max) (sort_by (λ en. stamp en.1) m)

  unfoldable pub evict_oldest : (V → ℕ) → ℕ → Map K V → Map K V
  unfolding delete_all oldest
  evict_oldest stamp max m =
      if ltb max (length m) then delete_all (map (λ en. en.0) (oldest stamp max m)) m else m

  get-delete_all :
      (ks : List K) (j : K) (m : Map K V)
      → get j (delete_all ks m) ≡ (if names j ks then none else get j m)
  unfolding delete_all
  get-delete_all [] j m = refl
  get-delete_all (k ∷ ks) j m = ground (arith, get-delete_all ks j (delete k m), get-delete k j m)

  delete_all-IsUnique : (ks : List K) (m : Map K V) → IsUnique m → IsUnique (delete_all ks m)
  unfolding delete_all
  delete_all-IsUnique [] m u = u
  delete_all-IsUnique (k ∷ ks) m u = delete_all-IsUnique ks (delete k m) (delete-IsUnique k m u)

  abbrev spared : List K → K × V → Bool
  spared ks en = not (names en.0 ks)

  count-spared-delete :
      (k : K) (ks : List K) (m : Map K V)
      → count_by (spared ks) (delete k m) ≡ count_by (spared (k ∷ ks)) m
  unfolding delete
  count-spared-delete k ks [] = refl
  count-spared-delete k ks ((i, w) ∷ m) =
      ground (arith, e.same_iff i k, e.same_iff k i, count-spared-delete k ks m)

  count-spared_none : (m : Map K V) → count_by (spared []) m ≡ length m
  count-spared_none [] = refl
  count-spared_none (x ∷ m) = ground (arith, count-spared_none m)

  length-delete_all :
      (ks : List K) (m : Map K V) → length (delete_all ks m) ≡ count_by (spared ks) m
  unfolding delete_all
  length-delete_all [] m = sym (count-spared_none m)
  length-delete_all (k ∷ ks) m = length-delete_all ks (delete k m) ∙ count-spared-delete k ks m

  count-spared-cons :
      (k : K) (ks : List K) (m : Map K V) → count_by (spared (k ∷ ks)) m ≤ count_by (spared ks) m
  count-spared-cons k ks [] = omega arith
  count-spared-cons k ks (x ∷ m) = ground (arith, count-spared-cons k ks m)

  count-spared-take :
      (n : ℕ) (es : Map K V) → count_by (spared (map (λ en. en.0) (take n es))) es ≤ length es - n
  count-spared-take zero es = omega (arith, count-spared_none es)
  count-spared-take (suc n) [] = omega arith
  count-spared-take (suc n) (x ∷ es) = ground (
    arith,
    same_refl x.0,
    count-spared-cons x.0 (map (λ en. en.0) (take n es)) es,
    count-spared-take n es,
  )

  -- At most `max` entries are left.
  pub length-evict_oldest :
      (stamp : V → ℕ) (max : ℕ) (m : Map K V) → length (evict_oldest stamp max m) ≤ max
  unfolding evict_oldest
  length-evict_oldest stamp max m =
      let es = sort_by (λ en. stamp en.1) m in
      let ks = map (λ en. en.0) (take (length m - max) es) in
      ground (
        arith,
        length-delete_all ks m,
        count-sort_by (λ en. stamp en.1) (spared ks) m,
        length-sort_by (λ en. stamp en.1) m,
        count-spared-take (length m - max) es,
      )

  -- Within the cap nothing is deleted.
  pub evict_oldest_within :
      (stamp : V → ℕ) (max : ℕ) (m : Map K V) → length m ≤ max → evict_oldest stamp max m ≡ m
  unfolding evict_oldest
  evict_oldest_within stamp max m h = ground arith

  -- What is left is as it was.
  pub get-evict_oldest :
      (stamp : V → ℕ) (max : ℕ) (k : K) (m : Map K V) (v : V)
      → get k (evict_oldest stamp max m) ≡ some v
      → get k m ≡ some v
  unfolding evict_oldest
  get-evict_oldest stamp max k m v h =
      ground (arith, get-delete_all (map (λ en. en.0) (oldest stamp max m)) k m)

  pub evict_oldest-IsUnique :
      (stamp : V → ℕ) (max : ℕ) (m : Map K V) → IsUnique m → IsUnique (evict_oldest stamp max m)
  unfolding evict_oldest
  evict_oldest-IsUnique stamp max m u = elim (Bool-cases (ltb max (length m))) [
    | inl e ↦ rw e (delete_all-IsUnique (map (λ en. en.0) (oldest stamp max m)) m u)
    | inr e ↦ rw e u
  ]
