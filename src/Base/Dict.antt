-- ===== src/Base/Dict.antt =====
-- JavaScript's `Map`: the entries in order of insertion. Setting a key that is there keeps its place.
use Prim.Native.Nat.{suc, ◌≤◌}
use mathlib.Core.Path.{◌≡◌, refl}
use mathlib.Core.Bool.{Bool, true, false}
use mathlib.Core.Option.{Option, none, some}
use mathlib.Core.List.{List, [], ◌∷◌}
use native.Mathlib.Omega.{arith}
use openpalm.Base.Tests.{if◌then◌else◌}
use openpalm.Base.Lists.{length, keep, count_by}
use openpalm.Base.Keys.{Key, ◌==◌}

abbrev pub Map : Type 0 → Type 0 → Type 0
Map K V = List (K × V)

abbrev pub is_some {ℓ} : {A : Type ℓ} → Option A → Bool
is_some none = false
is_some (some a) = true

-- Deletes, in one pass, every entry whose value fails the test.
abbrev pub retain : {K V : Type 0} → (V → Bool) → Map K V → Map K V
retain p = keep (λ e. p e.1)

module _ {K V : Type 0} ⦃e : Key K⦄ where
  unfoldable pub get : K → Map K V → Option V
  get k [] = none
  get k ((j, v) ∷ m) = if j == k then some v else get k m

  unfoldable pub set : K → V → Map K V → Map K V
  set k v [] = (k, v) ∷ []
  set k v ((j, w) ∷ m) = if j == k then (k, v) ∷ m else (j, w) ∷ set k v m

  unfoldable pub delete : K → Map K V → Map K V
  delete k [] = []
  delete k ((j, w) ∷ m) = if j == k then delete k m else (j, w) ∷ delete k m

  abbrev pub has : K → Map K V → Bool
  has k m = is_some (get k m)

  abbrev at_key : K → K × V → Bool
  at_key k en = en.0 == k

  -- No key stands twice: what the class `Map` itself guarantees.
  abbrev pub IsUnique : Map K V → Type 0
  IsUnique m = (k : K) → count_by (at_key k) m ≤ 1

  pub get-set :
      (k j : K) (v : V) (m : Map K V) → get j (set k v m) ≡ (if k == j then some v else get j m)
  unfolding get set
  get-set k j v [] = refl
  get-set k j v ((i, w) ∷ m) =
      ground (arith, e.same_iff k j, e.same_iff i k, e.same_iff i j, get-set k j v m)

  pub get-delete : (k j : K) (m : Map K V) → get j (delete k m) ≡ (if k == j then none else get j m)
  unfolding get delete
  get-delete k j [] = ground arith
  get-delete k j ((i, w) ∷ m) =
      ground (arith, e.same_iff k j, e.same_iff i k, e.same_iff i j, get-delete k j m)

  -- A kept entry is found as before.
  pub get-retain :
      (p : V → Bool) (k : K) (v : V) (m : Map K V)
      → get k m ≡ some v
      → p v ≡ true
      → get k (retain p m) ≡ some v
  unfolding get
  get-retain p k v [] h q = h
  get-retain p k v ((i, w) ∷ m) h q = ground (arith, get-retain p k v m)

  pub get-none_of_count : (k : K) (m : Map K V) → count_by (at_key k) m ≡ 0 → get k m ≡ none
  unfolding get
  get-none_of_count k [] h = refl
  get-none_of_count k ((i, w) ∷ m) h = ground (arith, get-none_of_count k m)

  count-retain :
      (p : V → Bool) (k : K) (m : Map K V)
      → count_by (at_key k) (retain p m) ≤ count_by (at_key k) m
  count-retain p k [] = omega arith
  count-retain p k ((i, w) ∷ m) = ground (arith, count-retain p k m)

  -- A dropped one is gone.
  pub get-retain_dropped :
      (p : V → Bool) (k : K) (v : V) (m : Map K V)
      → count_by (at_key k) m ≤ 1
      → get k m ≡ some v
      → p v ≡ false
      → get k (retain p m) ≡ none
  unfolding get
  get-retain_dropped p k v [] u h q = refl
  get-retain_dropped p k v ((i, w) ∷ m) u h q =
      ground
        (arith, get-retain_dropped p k v m, get-none_of_count k (retain p m), count-retain p k m)

  pub get-retain-none :
      (p : V → Bool) (k : K) (m : Map K V) → get k m ≡ none → get k (retain p m) ≡ none
  unfolding get
  get-retain-none p k [] h = refl
  get-retain-none p k ((i, w) ∷ m) h = ground (arith, get-retain-none p k m)

  count-set_ne :
      (k j : K) (v : V) (m : Map K V)
      → (k == j) ≡ false
      → count_by (at_key j) (set k v m) ≡ count_by (at_key j) m
  unfolding set
  count-set_ne k j v [] h = ground arith
  count-set_ne k j v ((i, w) ∷ m) h =
      ground (arith, e.same_iff i k, e.same_iff i j, e.same_iff k j, count-set_ne k j v m)

  count-set :
      (k j : K) (v : V) (m : Map K V)
      → count_by (at_key j) m ≤ 1
      → count_by (at_key j) (set k v m) ≤ 1
  unfolding set
  count-set k j v [] h = ground arith
  count-set k j v ((i, w) ∷ m) h = ground (
    arith,
    e.same_iff i k,
    e.same_iff i j,
    e.same_iff k j,
    count-set_ne k j v m,
    count-set k j v m,
  )

  count-delete : (k j : K) (m : Map K V) → count_by (at_key j) (delete k m) ≤ count_by (at_key j) m
  unfolding delete
  count-delete k j [] = omega arith
  count-delete k j ((i, w) ∷ m) = ground (arith, count-delete k j m)

  pub set-IsUnique : (k : K) (v : V) (m : Map K V) → IsUnique m → IsUnique (set k v m)
  set-IsUnique k v m u j = count-set k j v m (u j)

  pub delete-IsUnique : (k : K) (m : Map K V) → IsUnique m → IsUnique (delete k m)
  delete-IsUnique k m u j = omega (arith, count-delete k j m, u j)

  pub retain-IsUnique : (p : V → Bool) (m : Map K V) → IsUnique m → IsUnique (retain p m)
  retain-IsUnique p m u j = omega (arith, count-retain p j m, u j)

  pub length-set : (k : K) (v : V) (m : Map K V) → length (set k v m) ≤ suc (length m)
  unfolding set
  length-set k v [] = omega arith
  length-set k v ((i, w) ∷ m) = ground (arith, length-set k v m)

  pub length-set_new :
      (k : K) (v : V) (m : Map K V) → get k m ≡ none → length (set k v m) ≡ suc (length m)
  unfolding set get
  length-set_new k v [] h = refl
  length-set_new k v ((i, w) ∷ m) h = ground (arith, length-set_new k v m)

  pub length-delete : (k : K) (m : Map K V) → length (delete k m) ≤ length m
  unfolding delete
  length-delete k [] = omega arith
  length-delete k ((i, w) ∷ m) = ground (arith, length-delete k m)
