-- ===== src/Base/Keys.antt =====
-- The interface of keys: a Boolean equality with its law.
use Prim.Native.Nat.{ℕ}
use mathlib.Core.Path.{◌≡◌, refl}
use mathlib.Core.Logic.{◌↔◌}
use mathlib.Core.Bool.{Bool, true}
use openpalm.Base.Tests.{nat_beq, nat_beq_iff}

-- What `Map` asks of the type of its keys.
pub record Key {κ} (K : Type κ) : Type κ where
  pub same : K → K → Bool
  pub same_iff : (i j : K) → (same i j ≡ true) ↔ (i ≡ j)

infix 50 ◌==◌
abbrev pub ◌==◌ {κ} : {K : Type κ} ⦃key : Key K⦄ → K → K → Bool
◌==◌ ⦃key⦄ i j = key.same i j

instance abbrev pub nat_key : Key ℕ
nat_key = record { same = nat_beq; same_iff = nat_beq_iff }

pub same_refl {κ} : {K : Type κ} ⦃key : Key K⦄ (i : K) → (i == i) ≡ true
same_refl ⦃key⦄ i = (key.same_iff i i).1 refl
