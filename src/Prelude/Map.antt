-- ===== src/Prelude/Map.antt =====
-- `BTreeMap` over numeric keys, as the function from a key to what is stored under it.
use Prim.Native.Nat.{ℕ}
use mathlib.Core.Option.{Option, none, some}
use tg_rcore_tutorial.Prelude.Tests.{◌==◌, if◌then◌else◌}

abbrev pub Map {ℓ} : Type ℓ → Type ℓ
Map V = ℕ → Option V

module _ {ℓ} {V : Type ℓ} where
  abbrev pub empty : Map V
  empty j = none

  abbrev pub insert : ℕ → V → Map V → Map V
  insert k v m j = if k == j then some v else m j

  abbrev pub remove : ℕ → Map V → Map V
  remove k m j = if k == j then none else m j
