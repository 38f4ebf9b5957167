-- ===== src/Prelude/Range.antt =====
-- Tables: a test that evaluation finds true of every number under a bound.
use Prim.Native.Nat.{ℕ, zero, suc, ◌<◌}
use mathlib.Core.Path.{◌≡◌}
use mathlib.Core.Bool.{Bool, true, false}
use native.Mathlib.Omega.{arith}

unfoldable pub holds_below : (ℕ → Bool) → ℕ → Bool
holds_below test zero = true
holds_below test (suc bound) = elim (test bound) [ true ↦ holds_below test bound | false ↦ false ]

pub read_table :
    (test : ℕ → Bool) (bound i : ℕ) → holds_below test bound ≡ true → i < bound → test i ≡ true
unfolding holds_below
read_table test zero i table under = elim under [ ]
read_table test (suc bound) i table under = ground (arith, read_table test bound i)
