-- ===== src/Base/Modular.antt =====
-- Distinct indices of a window that is stored modulo its size.
use Prim.Native.Nat.{ℕ, ◌+◌, ◌-◌, ◌%◌, ◌≤◌, ◌<◌}
use mathlib.Core.Path.{◌≡◌}
use mathlib.Core.Logic.{◌≢◌}
use native.Mathlib.Omega.{arith}

-- Two numbers that differ by less than the size have different remainders.
pub mod-ne : (n a b : ℕ) → a < b → b < a + n → a % n ≢ b % n
mod-ne n a b h k = grind arith

-- A number that the window has moved past stands for the one `n` below it.
pub mod-window : (n k : ℕ) → n ≤ k → k % n ≡ (k - n) % n
mod-window n k h = grind arith
