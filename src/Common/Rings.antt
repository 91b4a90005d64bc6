-- ===== src/Common/Rings.antt =====
-- The successor on a ring of `n` places.
use Prim.Native.Nat.{ℕ, zero, suc, ◌+◌, ◌%◌, ◌≤◌, ◌<◌, mod_helper}
use Prim.Native.Nat.mod
use mathlib.Core.Path.{◌≡◌, refl, ◌∙◌}
use native.Mathlib.Omega.{arith}

mod_helper-small : (k m n j : ℕ) → n ≤ j → mod_helper k m n j ≡ k + n
mod_helper-small k m zero j h = omega arith
mod_helper-small k m (suc n) zero h = absurd (omega arith)
mod_helper-small k m (suc n) (suc j) h =
    let e = mod_helper-small (suc k) m n j (omega arith) in omega (arith, e)

mod_helper-wrap : (k m j : ℕ) → mod_helper k m (suc j) j ≡ 0
mod_helper-wrap k m zero = refl
mod_helper-wrap k m (suc j) = mod_helper-wrap (suc k) m j

pub mod_small : (x n : ℕ) → x < n → x % n ≡ x
mod_small x zero h = absurd (omega arith)
mod_small x (suc n) h =
    let e : 0 + x ≡ x = omega arith in mod.suc x n ∙ mod_helper-small 0 n x n (omega arith) ∙ e

pub mod_self : (x n : ℕ) → x ≡ suc n → x % suc n ≡ 0
mod_self x n h = rw h (mod.suc (suc n) n ∙ mod_helper-wrap 0 n n)
