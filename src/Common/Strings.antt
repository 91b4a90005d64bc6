-- ===== src/Common/Strings.antt =====
-- Go's strings as sequences of bytes, with their equality and concatenation.
use Prim.Native.Nat.{ℕ}
use mathlib.Core.Path.{◌≡◌}
use mathlib.Core.Logic.{◌↔◌}
use mathlib.Core.Bool.{Bool, true, false, ◌&&◌}
use mathlib.Core.List.{List, [], ◌∷◌}
use native.Mathlib.Omega.{arith}
use mit_6_5840_2024_lab.Common.Tests.{◌==◌, ==_iff}
use mit_6_5840_2024_lab.Common.Maps.{Eq}

abbrev pub Str : Type 0
Str = List ℕ

unfoldable pub str_beq : Str → Str → Bool
str_beq [] [] = true
str_beq [] (b ∷ bs) = false
str_beq (a ∷ cs) [] = false
str_beq (a ∷ cs) (b ∷ bs) = (a == b) && str_beq cs bs

pub str_beq_iff : (a b : Str) → (str_beq a b ≡ true) ↔ (a ≡ b)
unfolding str_beq
str_beq_iff [] [] = ground arith
str_beq_iff [] (b ∷ bs) = ground arith
str_beq_iff (a ∷ cs) [] = ground arith
str_beq_iff (a ∷ cs) (b ∷ bs) = ground (arith, ==_iff a b, str_beq_iff cs bs)

instance abbrev pub str_eq : Eq Str
str_eq = record { beq = str_beq; beq_iff = str_beq_iff }
