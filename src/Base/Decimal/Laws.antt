-- ===== src/Base/Decimal/Laws.antt =====
-- The digits of a number stand for it.
use Prim.Native.Nat.{ℕ, zero, suc, ◌+◌, ◌-◌, ◌*◌, ◌/◌, ◌%◌, ◌<◌}
use mathlib.Core.Path.{◌≡◌}
use mathlib.Core.List.{[], ◌∷◌}
use native.Mathlib.Omega.{arith}
use package.ubuntu_installer_latest.Base.Tests.{Text}
use package.ubuntu_installer_latest.Base.Decimal.{digits, show_decimal}

-- The number that a text of digits stands for, after the digits that stand for `n`.
abbrev value_from : ℕ → Text → ℕ
value_from n [] = n
value_from n (c ∷ s) = value_from (n * 10 + (c - b'0')) s

value_from-digits :
    (fuel n : ℕ) (tail : Text) → n < fuel → value_from 0 (digits fuel n tail) ≡ value_from n tail
unfolding digits
value_from-digits zero n tail h = absurd (omega arith)
value_from-digits (suc fuel) n tail h =
    ground (arith, value_from-digits fuel (n / 10) ((b'0' + n % 10) ∷ tail))

-- The fuel is enough: the digits that are shown stand for the number.
value_from-show_decimal : (n : ℕ) → value_from 0 (show_decimal n) ≡ n
unfolding show_decimal
value_from-show_decimal n = value_from-digits (suc n) n [] (omega arith)
