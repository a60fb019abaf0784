-- ===== src/Base/Decimal.antt =====
-- The decimal digits of a number: `%d`.
pub mod Laws
use Prim.Native.Nat.{ℕ, zero, suc, ◌+◌, ◌/◌, ◌%◌}
use mathlib.Core.List.{List, [], ◌∷◌}
use package.ubuntu_installer_latest.Base.Tests.{Text, ltb, if◌then◌else◌}

-- The digits before `tail`, on fuel: a number has no more digits than its value.
pub digits : ℕ → ℕ → Text → Text
digits zero n tail = tail
digits (suc fuel) n tail =
    let d = (b'0' + n % 10) ∷ tail in
    let more = digits fuel (n / 10) d in if ltb n 10 then d else more

unfoldable pub show_decimal : ℕ → Text
unfolding digits
show_decimal n = digits (suc n) n []
