-- ===== src/Base/Strings/Laws.antt =====
-- What the search for a separator finds in a text that is put together around it.
use Prim.Native.Nat.{ℕ}
use mathlib.Core.Path.{◌≡◌}
use mathlib.Core.Bool.{false}
use mathlib.Core.List.{[], ◌∷◌, ◌++◌}
use native.Mathlib.Omega.{arith}
use package.ubuntu_installer_latest.Base.Tests.{Text}
use package.ubuntu_installer_latest.Base.Strings.{before, has_char}

pub before-append :
    (sep : ℕ) (name rest : Text)
    → has_char sep name ≡ false
    → before sep (name ++ sep ∷ rest) ≡ name
unfolding has_char before
before-append sep [] rest h = ground arith
before-append sep (c ∷ name) rest h = ground (arith, before-append sep name rest)
