-- ===== src/Base/Scanner/Laws.antt =====
-- The tokens of a scanner are shorter than its buffer.
use Prim.Native.Nat.{◌≤◌, ◌<◌}
use mathlib.Core.Path.{◌≡◌, refl}
use mathlib.Core.Option.{Option}
use mathlib.Core.Bool.{Bool, true, false}
use mathlib.Core.List.{List, [], ◌∷◌, reverse, Memᴰ}
use native.Mathlib.Omega.{arith}
use package.ubuntu_installer_latest.Base.Tests.{Text, leb, if◌then◌else◌, All}
use package.ubuntu_installer_latest.Base.Go.{Err}
use package.ubuntu_installer_latest.Base.Strings.{byte_len}
use package.ubuntu_installer_latest.Base.Strings.Words.{byte_len-reverse_aux}
use package.ubuntu_installer_latest.Base.Scanner.{
  File, Scan, pieces, drop_cr_front, drop_cr, collect, max_scan_token_size, scan,
}

drop_cr_front_fits : (s : Text) → byte_len (drop_cr_front s) ≤ byte_len s
unfolding drop_cr_front byte_len
drop_cr_front_fits [] = omega arith
drop_cr_front_fits (c ∷ s) = ground arith

drop_cr_fits : (s : Text) → byte_len (drop_cr s) ≤ byte_len s
unfolding drop_cr byte_len
drop_cr_fits s =
    let back = reverse s in
    ground (
      arith,
      byte_len-reverse_aux s [],
      drop_cr_front_fits back,
      byte_len-reverse_aux (drop_cr_front back) [],
    )

abbrev pub FitsBuffer : Text → Type 0
FitsBuffer t = byte_len t < max_scan_token_size

if_fits :
    (b : Bool) (x y : Scan)
    → All FitsBuffer x.tokens
    → (b ≡ false → All FitsBuffer y.tokens)
    → All FitsBuffer (if b then x else y).tokens
if_fits true x y f g = f
if_fits false x y f g = g refl

collect_fits : (e : Option Err) (lines : List Text) → All FitsBuffer (collect e lines).tokens
unfolding collect
collect_fits e [] = tt
collect_fits e (line ∷ rest) =
    if_fits (leb max_scan_token_size (byte_len line)) _ _ tt
      λ h. (ground (arith, h, drop_cr_fits line), collect_fits e rest)

All-Mem : (ts : List Text) (t : Text) → All FitsBuffer ts → Memᴰ t ts → FitsBuffer t
All-Mem [] t a m = elim m [ ]
All-Mem (u ∷ ts) t (a, rest) (Memᴰ.head e) = rw e a
All-Mem (u ∷ ts) t (a, rest) (Memᴰ.tail m) = All-Mem ts t rest m

pub scan_fits : (f : File) (t : Text) → Memᴰ t (scan f).tokens → FitsBuffer t
unfolding scan
scan_fits f t m = All-Mem (scan f).tokens t (collect_fits f.read_error (pieces [] f.content)) m
