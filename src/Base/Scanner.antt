-- ===== src/Base/Scanner.antt =====
-- `bufio.Scanner` with its default split function and buffer, over a file that has been opened.
pub mod Laws
use Prim.Native.Nat.{ℕ}
use mathlib.Core.Option.{Option, some}
use mathlib.Core.List.{List, [], ◌∷◌, reverse}
use package.ubuntu_installer_latest.Base.Tests.{Text, leb, ◌==◌, if◌then◌else◌, is_empty}
use package.ubuntu_installer_latest.Base.Go.{Err, message}
use package.ubuntu_installer_latest.Base.Strings.{byte_len}

-- An open file: what can be read of it, and the error that ends the reading, if it does not end at
-- the end of the file.
pub record File : Type 0 where
  pub content : Text
  pub read_error : Option Err

-- What a scanner yields: its tokens, and then `Err()`.
pub record Scan : Type 0 where
  pub tokens : List Text
  pub error : Option Err

-- The pieces between the newlines; a piece after the last newline counts if it is not empty. `line`
-- is the current piece, read backwards.
pieces : Text → Text → List Text
pieces line [] = if is_empty line then [] else reverse line ∷ []
pieces line (c ∷ s) =
    let next = pieces [] s in
    let more = pieces (c ∷ line) s in if c == b'\n' then reverse line ∷ next else more

-- `dropCR` for a line read backwards, and for a line.
drop_cr_front : Text → Text
drop_cr_front [] = []
drop_cr_front (c ∷ s) = if c == b'\r' then s else c ∷ s

drop_cr : Text → Text
unfolding drop_cr_front
drop_cr line = reverse (drop_cr_front (reverse line))

abbrev pub max_scan_token_size : ℕ
max_scan_token_size = 65536

abbrev pub err_too_long : Err
err_too_long = message "bufio.Scanner: token too long"

-- A line that fills the buffer stops the scan.
collect : Option Err → List Text → Scan
collect e [] = record { tokens = []; error = e }
collect e (line ∷ rest) =
    let s = collect e rest in
    if leb max_scan_token_size (byte_len line)
    then record { tokens = []; error = some err_too_long }
    else record { tokens = drop_cr line ∷ s.tokens; error = s.error }

unfoldable pub scan : File → Scan
unfolding pieces collect drop_cr is_empty byte_len
scan f = collect f.read_error (pieces [] f.content)
