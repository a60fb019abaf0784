-- ===== src/App/Program/Seen.antt =====
-- What a program that has returned shows of its two goroutines.
use ubuntu_installer_latest.Base.{
  ℕ, Bool, true, false, none, ◌≡◌, ◌≢◌, refl, arith, Err, Result, ok, err, panic, Empty,
}
use ubuntu_installer_latest.App.{State, start, finished, exited, Reach, exit_code}
use ubuntu_installer_latest.App.Program.{Program, usage_error, status_of}
use ubuntu_installer_latest.App.Program.Paths.{
  ended, usage_path, help_path, config_path, version_path, unmade_path, failed_path, stopped_path,
}
use ubuntu_installer_latest.App.Serve.Ends.{is_set, Served, unmade, failing, ending}

-- The state of the goroutines that a program shows that has exited.
abbrev pub seen : {W : Type 0} → ℕ → Bool → Program W → State
seen n stop p = record {
  main = exited n;
  handler = finished;
  channel = none;
  channel_closed = true;
  ready = p.app.ready_closed;
  has_daemon = is_set p.app.daemon;
  stop_requested = stop;
  silence_usage = p.silence_usage;
}

-- `run` has returned a status, and the goroutines can get to what is seen then.
abbrev pub Refines : {W : Type 0} → Result Err ℕ × Program W → Type 0
Refines (r, p) = (n : ℕ) × (stop : Bool) × (r ≡ ok n) × Reach start (seen n stop p)

-- `serve` has not been called.
pub record IsFresh {W : Type 0} (silent : Bool) (p : Program W) : Type 0 where
  pub silent_is : p.silence_usage ≡ silent
  pub not_ready : p.app.ready_closed ≡ false
  pub no_daemon : is_set p.app.daemon ≡ false

reached :
    {W : Type 0} (n : ℕ) (ready has_daemon stop silence : Bool) (p : Program W)
    → p.silence_usage ≡ silence
    → p.app.ready_closed ≡ ready
    → is_set p.app.daemon ≡ has_daemon
    → Reach start (ended n ready has_daemon stop silence)
    → Reach start (seen n stop p)
reached n ready has_daemon stop silence p s c h r = rw s (rw c (rw h r))

pub fresh-Refines :
    {W : Type 0} (silent : Bool) (r : Result Err Empty) (p : Program W)
    → r ≢ panic
    → IsFresh silent p
    → Refines (status_of (r, p))
unfolding status_of usage_error exit_code
fresh-Refines false (ok tt) p n f = (
  0,
  false,
  ground arith,
  reached 0 false false false false p f.silent_is f.not_ready f.no_daemon help_path,
)
fresh-Refines true (ok tt) p n f = (
  0,
  false,
  ground arith,
  reached 0 false false false true p f.silent_is f.not_ready f.no_daemon version_path,
)
fresh-Refines false (err e) p n f = (
  2,
  false,
  rw f.silent_is refl,
  reached 2 false false false false p f.silent_is f.not_ready f.no_daemon usage_path,
)
fresh-Refines true (err e) p n f = (
  1,
  false,
  rw f.silent_is refl,
  reached 1 false false false true p f.silent_is f.not_ready f.no_daemon config_path,
)
fresh-Refines silent panic p n f = absurd (n refl)

pub Served-Refines :
    {W : Type 0} (r : Result Err Empty) (p : Program W)
    → p.silence_usage ≡ true
    → Served r p.app
    → Refines (status_of (r, p))
unfolding status_of usage_error exit_code
Served-Refines r p s (unmade e q h c) =
    rw q (1, false, rw s refl, reached 1 true false false true p s c h unmade_path)
Served-Refines r p s (failing e q h c) =
    rw q (1, false, rw s refl, reached 1 true true false true p s c h failed_path)
Served-Refines r p s (ending q h c) =
    rw q (0, true, refl, reached 0 true true true true p s c h stopped_path)
