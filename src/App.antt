-- ===== src/App.antt =====
-- The program: provd/cmd/provd/main.go and provd/cmd/provd/daemon/daemon.go, as the two goroutines
-- that run there, `run` and the signal handler that it installs. A state says where each of them
-- stands and what they share; a step is one action of one of them, or a signal that arrives.
pub mod Program
pub mod Serve
pub mod Shutdown
pub mod Status
use ubuntu_installer_latest.Base.{ℕ, Bool, true, false, Option, none, some, ◌≡◌}

-- How `App.Run` ends.
pub data Outcome : Type 0 where
  succeeded failed panicked : Outcome

-- Where `run` stands: before the keyring daemon is started; in `rootCmd.Execute`; in `serve`, before
-- `NewManager`, before `daemon.New`, with the daemon stored, and in `daemon.Serve`; after
-- `App.Run`; in `wg.Wait` of the deferred function; after `os.Exit`.
pub data MainAt : Type 0 where
  starting executing managing building announcing serving : MainAt
  returned : Outcome → MainAt
  waiting : ℕ → MainAt
  exited : ℕ → MainAt

-- Where the signal handler stands: at the receive; in `WaitReady` of `App.Quit`; in `daemon.Quit`;
-- after its return.
pub data HandlerAt : Type 0 where
  receiving quitting stopping finished : HandlerAt

-- SIGINT and SIGTERM are handled alike.
pub data SignalKind : Type 0 where
  terminate hangup : SignalKind

-- `channel` is the buffer, of one signal, of the handler's channel `c`; `ready` says that `a.ready`
-- is closed, `has_daemon` that `a.daemon` is set, and `stop_requested` that the gRPC server has been
-- told to stop.
pub record State : Type 0 where
  pub main : MainAt
  pub handler : HandlerAt
  pub channel : Option SignalKind
  pub channel_closed : Bool
  pub ready : Bool
  pub has_daemon : Bool
  pub stop_requested : Bool
  pub silence_usage : Bool

-- `run` at the call of `App.Run`, its handler installed.
abbrev pub start : State
start = record {
  main = starting;
  handler = receiving;
  channel = none;
  channel_closed = false;
  ready = false;
  has_daemon = false;
  stop_requested = false;
  silence_usage = false;
}

-- `UsageError`.
unfoldable pub usage_error : State → Bool
usage_error s = elim s.silence_usage [ true ↦ false | false ↦ true ]

-- `Hup` never asks to quit.
abbrev pub hup : State → Bool
hup s = false

-- The places of `App.Run`.
unfoldable pub is_running : MainAt → Bool
is_running (returned _) = false
is_running (waiting _) = false
is_running (exited _) = false
is_running _ = true

-- The exit status that `run` returns, or that of the runtime after a panic.
unfoldable pub exit_code : Outcome → Bool → ℕ
exit_code succeeded usage = 0
exit_code failed true = 2
exit_code failed false = 1
exit_code panicked usage = 2

-- `signal.Notify` does not wait: a signal is dropped if the buffer is full.
unfoldable pub deliver : SignalKind → Option SignalKind → Option SignalKind
deliver k none = some k
deliver k (some j) = some j

-- The steps, each with the place that it is taken from. A panic of the signal handler has no step.
pub data Step (s : State) : State → Type 0 where
  -- App.Run
  keyring_fails : s.main ≡ starting → Step s (record s { main = returned failed })
  keyring_starts : s.main ≡ starting → Step s (record s { main = executing })
  -- Execute: a usage error, an error of the configuration, the help, the subcommand version, or serve
  usage_fails : s.main ≡ executing → Step s (record s { main = returned failed })
  config_fails :
      s.main ≡ executing → Step s (record s { main = returned failed; silence_usage = true })
  help_prints : s.main ≡ executing → Step s (record s { main = returned succeeded })
  version_prints :
      s.main ≡ executing → Step s (record s { main = returned succeeded; silence_usage = true })
  serve_begins : s.main ≡ executing → Step s (record s { main = managing; silence_usage = true })
  -- App.serve
  manager_fails : s.main ≡ managing → Step s (record s { main = returned failed; ready = true })
  manager_made : s.main ≡ managing → Step s (record s { main = building })
  daemon_fails : s.main ≡ building → Step s (record s { main = returned failed; ready = true })
  daemon_made : s.main ≡ building → Step s (record s { main = announcing; has_daemon = true })
  announced : s.main ≡ announcing → Step s (record s { main = serving; ready = true })
  serving_fails : s.main ≡ serving → Step s (record s { main = returned failed })
  serving_stops :
      s.main ≡ serving → s.stop_requested ≡ true → Step s (record s { main = returned succeeded })
  -- a panic within App.Run, such as that of NewManager without a connection
  run_panics : is_running s.main ≡ true → Step s (record s { main = returned panicked })
  -- the deferred function of run, which a panic runs as well: signal.Stop and close, then wg.Wait
  handler_closed :
      (o : Outcome)
      → s.main ≡ returned o
      → Step s (record s { main = waiting (exit_code o (usage_error s)); channel_closed = true })
  exits :
      (n : ℕ) → s.main ≡ waiting n → s.handler ≡ finished → Step s (record s { main = exited n })
  -- a signal arrives
  signalled :
      (k : SignalKind)
      → s.channel_closed ≡ false
      → Step s (record s { channel = deliver k s.channel })
  -- the signal handler
  receives_terminate :
      s.handler ≡ receiving
      → s.channel ≡ some terminate
      → Step s (record s { handler = quitting; channel = none })
  receives_hangup :
      s.handler ≡ receiving
      → s.channel ≡ some hangup
      → hup s ≡ false
      → Step s (record s { channel = none })
  receives_close :
      s.handler ≡ receiving
      → s.channel ≡ none
      → s.channel_closed ≡ true
      → Step s (record s { handler = finished })
  -- App.Quit, behind WaitReady
  quits_without_daemon :
      s.handler ≡ quitting
      → s.ready ≡ true
      → s.has_daemon ≡ false
      → Step s (record s { handler = finished })
  quits_daemon :
      s.handler ≡ quitting
      → s.ready ≡ true
      → s.has_daemon ≡ true
      → Step s (record s { handler = stopping; stop_requested = true })
  stopped : s.handler ≡ stopping → Step s (record s { handler = finished })

pub data Reach (s : State) : State → Type 0 where
  here : Reach s s
  next : {t u : State} → Reach s t → Step t u → Reach s u
