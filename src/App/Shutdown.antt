-- ===== src/App/Shutdown.antt =====
-- What holds of every state of the program, and how it ends.
use ubuntu_installer_latest.Base.{
  ℕ, Bool, true, false, Option, none, some, ◌≡◌, ◌≢◌, Bool-cases, inl, inr, refl, arith,
}
use ubuntu_installer_latest.App.{
  failed, MainAt, starting, executing, managing, building, announcing, serving, returned, waiting,
  exited, HandlerAt, receiving, quitting, stopping, finished, SignalKind, terminate, hangup, State,
  start, deliver, Step, Reach, here, next, keyring_fails, keyring_starts, usage_fails, config_fails,
  help_prints, version_prints, serve_begins, manager_fails, manager_made, daemon_fails, daemon_made,
  announced, serving_fails, serving_stops, run_panics, is_running, handler_closed, exits, signalled,
  receives_terminate, receives_hangup, receives_close, quits_without_daemon, quits_daemon, stopped,
}

abbrev has_closed : MainAt → Bool
has_closed (waiting _) = true
has_closed (exited _) = true
has_closed _ = false

abbrev has_stored : MainAt → Bool
has_stored starting = false
has_stored executing = false
has_stored managing = false
has_stored building = false
has_stored _ = true

abbrev is_starting : MainAt → Bool
is_starting starting = true
is_starting executing = true
is_starting _ = false

abbrev has_announced : MainAt → Bool
has_announced serving = true
has_announced _ = false

abbrev holds_daemon : MainAt → Bool
holds_daemon announcing = true
holds_daemon serving = true
holds_daemon _ = false

abbrev is_exited : MainAt → Bool
is_exited (exited _) = true
is_exited _ = false

-- What holds between the steps.
pub record Inv (s : State) : Type 0 where
  pub closed_in_time : s.channel_closed ≡ has_closed s.main
  pub daemon_in_time : s.has_daemon ≡ true → has_stored s.main ≡ true
  pub stop_needs_daemon : s.stop_requested ≡ true → s.has_daemon ≡ true
  pub stop_needs_ready : s.stop_requested ≡ true → s.ready ≡ true
  pub serves_when_ready : has_announced s.main ≡ true → s.ready ≡ true
  pub serves_daemon : holds_daemon s.main ≡ true → s.has_daemon ≡ true
  pub usage_until_run : is_starting s.main ≡ true → s.silence_usage ≡ false
  pub stops_daemon : s.handler ≡ stopping → s.stop_requested ≡ true
  pub exits_after_handler : is_exited s.main ≡ true → s.handler ≡ finished

module _ (s : State) where
  Step-Inv : {t : State} → Step s t → Inv s → Inv t
  unfolding deliver is_running
  Step-Inv (keyring_fails a) v = ground arith
  Step-Inv (keyring_starts a) v = ground arith
  Step-Inv (usage_fails a) v = ground arith
  Step-Inv (config_fails a) v = ground arith
  Step-Inv (help_prints a) v = ground arith
  Step-Inv (version_prints a) v = ground arith
  Step-Inv (serve_begins a) v = ground arith
  Step-Inv (manager_fails a) v = ground arith
  Step-Inv (manager_made a) v = ground arith
  Step-Inv (daemon_fails a) v = ground arith
  Step-Inv (daemon_made a) v = ground arith
  Step-Inv (announced a) v = ground arith
  Step-Inv (serving_fails a) v = ground arith
  Step-Inv (serving_stops a b) v = ground arith
  Step-Inv (run_panics a) v = ground (arith, a)
  Step-Inv (handler_closed a b) v = ground arith
  Step-Inv (exits a b c) v = ground arith
  Step-Inv (signalled a b) v = ground arith
  Step-Inv (receives_terminate a b) v = ground arith
  Step-Inv (receives_hangup a b c) v = ground arith
  Step-Inv (receives_close a b c) v = ground arith
  Step-Inv (quits_without_daemon a b c) v = ground arith
  Step-Inv (quits_daemon a b c) v = ground arith
  Step-Inv (stopped a) v = ground arith

start-Inv : Inv start
start-Inv = ground arith

-- Every state that the program reaches satisfies the invariant: the channel of the signals is
-- closed if and only if `run` waits for its handler or has exited; the daemon is stored only after
-- it was made, and is there while it is announced and served; the gRPC server is told to stop only
-- when the daemon is stored and `ready` is closed; it serves only when `ready` is closed; usage
-- errors are not silenced before `Execute` has begun to act; a handler that stops the daemon has
-- told it so; and the program exits only after its handler has returned.
pub Reach-Inv : {s : State} → Reach start s → Inv s
Reach-Inv here = start-Inv
Reach-Inv (next {t = t} r st) = Step-Inv t st (Reach-Inv r)

-- `App.Run` has ended with `a.ready` open, and the handler is in `WaitReady`.
abbrev has_returned : MainAt → Bool
has_returned (returned _) = true
has_returned (waiting _) = true
has_returned _ = false

pub record IsHung (s : State) : Type 0 where
  pub run_ended : has_returned s.main ≡ true
  pub handler_waits : s.handler ≡ quitting
  pub not_ready : s.ready ≡ false

module _ (s : State) where
  Step-IsHung : {t : State} → Step s t → IsHung s → IsHung t
  unfolding is_running
  Step-IsHung (keyring_fails a) v = ground arith
  Step-IsHung (keyring_starts a) v = ground arith
  Step-IsHung (usage_fails a) v = ground arith
  Step-IsHung (config_fails a) v = ground arith
  Step-IsHung (help_prints a) v = ground arith
  Step-IsHung (version_prints a) v = ground arith
  Step-IsHung (serve_begins a) v = ground arith
  Step-IsHung (manager_fails a) v = ground arith
  Step-IsHung (manager_made a) v = ground arith
  Step-IsHung (daemon_fails a) v = ground arith
  Step-IsHung (daemon_made a) v = ground arith
  Step-IsHung (announced a) v = ground arith
  Step-IsHung (serving_fails a) v = ground arith
  Step-IsHung (serving_stops a b) v = ground arith
  Step-IsHung (run_panics a) v = ground (arith, a)
  Step-IsHung (handler_closed a b) v = ground arith
  Step-IsHung (exits a b c) v = ground arith
  Step-IsHung (signalled a b) v = ground arith
  Step-IsHung (receives_terminate a b) v = ground arith
  Step-IsHung (receives_hangup a b c) v = ground arith
  Step-IsHung (receives_close a b c) v = ground arith
  Step-IsHung (quits_without_daemon a b c) v = ground arith
  Step-IsHung (quits_daemon a b c) v = ground arith
  Step-IsHung (stopped a) v = ground arith

Reach-IsHung : {s t : State} → IsHung s → Reach s t → IsHung t
Reach-IsHung h here = h
Reach-IsHung h (next {t = t} r st) = Step-IsHung t st (Reach-IsHung h r)

hung-never-exits : {s t : State} (n : ℕ) → IsHung s → Reach s t → t.main ≢ exited n
hung-never-exits {s} {t} n h r e = ground (arith, Reach-IsHung h r)

Reach-trans : {s t u : State} → Reach s t → Reach t u → Reach s u
Reach-trans r here = r
Reach-trans r (next q st) = next (Reach-trans r q) st

signalled-IsHung :
    (s : State)
    → s.main ≡ executing
    → s.handler ≡ receiving
    → s.channel ≡ none
    → s.channel_closed ≡ false
    → s.ready ≡ false
    → (t : State) × Reach s t × IsHung t
unfolding deliver
signalled-IsHung s m h c d r =
    let s1 : State = record s { channel = deliver terminate s.channel } in
    let s2 : State = record s1 { handler = quitting; channel = none } in
    let s3 : State = record s2 { main = returned failed; silence_usage = true } in
    (
      s3,
      next (next (next here (signalled terminate d)) (receives_terminate h (ground arith)))
          (config_fails m),
      ground arith,
    )

-- From `t` the program reaches no state in which it has exited.
abbrev pub NeverExits : State → Type 0
NeverExits t = (u : State) (n : ℕ) → Reach t u → u.main ≢ exited n

-- From every state in `rootCmd.Execute` before `serve`, with the handler receiving, its channel open
-- and empty and `a.ready` open, the program can reach a state from which it never exits, whatever
-- happens next: a signal that asks to quit arrives, the configuration gives an error, and the
-- handler waits in `Quit` for `a.ready`.
pub signalled-NeverExits :
    (s : State)
    → s.main ≡ executing
    → s.handler ≡ receiving
    → s.channel ≡ none
    → s.channel_closed ≡ false
    → s.ready ≡ false
    → (t : State) × Reach s t × NeverExits t
signalled-NeverExits s m h c d r =
    let (t, reached, hung) = signalled-IsHung s m h c d r in
    (t, reached, λ u n r. hung-never-exits n hung r)

-- From `u` the program can go on to exit with status `n`.
abbrev pub Exits : ℕ → State → Type 0
Exits n u = (t : State) × Reach u t × (t.main ≡ exited n)

module _ (n : ℕ) where
  first : {u v : State} → Step u v → Exits n v → Exits n u
  first st (t, r, e) = (t, Reach-trans (next here st) r, e)

  finished-Exits : (u : State) → u.main ≡ waiting n → u.handler ≡ finished → Exits n u
  finished-Exits u m h = (record u { main = exited n }, next here (exits n m h), refl)

  stopping-Exits : (u : State) → u.main ≡ waiting n → u.handler ≡ stopping → Exits n u
  stopping-Exits u m h = first (stopped h) (finished-Exits (record u { handler = finished }) m refl)

  quitting-Exits :
      (u : State) → u.main ≡ waiting n → u.ready ≡ true → u.handler ≡ quitting → Exits n u
  quitting-Exits u m r h = elim (Bool-cases u.has_daemon) [
    | inl d ↦
        first (quits_daemon h r d)
          (stopping-Exits (record u { handler = stopping; stop_requested = true }) m refl)
    | inr d ↦
        first (quits_without_daemon h r d) (finished-Exits (record u { handler = finished }) m refl)
  ]

  closed-Exits :
      (u : State)
      → u.main ≡ waiting n
      → u.handler ≡ receiving
      → u.channel ≡ none
      → u.channel_closed ≡ true
      → Exits n u
  closed-Exits u m h c d =
      first (receives_close h c d) (finished-Exits (record u { handler = finished }) m refl)

  receiving-Exits :
      (u : State) (buffer : Option SignalKind)
      → u.main ≡ waiting n
      → u.ready ≡ true
      → u.handler ≡ receiving
      → u.channel_closed ≡ true
      → u.channel ≡ buffer
      → Exits n u
  receiving-Exits u none m r h d c = closed-Exits u m h c d
  receiving-Exits u (some hangup) m r h d c =
      first (receives_hangup h c refl) (closed-Exits (record u { channel = none }) m h refl d)
  receiving-Exits u (some terminate) m r h d c =
      first (receives_terminate h c)
        (quitting-Exits (record u { handler = quitting; channel = none }) m r refl)

  by_handler :
      (u : State) (at : HandlerAt)
      → u.main ≡ waiting n
      → u.ready ≡ true
      → u.channel_closed ≡ true
      → u.handler ≡ at
      → Exits n u
  by_handler u receiving m r d h = receiving-Exits u u.channel m r h d refl
  by_handler u quitting m r d h = quitting-Exits u m r h
  by_handler u stopping m r d h = stopping-Exits u m h
  by_handler u finished m r d h = finished-Exits u m h

  -- From every state that the program reaches in which `run` waits for its handler and `a.ready` is
  -- closed, the program can go on to exit with the status that `run` has computed, wherever the
  -- signal handler stands.
  pub ready-Exits : (u : State) → Reach start u → u.main ≡ waiting n → u.ready ≡ true → Exits n u
  ready-Exits u reached m r = by_handler u u.handler m r (ground (arith, Reach-Inv reached)) refl
