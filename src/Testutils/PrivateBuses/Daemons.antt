-- ===== src/Testutils/PrivateBuses/Daemons.antt =====
-- Which daemons of the private buses run, and what changes that (gdm_mock.go).
use ubuntu_installer_latest.Base.{
  ℕ, Text, codes, String, Bool, true, false, ◌==◌, ◌&&◌, ◌||◌, not, ◌≡◌, ◌≢◌, refl, arith, List, [],
  ◌∷◌, Err, ok, err, Run, is_ok,
}
use ubuntu_installer_latest.App.Program.{Command}
use ubuntu_installer_latest.Testutils.Actions.{or_exit}
use ubuntu_installer_latest.Testutils.Processes.{
  Os, Launched, launch_daemon, removed, dbus_daemon, bus_config,
}
use ubuntu_installer_latest.Testutils.Exports.{Exported, Entry, export_each, acquire, owner_only}
use ubuntu_installer_latest.Testutils.PrivateBuses.{
  PrivateBus, Dialer, start_private_dbus_server, setup_session, session_entries, user_verifier,
  greeter, not_acquired, taken, kill, close_bus, clean_up,
}

module _ {W A : Type 0} (runs : ℕ → W → Bool) where
  -- The code starts no command and ends none.
  abbrev pub KeepsRuns : Run W Err A → Type 0
  KeepsRuns m = (q : ℕ) (w : W) → runs q (m w).1 ≡ runs q w

-- A command that is piped is a new one; it runs once it is started without an error, until it is
-- cancelled and waited for.
pub record DaemonLaws {W : Type 0} (os : Os W) (dialer : Dialer W) : Type 0 where
  pub runs : ℕ → W → Bool
  pub pipe-new : (c : Command) (p : ℕ) (w : W) → (os.stdout_pipe c w).0 ≡ ok p → runs p w ≡ false
  pub start-runs :
      (p q : ℕ) (w : W)
      → is_ok (os.start p w).0 ≡ true
      → runs q (os.start p w).1 ≡ (p == q || runs q w)
  pub end-runs : (p q : ℕ) (w : W) → runs q (os.wait p (os.cancel p w)) ≡ (not (p == q) && runs q w)
  pub mkdir-runs : (a b : Text) → KeepsRuns runs (os.mkdir_temp a b)
  pub write-runs : (a b : Text) (n : ℕ) → KeepsRuns runs (os.write_file a b n)
  pub pipe-runs : (c : Command) → KeepsRuns runs (os.stdout_pipe c)
  pub read-runs : (p n : ℕ) → KeepsRuns runs (os.read_stdout p n)
  pub remove-runs : (a : Text) → KeepsRuns runs (os.remove_all a)
  pub dial-runs : (a : Text) → KeepsRuns runs (dialer.dial a)
  pub auth-runs : (a : Text) → KeepsRuns runs (dialer.auth a)
  pub hello-runs : (a : Text) → KeepsRuns runs (dialer.hello a)
  pub close-runs : (a : Text) (q : ℕ) (w : W) → runs q (dialer.close a w) ≡ runs q w
  pub export-runs :
      (a : Text) (v : Exported) (p : Text) (i : String)
      → KeepsRuns runs ((dialer.conn a).export v p i)
  pub request-runs : (a : Text) (name : String) → KeepsRuns runs ((dialer.conn a).request_name name)

module _ {W : Type 0} (os : Os W) (dialer : Dialer W) (laws : DaemonLaws os dialer) where
  export_each-runs :
      (a : Text) (es : List Entry) → KeepsRuns laws.runs (export_each (dialer.conn a) es)
  unfolding export_each
  export_each-runs a [] q w = refl
  export_each-runs a (e ∷ es) q w =
      let v = ((dialer.conn a).export e.value e.path e.interface w).1 in
      ground (arith, laws.export-runs a e.value e.path e.interface q w, export_each-runs a es q v)

  acquire-runs :
      (a : Text) (name failure taken : String)
      → KeepsRuns laws.runs (acquire (dialer.conn a) name failure taken)
  unfolding acquire owner_only
  acquire-runs a name failure taken q w = ground (arith, laws.request-runs a name q w)

  pub setup_session-runs : (a : Text) → KeepsRuns laws.runs (setup_session os dialer a)
  unfolding setup_session
  setup_session-runs a q w =
      let dialled = (dialer.dial a w).1 in
      let known = (dialer.auth a dialled).1 in
      let greeted = (dialer.hello a known).1 in
      let exported = (export_each (dialer.conn a) session_entries greeted).1 in
      let verifier = (acquire (dialer.conn a) user_verifier not_acquired taken exported).1 in
      ground (
        arith,
        laws.dial-runs a q w,
        laws.auth-runs a q dialled,
        laws.hello-runs a q known,
        export_each-runs a session_entries q greeted,
        acquire-runs a user_verifier not_acquired taken q exported,
        acquire-runs a greeter not_acquired taken q verifier,
      )

  -- A server that is started is new, and is all that the start adds.
  pub start-server-runs :
      (w : W) (dir : Text) (b : Launched)
      → (start_private_dbus_server os dialer w).0 ≡ ok (dir, b)
      → (laws.runs b.process w ≡ false)
        × ((q : ℕ)
            → laws.runs q (start_private_dbus_server os dialer w).1
              ≡ (b.process == q || laws.runs q w))
  unfolding start_private_dbus_server launch_daemon removed or_exit
  start-server-runs w dir b h =
      let made = os.mkdir_temp (codes "") (codes "tests-private-dbus") w in
      let config = os.join dir (codes "dbus.config") in
      let written = (os.write_file config bus_config 0o600 made.1).1 in
      let piped = (os.stdout_pipe (dbus_daemon config) written).1 in
      let started = (os.start b.process piped).1 in
      (
        ground (
          arith,
          h,
          laws.mkdir-runs (codes "") (codes "tests-private-dbus") b.process w,
          laws.write-runs config bus_config 0o600 b.process made.1,
          laws.pipe-new (dbus_daemon config) b.process written,
        ),
        λ q. ground (
          arith,
          h,
          laws.mkdir-runs (codes "") (codes "tests-private-dbus") q w,
          laws.write-runs config bus_config 0o600 q made.1,
          laws.pipe-runs (dbus_daemon config) q written,
          laws.start-runs b.process q piped,
          laws.read-runs b.process 256 q started,
        ),
      )

  -- `log.Fatalf` ends the process.
  pub start-server-fatal : (w : W) (e : Err) → (start_private_dbus_server os dialer w).0 ≢ err e
  unfolding start_private_dbus_server launch_daemon removed or_exit
  start-server-fatal w e h = ground (arith, h)

  pub clean_up-runs :
      (b : PrivateBus) (q : ℕ) (w : W)
      → (clean_up os dialer b w).0 ≡ ok tt
      → laws.runs q (clean_up os dialer b w).1 ≡ (not (b.process == q) && laws.runs q w)
  unfolding clean_up kill close_bus or_exit
  clean_up-runs b q w h =
      let ended = os.wait b.process (os.cancel b.process w) in
      let unconfigured = (os.remove_all (os.directory b.config) ended).1 in
      let closed = dialer.close b.address unconfigured in
      ground (
        arith,
        h,
        laws.end-runs b.process q w,
        laws.remove-runs (os.directory b.config) q ended,
        laws.close-runs b.address q unconfigured,
        laws.remove-runs b.temp_dir q closed,
      )
