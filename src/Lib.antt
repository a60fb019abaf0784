-- ===== src/Lib.antt =====
-- The provisioning daemon provd, which the provisioning and installation user interfaces talk to over
-- gRPC (provd/ in the repository).
--
-- The program is `run` of provd/cmd/provd/main.go: it installs a signal handler, starts the keyring
-- daemon and executes the command line (provd/cmd/provd/daemon/daemon.go). The command `provd` serves:
-- it makes the manager of the services (provd/internal/services/manager.go), then the gRPC daemon
-- (provd/internal/daemon/daemon.go), which registers the services of the manager on a gRPC server and
-- serves them on a Unix socket. Each service is a directory of provd/internal/services; it keeps the
-- D-Bus objects or the settings that it calls, and has one method for each request.
--
-- Where the parts stand:
--   Base            what the Go code uses of its language and standard library: values with an
--                   error, panics, the code that acts on a system (Base/Go), strings
--                   (Base/Strings), decimal digits (Base/Decimal), bufio.Scanner
--                   (Base/Scanner), the search of `LANG=` (Base/Regexp)
--   System          D-Bus, files, GSettings and libcrypt as interfaces over the states of the
--                   system, and the names of provd/internal/consts/consts.go
--   User            provd/internal/services/user: New (User/Service), hashPassword
--                   (User/Password), CreateUser (User/Create) and two calls of it that overlap
--                   (User/Create/Overlap), ValidateUsername and scanFile (User/Validate)
--   Locale          provd/internal/services/locale: New, GetLocale, SetLocale, isLocaleSupported
--   Timezone        provd/internal/services/timezone: New, GetTimezone, SetTimezone
--   Privacy         provd/internal/services/privacy: New, Get-, Enable- and
--                   DisableLocationServices
--   Telemetry       provd/internal/services/telemetry: New, Collect, CollectAndSend, SendDecline
--   Accessibility   provd/internal/services/accessibility: New and the helpers; the handlers
--                   (Accessibility/Handlers)
--   Gdm             provd/internal/services/gdm: New, LaunchDesktopSession and Close (Gdm/Launch); the
--                   connection that New dials (Gdm/Connection)
--   Keyboard        provd/internal/services/keyboard: New (Keyboard/Service), getKeyboardLayouts
--                   (Keyboard/Layouts), SetInputSource, GetKeyboard and SetKeyboard
--                   (Keyboard/Current)
--   Manager         provd/internal/services/manager.go: NewManager, RegisterGRPCServices, Stop
--   Daemon          provd/internal/daemon/daemon.go: New, Serve, Quit
--   Config          provd/cmd/provd/daemon/config.go: initViperConfig
--   App             provd/cmd/provd/main.go and provd/cmd/provd/daemon/daemon.go: the two
--                   goroutines as a step relation; the method serve by itself (App/Serve); the program
--                   from its entry to its exit status where no signal arrives, with keyring.go and
--                   version.go (App/Program), and the commands that are given to cobra
--   Testutils       provd/internal/testutils, what the tests of provd run against: the log of the mocked
--                   calls (Testutils/Actions), the exports (Testutils/Exports) with the descriptions
--                   in XML (Testutils/Description), the mocks of timedated, hostnamed, accounts-daemon
--                   and localed (Testutils/Timedate, Testutils/Hostname, Testutils/Accounts,
--                   Testutils/UserMock, Testutils/LocaleMock), the mock of GDM (Testutils/GdmMock) with its private
--                   buses (Testutils/PrivateBuses), the shared system bus (Testutils/SystemBus),
--                   the start of a dbus-daemon (Testutils/Processes), golden files
--                   (Testutils/Golden)
--   Tests           the theorems at concrete systems
--
-- A method of a service is a function from its request and the state of the system to a result and a
-- new state. A request that can be nil is an option. A result is a value, an error or a panic; an error
-- is kept by the call that made it, its status code, its format and its cause, and is not printed. An
-- `if err != nil` after a call is `map_err` or one of its short forms, and a call whose error the code
-- goes on with is `catch`. What is logged is left out. The state of the system is a type `W` of which
-- nothing is assumed; where a theorem needs that a system service keeps its contract, the contract is a
-- record of laws, such as HostnameLaws, that the theorem takes. The systems of Tests satisfy them.
--
-- Texts are lists of code points, so Go strings are taken to be valid UTF-8; the length of a string
-- is counted in bytes. Every loop of the services is over the lines of a file, a list in a reply, or
-- the signals that arrive, and is a recursion on that list: no fuel is needed. The digits of a number
-- are made on fuel, its value plus one, and a number has no more digits than that.
-- `LaunchDesktopSession` is given the list of what its select receives and is left waiting at the end
-- of that list. A scanner stops at a line of 65536 bytes, as bufio.Scanner does with its default
-- buffer. The program in App is a relation, with one step for each action of a goroutine and for the
-- arrival of a signal, and so covers their interleavings; a panic within `App.Run` is a step, as the
-- deferred function of `run` follows it, and a panic of the signal handler is none; the relation does
-- not say that a step which can be taken is taken. Elsewhere a handler runs by itself, but for
-- User/Create/Overlap, where a second call runs inside a first one.
--
-- The mocks are functions like the services, and a theorem about a service over its mock takes the
-- bus as a record of laws that says that the bus passes each call to a method of the mock. `os.Exit`,
-- `log.Fatalf` and a requirement of a test that fails end what runs: the first two as a panic does,
-- the third as an error. What a mutex guards is one step. The counter of the shared system bus wraps
-- at 2 ^ 64.
--
-- Not modelled: the generated gRPC and protobuf code; viper and cobra, which are parameters of Config
-- and App/Program and steps of App (the commands, flags and hooks that are given to cobra are data of
-- App/Program); the interfaces that godbus adds to the description of a mock; the embedded layout
-- files; the tests themselves; and the Dart packages and applications, which are clients of the
-- daemon.
pub mod Base
pub mod System
pub mod User
pub mod Locale
pub mod Timezone
pub mod Privacy
pub mod Telemetry
pub mod Accessibility
pub mod Gdm
pub mod Keyboard
pub mod Manager
pub mod Daemon
pub mod Config
pub mod App
pub mod Testutils
pub mod Tests
