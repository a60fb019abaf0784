-- ===== src/Tests/Helpers.antt =====
-- The shared bus and the golden files of the tests, at concrete systems.
use ubuntu_installer_latest.Base.{
  Text, codes, true, false, ◌≡◌, refl, List, [], ◌∷◌, ◌++◌, arith, ok,
}
use ubuntu_installer_latest.Testutils.Actions.{or_exit}
use ubuntu_installer_latest.Testutils.Processes.{Os, launch_daemon, removed}
use ubuntu_installer_latest.Testutils.SystemBus.{
  SystemBus, stored, start_bus, do_once, start_local_system_bus, get_address, stop_bus, kill,
  stop_last, stop_local_system_bus,
}
use ubuntu_installer_latest.Testutils.SystemBus.Laws.{OsLaws, IsShared}
use ubuntu_installer_latest.Testutils.SystemBus.Uses.{
  Use, starts, stops, open_starts, run_uses, run_uses-IsShared,
}
use ubuntu_installer_latest.Testutils.Golden.{
  GoldenFiles, load_with_update_from_golden_yaml, load_with_update_from_golden, load_at,
  update_golden, write_golden,
}
use ubuntu_installer_latest.Testutils.Golden.Laws.{WritesBack, load_yaml-update}

-- The variable alone is the system.
abbrev one_variable : Os Text
one_variable = record {
  mkdir_temp = λ dir pattern w. (ok (codes "/tmp/d"), w);
  write_file = λ path contents mode w. (ok tt, w);
  stdout_pipe = λ c w. (ok 7, w);
  start = λ p w. (ok tt, w);
  read_stdout = λ p n w. (ok (codes "unix:path=/tmp/x"), w);
  cancel = λ p w. w;
  wait = λ p w. w;
  remove_all = λ path w. (ok tt, w);
  getenv = λ k w. w;
  setenv = λ k v w. (ok tt, v);
  join = λ a b. a ++ b;
  directory = λ a. a;
}

one_variable-laws : OsLaws one_variable
one_variable-laws = record { setenv_getenv = λ k v w h. refl; mkdir_keeps = λ k a b w. refl }

abbrev untouched : SystemBus Text
untouched = record {
  world = codes "unix:path=/run/bus";
  once_done = false;
  running = 0;
  process = 0;
  config = [];
  saved_address = [];
}

abbrev two_tests : List Use
two_tests = starts ∷ starts ∷ stops ∷ stops ∷ []

untouched-IsShared : IsShared one_variable (codes "unix:path=/run/bus") 0 untouched
untouched-IsShared = record {
  fits = ground arith;
  counted = refl;
  done_while_open = refl;
  saved = λ h. cc;
  restored = λ h. refl;
}

run_uses-IsShared_example :
    IsShared one_variable
      (codes "unix:path=/run/bus")
      0
      (run_uses one_variable two_tests untouched).1
unfolding run_uses start_local_system_bus do_once start_bus launch_daemon removed or_exit
    get_address stored stop_local_system_bus stop_last stop_bus kill open_starts
run_uses-IsShared_example =
    run_uses-IsShared one_variable one_variable-laws (codes "unix:path=/run/bus") two_tests 0 0
      untouched refl untouched-IsShared refl

-- The one golden file is the system.
abbrev one_golden : GoldenFiles Text
one_golden = record {
  mkdir_all = λ path mode w. (ok tt, w);
  write_file = λ path contents mode w. (ok tt, contents);
  read_file = λ path w. (ok w, w);
  join = λ a b. a ++ b;
  directory = λ a. a;
  to_lower = λ s. s;
}

one_golden-laws : WritesBack one_golden
one_golden-laws = record { reads = λ path contents mode w h. refl }

load_yaml-update_example :
    let load = load_with_update_from_golden_yaml one_golden {E = Text} (λ s. ok s) (λ s. ok s) in
    ((load true (codes "T/a") (codes "x") [] []).0 ≡ ok (codes "x"))
    × ((load false (codes "T/a") (codes "y") [] (load true (codes "T/a") (codes "x") [] []).1).0
        ≡ ok (codes "x"))
unfolding load_with_update_from_golden_yaml load_with_update_from_golden load_at update_golden
    write_golden
load_yaml-update_example =
    load_yaml-update one_golden one_golden-laws (λ s. ok s) (λ s. ok s) (codes "T/a") [] (codes "x")
      (codes "y") (codes "x") (codes "y") [] refl refl refl refl
