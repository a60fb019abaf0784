-- ===== src/Tests/Connections.antt =====
-- The exports of a mock on a connection that is a map.
use ubuntu_installer_latest.Base.{
  Text, codes, text_eq, str_eq, String, true, ◌&&◌, if◌then◌else◌, ◌≡◌, refl, Option, some, none,
  ok,
}
use mathlib.Core.List.{Memᴰ}
use ubuntu_installer_latest.System.{dbus_timedate_prefix}
use ubuntu_installer_latest.Testutils.Exports.{
  Conn, Exported, primary_owner, export_each, export_mock, acquire, owner_only, entries_of,
}
use ubuntu_installer_latest.Testutils.Exports.Laws.{ConnLaws}
use ubuntu_installer_latest.Testutils.Timedate.{export_timedate_mock, timedate_entries}
use ubuntu_installer_latest.Testutils.Timedate.Served.{Describes, export_timedate_mock-Describes}

abbrev HeldValues : Type 0
HeldValues = Text → String → Option Exported

abbrev map_conn : Conn HeldValues
map_conn = record {
  export = λ v p i w. (ok tt, λ q j. if text_eq p q && str_eq i j then some v else w q j);
  request_name = λ name w. (ok primary_owner, w);
}

abbrev map_laws : ConnLaws map_conn
map_laws = record {
  exported = λ q j w. w q j;
  owns = λ name w. true;
  export-exported = λ v p i q j w h. refl;
  request-exported = λ name q j w. refl;
  request-owns = λ name w h. refl;
}

abbrev no_values : HeldValues
no_values = λ q j. none

export_timedate_mock-Describes_example :
    let v = (export_timedate_mock map_conn no_values).1 in
    (map_laws.owns dbus_timedate_prefix v ≡ true) × Describes map_laws (codes "timedate1") v
unfolding export_timedate_mock export_mock export_each acquire owner_only entries_of
    timedate_entries
export_timedate_mock-Describes_example =
    export_timedate_mock-Describes map_conn map_laws (codes "timedate1") no_values (Memᴰ.head refl)
      refl
