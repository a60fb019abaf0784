-- ===== src/Testutils/Timedate/Served.antt =====
-- What the bus holds once the mock of timedated is exported.
use ubuntu_installer_latest.Base.{Text, text_eq, String, true, ◌≡◌, refl, ◌∙◌, Option, some, is_ok}
use mathlib.Core.List.{Memᴰ}
use ubuntu_installer_latest.Testutils.Description.{peer_node}
use ubuntu_installer_latest.System.{dbus_timedate_prefix, dbus_peer_prefix}
use ubuntu_installer_latest.Testutils.Exports.{
  Conn, Exported, mock, introspectable, introspectable_interface, properties_interface, freedesktop,
  entries_of,
}
use ubuntu_installer_latest.Testutils.Exports.Laws.{ConnLaws, last_entry, export_mock-exported}
use ubuntu_installer_latest.Testutils.Timedate.{
  timedate_entries, timedate_paths, export_timedate_mock,
}

-- What is held under a path and an interface.
abbrev pub Held :
    {W : Type 0} {conn : Conn W} → ConnLaws conn → Text → String → Exported → W → Type 0
Held laws path interface v w = laws.exported (freedesktop path) interface w ≡ some v

-- The mock serves its own interface, the properties and the peer interface; its description is not
-- served.
abbrev pub Describes : {W : Type 0} {conn : Conn W} → ConnLaws conn → Text → W → Type 0
Describes laws path w =
    Held laws path dbus_timedate_prefix (mock "timedate" path) w
    × Held laws path properties_interface (mock "timedate" path) w
    × Held laws path dbus_peer_prefix (mock "timedate" path) w
    × Held laws path introspectable_interface (introspectable peer_node) w

last_of :
    (path : Text) (before : String → Option Exported)
    → Memᴰ path timedate_paths
    → let last = λ (i : String).
      last_entry (entries_of timedate_entries timedate_paths) (freedesktop path) i (before i) in
      (last dbus_timedate_prefix ≡ some (mock "timedate" path))
      × (last properties_interface ≡ some (mock "timedate" path))
      × (last dbus_peer_prefix ≡ some (mock "timedate" path))
      × (last introspectable_interface ≡ some (introspectable peer_node))
unfolding last_entry entries_of timedate_entries text_eq
last_of path before (Memᴰ.head e) = rw e (refl, refl, refl, refl)
last_of path before (Memᴰ.tail (Memᴰ.head e)) = rw e (refl, refl, refl, refl)
last_of path before (Memᴰ.tail (Memᴰ.tail m)) = elim m [ ]

module _ {W : Type 0} (conn : Conn W) (laws : ConnLaws conn) where
  -- `ExportTimedateMock` without an error: the name of timedated is owned, and at each of the two
  -- paths the mock of that path serves the interface of timedated, the properties and the interface
  -- Peer; but what is served as the description of the object is that of Peer, which was exported
  -- last, and not that of the mock. The connection is assumed to hold one value for a path and an
  -- interface.
  pub export_timedate_mock-Describes :
      (path : Text) (w : W)
      → Memᴰ path timedate_paths
      → is_ok (export_timedate_mock conn w).0 ≡ true
      → let v = (export_timedate_mock conn w).1 in
        (laws.owns dbus_timedate_prefix v ≡ true) × Describes laws path v
  unfolding export_timedate_mock
  export_timedate_mock-Describes path w m h =
      let (owned, held) = export_mock-exported conn laws _ _ _ _ w h in
      let (a, b, c, d) = last_of path (λ i. laws.exported (freedesktop path) i w) m in
      (owned, (held _ _ ∙ a, held _ _ ∙ b, held _ _ ∙ c, held _ _ ∙ d))
