-- ===== src/Testutils/Exports/Laws.antt =====
-- What is on the bus when a mock has been exported.
use ubuntu_installer_latest.Base.{
  Bool, Option, some, text_eq, str_eq, ◌&&◌, if◌then◌else◌, ◌∙◌, ap, Text, String, true, List, [],
  ◌∷◌, ◌≡◌, refl, is_ok, arith, ok, continue_ok,
}
use ubuntu_installer_latest.Testutils.Exports.{
  Exported, Entry, Conn, primary_owner, export_each, owner_only, acquire, export_mock,
}

-- The bus holds one value for a path and an interface, the last that was exported there without an
-- error; and a name is owned by the connection that was told to be its primary owner.
pub record ConnLaws {W : Type 0} (conn : Conn W) : Type 0 where
  pub exported : Text → String → W → Option Exported
  pub owns : String → W → Bool
  pub export-exported :
      (v : Exported) (p : Text) (i : String) (q : Text) (j : String) (w : W)
      → is_ok (conn.export v p i w).0 ≡ true
      → exported q j (conn.export v p i w).1
        ≡ (if text_eq p q && str_eq i j then some v else exported q j w)
  pub request-exported :
      (name : String) (q : Text) (j : String) (w : W)
      → exported q j (conn.request_name name w).1 ≡ exported q j w
  pub request-owns :
      (name : String) (w : W)
      → (conn.request_name name w).0 ≡ ok primary_owner
      → owns name (conn.request_name name w).1 ≡ true

-- The value of the last entry for a path and an interface, if there is one, and else `before`.
unfoldable pub last_entry : List Entry → Text → String → Option Exported → Option Exported
last_entry [] q j before = before
last_entry (e ∷ es) q j before =
    last_entry es q j (if text_eq e.path q && str_eq e.interface j then some e.value else before)

module _ {W : Type 0} (conn : Conn W) (laws : ConnLaws conn) where
  export_each-exported :
      (es : List Entry) (q : Text) (j : String) (w : W)
      → is_ok (export_each conn es w).0 ≡ true
      → laws.exported q j (export_each conn es w).1 ≡ last_entry es q j (laws.exported q j w)
  unfolding export_each last_entry
  export_each-exported [] q j w h = refl
  export_each-exported (e ∷ es) q j w h =
      let v = (conn.export e.value e.path e.interface w).1 in
      ground (
        arith,
        laws.export-exported e.value e.path e.interface q j w,
        export_each-exported es q j v,
      )

  acquire-owns :
      (name failure taken : String) (w : W)
      → is_ok (acquire conn name failure taken w).0 ≡ true
      → (laws.owns name (acquire conn name failure taken w).1 ≡ true)
        × ((q : Text) (j : String)
            → laws.exported q j (acquire conn name failure taken w).1 ≡ laws.exported q j w)
  unfolding acquire owner_only
  acquire-owns name failure taken w h = (
    ground (arith, laws.request-owns name w),
    λ q j. ground (arith, laws.request-exported name q j w),
  )

  -- When a mock has been exported without an error, its name is owned, and the bus holds under each
  -- path and interface the last of the values that are exported there, or else what it held before.
  pub export_mock-exported :
      (es : List Entry) (name failure taken : String) (w : W)
      → is_ok (export_mock conn es name failure taken w).0 ≡ true
      → let v = (export_mock conn es name failure taken w).1 in
        (laws.owns name v ≡ true)
        × ((q : Text) (j : String) → laws.exported q j v ≡ last_entry es q j (laws.exported q j w))
  unfolding export_mock
  export_mock-exported es name failure taken w h =
      let (_, first, second, end) =
        continue_ok (λ _. acquire conn name failure taken) (export_each conn es w) h in
      let u = (export_each conn es w).1 in
      let (owner, kept) = acquire-owns name failure taken u second in
      (rw end owner, λ q j. rw end (kept q j ∙ export_each-exported es q j w (ap is_ok first)))
