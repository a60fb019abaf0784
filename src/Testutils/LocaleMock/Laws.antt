-- ===== src/Testutils/LocaleMock/Laws.antt =====
-- The Locale and the Keyboard services over the mock of localed.
use ubuntu_installer_latest.Base.{
  Bool-cases, inl, inr, Text, codes, text_eq, is_empty, Bool, true, false, not, ◌&&◌, ◌||◌, ◌≡◌,
  arith, if◌then◌else◌, none, some, List, [], ◌∷◌, ◌++◌, Err, Result, ok, err, text, bool, is_ok,
  replies, internal, Run, or_status, pure, ◌>>=◌, status_err,
}
use ubuntu_installer_latest.Base.Scanner.{File}
use ubuntu_installer_latest.System.{Bus, dbus_locale_prefix}
use ubuntu_installer_latest.Locale as Locale
use ubuntu_installer_latest.Locale.{get_locale, on_match, find_locale, is_locale_char}
use ubuntu_installer_latest.Keyboard.Service.{ValueSettings}
use ubuntu_installer_latest.Keyboard.Service as Keyboard
use ubuntu_installer_latest.Keyboard.Layouts.{Values, KeyboardLayout, get_keyboard_layouts}
use ubuntu_installer_latest.Keyboard.Current.{
  KeyboardSettings, set_keyboard, get_keyboard, set_x11_keyboard, x11_layout, x11_variant,
  x11_model, x11_options, locale_property, language_of, on_language, if_opened, file_of_language,
}
use ubuntu_installer_latest.Testutils.Timedate.{requested}
use ubuntu_installer_latest.Testutils.LocaleMock.{LocaleBus, mock_set_x11_keyboard, mock_get_locale}
use ubuntu_installer_latest.Testutils.LocaleMock.Values.{
  fails_set, fails_get, mocked_language, mocked_settings, settings_of, mocked_locale,
  locale_value-locale, locale_value-model, locale_value-options, locale_value-layout,
  locale_value-variant, find_locale-german, find_locale-xhosa, find_language-german,
  find_language-xhosa,
}

-- The bus answers the calls of the two services by the methods of the mock, and prints a string
-- between quotes.
pub record ServesLocale {W : Type 0} (bus : Bus W) (s : Locale.Service) (k : Keyboard.Service)
    (l : LocaleBus) : Type 0 where
  pub serves_locale :
      (w : W)
      → bus.get_property s.locale Locale.locale_property w
        ≡ mock_get_locale l (codes dbus_locale_prefix) (codes "Locale") w
  pub serves_language :
      (w : W)
      → bus.get_property k.locale locale_property w
        ≡ mock_get_locale l (codes dbus_locale_prefix) (codes "Locale") w
  pub serves_model :
      (w : W)
      → bus.get_property k.locale x11_model w
        ≡ mock_get_locale l (codes dbus_locale_prefix) (codes "X11Model") w
  pub serves_options :
      (w : W)
      → bus.get_property k.locale x11_options w
        ≡ mock_get_locale l (codes dbus_locale_prefix) (codes "X11Options") w
  pub serves_layout :
      (w : W)
      → bus.get_property k.locale x11_layout w
        ≡ mock_get_locale l (codes dbus_locale_prefix) (codes "X11Layout") w
  pub serves_variant :
      (w : W)
      → bus.get_property k.locale x11_variant w
        ≡ mock_get_locale l (codes dbus_locale_prefix) (codes "X11Variant") w
  pub serves_set :
      (layout model variant options : Text) (a b : Bool) (w : W)
      → bus.call k.locale set_x11_keyboard
          (text layout ∷ text model ∷ text variant ∷ text options ∷ bool a ∷ bool b ∷ [])
          w
        ≡ replies (λ _. []) (mock_set_x11_keyboard l layout model variant options a b w)
  pub prints : (t : Text) → bus.variant_string (text t) ≡ codes "\"" ++ (t ++ codes "\"")

module _ {W V : Type 0} (bus : Bus W) (settings : ValueSettings W V) (s : Locale.Service)
    (k : Keyboard.Service) (l : LocaleBus) (serves : ServesLocale bus s k l) where
  get_locale-mock :
      (w : W)
      → get_locale bus s (some tt) w ≡ (
          if text_eq l.path (codes "localeerror")
          then (err (status_err internal "failed to get locale: %v" (requested (codes "Get"))), w)
          else (ok (mocked_locale l.path), w))
  unfolding get_locale mock_get_locale on_match
  get_locale-mock w = ground (
    arith,
    locale_value-locale l,
    find_locale-german,
    find_locale-xhosa,
    serves.serves_locale w,
    serves.prints (codes "LANG=de_DE.UTF-8"),
    serves.prints (codes "LANG=xh_ZA.UTF-8"),
  )

  set_keyboard-mock :
      (req : KeyboardSettings) (w : W)
      → let end = set_keyboard bus settings k (some (some req)) w in
        (is_ok end.0
          ≡ not (
              is_empty req.layout
              || fails_set l.path
              || text_eq req.layout (codes "x11keyboarderror")))
        × (end.1 ≡ w)
  unfolding set_keyboard mock_get_locale mock_set_x11_keyboard
  set_keyboard-mock req w = ground (
    arith,
    locale_value-model l,
    locale_value-options l,
    serves.serves_model w,
    serves.serves_options w,
    serves.serves_set req.layout (codes "ok") req.variant (codes "ok") false false w,
  )

  module _ (embedded : Text → Result Err File) (unmarshal : Text → Result Err Values) where
    -- The layouts in the language of the mock.
    abbrev pub mocked_layouts : Run W Err (List KeyboardLayout)
    mocked_layouts =
        let lang = mocked_language l.path in
        get_keyboard_layouts unmarshal embedded k.keyboardl18n_path
          (if_opened bus settings k lang (embedded (file_of_language bus settings k lang)))

    get_keyboard-mock :
        (w : W)
        → fails_get l.path ≡ false
        → get_keyboard bus settings k embedded unmarshal (some tt) w
          ≡ (do
            layouts ← or_status internal "failed to get keyboard layouts: %v" mocked_layouts
            pure (record { settings = mocked_settings; layouts = layouts }))
              w
    unfolding get_keyboard mock_get_locale language_of on_language
    get_keyboard-mock w h = ground (
      arith,
      h,
      locale_value-locale l,
      locale_value-layout l,
      locale_value-variant l,
      find_language-german,
      find_language-xhosa,
      serves.serves_language w,
      serves.serves_layout w,
      serves.serves_variant w,
      serves.prints (codes "LANG=de_DE.UTF-8"),
      serves.prints (codes "LANG=xh_ZA.UTF-8"),
    )

    get_keyboard-mock_fails :
        (w : W)
        → fails_get l.path ≡ true
        → is_ok (get_keyboard bus settings k embedded unmarshal (some tt) w).0 ≡ false
    unfolding get_keyboard mock_get_locale language_of on_language
    get_keyboard-mock_fails w h = ground (
      arith,
      h,
      locale_value-layout l,
      locale_value-variant l,
      serves.serves_layout w,
      serves.serves_variant w,
    )

    -- Over the mock of localed, at every path that a mock can have: `GetLocale` fails at localeerror,
    -- and elsewhere returns the German locale at jsonlexists and the Xhosa locale at the other paths;
    -- `SetKeyboard` succeeds exactly if the layout is neither empty nor x11keyboarderror and the path
    -- is none of those that let it fail, and leaves the state as it is; and `GetKeyboard` returns de
    -- and workman exactly if the path is none of those that let it fail and the layouts can be read,
    -- in the language of the locale if there is a file for it. The bus is assumed to print a string
    -- between quotes.
    pub locale-keyboard-mock :
        (req : KeyboardSettings) (w : W)
        → (get_locale bus s (some tt) w ≡ (
            if text_eq l.path (codes "localeerror")
            then (err (status_err internal "failed to get locale: %v" (requested (codes "Get"))), w)
            else (ok (mocked_locale l.path), w)))
          × (is_ok (set_keyboard bus settings k (some (some req)) w).0
              ≡ not (
                  is_empty req.layout
                  || fails_set l.path
                  || text_eq req.layout (codes "x11keyboarderror")))
          × ((set_keyboard bus settings k (some (some req)) w).1 ≡ w)
          × (settings_of (get_keyboard bus settings k embedded unmarshal (some tt) w).0 ≡ (
              if not (fails_get l.path) && is_ok (mocked_layouts w).0
              then some mocked_settings
              else none))
    locale-keyboard-mock req w =
        let (verdict, same) = set_keyboard-mock req w in
        (
          get_locale-mock w,
          verdict,
          same,
          elim (Bool-cases (fails_get l.path)) [
            | inl f ↦ ground (arith, f, get_keyboard-mock_fails w f)
            | inr f ↦ ground (arith, f, get_keyboard-mock w f)
          ],
        )
