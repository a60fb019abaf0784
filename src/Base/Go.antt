-- ===== src/Base/Go.antt =====
-- What the Go code uses of its language and runtime: values with an error, panics, and code that
-- acts on the system around it.
use Prim.Native.Nat.{ℕ, zero, suc}
use Prim.Native.String.{String}
use mathlib.Core.Path.{◌≡◌, refl}
use mathlib.Core.Bool.{Bool, true, false}
use mathlib.Core.List.{List, [], ◌∷◌}
use package.ubuntu_installer_latest.Base.Tests.{Text, if◌then◌else◌}

-- The status codes of gRPC that the services use.
pub data Code : Type 0 where
  invalid_argument internal deadline_exceeded : Code

-- A value on D-Bus, seen by the type assertions of the code.
pub data Variant : Type 0 where
  text : Text → Variant
  uint64 : ℕ → Variant
  int32 : ℕ → Variant
  bool : Bool → Variant
  texts : List Text → Variant
  other : Variant

-- An error value, by the way it was made.
pub data Err : Type 0 where
  dbus_error : Text → List Variant → Err
  foreign : Text → Err
  message : String → Err
  on_text : String → Text → Err
  on_bool : String → Bool → Err
  on_number : String → ℕ → Err
  on_value : String → Variant → Err
  on_err : String → Err → Err
  joined : Err → Err → Err
  status : Code → Err → Err

-- How a Go function ends: with a value, with an error, or in a panic.
pub data Result {ℓ} (E A : Type ℓ) : Type ℓ where
  ok : A → Result E A
  err : E → Result E A
  panic : Result E A

-- Code that acts on a system with states `W`.
abbrev pub Run {ℓ} : Type ℓ → Type ℓ → Type ℓ → Type ℓ
Run W E A = W → Result E A × W

module _ {ℓ} {W E A : Type ℓ} where
  abbrev pub pure : A → Run W E A
  pure a w = (ok a, w)

  abbrev pub throw : E → Run W E A
  throw e w = (err e, w)

  abbrev pub lift : Result E A → Run W E A
  lift r w = (r, w)

module _ {ℓ} {W E A B : Type ℓ} where
  abbrev pub continue : (A → Run W E B) → Result E A × W → Result E B × W
  continue f (ok a, w) = f a w
  continue f (err e, w) = (err e, w)
  continue f (panic, w) = (panic, w)

  infixl 5 ◌>>=◌ ◌>>◌
  abbrev pub ◌>>=◌ : Run W E A → (A → Run W E B) → Run W E B
  ◌>>=◌ m f w = continue f (m w)

  abbrev pub ◌>>◌ : Run W E A → Run W E B → Run W E B
  m >> k = m >>= λ _. k

module _ {ℓ} {W E F A : Type ℓ} where
  abbrev on_result : (E → F) → Result E A × W → Result F A × W
  on_result f (ok a, w) = (ok a, w)
  on_result f (err e, w) = (err (f e), w)
  on_result f (panic, w) = (panic, w)

  -- `if err != nil { return nil, f(err) }`.
  abbrev pub map_err : (E → F) → Run W E A → Run W F A
  map_err f m w = on_result f (m w)

  -- The code sees the error as a value and goes on.
  abbrev caught : Result E A × W → Result F (Result E A) × W
  caught (ok a, w) = (ok (ok a), w)
  caught (err e, w) = (ok (err e), w)
  caught (panic, w) = (panic, w)

  abbrev pub catch : Run W E A → Run W F (Result E A)
  catch m w = caught (m w)

-- `return nil, status.Errorf(code, format, err)`.
abbrev pub status_err : Code → String → Err → Err
status_err c format e = status c (on_err format e)

-- `return nil, status.Error(code, message)`.
abbrev pub status_message : Code → String → Err
status_message c m = status c (message m)

module _ {W A : Type 0} where
  -- The error of a call, as the cause of a status.
  abbrev pub or_status : Code → String → Run W Err A → Run W Err A
  or_status c format m = map_err (status_err c format) m

  -- The same, where the status does not name the cause.
  abbrev pub or_message : Code → String → Run W Err A → Run W Err A
  or_message c format m = map_err (λ _. status_message c format) m

module _ {W : Type 0} where
  -- `if b { return nil, e }`.
  abbrev pub refuse_if : Bool → Err → Run W Err (Unit {0})
  refuse_if b e w = if b then (err e, w) else (ok tt, w)

  -- `if !b { return nil, e }`.
  abbrev pub require : Bool → Err → Run W Err (Unit {0})
  require b e w = if b then (ok tt, w) else (err e, w)

  -- `value, ok := v.Value().(string)`, and an error unless `ok`.
  abbrev pub as_text : Err → Variant → Run W Err Text
  as_text e (text t) = pure t
  as_text e _ = throw e

  abbrev pub as_uint64 : Err → Variant → Run W Err ℕ
  as_uint64 e (uint64 n) = pure n
  as_uint64 e _ = throw e

  -- `body[i]`, which panics where there is no such element.
  abbrev pub index : List Variant → ℕ → Run W Err Variant
  index [] i w = (panic, w)
  index (v ∷ _) zero w = (ok v, w)
  index (_ ∷ vs) (suc i) w = index vs i w

-- The loop over the functional options of a constructor.
unfoldable pub apply_options : {W S : Type 0} → List (S → Run W Err S) → S → Run W Err S
apply_options [] s w = (ok s, w)
apply_options (opt ∷ opts) s w = continue (apply_options opts) (opt s w)

abbrev pub is_ok {ℓ} : {E A : Type ℓ} → Result E A → Bool
is_ok (ok _) = true
is_ok _ = false

pub is_ok_value {ℓ} : {E A : Type ℓ} (r : Result E A) → is_ok r ≡ true → (a : A) × (r ≡ ok a)
is_ok_value (ok a) h = (a, refl)
is_ok_value (err e) h = cc
is_ok_value panic h = cc

-- A chain that ends without an error has a first part that does, and ends where its second part
-- ends.
pub continue_ok :
    {W A B : Type 0} (k : A → Run W Err B) (r : Result Err A × W)
    → is_ok (continue k r).0 ≡ true
    → (a : A) × (r.0 ≡ ok a) × (is_ok (k a r.1).0 ≡ true) × ((continue k r).1 ≡ (k a r.1).1)
continue_ok k (ok a, w) h = (a, refl, h, refl)
continue_ok k (err e, w) h = absurd (cc)
continue_ok k (panic, w) h = absurd (cc)

-- `emptypb.Empty`, the request and the response with no field.
abbrev pub Empty : Type 0
Empty = Unit {0}

-- The body of the reply for what a method of a mock returns.
abbrev pub replies :
    {W A : Type 0} → (A → List Variant) → Result Err A × W → Result Err (List Variant) × W
replies body (ok a, w) = (ok (body a), w)
replies body (err e, w) = (err e, w)
replies body (panic, w) = (panic, w)
