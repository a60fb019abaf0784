-- ===== src/User/Password.antt =====
-- The hash of a password: password_hash.go, and the C function that it calls.
use ubuntu_installer_latest.Base.{
  Text, is_empty, Option, none, some, Err, message, ok, Result, err, Run, if◌then◌else◌,
}
use ubuntu_installer_latest.System.{Crypt}

module _ {W : Type 0} (c : Crypt W) where
  crypt_with : Text → Option Text × W → Option Text × W
  crypt_with plain (salt, w) = c.crypt plain salt w

  -- `make_crypted` of password_hash.c: a missing or empty salt is replaced by a generated one.
  make_crypted : Text → Option Text → W → Option Text × W
  unfolding crypt_with is_empty
  make_crypted plain none w = crypt_with plain (c.gensalt w)
  make_crypted plain (some salt) w =
      if is_empty salt then crypt_with plain (c.gensalt w) else c.crypt plain (some salt) w

  of_hash : Option Text × W → Result Err Text × W
  of_hash (none, w) = (err (message "error hashing password"), w)
  of_hash (some hash, w) = (ok hash, w)

  unfoldable pub hash_password : Text → Option Text → Run W Err Text
  unfolding make_crypted of_hash
  hash_password password salt w =
      if is_empty password
      then (err (message "password cannot be empty"), w)
      else of_hash (make_crypted password salt w)
