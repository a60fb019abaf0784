-- ===== src/User/Create/Rollback.antt =====
-- What the rollback of `CreateUser` leaves of the accounts.
use ubuntu_installer_latest.Base.{
  ℕ, Text, Bool, false, ◌≡◌, ◌≢◌, refl, List, [], ◌∷◌, arith, ◌⊎◌, inl, inr,
}
use ubuntu_installer_latest.Base.{Err, Result, ok, err, panic, Variant, text, bool, uint64, is_ok}
use ubuntu_installer_latest.System.{Bus, Crypt}
use ubuntu_installer_latest.User.Service.{Service}
use ubuntu_installer_latest.User.Create.{
  Account, Failure, rollback, restore, on_current, delete_user, deferred, after,
  set_static_hostname, static_hostname, accounts_delete_user, add_account, secure, provision,
}
use ubuntu_installer_latest.User.Create.Services.{HostnameLaws, AccountsLaws}
use ubuntu_installer_latest.User.Create.Accounts.{Failed, provision_err}

module _ {W : Type 0} (bus : Bus W) (s : Service) (c : Crypt W) (laws : AccountsLaws bus s c) where
  -- The call with which the rollback deletes an account.
  abbrev pub deletion : ℕ → W → Result Err (List Variant) × W
  deletion n w = bus.call s.accounts accounts_delete_user (uint64 n ∷ []) w

  -- The account `n` is gone, or the last call has been a deletion of it that was not accepted.
  abbrev pub Undone : ℕ → List ℕ → W → Type 0
  Undone n rest v =
      (laws.users v ≡ rest)
      ⊎ (laws.users v ≡ n ∷ rest)
        × (x : W) × (is_ok (deletion n x).0 ≡ false)
        × (v ≡ (deletion n x).1)

  -- The new account is in `v`: the password or the ID was not to be had, the ID is 0, or the last
  -- call was a DeleteUser of the account that returned no success. `w` is the state before.
  abbrev pub Kept : Bool → Account → W → W → Type 0
  Kept is_admin u w v =
      let added = add_account bus s is_admin u w in
      (path : Text) × (added.0 ≡ ok path)
      × (laws.users v ≡ laws.path_uid path ∷ laws.users w)
      × (is_ok (secure bus s c path u.password added.1).0 ≡ false
          ⊎ laws.path_uid path ≡ 0
          ⊎ (x : W) × (is_ok (deletion (laws.path_uid path) x).0 ≡ false)
            × (v ≡ (deletion (laws.path_uid path) x).1))

  module _ (hosts : HostnameLaws bus s)
      (set_returns : (args : List Variant) (w : W)
        → (bus.call s.hostname set_static_hostname args w).0 ≢ panic) where
    pub rollback-users_none :
        (initial : Text) (w : W) → laws.users (rollback bus s initial 0 w).1 ≡ laws.users w
    unfolding rollback on_current restore delete_user
    rollback-users_none initial w = grind (arith, laws.get_host-users, laws.set_host-users)

    module _
        (delete_failed : (n : ℕ) (w : W)
          → is_ok (deletion n w).0 ≡ false
          → laws.users (deletion n w).1 ≡ laws.users w) where
      delete_user-Undone :
          (n : ℕ) (rest : List ℕ) (w : W)
          → laws.users w ≡ n ∷ rest
          → n ≢ 0
          → Undone n rest (delete_user bus s n w).1
      unfolding delete_user
      delete_user-Undone n rest w h k = go (deletion n w).0 refl
        where
          go :
              (r : Result Err (List Variant))
              → (deletion n w).0 ≡ r
              → Undone n rest (delete_user bus s n w).1
          go (ok body) q = inl (ground (arith, laws.delete_users n rest w))
          go (err e) q =
              inr (ground (arith, delete_failed n w), w, ground (arith, q), ground (arith, q))
          go panic q =
              inr (ground (arith, delete_failed n w), w, ground (arith, q), ground (arith, q))

      pub rollback-Undone :
          (initial : Text) (n : ℕ) (rest : List ℕ) (w : W)
          → n ≢ 0
          → laws.users w ≡ n ∷ rest
          → Undone n rest (rollback bus s initial n w).1
      unfolding rollback on_current restore
      rollback-Undone initial n rest w k h =
          let v = (bus.get_property s.hostname static_hostname w).1 in
          let args = text initial ∷ bool false ∷ [] in
          let u = (bus.call s.hostname set_static_hostname args v).1 in
          ground (
            arith,
            hosts.get_host w,
            laws.get_host-users w,
            laws.set_host-users args v,
            set_returns args v,
            delete_user-Undone n rest v,
            delete_user-Undone n rest u,
          )

      zero_or_not : (n : ℕ) → (n ≡ 0) ⊎ (n ≢ 0)
      zero_or_not n = ground arith

      rollback-Kept :
          (is_admin : Bool) (u : Account) (initial : Text) (w v : W) (n : ℕ)
          → Failed bus s c laws is_admin u w v n
          → let end = (rollback bus s initial n v).1 in
            (laws.users end ≡ laws.users w) ⊎ Kept is_admin u w end
      rollback-Kept is_admin u initial w v n (inl (z, same)) =
          inl (ground (arith, rollback-users_none initial v))
      rollback-Kept is_admin u initial w v n (inr (path, added, more, inl (z, unsecured))) =
          inr (path, added, ground (arith, rollback-users_none initial v), inl unsecured)
      rollback-Kept is_admin u initial w v n (inr (path, added, more, inr q)) =
          elim (zero_or_not n) [
            | inl z ↦ inr (
              path,
              added,
              ground (arith, rollback-users_none initial v),
              inr (inl (ground arith)),
            )
            | inr k ↦
                elim (rollback-Undone initial (laws.path_uid path) (laws.users w) v (ground arith)
                  more) [
                    | inl gone ↦ inl (rw q gone)
                    | inr (there, x, failed, last) ↦
                        inr (rw q (path, added, there, inr (inr (x, failed, last))))
                  ]
          ]

      after-state : (e : Err) (r : Result Err Unit × W) → (after bus s e r).1 ≡ r.1
      unfolding after
      after-state e (ok a, w) = refl
      after-state e (err x, w) = refl
      after-state e (panic, w) = refl

      pub deferred-users :
          (is_admin : Bool) (u : Account) (initial : Text) (w : W) {e : Err}
          → (deferred bus s initial (provision bus s c is_admin u w)).0 ≡ err e
          → let end = (deferred bus s initial (provision bus s c is_admin u w)).1 in
            (laws.users end ≡ laws.users w) ⊎ Kept is_admin u w end
      unfolding deferred
      deferred-users is_admin u initial w {e} h = go (provision bus s c is_admin u w).0 refl
        where
          v : W
          v = (provision bus s c is_admin u w).1

          go :
              (r : Result Failure Unit)
              → (provision bus s c is_admin u w).0 ≡ r
              → let end = (deferred bus s initial (provision bus s c is_admin u w)).1 in
                (laws.users end ≡ laws.users w) ⊎ Kept is_admin u w end
          go (ok a) q = absurd (ground (arith, q))
          go (err f) q =
              rw (q, after-state f.cause (rollback bus s initial f.user_id v))
                (rollback-Kept is_admin u initial w v f.user_id
                  (provision_err bus s c laws is_admin u w f q))
          go panic q = absurd (ground (arith, q))
