-- ===== src/Telemetry/Laws.antt =====
-- How the Telemetry service reports an error of the sending.
use ubuntu_installer_latest.Base.{
  false, ◌≡◌, ◌≢◌, refl, [], arith, Err, Result, ok, err, panic, Run, catch, lift, ◌>>=◌, ◌↔◌,
  Bool-cases, subst, apply_options, Text, codes, inl, inr,
}
use ubuntu_installer_latest.Base.Strings.{contains}
use ubuntu_installer_latest.Base.Strings.Contains.{Within, contains-Within, Within-contains}
use ubuntu_installer_latest.Telemetry.{
  Sysmetrics, sysmetrics_impl, new, report_auto, SendResponseType, success, network_error,
  unknown_error, no_such_host, respond, collect_and_send, send_decline,
}

-- The text of an error that says that the host of the metrics is not known.
abbrev pub unknown_host : Text
unknown_host = codes "dial tcp: lookup metrics.ubuntu.com: no such host"

module _ {W : Type 0} (pkg : Sysmetrics W) where
  -- The package has returned an error whose text says that the host was not found, or another one.
  abbrev pub Unreached : Result Err Unit → Type 0
  Unreached r = (e : Err) × (r ≡ err e) × Within unknown_host (pkg.error_string e)

  abbrev pub FailedOtherwise : Result Err Unit → Type 0
  FailedOtherwise r = (e : Err) × (r ≡ err e) × ¬ (Within unknown_host (pkg.error_string e))

  -- What the handler makes of a sending: each answer for its own outcome, and no error.
  abbrev pub Reports : Result Err Unit × W → Result Err SendResponseType × W → Type 0
  Reports sent end =
      (end.1 ≡ sent.1)
      × ((e : Err) → end.0 ≢ err e)
      × ((end.0 ≡ ok success) ↔ (sent.0 ≡ ok tt))
      × ((end.0 ≡ ok network_error) ↔ Unreached sent.0)
      × ((end.0 ≡ ok unknown_error) ↔ FailedOtherwise sent.0)

  Unreached-err : (e : Err) → Unreached (err e) → Within unknown_host (pkg.error_string e)
  Unreached-err e (x, q, i) =
      subst (λ y. Within unknown_host (pkg.error_string y)) (ground (arith, q)) i

  FailedOtherwise-err :
      (e : Err) → FailedOtherwise (err e) → ¬ (Within unknown_host (pkg.error_string e))
  FailedOtherwise-err e (x, q, n) i =
      n (subst (λ y. Within unknown_host (pkg.error_string y)) (ground (arith, q)) i)

  found-Reports :
      (e : Err) (w : W)
      → Within unknown_host (pkg.error_string e)
      → Reports (err e, w) (ok network_error, w)
  found-Reports e w i = (
    refl,
    λ x q. cc,
    (λ q. absurd (cc), λ q. absurd (cc)),
    (λ q. (e, refl, i), λ u. refl),
    (λ q. absurd (cc), λ u. absurd (FailedOtherwise-err e u i)),
  )

  other-Reports :
      (e : Err) (w : W)
      → ¬ (Within unknown_host (pkg.error_string e))
      → Reports (err e, w) (ok unknown_error, w)
  other-Reports e w n = (
    refl,
    λ x q. cc,
    (λ q. absurd (cc), λ q. absurd (cc)),
    (λ q. absurd (cc), λ u. absurd (n (Unreached-err e u))),
    (λ q. (e, refl, n), λ u. refl),
  )

  success-Reports : (w : W) → Reports (ok tt, w) (ok success, w)
  success-Reports w = (
    refl,
    λ x q. cc,
    (λ q. refl, λ q. refl),
    (λ q. absurd (cc), λ (e, q, i). absurd (cc)),
    (λ q. absurd (cc), λ (e, q, n). absurd (cc)),
  )

  panic-Reports : (w : W) → Reports (panic, w) (panic, w)
  panic-Reports w = (
    refl,
    λ x q. cc,
    (λ q. absurd (cc), λ q. absurd (cc)),
    (λ q. absurd (cc), λ (e, q, i). absurd (cc)),
    (λ q. absurd (cc), λ (e, q, n). absurd (cc)),
  )

  caught-Reports :
      (r : Result Err Unit) (w : W)
      → Reports (r, w) ((catch (lift r) >>= respond (sysmetrics_impl pkg)) w)
  unfolding respond sysmetrics_impl
  caught-Reports (ok a) w = success-Reports w
  caught-Reports panic w = panic-Reports w
  caught-Reports (err e) w = elim (Bool-cases (contains (pkg.error_string e) no_such_host)) [
    | inl h ↦ rw h (found-Reports e w (contains-Within (pkg.error_string e) no_such_host h))
    | inr h ↦ rw h (
        other-Reports e w
          (λ i. absurd (ground (arith, h, Within-contains (pkg.error_string e) no_such_host i))))
  ]

  sent-Reports :
      (m : Run W Err Unit) (w : W) → Reports (m w) ((catch m >>= respond (sysmetrics_impl pkg)) w)
  sent-Reports m w = let (r, v) = m w in caught-Reports r v

  -- `New` without options makes the service over the package sysmetrics, and returns no error. Over
  -- it neither sending returns an error: the answer is success exactly where the package has
  -- returned no error, a network error exactly where the text of its error contains "dial tcp:
  -- lookup metrics.ubuntu.com: no such host", and an unknown error exactly where it does not. The
  -- metrics are sent with the report type for automatic reports, and not always anew; the state at
  -- the end is that of the sending.
  pub new-Reports :
      (w : W)
      → let s = sysmetrics_impl pkg in
        (new pkg [] w ≡ (ok s, w))
        × Reports (pkg.package_collect_and_send report_auto false "" w) (collect_and_send s w)
        × Reports (pkg.package_send_decline false "" w) (send_decline s w)
  unfolding new sysmetrics_impl apply_options collect_and_send send_decline
  new-Reports w = (
    refl,
    sent-Reports (pkg.package_collect_and_send report_auto false "") w,
    sent-Reports (pkg.package_send_decline false "") w,
  )
