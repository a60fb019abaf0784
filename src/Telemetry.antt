-- ===== src/Telemetry.antt =====
-- The Telemetry service: provd/internal/services/telemetry/telemetry.go.
pub mod Laws
use ubuntu_installer_latest.Base.{Text, codes, Bool, true, false, String, List, if◌then◌else◌}
use ubuntu_installer_latest.Base.{
  Err, Result, ok, err, panic, Run, internal, status_err, or_status, apply_options, catch, pure,
  lift, ◌>>=◌,
}
use ubuntu_installer_latest.Base.Strings.{contains}

-- The type of report of the package sysmetrics; the service uses one of them.
pub data ReportType : Type 0 where
  report_auto : ReportType

-- github.com/ubuntu/ubuntu-report/pkg/sysmetrics, and the text of an error.
pub record Sysmetrics (W : Type 0) : Type 0 where
  pub package_collect : Run W Err Text
  pub package_collect_and_send : ReportType → Bool → String → Run W Err Unit
  pub package_send_decline : Bool → String → Run W Err Unit
  pub error_string : Err → Text

-- The interface `sysmetricer`, and the text of an error.
pub record Sysmetricer (W : Type 0) : Type 0 where
  pub collect_metrics : Run W Err Text
  pub collect_and_send_metrics : ReportType → Bool → String → Run W Err Unit
  pub send_decline_metrics : Bool → String → Run W Err Unit
  pub error_text : Err → Text

-- `sysmetricsImpl`, which hands all over to the package.
unfoldable pub sysmetrics_impl : {W : Type 0} → Sysmetrics W → Sysmetricer W
sysmetrics_impl pkg = record {
  collect_metrics = pkg.package_collect;
  collect_and_send_metrics = pkg.package_collect_and_send;
  send_decline_metrics = pkg.package_send_decline;
  error_text = pkg.error_string;
}

-- The enum of telemetry.proto.
pub data SendResponseType : Type 0 where
  success network_error unknown_error : SendResponseType

-- The implementation of `sysmetricer` is the only field of the service.
unfoldable pub new :
    {W : Type 0}
    → Sysmetrics W
    → List (Sysmetricer W → Run W Err (Sysmetricer W))
    → Run W Err (Sysmetricer W)
new pkg opts = apply_options opts (sysmetrics_impl pkg)

abbrev pub no_such_host : Text
no_such_host = codes "dial tcp: lookup metrics.ubuntu.com: no such host"

module _ {W : Type 0} (s : Sysmetricer W) where
  unfoldable pub collect : Run W Err Text
  collect = or_status internal "faild to collect metrics: %v" s.collect_metrics

  -- An error of the sending is a response, and no error of the handler.
  unfoldable pub respond : Result Err Unit → Run W Err SendResponseType
  respond (ok _) w = (ok success, w)
  respond (err e) w =
      if contains (s.error_text e) no_such_host
      then (ok network_error, w)
      else (ok unknown_error, w)
  respond panic w = (panic, w)

  unfoldable pub collect_and_send : Run W Err SendResponseType
  collect_and_send = do
    result ← catch (s.collect_and_send_metrics report_auto false "")
    respond result

  unfoldable pub send_decline : Run W Err SendResponseType
  send_decline = do result ← catch (s.send_decline_metrics false ""); respond result
