-- ===== src/SyncPosture/Tests.antt =====
-- Runs of the sync posture.
use linkedin_hyper_v.SyncPosture.{Failure}

abbrev redirects : Failure
redirects = record {
  code = "";
  message = "net::ERR_TOO_MANY_REDIRECTS";
  lower = "net::err_too_many_redirects";
  sample_lower = "";
  warning_url = "";
}
