-- ===== src/Webhook/Tests.antt =====
-- The laws of the webhook's routes at two routes.
use baaah.Prelude.{ℕ, none, some, str, []}
use baaah.Webhook.{AdmissionRequest, RouteMatch, new_match}

abbrev pods : RouteMatch ℕ
pods = record new_match { kind = str "Pod"; handler = some (λ resp req. (none, 1)) }

abbrev created : RouteMatch ℕ
created = record new_match { operation = str "CREATE"; handler = some (λ resp req. (none, 2)) }

abbrev request : AdmissionRequest
request = record {
  request_kind = some (record { group = []; version = str "v1"; kind = str "Secret" });
  request_resource = none;
  sub_resource = [];
  name = str "password";
  namespace = str "ns";
  operation = str "CREATE";
  dry_run = none;
}
