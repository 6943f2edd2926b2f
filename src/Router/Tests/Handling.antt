-- ===== src/Router/Tests/Handling.antt =====
-- The laws of the handlers, the routes and the HandlerSet at the same cluster.
use baaah.Prelude.{ℕ, true, false, none, some, Str, str, List, [], ◌∷◌, ◌++◌, ◌≡◌, ◌↔◌, refl, All}
use baaah.Prelude.Map
use baaah.Objects.{gvk_eq}
use baaah.Errors.{plain}
use baaah.Merr.{new_errors}
use baaah.Router.Request.{Request}
use baaah.Router.State.{Ref}
use baaah.Router.Triggers.View.{watchers}
use baaah.Router.Handler.{Handler, Outcome, skip}
use baaah.Router.Handlers.{Handlers, handles, handle}
use baaah.Router.Handlers.Laws.{outcomes, start, foreign, handle-eq-none_iff, handle-foreign}
use baaah.Router.Route.{RouteBuilder, new_route, compose}
use baaah.Router.Route.Laws.{with_prefix, gate, admits, inner, compose-admits}
use baaah.Router.Save.{Apply, save}
use baaah.Router.Backoff.Laws.{new_backoff}
use baaah.Router.HandlerSet.{HandlerSet, handle_object}
use baaah.Router.HandlerSet.Deletion.{handle_object_deleted}
use baaah.Router.Tests.{pod, secret, table-IsMap, cluster, calm, fresh_response}

abbrev apply_nothing : Apply (List Str)
apply_nothing owner kinds no_prune os w = (none, w)

-- A handler that asks for the object `7` to be applied, and one that fails.
abbrev producing : Handler (List Str)
producing req r s = record {
  error = none;
  response = record r { objects = r.objects ++ 7 ∷ [] };
  state = s;
}

abbrev failing : Handler (List Str)
failing req r s = record { error = some (plain (str "broken")); response = r; state = s }

abbrev handlers : Handlers (List Str)
handlers = (pod, producing ∷ failing ∷ []) ∷ (secret, skip ∷ []) ∷ []

abbrev request : Request Ref
request = record {
  object = some 0;
  gvk = pod;
  namespace = str "ns";
  name = str "db";
  key = str "ns/db";
  from_trigger = false;
}

handle_object_deleted_example :
    watchers
      (handle_object cluster apply_nothing none handlers secret
        (str "ns/password")
        none
        false
        calm).state.matchers
      secret
      (record { key = str "ns/password"; gvk = secret })
    ≡ []
unfolding handle_object handle Map.get_list handles new_errors save
handle_object_deleted_example =
    handle_object_deleted cluster apply_nothing handlers secret (str "ns/password") false calm
      secret ((λ req r s v. v), tt) table-IsMap refl

abbrev route : RouteBuilder (List Str)
route = record new_route { include_finalizing = true; name = str "db"; route_name = str "db route" }

compose-admits_example :
    compose cluster (str "main") route failing request fresh_response calm
    ≡ with_prefix
        (str "db route")
        (gate (admits route request calm) (inner cluster route failing) request fresh_response calm)
compose-admits_example =
    compose-admits cluster route failing request fresh_response calm (str "main")

handle-eq-none_iff_example :
    ((handle handlers request fresh_response calm).error ≡ none)
    ↔ All
        (λ (o : Outcome (List Str)). o.error ≡ none)
        (outcomes (Map.get_list pod handlers) (start request fresh_response calm))
handle-eq-none_iff_example = handle-eq-none_iff handlers request fresh_response calm

handle-foreign_example :
    All
      (λ p. foreign request (handle handlers request fresh_response calm).state p ≡ true)
      (handle handlers request fresh_response calm).response.objects
unfolding handles Map.get_list
handle-foreign_example = handle-foreign handlers request fresh_response calm refl

abbrev set : HandlerSet (List Str) ℕ
set = record { state = calm; backoff = new_backoff }

abbrev waiting_set : HandlerSet (List Str) ℕ
waiting_set = record {
  state = calm;
  backoff = record new_backoff {
    waiting = (record { key = str "ns/db"; gvk = pod }, tt) ∷ [];
    pending = record { key = str "ns/db"; gvk = pod } ∷ [];
  };
}
