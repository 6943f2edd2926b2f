-- ===== src/Router/Tests.antt =====
-- The laws of package router at a small cluster: `db` reads the secret `password`, and a change of the
-- secret enqueues it.
mod Handling
use baaah.Prelude.{
  ℕ, Bool, true, false, Option, none, some, Str, str, List, [], ◌∷◌, ◌++◌, ◌≡◌, ◌≢◌, ◌↔◌, refl, ℤ,
  pos, arith, any, count, filter, length, All, if◌then◌else◌, ◌<◌, list_eq, nat_eq, ◌==◌,
}
use baaah.Prelude.Map
use baaah.Objects.{Gvk, gvk_eq, Object, blank_object}
use baaah.Errors.{Error, Result, ok, err, plain}
use baaah.Merr.{new_errors}
use baaah.Router.Request.{Request}
use baaah.Router.Matcher.{ObjectMatcher, equals, match}
use baaah.Router.Matcher.Laws.{Accepts, match-Accepts, equals_iff, SameSelector, SameFields}
use baaah.Router.Triggers.{
  Target, target_eq, Matchers, is_self, hits, register, trigger, survives, unregister_and_trigger,
}
use baaah.Router.Triggers.View.{watchers, IsMap, IsMap-empty}
use baaah.Router.Triggers.Register.{target_of, register-IsMap, register_idempotent}
use baaah.Router.Triggers.Invoke.{count-trigger}
use baaah.Router.Triggers.Unregister.{watchers-unregister, hears_gone, count-unregister}
use baaah.Router.Triggers.Delivery.{exact, trigger-register}
use baaah.Router.State.{State, Backend, Ref}
use baaah.Router.Client.{get, update, create, patch, delete, update_status, patch_sub, create_sub}
use baaah.Router.Client.Laws.{trigger-get, enqueued, trigger-writes}
use baaah.Router.Watching.{Registry, is_watching, watch_gvk}
use baaah.Router.Watching.Laws.{watch_gvk-watching, watch_gvk_idempotent}
use baaah.Router.Response.{Response, new_response}
use baaah.Router.Response.Delay.{retry_all, least, retry_all-least}
use baaah.Router.Backoff.{LimiterKey, limiter_key_eq, Backoff, is_waiting, check_delay, elapse}
use baaah.Router.Backoff.Laws.{Reach, here, next, check, wake, new_backoff, Reach-pending}

abbrev pub pod : Gvk
pod = record { group = []; version = str "v1"; kind = str "Pod" }

abbrev pub secret : Gvk
secret = record { group = []; version = str "v1"; kind = str "Secret" }

abbrev pub password : Request Object
password = record {
  object = some (blank_object secret (str "ns") (str "password"));
  gvk = secret;
  namespace = str "ns";
  name = str "password";
  key = str "ns/password";
  from_trigger = false;
}

abbrev named_password : ObjectMatcher
named_password = exact (str "ns") (str "password")

trigger-register_example :
    count
      (target_of pod (str "ns/db"))
      (trigger password (register pod (str "ns/db") secret (exact (str "ns") (str "password")) []))
    ≡ 1
trigger-register_example =
    trigger-register pod (str "ns/db") [] password IsMap-empty (ground arith) refl refl

-- `db` is registered by name, and `web` for all secrets.
abbrev pub table : Matchers
table =
    register pod (str "ns/web") secret (exact [] [])
      (register pod (str "ns/db") secret named_password [])

pub table-IsMap : IsMap table
table-IsMap =
    register-IsMap pod (str "ns/web") secret (exact [] [])
      (register pod (str "ns/db") secret named_password [])
      (register-IsMap pod (str "ns/db") secret named_password [] IsMap-empty)

count-trigger_example : count (target_of pod (str "ns/web")) (trigger password table) ≡ (
    if false
    then 0
    else if is_self password (target_of pod (str "ns/web"))
    then 0
    else if any (hits password) (watchers table secret (target_of pod (str "ns/web")))
    then 1
    else 0)
count-trigger_example = count-trigger password table (target_of pod (str "ns/web")) table-IsMap

watchers-unregister_example :
    watchers (unregister_and_trigger password table).0 secret (target_of pod (str "ns/web")) ≡ (
      if is_self password (target_of pod (str "ns/web"))
      then []
      else filter (survives password secret) (watchers table secret (target_of pod (str "ns/web"))))
watchers-unregister_example =
    watchers-unregister password table secret (target_of pod (str "ns/web")) table-IsMap

abbrev gone : Request Object
gone = record password { object = none }

count-unregister_example :
    count (target_of pod (str "ns/db")) (unregister_and_trigger gone table).1 ≡ (
      if is_self gone (target_of pod (str "ns/db"))
      then 0
      else length (filter (hears_gone gone) (watchers table secret (target_of pod (str "ns/db")))))
count-unregister_example =
    count-unregister gone table (target_of pod (str "ns/db")) refl table-IsMap

table_test : unregister_and_trigger password table ≡ (
  (secret, (target_of pod (str "ns/web"), exact [] [] ∷ []) ∷ []) ∷ [],
  target_of pod (str "ns/db") ∷ target_of pod (str "ns/web") ∷ [],
)
unfolding register unregister_and_trigger Map.get_list Map.insert equals match
table_test = refl

-- The outside is the list of the keys that were triggered. Pods cannot be watched.
abbrev pub cluster : Backend (List Str)
cluster = record {
  gvk_for_object = λ o. ok secret;
  new_object = λ g. ok (blank_object g [] []);
  watch = λ g w. (if g == pod then some (plain (str "forbidden")) else none, w);
  trigger = λ g key d w. (none, w ++ key ∷ []);
  get = λ g ns name w. (ok (blank_object g ns name), w);
  create = λ o w. (none, o, w);
  update = λ o w. (none, o, w);
  semantic_equal = λ a b. true;
  update_status = λ o w. (none, o, w);
}

-- The object behind every pointer is `db`, which is being deleted.
abbrev pub db : Object
db = record (blank_object pod (str "ns") (str "db")) {
  deleting = true;
  finalizers = str "baaah.io/db" ∷ [];
}

abbrev pub calm : State (List Str)
calm = record {
  heap = λ p. db;
  fresh = 1;
  matchers = table;
  watching = [];
  registered = [];
  outside = [];
}

abbrev pub fresh_response : Response
fresh_response = new_response (record { gvk = pod; key = str "ns/db" })

abbrev limited : LimiterKey
limited = record { key = str "ns/db"; gvk = pod }

-- A limiter that lets one call through.
abbrev pub reserve_one : ℕ → ℤ × ℕ
reserve_one n = (pos n, 1)

abbrev two_checks : Backoff ℕ
two_checks = (check_delay 0 reserve_one limited (check_delay 0 reserve_one limited new_backoff).1).1

Reach-pending_example :
    count limited two_checks.pending ≡ (if is_waiting limited two_checks then 1 else 0)
Reach-pending_example =
    Reach-pending {new_limiter = 0} {reserve = reserve_one} {s = two_checks}
      (next (next here (check limited new_backoff))
        (check limited (check_delay 0 reserve_one limited new_backoff).1))
      limited

abbrev db_registry : Registry
db_registry = record { gvk = pod; key = str "ns/db" }

trigger-get_example :
    count
      (target_of pod (str "ns/db"))
      (trigger password (get cluster db_registry (str "ns") (str "password") 0 calm).1.matchers)
    ≡ 1
trigger-get_example =
    trigger-get cluster db_registry 0 calm password refl refl table-IsMap (ground arith) refl refl

abbrev with_password : State (List Str)
with_password = record calm { heap = λ p. blank_object secret (str "ns") (str "password") }

abbrev delete_nothing : Object → List Str → Option Error × List Str
delete_nothing o w = (none, w)

abbrev write_sub : Object → Object → List Str → Option Error × Object × List Str
write_sub o sub w = (none, sub, w)

trigger-writes_example :
    (enqueued cluster db_registry password (update cluster db_registry 0 with_password).1 ≡ 1)
    × (enqueued cluster db_registry password (create cluster db_registry 0 with_password).1 ≡ 1)
    × (enqueued cluster db_registry password
          (patch cluster cluster.update db_registry 0 with_password).1
        ≡ 1)
    × (enqueued cluster db_registry password
          (delete cluster delete_nothing db_registry 0 with_password).1
        ≡ 1)
    × (enqueued cluster db_registry password (update_status cluster db_registry 0 with_password).1
        ≡ 1)
    × (enqueued cluster db_registry password
          (patch_sub cluster cluster.update db_registry 0 with_password).1
        ≡ 1)
    × (enqueued cluster db_registry password
          (create_sub cluster write_sub db_registry 0 1 with_password).1
        ≡ 1)
trigger-writes_example =
    trigger-writes cluster cluster.update write_sub delete_nothing db_registry 0 1 with_password
      password refl refl refl refl table-IsMap (ground arith) refl refl
