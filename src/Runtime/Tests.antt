-- ===== src/Runtime/Tests.antt =====
-- The laws of package runtime at concrete keys, objects and handlers.
use baaah.Prelude.{
  ℕ, ◌+◌, true, false, none, some, Str, str, [], ◌∷◌, ◌++◌, ◌≡◌, refl, pos, map, ltb, arith,
  strip_prefix,
}
use baaah.Prelude.Map
use baaah.Objects.{Gvk, Object, blank_object}
use baaah.Errors.{plain, ok}
use baaah.Router.Keys.{decode}
use baaah.Runtime.Keys.{is_special_key, now, trigger}
use baaah.Runtime.Keys.Laws.{trigger-decode}
use baaah.Runtime.ResourceVersion.{newer, value, newer_lem}
use baaah.Runtime.Cached.{object_key_eq, Recent, Types, key_of, get, write}
use baaah.Runtime.Cached.Laws.{get-write}
use baaah.Runtime.Controller.{new_controller, run}
use baaah.Runtime.Controller.Laws.{
  by_key, by_name, by_name_after, perform_all, requested_key, keys_of, keys_of-run_between,
}
use baaah.Runtime.SharedHandler.{OnChange, SharedHandler, new_shared_handler, register}
use baaah.Runtime.SharedHandler.Laws.{IsValid}
use baaah.Runtime.Transaction.{commit, rollback, do_all, do_all-commit}

trigger-decode_example :
    (k : Str) × (trigger (str "ns/pod") (pos 0) ≡ now k)
    × (is_special_key k ≡ true)
    × (decode k ≡ record { from_trigger = true; from_replay = false; key = str "ns/pod" })
unfolding strip_prefix
trigger-decode_example = trigger-decode (str "ns/pod") (pos 0) refl refl

newer_lem_example : newer (str "99") (str "100") ≡ ltb (value (str "99")) (value (str "100"))
newer_lem_example =
    newer_lem (str "99") (str "100") (ground arith) (ground arith) (ground arith) (ground arith)
      (ground arith) (ground arith)

abbrev pod : Gvk
pod = record { group = []; version = str "v1"; kind = str "Pod" }

abbrev cached : Object
cached = record (blank_object pod (str "ns") (str "a")) { resource_version = str "99" }

abbrev written : Object
written = record cached { resource_version = str "100" }

-- objects of one Go type
abbrev typed : Types
typed = record {
  is_unstructured = λ o. false;
  is_assignable = λ dst src. true;
  not_assignable = λ dst src. plain (str "not assignable");
  json_into = λ dst src. ok src;
}

get-write_example :
    get
      (λ o. ok o.gvk)
      typed
      false
      (ok cached)
      (write (λ o. ok o.gvk) {W = Unit {0}} false 7 (none, written, tt) []).3
    ≡ ok written
get-write_example =
    get-write (λ o. ok o.gvk) typed {W = Unit {0}} 7 written cached pod tt [] refl refl refl refl
      refl refl (ground arith) (ground arith) (ground arith)

keys_of-run_between_example :
    keys_of (
      perform_all (by_name (str "ns") (str "b") ∷ []) (
        run (
          perform_all (by_key (str "a") ∷ by_name_after [] (str "c") (pos 3) ∷ []) new_controller)))
    ≡ map requested_key (
        (by_key (str "a") ∷ by_name_after [] (str "c") (pos 3) ∷ [])
        ++ by_name (str "ns") (str "b") ∷ [])
keys_of-run_between_example =
    keys_of-run_between (by_key (str "a") ∷ by_name_after [] (str "c") (pos 3) ∷ [])
      (by_name (str "ns") (str "b") ∷ [])

abbrev quiet : OnChange ℕ ℕ
quiet key o n = (o, none, n + 1)

abbrev one_handler : SharedHandler ℕ ℕ
one_handler = (register (str "first") quiet new_shared_handler).1

new_shared_handler-IsValid : IsValid {O = ℕ} {W = ℕ} new_shared_handler
new_shared_handler-IsValid = record { distinct = tt; counted = tt }

do_all-commit_example :
    (commit (do_all ((λ n. n + 2) ∷ (λ n. n + n) ∷ []) (some [], 3))
      ≡ (some [], (do_all ((λ n. n + 2) ∷ (λ n. n + n) ∷ []) (none, 3)).1))
    × (rollback (do_all ((λ n. n + 2) ∷ (λ n. n + n) ∷ []) (some [], 3)) ≡ (some [], 3))
do_all-commit_example = do_all-commit ((λ n. n + 2) ∷ (λ n. n + n) ∷ []) 3

abbrev fresh : Object
fresh = record cached { name = str "b" }

abbrev two_written : Recent
two_written =
    (key_of pod cached, record { object = cached; inserted = 5 })
    ∷ (key_of pod fresh, record { object = fresh; inserted = 17 })
    ∷ []
