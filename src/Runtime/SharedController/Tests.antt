-- ===== src/Runtime/SharedController/Tests.antt =====
-- Two kinds, of which one cannot be made.
use baaah.Prelude.{ℕ, true, false, none, some, str, [], ◌∷◌, ◌≡◌, refl, All}
use baaah.Prelude.Map
use baaah.Objects.{Gvk, gvk_eq}
use baaah.Errors.{plain, ok}
use baaah.Runtime.SharedController.{
  Inner, working, failing, Shared, new_shared, Ops, enqueue, start, Factory, new_factory,
  start_each,
}
use baaah.Runtime.SharedController.Laws.{begin, step, enqueues, start-Reach, Runs, start_each-Runs}

-- what is outside counts the calls
abbrev ops : Ops ℕ
ops = record {
  deferred_controller = λ n. (none, n);
  start = λ k n. (none, n);
  enqueue = λ ns name n. n;
  enqueue_key = λ k n. n;
  list = λ n. (ok [], n);
  register = λ n. n;
  cancel = λ n. n;
}

abbrev pod : Gvk
pod = record { group = []; version = str "v1"; kind = str "Pod" }

abbrev made : Shared
made = record { controller = some working; started = false; start_error = none }

-- a controller that cannot be made
abbrev broken : Ops ℕ
broken = record ops { deferred_controller = λ n. (some (plain (str "no cache")), n) }

abbrev unmade : Shared
unmade = record {
  controller = some (failing (plain (str "no cache")));
  started = false;
  start_error = some (plain (str "no cache"));
}

start-Reach_example :
    (unmade.started ≡ true → unmade.controller ≡ some working)
    × (start broken 2 (unmade, 0) ≡ (some (plain (str "no cache")), unmade, 0))
unfolding enqueue baaah.Runtime.SharedController.init_controller
start-Reach_example =
    start-Reach broken 2 unmade 0
      (step new_shared unmade begin (enqueues (str "ns") (str "a") new_shared 0))

start_each-Runs_example :
    All (λ e. Runs e.1) (start_each (λ g. ops) 2 (new_factory 0 []) ((pod, made) ∷ []) 0).1
unfolding start start_each Map.get
start_each-Runs_example = start_each-Runs (λ g. ops) 2 (new_factory 0 []) ((pod, made) ∷ []) 0 refl
