-- ===== src/Runtime/SharedController.antt =====
-- pkg/runtime/sharedcontroller.go, errorcontroller.go and sharedcontrollerfactory.go: the controller of a
-- kind that is made when it is first needed, and the controllers of all kinds. The locks make each
-- operation one step; the start of the cache, in a goroutine of its own, is left out.
pub mod Laws
pub mod Tests
use baaah.Prelude.{
  ℕ, zero, suc, Bool, true, false, Option, none, some, Str, List, [], ◌∷◌, ltb, if◌then◌else◌,
}
use baaah.Prelude.Map
use baaah.Prelude.Map.{Map}
use baaah.Objects.{Gvk, gvk_eq}
use baaah.Errors.{Error, Result, ok, err}
use baaah.Runtime.Keys.{key_func}

-- The controller that New makes, and the errorController in its place
pub data Inner : Type 0 where
  working : Inner
  failing : Error → Inner

-- sharedController
pub record Shared : Type 0 where
  pub controller : Option Inner
  pub started : Bool
  pub start_error : Option Error

abbrev pub new_shared : Shared
new_shared = record { controller = none; started = false; start_error = none }

-- What is called of the controller of the kind: New as its error, Start, Enqueue and EnqueueKey, the
-- list of its objects in the cache by namespace and name, and the registration of a handler and its end.
pub record Ops (W : Type 0) : Type 0 where
  pub deferred_controller : W → Option Error × W
  pub start : ℕ → W → Option Error × W
  pub enqueue : Str → Str → W → W
  pub enqueue_key : Str → W → W
  pub list : W → Result (List (Str × Str)) × W
  pub register : W → W
  pub cancel : W → W

module _ {W : Type 0} (o : Ops W) where
  abbrev pub deferred : Shared → Option Error × W → Shared × W
  deferred s (none, w) = (record s { controller = some working; start_error = none }, w)
  deferred s (some e, w) = (record s { controller = some (failing e); start_error = some e }, w)

  -- initController
  unfoldable pub init_controller : Shared × W → Shared × W
  init_controller (s, w) = elim s.controller [
    | some c ↦ (s, w)
    | none ↦ deferred s (o.deferred_controller w)
  ]

  abbrev pub enqueue_on : Option Inner → Str → Str → W → W
  enqueue_on (some working) namespace name w = o.enqueue namespace name w
  enqueue_on c namespace name w = w

  -- Enqueue
  unfoldable pub enqueue : Str → Str → Shared × W → Shared × W
  unfolding init_controller
  enqueue namespace name s =
      let (s', w) = init_controller s in (s', enqueue_on s'.controller namespace name w)

  abbrev pub began : Shared → Option Error × W → Option Error × Shared × W
  began s (some e, w) = (some e, s, w)
  began s (none, w) = (none, record s { started = true }, w)

  -- an errorController starts without an error
  abbrev pub start_inner : Inner → ℕ → W → Option Error × W
  start_inner working workers w = o.start workers w
  start_inner (failing e) workers w = (none, w)

  -- Start
  unfoldable pub start : ℕ → Shared × W → Option Error × Shared × W
  start workers (s, w) = elim s.start_error [
    | some e ↦ (some e, s, w)
    | none ↦ elim s.controller [
      | none ↦ (none, s, w)
      | some c ↦ if s.started then (none, s, w) else began s (start_inner c workers w)
    ]
  ]

  -- the end of the context of Start
  unfoldable pub context_done : Shared × W → Shared × W
  context_done (s, w) = (record s { started = false }, w)

  abbrev pub enqueue_key_on : Option Inner → Str → W → W
  enqueue_key_on (some working) key w = o.enqueue_key key w
  enqueue_key_on c key w = w

  -- EnqueueKey
  unfoldable pub enqueue_key : Str → Shared × W → Shared × W
  unfolding init_controller
  enqueue_key key s = let (s', w) = init_controller s in (s', enqueue_key_on s'.controller key w)

  abbrev pub enqueue_each : Option Inner → List (Str × Str) → W → W
  unfolding key_func
  enqueue_each c [] w = w
  enqueue_each c ((namespace, name) ∷ ks) w =
      enqueue_each c ks (enqueue_key_on c (key_func namespace name) w)

  -- The objects that are there already are enqueued. If they cannot be listed, the registration is
  -- cancelled.
  abbrev pub catch_up : Option Inner → Result (List (Str × Str)) × W → W
  catch_up c (err e, w) = o.cancel w
  catch_up c (ok ks, w) = enqueue_each c ks w

  -- the listing through the cache of the controller, which an errorController refuses
  abbrev pub list_on : Option Inner → W → Result (List (Str × Str)) × W
  list_on (some (failing e)) w = (err e, w)
  list_on c w = o.list w

  -- RegisterHandler, without a transaction; it returns nil whatever happens
  unfoldable pub register_handler : Shared × W → Option Error × Shared × W
  unfolding init_controller
  register_handler s =
      let (s', w) = init_controller s in
      let w' = o.register w in
      (none, s', if s'.started then catch_up s'.controller (list_on s'.controller w') else w')

-- sharedControllerFactory
pub record Factory : Type 0 where
  pub controllers : Map Gvk Shared
  pub workers : ℕ
  pub kind_workers : Map Gvk ℕ

-- applyDefaultSharedOptions
abbrev pub default_workers : ℕ → ℕ
default_workers zero = 5
default_workers (suc n) = suc n

-- NewSharedControllerFactory
abbrev pub new_factory : ℕ → Map Gvk ℕ → Factory
new_factory workers kind_workers = record {
  controllers = [];
  workers = default_workers workers;
  kind_workers = kind_workers;
}

-- ForKind
unfoldable pub for_kind : Gvk → Factory → Shared × Factory
for_kind g f = elim (Map.get g f.controllers) [
  | some s ↦ (s, f)
  | none ↦ (new_shared, record f { controllers = Map.insert g new_shared f.controllers })
]

-- getWorkers
unfoldable pub get_workers : Gvk → ℕ → Factory → ℕ
get_workers g workers f = elim (Map.get g f.kind_workers) [
  | some n ↦ n
  | none ↦ if ltb 0 workers then workers else f.workers
]

module _ {W : Type 0} (o : Gvk → Ops W) where
  abbrev pub then_start :
      Option Error × Shared × W
      → (W → Option Error × Map Gvk Shared × W)
      → Gvk
      → Map Gvk Shared
      → Option Error × Map Gvk Shared × W
  then_start (some e, s, w) rest g m = (some e, (g, s) ∷ m, w)
  then_start (none, s, w) rest g m = let (e, m', w') = rest w in (e, (g, s) ∷ m', w')

  -- the loop of Start over the controllers
  pub start_each : ℕ → Factory → Map Gvk Shared → W → Option Error × Map Gvk Shared × W
  unfolding start
  start_each workers f [] w = (none, [], w)
  start_each workers f ((g, s) ∷ m) w =
      then_start (start (o g) (get_workers g workers f) (s, w)) (start_each workers f m) g m

  -- Start
  unfoldable pub start_factory : ℕ → Factory → W → Option Error × Factory × W
  unfolding start_each
  start_factory workers f w =
      let (e, m, w') = start_each workers f f.controllers w in (e, record f { controllers = m }, w')
