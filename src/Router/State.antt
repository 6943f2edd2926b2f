-- ===== src/Router/State.antt =====
-- What handlers and the router share: objects behind pointers, the registered triggers and watches,
-- and the cluster behind the interfaces of package backend.
use baaah.Prelude.{ℕ, suc, Bool, Option, none, some, Str, ℤ, if◌then◌else◌, ◌==◌, nat_eq}
use baaah.Prelude.Map.{Map}
use baaah.Objects.{Gvk, Object}
use baaah.Errors.{Error, Result}
use baaah.Router.Request.{Request}
use baaah.Router.Triggers.{Matchers}

-- a pointer to an object
abbrev pub Ref : Type 0
Ref = ℕ

-- What a watch is registered for: an object, or a list with the kind that it has in the scheme.
pub data Watchable : Type 0 where
  single : Object → Watchable
  list : Bool → Gvk → Watchable

-- `W` is the state of all that is outside the router: the cluster, its caches and work queues.
-- `watching` belongs to the HandlerSet and `registered` to the triggerRegistry of the request.
pub record State (W : Type 0) : Type 0 where
  pub heap : Ref → Object
  pub fresh : Ref
  pub matchers : Matchers
  pub watching : Map Gvk Bool
  pub registered : Map Gvk Bool
  pub outside : W

-- The methods of backend.Backend and of the client that the router calls. A call may fail, and may
-- change what is outside; a write also changes the object that it is handed. `new_object` is Scheme.New, and `semantic_equal` is
-- equality.Semantic.DeepEqual of two statuses, which are nil where the type has none.
pub record Backend (W : Type 0) : Type 0 where
  pub gvk_for_object : Watchable → Result Gvk
  pub new_object : Gvk → Result Object
  pub watch : Gvk → W → Option Error × W
  pub trigger : Gvk → Str → ℤ → W → Option Error × W
  pub get : Gvk → Str → Str → W → Result Object × W
  pub create : Object → W → Option Error × Object × W
  pub update : Object → W → Option Error × Object × W
  pub semantic_equal : Option Str → Option Str → Bool
  pub update_status : Object → W → Option Error × Object × W

module _ {W : Type 0} where
  abbrev pub load : Ref → State W → Object
  load r s = s.heap r

  abbrev pub store : Ref → Object → State W → State W
  store r o s = record s { heap = λ p. if p == r then o else s.heap p }

  -- DeepCopyObject
  abbrev pub deep_copy : Ref → State W → Ref × State W
  deep_copy r s = (s.fresh, record (store s.fresh (load r s) s) { fresh = suc s.fresh })

  -- a request as it reads now
  abbrev pub view : Request Ref → State W → Request Object
  view req s = record {
    object = elim req.object [ none ↦ none | some r ↦ some (load r s) ];
    gvk = req.gvk;
    namespace = req.namespace;
    name = req.name;
    key = req.key;
    from_trigger = req.from_trigger;
  }
