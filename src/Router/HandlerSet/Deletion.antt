-- ===== src/Router/HandlerSet/Deletion.antt =====
-- A deleted object: what stays registered once its key has been handled.
use baaah.Prelude.{
  Bool, true, false, Option, none, some, Str, List, [], ◌∷◌, ◌≡◌, refl, arith, All, eq_iff, list_eq,
  nat_eq, if◌then◌else◌, ◌∙◌, ap, filter,
}
use baaah.Prelude.Map
use baaah.Objects.{Gvk, gvk_eq}
use baaah.Router.Request.{Request}
use baaah.Router.State.{State, Backend, Ref, view}
use baaah.Router.Triggers.{Target, target_eq, Matchers, unregister_and_trigger, is_self, survives}
use baaah.Router.Triggers.View.{watchers, IsMap}
use baaah.Router.Triggers.Unregister.{watchers-unregister}
use baaah.Router.Response.{Response, new_response}
use baaah.Router.Handler.{Handler}
use baaah.Router.Handlers.{Handlers, Handling, handle_one, handle_each, handle}
use baaah.Router.Client.{registry}
use baaah.Router.Save.{Apply, save}
use baaah.Router.HandlerSet.{
  enqueue, fire, save_all, after_handlers, run_handlers, handle_object, request_for,
}

-- A handler that registers its watches as the client does: the map of matchers stays a map.
abbrev pub KeepsMap : {W : Type 0} → Handler W → Type 0
KeepsMap {W} h =
    (req : Request Ref) (r : Response) (s : State W)
    → IsMap s.matchers
    → IsMap (h req r s).state.matchers

handle_each-IsMap :
    {W : Type 0} (hs : List (Handler W)) (c : Handling W)
    → All KeepsMap hs
    → IsMap c.state.matchers
    → IsMap (handle_each hs c).state.matchers
unfolding handle_each handle_one
handle_each-IsMap [] c k v = v
handle_each-IsMap (h ∷ hs) c k v =
    handle_each-IsMap hs (handle_one h c) k.1 (k.0 c.request c.response c.state v)

pub handle-KeepsMap :
    {W : Type 0} (hs : Handlers W) (req : Request Ref) (r : Response) (s : State W)
    → All KeepsMap (Map.get_list req.gvk hs)
    → IsMap s.matchers
    → IsMap (handle hs req r s).state.matchers
unfolding handle
handle-KeepsMap hs req r s k v = handle_each-IsMap (Map.get_list req.gvk hs) _ k v

module _ {W : Type 0} (b : Backend W) (apply : Apply W) (hs : Handlers W) where
  matchers-enqueue :
      (ts : List Target) (s : State W) → (enqueue b apply none hs ts s).matchers ≡ s.matchers
  unfolding enqueue
  matchers-enqueue [] s = refl
  matchers-enqueue (t ∷ ts) s = matchers-enqueue ts _

  matchers-fire :
      (req : Request Ref) (s : State W)
      → (fire b apply none hs true req s).matchers
        ≡ (unregister_and_trigger (view req s) s.matchers).0
  unfolding fire
  matchers-fire req s = matchers-enqueue (unregister_and_trigger (view req s) s.matchers).1 _

  matchers-save_all :
      (unmodified : Option Ref) (req : Request Ref) (r : Response) (s : State W)
      → req.object ≡ none
      → (save_all b apply none hs unmodified req r s).state.matchers ≡ s.matchers
  unfolding save_all save
  matchers-save_all none req r s n = ground arith
  matchers-save_all (some p) req r s n = ground arith

  matchers-after_handlers :
      (ran : Bool) (req : Request Ref) (r : Response) (s : State W)
      → req.object ≡ none
      → (after_handlers b apply none hs ran none req r s).state.matchers
        ≡ (unregister_and_trigger (view req s) s.matchers).0
  unfolding after_handlers
  matchers-after_handlers ran req r s n =
      ground
        (arith, matchers-fire req s, matchers-save_all none req r (fire b apply none hs true req s))

  -- The object of the request as a target, whatever it was handed to handlers.
  watchers-after_handlers :
      (ran : Bool) (req : Request Ref) (r : Response) (s : State W) (h : Gvk) (u : Target)
      → req.object ≡ none
      → IsMap s.matchers
      → watchers (after_handlers b apply none hs ran none req r s).state.matchers h u ≡ (
          if is_self (view req s) u
          then []
          else filter (survives (view req s) h) (watchers s.matchers h u))
  watchers-after_handlers ran req r s h u n v =
      ap (λ (m : Matchers). watchers m h u) (matchers-after_handlers ran req r s n)
      ∙ watchers-unregister (view req s) s.matchers h u v

  abbrev deletion_request : Gvk → Str → Bool → Request Ref
  deletion_request gvk key ft = request_for gvk key ft none

  watchers-run_handlers :
      (gvk : Gvk) (key : Str) (ft : Bool) (s : State W) (h : Gvk)
      → All KeepsMap (Map.get_list gvk hs)
      → IsMap s.matchers
      → (run_handlers b apply none hs none (deletion_request gvk key ft) s).error ≡ none
      → watchers
          (run_handlers b apply none hs none (deletion_request gvk key ft) s).state.matchers
          h
          (record { key = key; gvk = gvk })
        ≡ []
  unfolding run_handlers
  watchers-run_handlers gvk key ft s h k v e =
      let req = deletion_request gvk key ft in
      let o = handle hs req (new_response (registry req)) s in
      ground (
        arith,
        eq_iff gvk gvk,
        eq_iff key key,
        handle-KeepsMap hs req (new_response (registry req)) s k v,
        watchers-after_handlers true req o.response o.state h (record { key = key; gvk = gvk }) refl
            (handle-KeepsMap hs req (new_response (registry req)) s k v),
      )

  -- Where the object of a key is gone and the handling of it returns no error (with no error
  -- handler, and with handlers that keep the matchers a map), no matcher of any kind is left
  -- afterwards that would enqueue the deleted object.
  pub handle_object_deleted :
      (gvk : Gvk) (key : Str) (ft : Bool) (s : State W) (h : Gvk)
      → All KeepsMap (Map.get_list gvk hs)
      → IsMap s.matchers
      → (handle_object b apply none hs gvk key none ft s).error ≡ none
      → watchers
          (handle_object b apply none hs gvk key none ft s).state.matchers
          h
          (record { key = key; gvk = gvk })
        ≡ []
  unfolding handle_object
  handle_object_deleted gvk key ft s h k v e =
      let req = deletion_request gvk key ft in
      let s1 = record s { registered = [] } in
      ground (
        arith,
        eq_iff gvk gvk,
        eq_iff key key,
        watchers-run_handlers gvk key ft s1 h k v,
        watchers-after_handlers false req (new_response (registry req)) s1 h
            (record { key = key; gvk = gvk }) refl v,
      )
