-- ===== src/Router/Handlers.antt =====
-- pkg/router/handlers.go: the handlers of each kind, and running them.
pub mod Laws
use baaah.Prelude.{
  Bool, true, false, Option, none, some, List, [], ◌∷◌, ◌++◌, map, ◌&&◌, ◌==◌, list_eq, nat_eq, not,
  is_nil, if◌then◌else◌,
}
use baaah.Prelude.Map
use baaah.Prelude.Map.{Map}
use baaah.Objects.{Gvk, gvk_eq, Object}
use baaah.Errors.{Error}
use baaah.Merr.{new_errors}
use baaah.Router.Request.{Request}
use baaah.Router.State.{State, Ref, load}
use baaah.Router.Response.{Response}
use baaah.Router.Handler.{Handler, Outcome}

-- isObjectForRequest
unfoldable pub is_object_for_request : {O : Type 0} → Request O → Object → Bool
is_object_for_request req obj =
    obj.name == req.name && obj.namespace == req.namespace && obj.gvk == req.gvk

abbrev pub Handlers : Type 0 → Type 0
Handlers W = Map Gvk (List (Handler W))

-- What the loop over the handlers carries.
pub record Handling (W : Type 0) : Type 0 where
  pub errors : List Error
  pub request : Request Ref
  pub response : Response
  pub state : State W

abbrev pub append_error : Option Error → List Error → List Error
append_error none es = es
append_error (some e) es = es ++ e ∷ []

module _ {W : Type 0} where
  unfoldable pub gvks : Handlers W → List Gvk
  gvks hs = map (λ e. e.0) hs

  unfoldable pub add_handler : Gvk → Handler W → Handlers W → Handlers W
  add_handler g h hs = Map.insert g (Map.get_list g hs ++ h ∷ []) hs

  -- len(h.handlers[req.GVK]) > 0
  unfoldable pub handles : {O : Type 0} → Handlers W → Request O → Bool
  handles hs req = elim (Map.get_list req.gvk hs) [ [] ↦ false | h ∷ rest ↦ true ]

  -- The loop over resp.objects: the request's own object is taken out and becomes req.Object.
  pub take_own : Request Ref → State W → List Ref → Request Ref × List Ref
  take_own req s [] = (req, [])
  take_own req s (p ∷ ps) =
      let mine = is_object_for_request req (load p s) in
      let rest = take_own (if mine then record req { object = some p } else req) s ps in
      (rest.0, if mine then rest.1 else p ∷ rest.1)

  unfoldable pub handle_one : Handler W → Handling W → Handling W
  unfolding take_own is_object_for_request
  handle_one h c =
      let o = h c.request c.response c.state in
      let (req, rest) = take_own c.request o.state o.response.objects in
      record {
        errors = append_error o.error c.errors;
        request = req;
        response = record o.response { objects = rest };
        state = o.state;
      }

  unfoldable pub handle_each : List (Handler W) → Handling W → Handling W
  handle_each [] c = c
  handle_each (h ∷ hs) c = handle_each hs (handle_one h c)

  unfoldable pub handle : Handlers W → Handler W
  unfolding handle_each handle_one
  handle hs req r s =
      let c =
        handle_each (Map.get_list req.gvk hs)
          (record { errors = []; request = req; response = r; state = s }) in
      record { error = new_errors (map some c.errors); response = c.response; state = c.state }
