-- ===== src/Router/Handlers/Laws.antt =====
-- Every handler of a kind runs, and no object of the request is left for the apply.
use baaah.Prelude.{
  Bool, true, Option, none, some, List, [], ◌∷◌, map, ◌≡◌, ◌↔◌, refl, arith, All, ◌∙◌, not, filter,
  ◌≢◌,
}
use baaah.Prelude.Map
use baaah.Objects.{Object, gvk_eq}
use baaah.Errors.{Error}
use baaah.Merr.Laws.{new_errors-eq-none_iff}
use baaah.Router.Request.{Request}
use baaah.Router.State.{State, Ref, load}
use baaah.Router.Response.{Response}
use baaah.Router.Handler.{Handler, Outcome}
use baaah.Router.Handlers.{
  handles, is_object_for_request, Handlers, Handling, append_error, take_own, handle_one,
  handle_each, handle,
}

All-map-some : (es : List Error) → All (λ (e : Option Error). e ≡ none) (map some es) ↔ (es ≡ [])
All-map-some [] = ground arith
All-map-some (e ∷ es) = ground arith

append_error-eq-nil_iff :
    (o : Option Error) (es : List Error) → (append_error o es ≡ []) ↔ ((o ≡ none) × (es ≡ []))
append_error-eq-nil_iff none es = ground arith
append_error-eq-nil_iff (some e) [] = ground arith
append_error-eq-nil_iff (some e) (f ∷ es) = ground arith

-- Two requests for the same object.
abbrev pub SameRequest : Request Ref → Request Ref → Type 0
SameRequest a b = (a.gvk ≡ b.gvk) × (a.name ≡ b.name) × (a.namespace ≡ b.namespace)

is_object_for_request_same :
    (a b : Request Ref) (o : Object)
    → SameRequest a b
    → is_object_for_request a o ≡ is_object_for_request b o
unfolding is_object_for_request
is_object_for_request_same a b o (g, n, ns) = rw (g, n, ns)

module _ {W : Type 0} where
  abbrev pub foreign : Request Ref → State W → Ref → Bool
  foreign req s p = not (is_object_for_request req (load p s))

  -- Another object in the request does not change which objects are its own.
  take_own_rest :
      (req : Request Ref) (s : State W) (ps : List Ref)
      → (take_own req s ps).1 ≡ filter (foreign req s) ps
  unfolding take_own is_object_for_request
  take_own_rest req s [] = refl
  take_own_rest req s (p ∷ ps) =
      ground (arith, take_own_rest req s ps, take_own_rest (record req { object = some p }) s ps)

  take_own_keeps :
      (req : Request Ref) (s : State W) (ps : List Ref)
      → ((take_own req s ps).0.gvk ≡ req.gvk)
        × ((take_own req s ps).0.name ≡ req.name)
        × ((take_own req s ps).0.namespace ≡ req.namespace)
  unfolding take_own is_object_for_request
  take_own_keeps req s [] = (refl, refl, refl)
  take_own_keeps req s (p ∷ ps) =
      ground (arith, take_own_keeps req s ps, take_own_keeps (record req { object = some p }) s ps)

  -- The outcomes of the handlers, each run on what the one before left.
  pub outcomes : List (Handler W) → Handling W → List (Outcome W)
  outcomes [] c = []
  outcomes (h ∷ hs) c = h c.request c.response c.state ∷ outcomes hs (handle_one h c)

  errors-handle_each :
      (hs : List (Handler W)) (c : Handling W)
      → ((handle_each hs c).errors ≡ [])
        ↔ ((c.errors ≡ []) × All (λ o. o.error ≡ none) (outcomes hs c))
  unfolding handle_each handle_one outcomes
  errors-handle_each [] c = ground arith
  errors-handle_each (h ∷ hs) c = ground (
    arith,
    errors-handle_each hs (handle_one h c),
    append_error-eq-nil_iff (h c.request c.response c.state).error c.errors,
  )

  request-handle_each :
      (hs : List (Handler W)) (c : Handling W) → SameRequest (handle_each hs c).request c.request
  unfolding handle_each handle_one
  request-handle_each [] c = (refl, refl, refl)
  request-handle_each (h ∷ hs) c =
      let o = h c.request c.response c.state in
      ground (
        arith,
        request-handle_each hs (handle_one h c),
        take_own_keeps c.request o.state o.response.objects,
      )

  All-filter-foreign :
      (req a : Request Ref) (s : State W) (ps : List Ref)
      → SameRequest a req
      → All (λ p. foreign req s p ≡ true) (filter (foreign a s) ps)
  All-filter-foreign req a s [] e = tt
  All-filter-foreign req a s (p ∷ ps) e =
      ground (arith, is_object_for_request_same a req (load p s) e, All-filter-foreign req a s ps e)

  objects-handle_one :
      (req : Request Ref) (h : Handler W) (c : Handling W)
      → SameRequest c.request req
      → All (λ p. foreign req (handle_one h c).state p ≡ true) (handle_one h c).response.objects
  unfolding handle_one
  objects-handle_one req h c e =
      let o = h c.request c.response c.state in
      rw (take_own_rest c.request o.state o.response.objects)
        (All-filter-foreign req c.request o.state o.response.objects e)

  objects-handle_each :
      (req : Request Ref) (h : Handler W) (hs : List (Handler W)) (c : Handling W)
      → SameRequest c.request req
      → All
          (λ p. foreign req (handle_each (h ∷ hs) c).state p ≡ true)
          (handle_each (h ∷ hs) c).response.objects
  unfolding handle_each
  objects-handle_each req h [] c e = objects-handle_one req h c e
  objects-handle_each req h (k ∷ hs) c e =
      let o = h c.request c.response c.state in
      let (g, n, ns) = take_own_keeps c.request o.state o.response.objects in
      objects-handle_each req k hs (handle_one h c)
        (unfold handle_one in (g ∙ e.0, n ∙ e.1, ns ∙ e.2))

abbrev pub start : {W : Type 0} → Request Ref → Response → State W → Handling W
start req r s = record { errors = []; request = req; response = r; state = s }

-- Handling returns nil exactly if every handler of the kind, each run on what the one before left,
-- returned nil.
pub handle-eq-none_iff :
    {W : Type 0} (hs : Handlers W) (req : Request Ref) (r : Response) (s : State W)
    → ((handle hs req r s).error ≡ none)
      ↔ All (λ o. o.error ≡ none) (outcomes (Map.get_list req.gvk hs) (start req r s))
unfolding handle
handle-eq-none_iff hs req r s =
    let c = start req r s in
    let l = Map.get_list req.gvk hs in
    ground (
      arith,
      new_errors-eq-none_iff (map some (handle_each l c).errors),
      All-map-some (handle_each l c).errors,
      errors-handle_each l c,
    )

foreign-handle :
    {W : Type 0} (l : List (Handler W)) (req : Request Ref) (r : Response) (s : State W)
    → l ≢ []
    → All
        (λ p. foreign req (handle_each l (start req r s)).state p ≡ true)
        (handle_each l (start req r s)).response.objects
foreign-handle [] req r s n = absurd (n refl)
foreign-handle (h ∷ hs) req r s n = objects-handle_each req h hs (start req r s) (refl, refl, refl)

-- Where the kind has a handler, none of the objects that the response is left with is the object of
-- the request: each of those was taken out.
pub handle-foreign :
    {W : Type 0} (hs : Handlers W) (req : Request Ref) (r : Response) (s : State W)
    → handles hs req ≡ true
    → All (λ p. foreign req (handle hs req r s).state p ≡ true) (handle hs req r s).response.objects
unfolding handle handles
handle-foreign hs req r s n = foreign-handle (Map.get_list req.gvk hs) req r s (λ e. ground arith)
