-- ===== src/Router/Finalizer.antt =====
-- pkg/router/finalizer.go: a handler that runs while its finalizer is the first one of an object
-- that is being deleted.
pub mod Laws
use baaah.Prelude.{
  ℕ, Bool, true, false, Option, none, some, Str, List, [], ◌∷◌, ◌++◌, ◌&&◌, ◌||◌, ◌==◌, list_eq,
  nat_eq, not, any, ℤ, is_zero, if◌then◌else◌,
}
use baaah.Prelude.Map
use baaah.Prelude.Map.{Map}
use baaah.Objects.{Object}
use baaah.Errors.{Error}
use baaah.Router.Request.{Request}
use baaah.Router.State.{State, Backend, Ref, load, store, deep_copy}
use baaah.Router.Response.{Response, Any, new_wrapper, disable_prune, retry_after, objects}
use baaah.Router.Handler.{Handler, Outcome, skip}
use baaah.Router.Handlers.{is_object_for_request}
use baaah.Router.Client.{registry, update, update_status}

-- slices.Contains
abbrev pub contains : List Str → Str → Bool
contains xs x = any (λ y. y == x) xs

-- len(xs) > 0 && xs[0] == id
abbrev pub is_first : Str → List Str → Bool
is_first id [] = false
is_first id (x ∷ xs) = x == id

-- xs[1:], which panics on an empty slice
abbrev pub rest_of : List Str → List Str
rest_of [] = []
rest_of (x ∷ xs) = xs

-- for k, v := range newResp.Attr { resp.Attributes()[k] = v }
abbrev pub copy_attributes : Map Str Any → Response → Response
copy_attributes [] r = r
copy_attributes ((k, v) ∷ m) r =
    copy_attributes m (record r { attributes = Map.insert k v r.attributes })

-- What the handler has done to its own response is repeated on the caller's.
abbrev pub copy_response : Response → Response → Response
copy_response new r =
    let r1 = if not (is_zero new.delay) then retry_after new.delay r else r in
    let r2 = if new.no_prune then disable_prune r1 else r1 in copy_attributes new.attributes r2

-- StatusChanged of pkg/router/save.go
abbrev pub status_changed : {W : Type 0} → Backend W → Object → Object → Bool
status_changed b unmodified new = not (b.semantic_equal unmodified.status new.status)

abbrev pub failed : {W : Type 0} → Error → Response → State W → Outcome W
failed e r s = record { error = some e; response = r; state = s }

module _ {W : Type 0} (b : Backend W) where
  -- the object is not being deleted: it gets the finalizer, if it has none yet
  add_finalizer : Str → Ref → Handler W
  add_finalizer id p req r s =
      let obj = load p s in
      if contains obj.finalizers id
      then skip req r s
      else (let (e, s1) =
            update b (registry req) p
              (store p (record obj { finalizers = obj.finalizers ++ id ∷ [] }) s) in
          elim e [
            | some x ↦ failed x r s1
            | none ↦
                let (r', s2) = objects b (p ∷ []) (r, s1) in
                record { error = none; response = r'; state = s2 }
          ])

  -- The loop over newResp.Objs: newObj, and the caller's response and the state.
  take_objects : Request Ref → Ref → List Ref → Response × State W → Ref × Response × State W
  take_objects req q [] (r, s) = (q, r, s)
  take_objects req q (p ∷ ps) (r, s) =
      take_objects req (if is_object_for_request req (load p s) then p else q) ps
        (objects b (p ∷ []) (r, s))

  -- the last step: the finalizer is taken off `q`, whose object was read as `p`
  drop_finalizer : Str → ℤ → Ref → Ref → Handler W
  drop_finalizer id delay p q req r s =
      let new = load q s in
      if is_zero delay && is_first id new.finalizers
      then (let (e, s1) =
            update b (registry req) q
              (store q (record new { finalizers = rest_of (load p s).finalizers }) s) in
          elim e [
            | some x ↦ failed x r s1
            | none ↦
                let (r', s2) = objects b (q ∷ []) (r, s1) in
                record { error = none; response = r'; state = s2 }
          ])
      else skip req r s

  -- the status is written before the finalizer goes
  save_status : Str → ℤ → Ref → Ref → Handler W
  unfolding drop_finalizer
  save_status id delay p q req r s =
      if status_changed b (load p s) (load q s)
      then (let (e, s1) = update_status b (registry req) q s in
          elim e [ some x ↦ failed x r s1 | none ↦ drop_finalizer id delay p q req r s1 ])
      else drop_finalizer id delay p q req r s

  -- after the handler: `p` is the object, `o` what the handler left, `q` the copy that it was given
  after_next : Str → Ref → Ref → Outcome W → Handler W
  unfolding save_status take_objects
  after_next id p q o req r s = elim o.error [
    | some x ↦ failed x r o.state
    | none ↦
        let (q', r', s') =
          take_objects req q o.response.objects (copy_response o.response r, o.state) in
        save_status id o.response.delay p q' req r' s'
  ]

  -- `req.Object` is the copy for what follows too
  run_finalizer : Str → Ref → Handler W → Handler W
  unfolding after_next
  run_finalizer id p next req r s =
      let (q, s1) = deep_copy p s in
      let copied = record req { object = some q } in
      after_next id p q (next copied (new_wrapper (registry req)) s1) copied r s1

  -- FinalizerHandler.Handle, for an object that is not nil
  handle_object : Str → Ref → Handler W → Handler W
  unfolding add_finalizer run_finalizer
  handle_object id p next req r s =
      let obj = load p s in
      if not obj.deleting
      then add_finalizer id p req r s
      else if not (is_first id obj.finalizers)
      then skip req r s
      else run_finalizer id p next req r s

  unfoldable pub finalizer_handler : Str → Handler W → Handler W
  unfolding handle_object
  finalizer_handler id next req r s = elim req.object [
    | none ↦ skip req r s
    | some p ↦ handle_object id p next req r s
  ]
