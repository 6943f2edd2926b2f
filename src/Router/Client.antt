-- ===== src/Router/Client.antt =====
-- pkg/router/client.go: the client of a request registers each object that it reads or writes
-- before it hands the call on.
pub mod Laws
use baaah.Prelude.{Bool, Option, none, some, Str, List, []}
use baaah.Objects.{Gvk, Object, Selector, FieldSelector}
use baaah.Errors.{Error, Result, ok, err}
use baaah.Router.Request.{Request}
use baaah.Router.State.{State, Backend, Ref, load, store, single, list}
use baaah.Router.Watching.{Registry, watch}

-- the registry that newRequestResponse makes for the request
abbrev pub registry : {O : Type 0} → Request O → Registry
registry req = record { gvk = req.gvk; key = req.key }

module _ {W : Type 0} (b : Backend W) where
  -- A write: the backend changes the object that it is handed.
  abbrev pub write :
      (Object → W → Option Error × Object × W) → Ref → State W → Option Error × State W
  write call p s =
      let (e, o, w) = call (load p s) s.outside in (e, store p o (record s { outside = w }))

  -- writer.Update
  unfoldable pub update : Registry → Ref → State W → Option Error × State W
  update r p s =
      let o = load p s in
      let (e, s') = watch b r (single o) o.namespace o.name none none s in
      elim e [ some x ↦ (some x, s') | none ↦ write b.update p s' ]

  -- writer.Create
  unfoldable pub create : Registry → Ref → State W → Option Error × State W
  create r p s =
      let o = load p s in
      let (e, s') = watch b r (single o) o.namespace o.name none none s in
      elim e [ some x ↦ (some x, s') | none ↦ write b.create p s' ]

  -- writer.Patch: `call` is the client's Patch with the patch and the options.
  unfoldable pub patch :
      (Object → W → Option Error × Object × W) → Registry → Ref → State W → Option Error × State W
  patch call r p s =
      let o = load p s in
      let (e, s') = watch b r (single o) o.namespace o.name none none s in
      elim e [ some x ↦ (some x, s') | none ↦ write call p s' ]

  -- subResourceClient.Update of status.Status()
  unfoldable pub update_status : Registry → Ref → State W → Option Error × State W
  update_status r p s =
      let o = load p s in
      let (e, s') = watch b r (single o) o.namespace o.name none none s in
      elim e [ some x ↦ (some x, s') | none ↦ write b.update_status p s' ]

  -- subResourceClient.Patch: `call` is the sub-resource's Patch with the patch and the options.
  unfoldable pub patch_sub :
      (Object → W → Option Error × Object × W) → Registry → Ref → State W → Option Error × State W
  patch_sub call r p s =
      let o = load p s in
      let (e, s') = watch b r (single o) o.namespace o.name none none s in
      elim e [ some x ↦ (some x, s') | none ↦ write call p s' ]

  -- subResourceClient.Create: the object at `p` is watched, the sub-resource's at `q` is changed.
  unfoldable pub create_sub :
      (Object → Object → W → Option Error × Object × W)
      → Registry
      → Ref
      → Ref
      → State W
      → Option Error × State W
  create_sub call r p q s =
      let o = load p s in
      let (e, s') = watch b r (single o) o.namespace o.name none none s in
      elim e [ some x ↦ (some x, s') | none ↦ write (call o) q s' ]

  -- the answer of a Get, stored in the object that it was handed
  abbrev pub store_got : Ref → Result Object × W → State W → Option Error × State W
  store_got p (err e, w) s = (some e, record s { outside = w })
  store_got p (ok o, w) s = (none, store p o (record s { outside = w }))

  -- reader.Get
  unfoldable pub get : Registry → Str → Str → Ref → State W → Option Error × State W
  get r namespace name p s =
      let o = load p s in
      let (e, s') = watch b r (single o) namespace name none none s in
      elim e [
        | some x ↦ (some x, s')
        | none ↦ store_got p (b.get o.gvk namespace name s'.outside) s'
      ]

  -- what is called once the watch is registered, and changes no object of the handler
  abbrev pub then_call : (W → Option Error × W) → Option Error × State W → Option Error × State W
  then_call call (some e, s) = (some e, s)
  then_call call (none, s) = let (e, w) = call s.outside in (e, record s { outside = w })

  -- writer.Delete
  unfoldable pub delete :
      (Object → W → Option Error × W) → Registry → Ref → State W → Option Error × State W
  delete call r p s =
      let o = load p s in then_call (call o) (watch b r (single o) o.namespace o.name none none s)

  -- writer.DeleteAllOf, with the namespace and the selectors of its options
  unfoldable pub delete_all_of :
      (Object → W → Option Error × W)
      → Registry
      → Str
      → Option Selector
      → Option FieldSelector
      → Ref
      → State W
      → Option Error × State W
  delete_all_of call r namespace sel fields p s =
      let o = load p s in then_call (call o) (watch b r (single o) namespace [] sel fields s)

  -- reader.List, with the namespace and the selectors of its options; `call` fills the list that
  -- is `wrapped` or not, and whose kind is `g`
  unfoldable pub list_objects :
      (W → Option Error × W)
      → Registry
      → Bool
      → Gvk
      → Str
      → Option Selector
      → Option FieldSelector
      → State W
      → Option Error × State W
  list_objects call r wrapped g namespace sel fields s =
      then_call call (watch b r (list wrapped g) namespace [] sel fields s)
