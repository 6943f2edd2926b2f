-- ===== src/Router/Client/Laws.antt =====
-- What a handler reads or writes through its client, it hears of again.
use baaah.Prelude.{
  ℕ, false, Option, none, Str, [], ◌∷◌, ◌≡◌, ◌≢◌, refl, arith, count, list_eq, nat_eq,
}
use baaah.Objects.{Gvk, Object}
use baaah.Errors.{Error, Result, ok, err}
use baaah.Router.Request.{Request}
use baaah.Router.Triggers.{Matchers, target_eq, is_self, register, trigger}
use baaah.Router.Triggers.View.{IsMap}
use baaah.Router.Triggers.Register.{target_of, register-IsMap}
use baaah.Router.Triggers.Delivery.{exact, trigger-register}
use baaah.Router.State.{State, Backend, Ref, single, load}
use baaah.Router.Watching.{Registry, watch, register_watch}
use baaah.Router.Watching.Laws.{matchers-watch_gvk}
use baaah.Router.Client.{
  get, store_got, update, create, patch, delete, update_status, patch_sub, create_sub,
}

module _ {W : Type 0} (b : Backend W) where
  -- The matcher is registered even if the backend refuses the watch.
  matchers-watch :
      (r : Registry) (o : Object) (namespace name : Str) (s : State W) (g : Gvk)
      → o.wrapped ≡ false
      → b.gvk_for_object (single o) ≡ ok g
      → (watch b r (single o) namespace name none none s).1.matchers
        ≡ register r.gvk r.key g (exact namespace name) s.matchers
  unfolding watch register_watch
  matchers-watch r o namespace name s g w h = ground (
    arith,
    matchers-watch_gvk b (g ∷ [])
        (record s { matchers = register r.gvk r.key g (exact namespace name) s.matchers }),
  )

  matchers-store_got :
      (p : Ref) (a : Result Object × W) (s : State W) → (store_got b p a s).1.matchers ≡ s.matchers
  matchers-store_got p (ok o, w) s = refl
  matchers-store_got p (err e, w) s = refl

  matchers-get :
      (r : Registry) (namespace name : Str) (p : Ref) (s : State W)
      → (get b r namespace name p s).1.matchers
        ≡ (watch b r (single (load p s)) namespace name none none s).1.matchers
  unfolding get
  matchers-get r namespace name p s =
      let s' = (watch b r (single (load p s)) namespace name none none s).1 in
      ground (arith, matchers-store_got p (b.get (load p s).gvk namespace name s'.outside) s')

  -- After a handler for `r` has read an object through its client, whether the read or the watch
  -- failed or not, a change of that object that did not come from a trigger enqueues the key of the
  -- handler exactly once; the object handed to Get is not wrapped and its kind is known, the name
  -- is not empty, the matchers are a map, and the handler's key is not the changed object itself.
  pub trigger-get :
      (r : Registry) (p : Ref) (s : State W) (req : Request Object)
      → (load p s).wrapped ≡ false
      → b.gvk_for_object (single (load p s)) ≡ ok req.gvk
      → IsMap s.matchers
      → req.name ≢ []
      → req.from_trigger ≡ false
      → is_self req (target_of r.gvk r.key) ≡ false
      → count (target_of r.gvk r.key) (trigger req (get b r req.namespace req.name p s).1.matchers)
        ≡ 1
  trigger-get r p s req w h v n f t =
      rw
        (
          matchers-get r req.namespace req.name p s,
          matchers-watch r (load p s) req.namespace req.name s req.gvk w h,
        )
        (trigger-register r.gvk r.key s.matchers req v n f t)

  -- The matchers that the Watch of the object behind `p` leaves.
  abbrev watched : Registry → Ref → State W → Matchers
  watched r p s =
      let o = load p s in (watch b r (single o) o.namespace o.name none none s).1.matchers

  module _ (r : Registry) (p : Ref) (s : State W) where
    matchers-update : (update b r p s).1.matchers ≡ watched r p s
    unfolding update
    matchers-update = ground arith

    matchers-create : (create b r p s).1.matchers ≡ watched r p s
    unfolding create
    matchers-create = ground arith

    matchers-update_status : (update_status b r p s).1.matchers ≡ watched r p s
    unfolding update_status
    matchers-update_status = ground arith

    matchers-patch :
        (call : Object → W → Option Error × Object × W)
        → (patch b call r p s).1.matchers ≡ watched r p s
    unfolding patch
    matchers-patch call = ground arith

    matchers-patch_sub :
        (call : Object → W → Option Error × Object × W)
        → (patch_sub b call r p s).1.matchers ≡ watched r p s
    unfolding patch_sub
    matchers-patch_sub call = ground arith

    matchers-create_sub :
        (call : Object → Object → W → Option Error × Object × W) (q : Ref)
        → (create_sub b call r p q s).1.matchers ≡ watched r p s
    unfolding create_sub
    matchers-create_sub call q = ground arith

    matchers-delete :
        (call : Object → W → Option Error × W) → (delete b call r p s).1.matchers ≡ watched r p s
    unfolding delete
    matchers-delete call = ground arith

  trigger-watched :
      (r : Registry) (p : Ref) (s : State W) (req : Request Object)
      → (load p s).wrapped ≡ false
      → (load p s).namespace ≡ req.namespace
      → (load p s).name ≡ req.name
      → b.gvk_for_object (single (load p s)) ≡ ok req.gvk
      → IsMap s.matchers
      → req.name ≢ []
      → req.from_trigger ≡ false
      → is_self req (target_of r.gvk r.key) ≡ false
      → count (target_of r.gvk r.key) (trigger req (watched r p s)) ≡ 1
  trigger-watched r p s req w ns nm h v n f t =
      rw (matchers-watch r (load p s) (load p s).namespace (load p s).name s req.gvk w h, ns, nm)
        (trigger-register r.gvk r.key s.matchers req v n f t)

  -- How often the change `req` enqueues the key of the registry's handler in a state.
  abbrev pub enqueued : Registry → Request Object → State W → ℕ
  enqueued r req s = count (target_of r.gvk r.key) (trigger req s.matchers)

  -- After a handler for `r` has updated, created, patched or deleted an object through its client,
  -- or has updated its status or patched or created a sub-resource of it, whether that failed or
  -- not, a change of that object that did not come from a trigger enqueues the key of the handler
  -- exactly once; the object is not wrapped and its kind is known, its name is not empty, the
  -- matchers are a map, and the handler's key is not the changed object itself.
  pub trigger-writes :
      (call : Object → W → Option Error × Object × W)
      (sub_call : Object → Object → W → Option Error × Object × W)
      (delete_call : Object → W → Option Error × W) (r : Registry) (p q : Ref) (s : State W)
      (req : Request Object)
      → (load p s).wrapped ≡ false
      → (load p s).namespace ≡ req.namespace
      → (load p s).name ≡ req.name
      → b.gvk_for_object (single (load p s)) ≡ ok req.gvk
      → IsMap s.matchers
      → req.name ≢ []
      → req.from_trigger ≡ false
      → is_self req (target_of r.gvk r.key) ≡ false
      → (enqueued r req (update b r p s).1 ≡ 1)
        × (enqueued r req (create b r p s).1 ≡ 1)
        × (enqueued r req (patch b call r p s).1 ≡ 1)
        × (enqueued r req (delete b delete_call r p s).1 ≡ 1)
        × (enqueued r req (update_status b r p s).1 ≡ 1)
        × (enqueued r req (patch_sub b call r p s).1 ≡ 1)
        × (enqueued r req (create_sub b sub_call r p q s).1 ≡ 1)
  trigger-writes call sub_call delete_call r p q s req w ns nm h v n f t =
      let once = trigger-watched r p s req w ns nm h v n f t in
      (
        rw (matchers-update r p s) once,
        rw (matchers-create r p s) once,
        rw (matchers-patch r p s call) once,
        rw (matchers-delete r p s delete_call) once,
        rw (matchers-update_status r p s) once,
        rw (matchers-patch_sub r p s call) once,
        rw (matchers-create_sub r p s sub_call q) once,
      )

  -- With a Get the map of matchers stays a map, as a handler has to keep it.
  pub get-IsMap :
      (r : Registry) (namespace name : Str) (p : Ref) (s : State W) (g : Gvk)
      → (load p s).wrapped ≡ false
      → b.gvk_for_object (single (load p s)) ≡ ok g
      → IsMap s.matchers
      → IsMap (get b r namespace name p s).1.matchers
  get-IsMap r namespace name p s g w h v =
      rw (matchers-get r namespace name p s, matchers-watch r (load p s) namespace name s g w h)
        (register-IsMap r.gvk r.key g (exact namespace name) s.matchers v)
