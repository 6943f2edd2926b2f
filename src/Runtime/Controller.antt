-- ===== src/Runtime/Controller.antt =====
-- pkg/runtime/controller.go: keys that are enqueued before the work queue exists, and the handling
-- of one item of the queue. The queue is the list of the calls that are made of it, in order.
pub mod Laws
use baaah.Prelude.{
  Bool, true, false, Option, none, some, Str, List, [], ◌∷◌, ◌++◌, ℤ, pos, is_zero, if◌then◌else◌,
  map,
}
use baaah.Objects.{Gvk, Object}
use baaah.Errors.{Error, Reason, status, not_found, Result, ok, err}
use baaah.Runtime.Keys.{key_func, key_parse, is_special_key}

-- the methods of workqueue.RateLimitingInterface that are called
pub data Call : Type 0 where
  add : Str → Call
  add_after : Str → ℤ → Call
  add_rate_limited : Str → Call
  forget : Str → Call
  done : Str → Call

pub record StartKey : Type 0 where
  pub key : Str
  pub after : ℤ

-- `workqueue` is none until the controller runs.
pub record Controller : Type 0 where
  pub workqueue : Option (List Call)
  pub start_keys : List StartKey

abbrev pub new_controller : Controller
new_controller = record { workqueue = none; start_keys = [] }

-- if c.workqueue == nil { c.startKeys = append(…) } else { the call }
abbrev pub submit : StartKey → Call → Controller → Controller
submit k call c = elim c.workqueue [
  | none ↦ record c { start_keys = c.start_keys ++ k ∷ [] }
  | some calls ↦ record c { workqueue = some (calls ++ call ∷ []) }
]

unfoldable pub enqueue_key : Str → Controller → Controller
enqueue_key key = submit (record { key = key; after = pos 0 }) (add key)

unfoldable pub enqueue : Str → Str → Controller → Controller
enqueue namespace name =
    let key = key_func namespace name in
    submit (record { key = key; after = pos 0 }) (add_rate_limited key)

unfoldable pub enqueue_after : Str → Str → ℤ → Controller → Controller
enqueue_after namespace name duration =
    let key = key_func namespace name in
    submit (record { key = key; after = duration }) (add_after key duration)

abbrev pub start_call : StartKey → Call
start_call k = if is_zero k.after then add k.key else add_after k.key k.after

-- The first part of `run`: the queue is made, and takes the keys that came before it.
unfoldable pub run : Controller → Controller
run c = record { workqueue = some (map start_call c.start_keys); start_keys = [] }

-- `H` is the state behind the handler: OnChange with a key and an object, or without one.
module _ {H : Type 0} (cache_get : Str → Str → Result Object)
    (on_change : Str → Option Object → H → Option Error × H) where
  abbrev pub is_not_found : Error → Bool
  is_not_found (status not_found s) = true
  is_not_found e = false

  abbrev changed : Str → Result Object → H → Option Error × H
  changed key (ok o) h = on_change key (some o) h
  changed key (err e) h = if is_not_found e then on_change key none h else (some e, h)

  unfoldable pub sync_handler : Str → H → Option Error × H
  sync_handler key h =
      if is_special_key key
      then on_change key none h
      else changed key (cache_get (key_parse key).0 (key_parse key).1) h

  abbrev settle : Str → Option Error → List Call
  settle key none = forget key ∷ done key ∷ []
  settle key (some e) = add_rate_limited key ∷ done key ∷ []

  -- processSingleItem, for an item that is a string: the calls on the queue, Done last
  unfoldable pub process_single_item : Str → H → List Call × Option Error × H
  unfolding sync_handler
  process_single_item key h = let (e, h') = sync_handler key h in (settle key e, e, h')
