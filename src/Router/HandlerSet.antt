-- ===== src/Router/HandlerSet.antt =====
-- HandlerSet of pkg/router/handler.go: what happens to a key that the backend reports as changed.
-- The lock on the key is held from the lookup to the end; one call is one step here.
pub mod Laws
pub mod Deletion
use baaah.Prelude.{
  ℕ, suc, Bool, true, false, Option, none, some, Str, List, [], ◌∷◌, ◌++◌, ◌&&◌, ◌||◌, ℤ, pos,
  lt_int, map, not, cut, is_nil, if◌then◌else◌,
}
use baaah.Prelude.Map
use baaah.Prelude.Map.{Map}
use baaah.Objects.{Gvk, gvk_eq, Object}
use baaah.Errors.{Error, Reason, status, not_found, Result, ok, err}
use baaah.Router.Request.{Request}
use baaah.Router.State.{State, Backend, Ref, load, store, deep_copy, view}
use baaah.Router.Triggers.{Target, Matchers, trigger, unregister_and_trigger}
use baaah.Router.Response.{Response, new_response}
use baaah.Router.Handler.{Handler, Outcome}
use baaah.Router.Handlers.{Handlers, handles, handle}
use baaah.Router.Client.{registry}
use baaah.Router.Save.{Apply, Saved, save}
use baaah.Router.Backoff.{LimiterKey, limiter_key_eq, Backoff, check_delay, forget_backoff}
use baaah.Router.Keys.{Decoded, decode}

-- ErrorHandler: it is called for nil errors too.
abbrev pub ErrorHandler : Type 0 → Type 0
ErrorHandler W = Request Ref → Response → Option Error → State W → Option Error × Response × State W

-- What a call leaves: an object or an error, and the state.
pub record Handled (W : Type 0) : Type 0 where
  pub object : Option Ref
  pub error : Option Error
  pub state : State W

-- '/'
abbrev pub slash : ℕ
slash = b'/'

-- ns, name, ok := strings.Cut(key, "/"), with the key as the name where there is no slash
abbrev pub split_key : Str → Str × Str
split_key key = let (ns, name, found) = cut slash key in if found then (ns, name) else ([], key)

abbrev pub is_not_found : Error → Bool
is_not_found (status not_found s) = true
is_not_found e = false

abbrev pub request_for : Gvk → Str → Bool → Option Ref → Request Ref
request_for gvk key from_trigger o = record {
  object = o;
  gvk = gvk;
  namespace = (split_key key).0;
  name = (split_key key).1;
  key = key;
  from_trigger = from_trigger;
}

-- newRequestResponse: the handlers get a copy of the object
unfoldable pub new_request :
    {W : Type 0} → Gvk → Str → Option Ref → Bool → State W → Request Ref × State W
new_request gvk key none from_trigger s =
    (request_for gvk key from_trigger none, record s { registered = [] })
new_request gvk key (some p) from_trigger s =
    let (q, s') = deep_copy p s in
    (request_for gvk key from_trigger (some q), record s' { registered = [] })

module _ {W : Type 0} (b : Backend W) (apply : Apply W) (on_error : Option (ErrorHandler W))
    (hs : Handlers W) where
  -- handleError
  abbrev pub handle_error :
      Request Ref → Response → Option Error → State W → Option Error × Response × State W
  handle_error req r e s = elim on_error [ none ↦ (e, r, s) | some f ↦ f req r e s ]

  -- `err` of a step: nil goes on, and so does an error that handleError turns into nil
  abbrev settle :
      Request Ref → Response → Option Error → State W → Option Error × Response × State W
  settle req r none s = (none, r, s)
  settle req r (some e) s = handle_error req r (some e) s

  -- the calls of backend.Trigger(gvk, key, 0), whose errors are dropped
  pub enqueue : List Target → State W → State W
  enqueue [] s = s
  enqueue (t ∷ ts) s =
      enqueue ts (record s { outside = (b.trigger t.gvk t.key (pos 0) s.outside).1 })

  -- UnregisterAndTrigger for a deleted object, Trigger for any other
  fire : Bool → Request Ref → State W → State W
  unfolding enqueue
  fire deleted req s =
      let gone = unregister_and_trigger (view req s) s.matchers in
      if deleted
      then enqueue gone.1 (record s { matchers = gone.0 })
      else enqueue (trigger (view req s) s.matchers) s

  -- the last line: the error handler is told that there was no error
  abbrev finish : Request Ref → Response → State W → Handled W
  finish req r s =
      let (e, r', s') = handle_error req r none s in
      record { object = req.object; error = e; state = s' }

  abbrev give_up : Error → State W → Handled W
  give_up e s = record { object = none; error = some e; state = s }

  -- a delay asks for the key once more
  abbrev retry : Request Ref → Response → State W → Handled W
  retry req r s =
      if lt_int (pos 0) r.delay
      then (let (e, w) = b.trigger req.gvk req.key r.delay s.outside in
          elim e [
            | some x ↦ give_up x (record s { outside = w })
            | none ↦ finish req r (record s { outside = w })
          ])
      else finish req r s

  -- save, with maps.Keys(m.watching)
  save_all : Option Ref → Request Ref → Response → State W → Handled W
  save_all unmodified req r s =
      let saved = save b apply unmodified req r (map (λ e. e.0) s.watching) s in
      let (e, r', s') = settle req r saved.error saved.state in
      elim e [ some x ↦ give_up x s' | none ↦ retry (record req { object = saved.object }) r' s' ]

  -- what follows the handlers, whose error was nil or is settled
  after_handlers : Bool → Option Ref → Request Ref → Response → State W → Handled W
  unfolding save_all fire
  after_handlers ran unmodified req r s =
      let s1 = fire (is_nil unmodified) req s in
      if ran then save_all unmodified req r s1 else finish req r s1

  run_handlers : Option Ref → Request Ref → State W → Handled W
  unfolding after_handlers
  run_handlers unmodified req s =
      let o = handle hs req (new_response (registry req)) s in
      let (e, r, s1) = settle req o.response o.error o.state in
      elim e [ some x ↦ give_up x s1 | none ↦ after_handlers true unmodified req r s1 ]

  -- HandlerSet.handle
  unfoldable pub handle_object : Gvk → Str → Option Ref → Bool → State W → Handled W
  unfolding run_handlers new_request
  handle_object gvk key unmodified from_trigger s =
      let (req, s1) = new_request gvk key unmodified from_trigger s in
      if handles hs req
      then run_handlers unmodified req s1
      else after_handlers false unmodified req (new_response (registry req)) s1

-- The fields of a HandlerSet that one change reads and writes.
pub record HandlerSet (W L : Type 0) : Type 0 where
  pub state : State W
  pub backoff : Backoff L

-- the object and the error that onChange returns
pub record Changed (W L : Type 0) : Type 0 where
  pub object : Option Ref
  pub error : Option Error
  pub set : HandlerSet W L

module _ {W L : Type 0} (b : Backend W) (apply : Apply W) (on_error : Option (ErrorHandler W))
    (hs : Handlers W) (new_limiter : L) (reserve : L → ℤ × L) where
  abbrev fail : Error → State W → Backoff L → Changed W L
  fail e s k = record { object = none; error = some e; set = record { state = s; backoff = k } }

  -- the key is looked up: forgotten if its object is gone, and handled
  abbrev run : Gvk → Decoded → Option Ref → State W → Backoff L → Changed W L
  run gvk d obj s k =
      let k' = if is_nil obj then forget_backoff (record { key = d.key; gvk = gvk }) k else k in
      let h = handle_object b apply on_error hs gvk d.key obj d.from_trigger s in
      record { object = h.object; error = h.error; set = record { state = h.state; backoff = k' } }

  -- the answer of m.backend.Get; an object that was not found leaves the one that was reported
  abbrev found : Gvk → Decoded → Option Ref → State W → Backoff L → Result Object × W → Changed W L
  found gvk d obj s k (err e, w) =
      if is_not_found e
      then run gvk d obj (record s { outside = w }) k
      else fail e (record s { outside = w }) k
  found gvk d obj s k (ok o, w) =
      run gvk d (some s.fresh) (record (store s.fresh o s) { fresh = suc s.fresh; outside = w }) k

  -- past checkDelay
  look_up : Gvk → Decoded → Option Ref → State W → Backoff L → Changed W L
  unfolding handle_object
  look_up gvk d obj s k = elim (b.new_object gvk) [
    | err e ↦ fail e s k
    | ok o ↦ found gvk d obj s k (b.get gvk (split_key d.key).0 (split_key d.key).1 s.outside)
  ]

  -- onChange. Only a plain change is held back.
  unfoldable pub on_change : Gvk → Str → Option Ref → HandlerSet W L → Changed W L
  unfolding look_up
  on_change gvk key obj m =
      let d = decode key in
      if not d.from_replay && not d.from_trigger
      then (let (go, k) =
            check_delay new_limiter reserve (record { key = d.key; gvk = gvk }) m.backoff in
          if go
          then look_up gvk d obj m.state k
          else record { object = obj; error = none; set = record m { backoff = k } })
      else look_up gvk d obj m.state m.backoff
