-- ===== src/Watcher.antt =====
-- pkg/watcher/watcher.go: a watch that is taken up again until the callback is done.
pub mod Session
pub mod Laws
pub mod Deadline
pub mod Tests
use baaah.Prelude.{
  ℕ, zero, suc, Bool, true, false, Option, none, some, Str, str, List, [], ◌∷◌, ◌==◌, list_eq,
  nat_eq, if◌then◌else◌,
}
use baaah.Objects.{Object}
use baaah.Errors.{Error, Reason, prefixed, conflict, gone, Result, ok, err}
use baaah.Apply.Client.{reason_of}

-- watch.Event with its type; of an error event the error that apierrors.FromObject makes of it
pub data Event : Type 0 where
  bookmark deleted added modified : Object → Event
  failed : Error → Event

-- What the select of doWatch receives: an event, the closing of the channel of events, or the end of
-- the context, ctx.Done().
pub data Input : Type 0 where
  event : Event → Input
  closed canceled : Input

-- What the select at the end of the loop of retryWatch receives: ctx.Done(), or the two seconds
pub data Pause : Type 0 where
  interrupted elapsed : Pause

-- What is called of the context, the timer and the client: `watch` opens a session from a revision,
-- `next` and `pause` are the two selects, `stop` ends the session, and `ctx_err` is ctx.Err().
pub record World (S : Type 0) : Type 0 where
  pub watch : Str → S → Option Error × S
  pub next : S → Input × S
  pub pause : S → Pause × S
  pub stop : S → S
  pub ctx_err : S → Error

-- cont, lastRevision, nonTerminal and terminal
pub record Watched : Type 0 where
  pub cont : Bool
  pub last_revision : Str
  pub non_terminal : Option Error
  pub terminal : Option Error

-- apierrors.IsGone and apierrors.IsConflict
abbrev pub is_gone : Error → Bool
is_gone e = elim (reason_of e) [ some gone ↦ true | r ↦ false ]

abbrev pub is_conflict : Error → Bool
is_conflict e = elim (reason_of e) [ some conflict ↦ true | r ↦ false ]

-- lastRevision after an object has come
abbrev pub advance : Object → Str → Str
advance o rev = if o.resource_version == [] then rev else o.resource_version

-- What the callback is shown of an object that was deleted: it counts as being deleted, and has no
-- finalizer.
abbrev pub as_deleted : Object → Object
as_deleted o = record o { deleting = true; finalizers = [] }

-- done and the error
abbrev pub Callback : Type 0 → Type 0
Callback S = Object → S → (Bool × Option Error) × S

abbrev pub stop : Bool → Str → Option Error → Option Error → Watched
stop cont rev e t = record { cont = cont; last_revision = rev; non_terminal = e; terminal = t }

module _ {S : Type 0} (cb : Callback S) (c : World S) where
  -- what follows the callback's answer; `rest` is the remaining loop
  abbrev pub answered :
      Object
      → Str
      → (Bool × Option Error) × S
      → (Str → S → Option (Watched × S))
      → Option (Watched × S)
  answered o rev ((done, some e), s) rest =
      if is_conflict e
      then some (stop false rev (some e) none, s)
      else some (stop false rev none (some e), s)
  answered o rev ((true, none), s) rest = some (stop true rev none none, s)
  answered o rev ((false, none), s) rest = rest (advance o rev) s

  -- one round of the loop of doWatch, with what its select received
  abbrev pub received : Str → Input × S → (Str → S → Option (Watched × S)) → Option (Watched × S)
  received rev (canceled, s) rest =
      some (stop false rev none (some (prefixed (str "terminating watch: ") (c.ctx_err s))), s)
  received rev (closed, s) rest = some (stop false rev none none, s)
  received rev (event (bookmark o), s) rest = rest (advance o rev) s
  received rev (event (deleted o), s) rest = answered (as_deleted o) rev (cb (as_deleted o) s) rest
  received rev (event (added o), s) rest = answered o rev (cb o s) rest
  received rev (event (modified o), s) rest = answered o rev (cb o s) rest
  received rev (event (failed e), s) rest = some (stop false rev none (some e), s)

  -- the endless loop of doWatch, `none` if the fuel is used up
  pub receive : ℕ → Str → S → Option (Watched × S)
  receive zero rev s = none
  receive (suc n) rev s = received rev (c.next s) (receive n)

  -- the deferred end of the session
  abbrev pub stopped : Option (Watched × S) → Option (Watched × S)
  stopped none = none
  stopped (some (w, s)) = some (w, c.stop s)

  abbrev pub opened : ℕ → Str → Option Error × S → Option (Watched × S)
  opened n rev (some e, s) =
      if is_gone e
      then some (stop false rev none (some e), s)
      else some (stop false rev (some e) none, s)
  opened n rev (none, s) = stopped (receive n rev s)

  -- doWatch
  unfoldable pub do_watch : ℕ → Str → S → Option (Watched × S)
  unfolding receive
  do_watch n rev s = opened n rev (c.watch rev s)

-- newCB: it keeps the last object that it was shown
abbrev pub keeping_last : {S : Type 0} → Callback S → Callback (Option Object × S)
keeping_last cb o (last, s) = let (r, s') = cb o s in (r, (some o, s'))

-- the same world beside the variable `last`, which it leaves alone
abbrev pub beside_last : {S : Type 0} → World S → World (Option Object × S)
beside_last c = record {
  watch = λ rev (last, s). let (r, s') = c.watch rev s in (r, (last, s'));
  next = λ (last, s). let (r, s') = c.next s in (r, (last, s'));
  pause = λ (last, s). let (r, s') = c.pause s in (r, (last, s'));
  stop = λ (last, s). (last, c.stop s);
  ctx_err = λ (last, s). c.ctx_err s;
}

module _ {S : Type 0} (cb : Callback S) (c : World S) where
  -- how a round of the loop of retryWatch ends, `exhausted` where the fuel is used up
  pub data Round : Type 0 where
    returns : Option Object → Option Error → S → Round
    again : Str → Option Object → S → Round
    exhausted : Round

  -- the select at the end of the loop
  abbrev pub waited : Str → Option Object → Pause × S → Round
  waited rev last (interrupted, s) = returns last (some (c.ctx_err s)) s
  waited rev last (elapsed, s) = again rev last s

  abbrev pub next_revision : Str → Str → Str
  next_revision rev last_revision = if last_revision == [] then rev else last_revision

  abbrev pub decide : Str → Watched → Option Object → S → Round
  decide rev w last s = elim w.non_terminal [
    | some e ↦ waited (next_revision rev w.last_revision) last (c.pause s)
    | none ↦ elim w.terminal [
      | some e ↦ returns last (some e) s
      | none ↦
          if w.cont
          then returns last none s
          else waited (next_revision rev w.last_revision) last (c.pause s)
    ]
  ]

  abbrev pub watched : Str → Option (Watched × (Option Object × S)) → Round
  watched rev none = exhausted
  watched rev (some (w, (last, s))) = decide rev w last s

  unfoldable pub round : ℕ → Str → Option Object → S → Round
  unfolding do_watch
  round n rev last s = watched rev (do_watch (keeping_last cb) (beside_last c) n rev (last, s))

  -- retryWatch, `none` if the fuel is used up
  pub retry_watch : ℕ → Str → Option Object → S → Option (Option Object × Option Error × S)
  unfolding round
  retry_watch zero rev last s = none
  retry_watch (suc n) rev last s = elim (round (suc n) rev last s) [
    | returns last' e s' ↦ some (last', e, s')
    | again rev' last' s' ↦ retry_watch n rev' last' s'
    | exhausted ↦ none
  ]

  -- the callback of EachListItem, and the loop, which the first error ends
  pub each_list_item : List Object → Option Object → S → Option Object × Option Error × S
  each_list_item [] d s = (d, none, s)
  each_list_item (o ∷ os) d s =
      let ((done, e), s') = cb o s in
      let d' = if done then some o else d in
      let rest = each_list_item os d' s' in elim e [ some x ↦ (d', some x, s') | none ↦ rest ]

  abbrev pub listed :
      ℕ → Str → Option Object × Option Error × S → Option (Option Object × Option Error × S)
  listed n rev (d, some e, s) = some (d, some e, s)
  listed n rev (some o, none, s) = some (some o, none, s)
  listed n rev (none, none, s) = retry_watch n rev none s

  abbrev pub list_answered :
      ℕ → Result (List Object × Str) × S → Option (Option Object × Option Error × S)
  list_answered n (err e, s) = some (none, some e, s)
  list_answered n (ok (os, rev), s) = listed n rev (each_list_item os none s)

  -- bySelector, of which ByObject, ByName and BySelector choose the selectors; `new_list_obj` is the
  -- error of newListObj and `list` the client's List
  unfoldable pub by_selector :
      ℕ
      → Option Error
      → (S → Result (List Object × Str) × S)
      → S
      → Option (Option Object × Option Error × S)
  unfolding each_list_item retry_watch
  by_selector n (some e) list s = some (none, some e, s)
  by_selector n none list s = list_answered n (list s)
