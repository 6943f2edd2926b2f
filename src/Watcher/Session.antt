-- ===== src/Watcher/Session.antt =====
-- A session of a watch ends as done only with an object that the callback accepted.
use baaah.Prelude.{
  ℕ, zero, suc, Bool, true, false, Option, none, some, Str, List, [], ◌≡◌, refl, arith, All,
  list_eq, nat_eq, inl, inr, Bool-cases,
}
use baaah.Objects.{Object}
use baaah.Errors.{Error, Result, ok, err}
use baaah.Watcher.{
  bookmark, deleted, added, modified, failed, Input, event, closed, canceled, World, Watched,
  Callback, is_conflict, is_gone, as_deleted, advance, answered, received, receive, stopped, opened,
  keeping_last, beside_last,
}

-- What the callback is shown of an event has the property: of a deleted object it is a copy that
-- counts as being deleted and has no finalizer.
abbrev pub Shows : (Object → Type 0) → Input → Type 0
Shows P (event (added o)) = P o
Shows P (event (modified o)) = P o
Shows P (event (deleted o)) = P (record o { deleting = true; finalizers = [] })
Shows P i = Unit

-- every object of a list that was read
abbrev pub Lists : (Object → Type 0) → Result (List Object × Str) → Type 0
Lists P (err e) = Unit
Lists P (ok (os, rev)) = All P os

module _ {S : Type 0} (cb : Callback S) (c : World S) (P : Object → Type 0) where
  -- The object has the property, and some call of the callback with it returned that it was done,
  -- and no error.
  abbrev pub Accepted : Object → Type 0
  Accepted o = P o × ((s : S) × ((cb o s).0 ≡ (true, none)))

  abbrev pub IsAccepted : Option Object → Type 0
  IsAccepted last = (o : Object) × (last ≡ some o) × Accepted o

  -- If the session was told that it is done, then the last object was accepted.
  unfoldable pub EndAccepted : Option (Watched × (Option Object × S)) → Type 0
  EndAccepted none = Unit
  EndAccepted (some (w, (last, s))) = w.cont ≡ true → IsAccepted last

module _ {S : Type 0} (cb : Callback S) (c : World S) (P : Object → Type 0)
    (shows : (s : S) → Shows P (c.next s).0) where
  answered-accepted :
      (o : Object) (rev : Str) (r : Bool × Option Error) (s t : S)
      (rest : Str → (Option Object × S) → Option (Watched × (Option Object × S)))
      → P o
      → (cb o t).0 ≡ r
      → ((rev' : Str) → EndAccepted cb c P (rest rev' (some o, s)))
      → EndAccepted cb c P (answered (keeping_last cb) (beside_last c) o rev (r, (some o, s)) rest)
  unfolding EndAccepted
  answered-accepted o rev (b, some e) s t rest p x k = elim (Bool-cases (is_conflict e)) [
    | inl i ↦ rw i (λ h. ground (arith, h))
    | inr i ↦ rw i (λ h. ground (arith, h))
  ]
  answered-accepted o rev (true, none) s t rest p x k = λ h. (o, refl, (p, (t, x)))
  answered-accepted o rev (false, none) s t rest p x k = k (advance o rev)

  received-accepted :
      (rev : Str) (i : Input) (last : Option Object) (s : S)
      (rest : Str → (Option Object × S) → Option (Watched × (Option Object × S)))
      → Shows P i
      → ((rev' : Str) (x : Option Object × S) → EndAccepted cb c P (rest rev' x))
      → EndAccepted cb c P (received (keeping_last cb) (beside_last c) rev (i, (last, s)) rest)
  unfolding EndAccepted
  received-accepted rev canceled last s rest p k = λ h. ground (arith, h)
  received-accepted rev closed last s rest p k = λ h. ground (arith, h)
  received-accepted rev (event (bookmark o)) last s rest p k = k (advance o rev) (last, s)
  received-accepted rev (event (deleted o)) last s rest p k =
      answered-accepted (as_deleted o) rev _ _ s rest p refl
        (λ r. k r (some (as_deleted o), (cb (as_deleted o) s).1))
  received-accepted rev (event (added o)) last s rest p k =
      answered-accepted o rev _ _ s rest p refl (λ r. k r (some o, (cb o s).1))
  received-accepted rev (event (modified o)) last s rest p k =
      answered-accepted o rev _ _ s rest p refl (λ r. k r (some o, (cb o s).1))
  received-accepted rev (event (failed e)) last s rest p k = λ h. ground (arith, h)

  receive-accepted :
      (n : ℕ) (rev : Str) (x : Option Object × S)
      → EndAccepted cb c P (receive (keeping_last cb) (beside_last c) n rev x)
  unfolding receive EndAccepted
  receive-accepted zero rev x = tt
  receive-accepted (suc n) rev (last, s) =
      received-accepted rev (c.next s).0 last (c.next s).1
        (receive (keeping_last cb) (beside_last c) n) (shows s) (receive-accepted n)

  stopped-accepted :
      (r : Option (Watched × (Option Object × S)))
      → EndAccepted cb c P r
      → EndAccepted cb c P (stopped (keeping_last cb) (beside_last c) r)
  unfolding EndAccepted
  stopped-accepted none h = h
  stopped-accepted (some (w, (last, s))) h = h

  pub opened-accepted :
      (n : ℕ) (rev : Str) (e : Option Error) (x : Option Object × S)
      → EndAccepted cb c P (opened (keeping_last cb) (beside_last c) n rev (e, x))
  unfolding EndAccepted
  opened-accepted n rev none x =
      stopped-accepted (receive (keeping_last cb) (beside_last c) n rev x)
        (receive-accepted n rev x)
  opened-accepted n rev (some e) x = elim (Bool-cases (is_gone e)) [
    | inl i ↦ rw i (λ h. ground (arith, h))
    | inr i ↦ rw i (λ h. ground (arith, h))
  ]
