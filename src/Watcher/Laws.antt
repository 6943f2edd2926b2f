-- ===== src/Watcher/Laws.antt =====
-- A watch returns without an error only what the callback accepted.
use baaah.Prelude.{
  ℕ, zero, suc, true, Option, none, some, Str, List, [], ◌∷◌, ◌≡◌, refl, arith, All, if◌then◌else◌,
  list_eq, nat_eq, inl, inr, Bool-cases, Option-cases,
}
use baaah.Objects.{Object}
use baaah.Errors.{Error, Result, ok, err}
use baaah.Watcher.{
  Pause, interrupted, elapsed, World, Watched, Callback, do_watch, keeping_last, beside_last, Round,
  returns, again, exhausted, waited, next_revision, decide, watched, round, retry_watch,
  each_list_item, listed, list_answered, by_selector,
}
use baaah.Watcher.Session.{Shows, Lists, Accepted, IsAccepted, EndAccepted, opened-accepted}

module _ {S : Type 0} (cb : Callback S) (c : World S) (P : Object → Type 0) where
  -- Of a result: what came without an error was accepted.
  abbrev pub ResultAccepted : Option (Option Object × Option Error × S) → Type 0
  ResultAccepted none = Unit
  ResultAccepted (some (l, none, s)) = IsAccepted cb c P l
  ResultAccepted (some (l, some e, s)) = Unit

module _ {S : Type 0} (cb : Callback S) (c : World S) (P : Object → Type 0)
    (shows : (s : S) → Shows P (c.next s).0) where
  -- Of a round: what it returns without an error was accepted.
  AcceptedBy : Round cb c → Type 0
  AcceptedBy (returns l none s) = IsAccepted cb c P l
  AcceptedBy (returns l (some e) s) = Unit
  AcceptedBy (again r l s) = Unit
  AcceptedBy exhausted = Unit

  waited-accepted :
      (rev : Str) (last : Option Object) (p : Pause) (s : S)
      → AcceptedBy (waited cb c rev last (p, s))
  unfolding AcceptedBy
  waited-accepted rev last interrupted s = tt
  waited-accepted rev last elapsed s = tt

  decide-accepted :
      (rev : Str) (w : Watched) (last : Option Object) (s : S)
      → (w.cont ≡ true → IsAccepted cb c P last)
      → AcceptedBy (decide cb c rev w last s)
  unfolding AcceptedBy
  decide-accepted rev w last s h =
      let later =
        waited-accepted (next_revision cb c rev w.last_revision) last (c.pause s).0 (c.pause s).1 in
      elim (Option-cases w.non_terminal) [
        | inr (e, f) ↦ rw (f, decide) later
        | inl f ↦ elim (Option-cases w.terminal) [
          | inr (e, g) ↦ rw (f, g, decide) tt
          | inl g ↦ elim (Bool-cases w.cont) [
            | inl i ↦ rw (f, g, i, decide) (h i)
            | inr i ↦ rw (f, g, i, decide) later
          ]
        ]
      ]

  watched-accepted :
      (rev : Str) (r : Option (Watched × (Option Object × S)))
      → EndAccepted cb c P r
      → AcceptedBy (watched cb c rev r)
  unfolding EndAccepted AcceptedBy
  watched-accepted rev none h = tt
  watched-accepted rev (some (w, (last, s))) h = decide-accepted rev w last s h

  round-accepted :
      (n : ℕ) (rev : Str) (last : Option Object) (s : S) → AcceptedBy (round cb c n rev last s)
  unfolding round do_watch
  round-accepted n rev last s =
      watched-accepted rev (do_watch (keeping_last cb) (beside_last c) n rev (last, s))
        (opened-accepted cb c P shows n rev (c.watch rev s).0 (last, (c.watch rev s).1))

  of_round :
      (l : Option Object) (e : Option Error) (s : S)
      → AcceptedBy (returns l e s)
      → ResultAccepted cb c P (some (l, e, s))
  unfolding AcceptedBy
  of_round l none s v = v
  of_round l (some e) s v = tt

  retry_watch-accepted :
      (n : ℕ) (rev : Str) (last : Option Object) (s : S)
      → ResultAccepted cb c P (retry_watch cb c n rev last s)
  unfolding retry_watch
  retry_watch-accepted zero rev last s = tt
  retry_watch-accepted (suc n) rev last s =
      go (round cb c (suc n) rev last s) (retry_watch-accepted n) refl
        (round-accepted (suc n) rev last s)
    where
      go :
          (r : Round cb c)
          → ((r' : Str) (l : Option Object) (t : S)
              → ResultAccepted cb c P (retry_watch cb c n r' l t))
          → round cb c (suc n) rev last s ≡ r
          → AcceptedBy r
          → ResultAccepted cb c P (retry_watch cb c (suc n) rev last s)
      go (returns l e t) later f k = rw (f, retry_watch) (of_round l e t k)
      go (again r l t) later f k = rw (f, retry_watch) (later r l t)
      go exhausted later f k = rw (f, retry_watch) tt

  -- the object that the loop over the list keeps, if no error ended it
  abbrev KeptAccepted : Option Object × Option Error × S → Type 0
  KeptAccepted (none, e, s) = Unit
  KeptAccepted (some o, none, s) = Accepted cb c P o
  KeptAccepted (some o, some e, s) = Unit

  each_list_item-accepted :
      (os : List Object) (d : Option Object) (s : S)
      → All P os
      → KeptAccepted (d, none, s)
      → KeptAccepted (each_list_item cb c os d s)
  unfolding each_list_item
  each_list_item-accepted [] d s p v = v
  each_list_item-accepted (o ∷ os) d s p v = elim (Option-cases (cb o s).0.1) [
    | inr (e, f) ↦ rw (f, each_list_item) (failing (if (cb o s).0.0 then some o else d) e)
    | inl f ↦
        rw (f, each_list_item)
          (each_list_item-accepted os (if (cb o s).0.0 then some o else d) (cb o s).1 p.1
            (kept d f v))
  ]
    where
      failing : (x : Option Object) (e : Error) → KeptAccepted (x, some e, (cb o s).1)
      failing none e = tt
      failing (some x) e = tt

      kept :
          (d : Option Object)
          → (cb o s).0.1 ≡ none
          → KeptAccepted (d, none, s)
          → KeptAccepted ((if (cb o s).0.0 then some o else d), none, (cb o s).1)
      kept d f v = elim (Bool-cases (cb o s).0.0) [
        | inl i ↦ rw (i) (p.0, (s, ground (arith, i, f)))
        | inr i ↦ rw (i) (still d v)
      ]
        where
          still :
              (d : Option Object) → KeptAccepted (d, none, s) → KeptAccepted (d, none, (cb o s).1)
          still none v = tt
          still (some x) v = v

  listed-accepted :
      (n : ℕ) (rev : Str) (d : Option Object) (e : Option Error) (s : S)
      → KeptAccepted (d, e, s)
      → ResultAccepted cb c P (listed cb c n rev (d, e, s))
  listed-accepted n rev d (some e) s v = tt
  listed-accepted n rev (some o) none s v = (o, refl, v)
  listed-accepted n rev none none s v = retry_watch-accepted n rev none s

  -- What a watch returns without an error is an object with which the callback was called and
  -- returned that it was done, with no error. It has every property that the listed objects have
  -- and the added and modified objects of all events have, and, with a time of deletion and without
  -- its finalizers, every deleted one.
  pub by_selector-accepted :
      (n : ℕ) (new_list_obj : Option Error) (list : S → Result (List Object × Str) × S) (s : S)
      → Lists P (list s).0
      → ResultAccepted cb c P (by_selector cb c n new_list_obj list s)
  unfolding by_selector
  by_selector-accepted n (some e) list s p = tt
  by_selector-accepted n none list s p = go (list s).0 (list s).1 p
    where
      go :
          (r : Result (List Object × Str)) (t : S)
          → Lists P r
          → ResultAccepted cb c P (list_answered cb c n (r, t))
      go (err e) t p = tt
      go (ok (os, rev)) t p =
          let x = each_list_item cb c os none t in
          listed-accepted n rev x.0 x.1 x.2 (each_list_item-accepted os none t p tt)
