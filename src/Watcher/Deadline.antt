-- ===== src/Watcher/Deadline.antt =====
-- A watch ends with its context.
use baaah.Prelude.{
  ℕ, zero, suc, Bool, true, false, Option, none, some, Str, List, [], ◌∷◌, ◌≡◌, refl, arith, ◌≤◌,
  ◌<◌, is_some, if◌then◌else◌, list_eq, nat_eq, inl, inr, Bool-cases, Option-cases,
}
use baaah.Objects.{Object}
use baaah.Errors.{Error, Result, ok, err}
use baaah.Watcher.{
  bookmark, deleted, added, modified, failed, Input, event, closed, canceled, Pause, interrupted,
  elapsed, World, Watched, Callback, as_deleted, advance, answered, received, receive, stopped,
  opened, do_watch, keeping_last, beside_last, Round, returns, again, exhausted, waited,
  next_revision, decide, watched, round, retry_watch, each_list_item, listed, list_answered,
  by_selector,
}

abbrev pub is_canceled : Input → Bool
is_canceled canceled = true
is_canceled i = false

abbrev pub is_interrupted : Pause → Bool
is_interrupted interrupted = true
is_interrupted elapsed = false

-- `left s` bounds how often a select may still choose another case than the end of the context, and
-- nothing that is called makes it larger.
pub record HasDeadline {S : Type 0} (cb : Callback S) (c : World S) (left : S → ℕ) : Type 0 where
  pub cb_left : (o : Object) (s : S) → left (cb o s).1 ≤ left s
  pub watch_left : (rev : Str) (s : S) → left (c.watch rev s).1 ≤ left s
  pub stop_left : (s : S) → left (c.stop s) ≤ left s
  pub next_left : (s : S) → is_canceled (c.next s).0 ≡ false → left (c.next s).1 < left s
  pub canceled_left : (s : S) → left (c.next s).1 ≤ left s
  pub pause_left : (s : S) → is_interrupted (c.pause s).0 ≡ false → left (c.pause s).1 < left s

module _ {S : Type 0} (cb : Callback S) (c : World S) (left : S → ℕ)
    (d : HasDeadline cb c left) where
  -- a session that ended, in a state with no more than `k` left
  Within : ℕ → Option (Watched × S) → Type 0
  Within k none = 1 ≤ 0
  Within k (some (w, s)) = left s ≤ k

  answered-Within :
      (k : ℕ) (o : Object) (rev : Str) (r : Bool × Option Error) (s : S)
      (rest : Str → S → Option (Watched × S))
      → left s ≤ k
      → ((rev' : Str) → Within k (rest rev' s))
      → Within k (answered cb c o rev (r, s) rest)
  unfolding Within
  answered-Within k o rev (b, some e) s rest h t = ground arith
  answered-Within k o rev (true, none) s rest h t = h
  answered-Within k o rev (false, none) s rest h t = t (advance o rev)

  received-Within :
      (k : ℕ) (rev : Str) (i : Input) (s : S) (rest : Str → S → Option (Watched × S))
      → left s ≤ k
      → (is_canceled i ≡ false → (rev' : Str) (t : S) → left t ≤ left s → Within k (rest rev' t))
      → Within k (received cb c rev (i, s) rest)
  unfolding Within
  received-Within k rev canceled s rest h t = h
  received-Within k rev closed s rest h t = h
  received-Within k rev (event (bookmark o)) s rest h t = t refl (advance o rev) s (omega arith)
  received-Within k rev (event (deleted o)) s rest h t =
      let l = d.cb_left (as_deleted o) s in
      answered-Within k (as_deleted o) rev _ _ rest (omega (arith, l, h))
        (λ r. t refl r (cb (as_deleted o) s).1 l)
  received-Within k rev (event (added o)) s rest h t =
      let l = d.cb_left o s in
      answered-Within k o rev _ _ rest (omega (arith, l, h)) (λ r. t refl r (cb o s).1 l)
  received-Within k rev (event (modified o)) s rest h t =
      let l = d.cb_left o s in
      answered-Within k o rev _ _ rest (omega (arith, l, h)) (λ r. t refl r (cb o s).1 l)
  received-Within k rev (event (failed e)) s rest h t = h

  receive-Within :
      (n k : ℕ) (rev : Str) (s : S) → left s < n → left s ≤ k → Within k (receive cb c n rev s)
  unfolding receive
  receive-Within zero k rev s h j = ground arith
  receive-Within (suc n) k rev s h j =
      received-Within k rev (c.next s).0 (c.next s).1 (receive cb c n)
        (omega (arith, d.canceled_left s, j))
        (λ f r t l.
          receive-Within n k r t (omega (arith, d.next_left s f, l, h))
            (omega (arith, d.canceled_left s, l, j)))

  stopped-Within : (k : ℕ) (r : Option (Watched × S)) → Within k r → Within k (stopped cb c r)
  unfolding Within
  stopped-Within k none h = h
  stopped-Within k (some (w, s)) h = omega (arith, d.stop_left s, h)

  opened-Within :
      (n k : ℕ) (rev : Str) (e : Option Error) (s : S)
      → left s < n
      → left s ≤ k
      → Within k (opened cb c n rev (e, s))
  unfolding Within
  opened-Within n k rev (some e) s h j = ground arith
  opened-Within n k rev none s h j =
      stopped-Within k (receive cb c n rev s) (receive-Within n k rev s h j)

  -- doWatch returns
  do_watch-Within :
      (n : ℕ) (rev : Str) (s : S) → left s < n → Within (left s) (do_watch cb c n rev s)
  unfolding do_watch
  do_watch-Within n rev s h =
      let l = d.watch_left rev s in
      opened-Within n (left s) rev (c.watch rev s).0 (c.watch rev s).1 (omega (arith, l, h)) l

module _ {S : Type 0} (cb : Callback S) (c : World S) where
  module _ (left : S → ℕ) (d : HasDeadline cb c left) where
    abbrev left_beside : (Option Object × S) → ℕ
    left_beside x = left x.1

    beside_last-HasDeadline : HasDeadline (keeping_last cb) (beside_last c) left_beside
    beside_last-HasDeadline = record {
      cb_left = λ o s. d.cb_left o s.1;
      watch_left = λ rev s. d.watch_left rev s.1;
      stop_left = λ s. d.stop_left s.1;
      next_left = λ s h. d.next_left s.1 h;
      canceled_left = λ s. d.canceled_left s.1;
      pause_left = λ s h. d.pause_left s.1 h;
    }

    -- the round ends, and the state in which the next one starts has less time
    Less : ℕ → Round cb c → Type 0
    Less n (returns l e s) = Unit
    Less n (again r l s) = left s < n
    Less n exhausted = 1 ≤ 0

    waited-left :
        (rev : Str) (last : Option Object) (s : S) (n : ℕ)
        → left s ≤ n
        → Less n (waited cb c rev last (c.pause s))
    unfolding Less
    waited-left rev last s n h = go (c.pause s).0 (c.pause s).1 (d.pause_left s)
      where
        go :
            (p : Pause) (t : S)
            → (is_interrupted p ≡ false → left t < left s)
            → Less n (waited cb c rev last (p, t))
        go interrupted t k = tt
        go elapsed t k = omega (arith, k refl, h)

    decide-left :
        (rev : Str) (w : Watched) (last : Option Object) (s : S) (n : ℕ)
        → left s ≤ n
        → Less n (decide cb c rev w last s)
    unfolding Less
    decide-left rev w last s n h =
        let later = waited-left (next_revision cb c rev w.last_revision) last s n h in
        elim (Option-cases w.non_terminal) [
          | inr (e, f) ↦ rw (f, decide) later
          | inl f ↦ elim (Option-cases w.terminal) [
            | inr (e, g) ↦ rw (f, g, decide) tt
            | inl g ↦ elim (Bool-cases w.cont) [
              | inl i ↦ rw (f, g, i, decide) tt
              | inr i ↦ rw (f, g, i, decide) later
            ]
          ]
        ]

    round-left :
        (n : ℕ) (rev : Str) (last : Option Object) (s : S)
        → left s < n
        → Less (left s) (round cb c n rev last s)
    unfolding round Within Less
    round-left n rev last s h = go (do_watch (keeping_last cb) (beside_last c) n rev (last, s)) (
        do_watch-Within (keeping_last cb) (beside_last c) left_beside beside_last-HasDeadline n rev
          (last, s) h)
      where
        go :
            (r : Option (Watched × (Option Object × S)))
            → Within
                (keeping_last cb)
                (beside_last c)
                left_beside
                beside_last-HasDeadline
                (left s)
                r
            → Less (left s) (watched cb c rev r)
        go none k = k
        go (some (w, (l, t))) k = decide-left rev w l t (left s) k

    retry_watch-total :
        (n : ℕ) (rev : Str) (last : Option Object) (s : S)
        → left s < n
        → is_some (retry_watch cb c n rev last s) ≡ true
    unfolding retry_watch Less
    retry_watch-total zero rev last s h = ground (arith, h)
    retry_watch-total (suc n) rev last s h =
        go (round cb c (suc n) rev last s) (retry_watch-total n) refl
          (round-left (suc n) rev last s h)
      where
        go :
            (r : Round cb c)
            → ((r' : Str) (l : Option Object) (t : S)
                → left t < n
                → is_some (retry_watch cb c n r' l t) ≡ true)
            → round cb c (suc n) rev last s ≡ r
            → Less (left s) r
            → is_some (retry_watch cb c (suc n) rev last s) ≡ true
        go (returns l e t) later f k = rw (f, retry_watch) refl
        go (again r l t) later f k = rw (f, retry_watch) (later r l t (omega (arith, k, h)))
        go exhausted later f k = absurd (omega (arith, k))

    each_list_item-left :
        (os : List Object) (o : Option Object) (s : S)
        → left (each_list_item cb c os o s).2 ≤ left s
    unfolding each_list_item
    each_list_item-left [] o s = omega arith
    each_list_item-left (x ∷ os) o s = ground (
      arith,
      d.cb_left x s,
      each_list_item-left os (if (cb x s).0.0 then some x else o) (cb x s).1,
    )

    listed-total :
        (n : ℕ) (rev : Str) (o : Option Object) (e : Option Error) (s : S)
        → left s < n
        → is_some (listed cb c n rev (o, e, s)) ≡ true
    listed-total n rev o (some e) s h = refl
    listed-total n rev (some o) none s h = refl
    listed-total n rev none none s h = retry_watch-total n rev none s h

    -- A watch returns: fuel of one more than `left s` is enough for the two endless loops, for
    -- every sequence of events, closed sessions and waits. `left s` bounds how often a select may
    -- still choose another case than the end of the context, and neither the callback nor a call of
    -- the client makes it larger.
    pub by_selector-total :
        (n : ℕ) (new_list_obj : Option Error) (list : S → Result (List Object × Str) × S) (s : S)
        → left (list s).1 ≤ left s
        → left s < n
        → is_some (by_selector cb c n new_list_obj list s) ≡ true
    unfolding by_selector
    by_selector-total n (some e) list s l h = refl
    by_selector-total n none list s l h = go (list s).0 (list s).1 l
      where
        go :
            (r : Result (List Object × Str)) (t : S)
            → left t ≤ left s
            → is_some (list_answered cb c n (r, t)) ≡ true
        go (err e) t k = refl
        go (ok (os, rev)) t k =
            let x = each_list_item cb c os none t in
            listed-total n rev x.0 x.1 x.2 (omega (arith, each_list_item-left os none t, k, h))
