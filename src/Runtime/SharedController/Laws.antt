-- ===== src/Runtime/SharedController/Laws.antt =====
-- What every sequence of operations leaves of a shared controller, and what a start of all leaves.
use baaah.Prelude.{
  ℕ, true, is_some, if◌then◌else◌, Option, none, some, Str, [], ◌∷◌, ◌≡◌, refl, arith, inl, inr,
  Bool-cases, Option-cases, All,
}
use baaah.Prelude.Map.{Map}
use baaah.Objects.{Gvk, gvk_eq}
use baaah.Errors.{Error}
use baaah.Runtime.SharedController.{
  Inner, working, failing, Shared, new_shared, Ops, deferred, init_controller, enqueue, enqueue_key,
  began, start, context_done, register_handler, Factory, get_workers, then_start, start_each,
}

-- A controller that runs was made without an error, and the error of the making is what is kept.
pub record IsValid (s : Shared) : Type 0 where
  pub runs : s.started ≡ true → s.controller ≡ some working
  pub failed : (e : Error) → s.controller ≡ some (failing e) → s.start_error ≡ some e
  pub made : s.controller ≡ some working → s.start_error ≡ none
  pub unmade : s.controller ≡ none → s.start_error ≡ none

module _ {W : Type 0} (o : Ops W) where
  -- One call, with any state of what is outside.
  pub data Step : Shared → Shared → Type 0 where
    enqueues :
        (namespace name : Str) (s : Shared) (w : W) → Step s (enqueue o namespace name (s, w)).0
    enqueues_key : (key : Str) (s : Shared) (w : W) → Step s (enqueue_key o key (s, w)).0
    registers : (s : Shared) (w : W) → Step s (register_handler o (s, w)).1
    starts : (workers : ℕ) (s : Shared) (w : W) → Step s (start o workers (s, w)).1
    ends : (s : Shared) (w : W) → Step s (context_done o (s, w)).0

  pub data Reach : Shared → Type 0 where
    begin : Reach new_shared
    step : (s t : Shared) → Reach s → Step s t → Reach t

  deferred-IsValid :
      (s : Shared) (r : Option Error) (w : W)
      → s.controller ≡ none
      → IsValid s
      → IsValid (deferred o s (r, w)).0
  deferred-IsValid s none w n v = record {
    runs = λ h. ground (arith, h, n, v.runs);
    failed = λ e h. ground (arith, h);
    made = λ h. refl;
    unmade = λ h. refl;
  }
  deferred-IsValid s (some x) w n v = record {
    runs = λ h. ground (arith, h, n, v.runs);
    failed = λ e h. ground (arith, h);
    made = λ h. ground (arith, h);
    unmade = λ h. ground (arith, h);
  }

  init_controller-IsValid : (s : Shared) (w : W) → IsValid s → IsValid (init_controller o (s, w)).0
  unfolding init_controller
  init_controller-IsValid s w v = go s.controller refl
    where
      go : (c : Option Inner) → s.controller ≡ c → IsValid (init_controller o (s, w)).0
      go none e =
          ground (
            arith,
            e,
            deferred-IsValid s (o.deferred_controller w).0 (o.deferred_controller w).1 e v,
          )
      go (some c) e = ground (arith, e)

  began-IsValid :
      (s : Shared) (r : Option Error) (w : W)
      → s.controller ≡ some working
      → IsValid s
      → IsValid (began o s (r, w)).1
  began-IsValid s none w n v = record {
    runs = λ h. n;
    failed = v.failed;
    made = v.made;
    unmade = v.unmade;
  }
  began-IsValid s (some e) w n v = v

  start-IsValid :
      (workers : ℕ) (s : Shared) (w : W) → IsValid s → IsValid (start o workers (s, w)).1
  unfolding start
  start-IsValid workers s w v = elim (Option-cases s.start_error) [
    | inr (e, h) ↦ ground (arith, h)
    | inl h ↦ go s.controller h refl
  ]
    where
      go :
          (c : Option Inner)
          → s.start_error ≡ none
          → s.controller ≡ c
          → IsValid (start o workers (s, w)).1
      go none h e = ground (arith, h, e)
      go (some (failing x)) h e = ground (arith, h, v.failed x e)
      go (some working) h e = elim (Bool-cases s.started) [
        | inl i ↦ ground (arith, h, e, i)
        | inr i ↦
            ground (arith, h, e, i, began-IsValid s (o.start workers w).0 (o.start workers w).1 e v)
      ]

  context_done-IsValid : (s : Shared) (w : W) → IsValid s → IsValid (context_done o (s, w)).0
  unfolding context_done
  context_done-IsValid s w v = record {
    runs = λ h. ground (arith, h);
    failed = v.failed;
    made = v.made;
    unmade = v.unmade;
  }

  Step-IsValid : (s t : Shared) → Step s t → IsValid s → IsValid t
  unfolding enqueue enqueue_key register_handler
  Step-IsValid s t (enqueues ns n _ w) v = init_controller-IsValid s w v
  Step-IsValid s t (enqueues_key k _ w) v = init_controller-IsValid s w v
  Step-IsValid s t (registers _ w) v = init_controller-IsValid s w v
  Step-IsValid s t (starts k _ w) v = start-IsValid k s w v
  Step-IsValid s t (ends _ w) v = context_done-IsValid s w v

  Reach-IsValid : (s : Shared) → Reach s → IsValid s
  Reach-IsValid _ begin = record {
    runs = λ h. ground (arith, h);
    failed = λ e h. ground (arith, h);
    made = λ h. refl;
    unmade = λ h. refl;
  }
  Reach-IsValid _ (step s t r x) = Step-IsValid s t x (Reach-IsValid s r)

  -- What Start has to do with the controller that there is.
  abbrev pub started_as : Option Inner → ℕ → Shared × W → Option Error × Shared × W
  started_as none workers (s, w) = (none, s, w)
  started_as (some (failing e)) workers (s, w) = (some e, s, w)
  started_as (some working) workers (s, w) =
      if s.started
      then (none, s, w)
      else (let (e, w') = o.start workers w in
          (e, (if is_some e then s else record s { started = true }), w'))

  -- In every state of a shared controller that its operations lead to, in any order and whatever
  -- the calls they make return, it runs only if its controller was made without an error. A Start
  -- then returns nil and calls nothing where no controller was made yet; where the making failed it
  -- returns the error of the making and calls nothing; where the controller runs it returns nil and
  -- calls nothing; and elsewhere it starts the controller and returns what that returns, and the
  -- controller counts as running exactly if that is nil.
  pub start-Reach :
      (workers : ℕ) (s : Shared) (w : W)
      → Reach s
      → (s.started ≡ true → s.controller ≡ some working)
        × (start o workers (s, w) ≡ started_as s.controller workers (s, w))
  unfolding start
  start-Reach workers s w r = ((Reach-IsValid s r).runs, go s.controller refl)
    where
      v : IsValid s
      v = Reach-IsValid s r

      go :
          (c : Option Inner)
          → s.controller ≡ c
          → start o workers (s, w) ≡ started_as c workers (s, w)
      go none e = ground (arith, e, v.unmade e)
      go (some (failing x)) e = ground (arith, e, v.failed x e)
      go (some working) e = ground (arith, e, v.made e)

abbrev pub Runs : Shared → Type 0
Runs s = s.controller ≡ some working → s.started ≡ true

start-Runs :
    {W : Type 0} (o : Ops W) (workers : ℕ) (s : Shared) (w : W)
    → (start o workers (s, w)).0 ≡ none
    → Runs (start o workers (s, w)).1
unfolding start
start-Runs o workers s w h m = ground (arith, h, m)

then_start-Runs :
    {W : Type 0} (o : Gvk → Ops W) (g : Gvk) (m : Map Gvk Shared) (e : Option Error) (s : Shared)
    (w : W) (rest : W → Option Error × Map Gvk Shared × W)
    → (e ≡ none → Runs s)
    → ((rest w).0 ≡ none → All (λ x. Runs x.1) (rest w).1)
    → (then_start o (e, s, w) rest g m).0 ≡ none
    → All (λ x. Runs x.1) (then_start o (e, s, w) rest g m).1
then_start-Runs o g m (some e) s w rest h k n = ground (arith, n)
then_start-Runs o g m none s w rest h k n = (h refl, k n)

-- Where the start of all kinds returns no error, every shared controller whose controller was made
-- runs.
pub start_each-Runs :
    {W : Type 0} (o : Gvk → Ops W) (workers : ℕ) (f : Factory) (m : Map Gvk Shared) (w : W)
    → (start_each o workers f m w).0 ≡ none
    → All (λ e. Runs e.1) (start_each o workers f m w).1
unfolding start_each
start_each-Runs o workers f [] w h = tt
start_each-Runs o workers f ((g, s) ∷ m) w h =
    let k = get_workers g workers f in
    let r = start (o g) k (s, w) in
    then_start-Runs o g m r.0 r.1 r.2 (start_each o workers f m) (start-Runs (o g) k s w)
      (start_each-Runs o workers f m r.2) h
