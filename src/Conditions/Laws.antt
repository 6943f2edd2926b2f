-- ===== src/Conditions/Laws.antt =====
-- The condition that is left after the handlers of a request.
use baaah.Prelude.{
  Bool, true, false, Option, none, some, List, [], ◌∷◌, ◌≡◌, arith, is_some, list_eq, nat_eq, inl,
  inr, Bool-cases, Option-cases, ◌∙◌, ◌||◌,
}
use baaah.Conditions.{
  Failure, log_error, Condition, Pass, controller, Library, Handler, note_existing, restored,
  failed_condition, noted, error_middleware,
}

-- the status of the condition
abbrev pub status_of : Option Condition → Option Bool
status_of none = none
status_of (some c) = some c.status

-- A condition that was set is found with its status.
abbrev pub Finds : Library → Type 0
Finds l =
    (c : Condition) (cs : List Condition)
    → c.kind ≡ controller
    → status_of (l.find_status_condition (l.set_status_condition c cs) controller) ≡ some c.status

module _ {W : Type 0} (l : Library) (finds : Finds l) where
  abbrev pub status_in : Pass W → Option Bool
  status_in s = status_of (l.find_status_condition s.conditions controller)

  -- The handler leaves the condition and the attributes of the middleware alone, and never allows pruning again.
  pub record IsPolite (h : Handler W) : Type 0 where
    pub status : (s : Pass W) → status_in (h s).1 ≡ status_in s
    pub errored : (s : Pass W) → (h s).1.errored ≡ s.errored
    pub no_prune : (s : Pass W) → s.no_prune ≡ true → (h s).1.no_prune ≡ true

  -- the handlers, each with the middleware, one after the other
  abbrev pub run_handlers : List (Handler W) → Pass W → Pass W
  run_handlers [] s = s
  run_handlers (h ∷ hs) s = run_handlers hs (error_middleware l h s).1

  -- whether one of them returns an error that is noted
  abbrev pub notes_error : List (Handler W) → Pass W → Bool
  notes_error [] s = false
  notes_error (h ∷ hs) s = is_some (log_error (h s).0) || notes_error hs (error_middleware l h s).1

  abbrev pub AllPolite : List (Handler W) → Type 0
  AllPolite [] = Unit
  AllPolite (h ∷ hs) = IsPolite h × AllPolite hs

  -- the state after an error was noted
  pub record HasFailed (s : Pass W) : Type 0 where
    pub status : status_in s ≡ some false
    pub errored : s.errored ≡ true
    pub no_prune : s.no_prune ≡ true

  noted-HasFailed :
      (e f : Option Failure) (s : Pass W)
      → HasFailed s
      → HasFailed (noted l e f (note_existing l s)).1
  noted-HasFailed e (some f) s v = record {
    status = ground (arith, v.status, v.errored);
    errored = ground (arith, v.errored);
    no_prune = ground (arith, v.errored, v.no_prune);
  }
  noted-HasFailed (some e) none s v = record {
    status = ground (arith, v.status);
    errored = ground (arith, v.errored);
    no_prune = ground (arith, v.no_prune);
  }
  noted-HasFailed none none s v = record {
    status = ground (arith, v.status, v.errored);
    errored = ground (arith, v.errored);
    no_prune = ground (arith, v.errored, v.no_prune);
  }

  error_middleware-HasFailed :
      (h : Handler W) (s : Pass W) → IsPolite h → HasFailed s → HasFailed (error_middleware l h s).1
  unfolding error_middleware
  error_middleware-HasFailed h s p v = noted-HasFailed (h s).0 (log_error (h s).0) (h s).1 (record {
    status = p.status s ∙ v.status;
    errored = p.errored s ∙ v.errored;
    no_prune = p.no_prune s v.no_prune;
  })

  run_handlers-HasFailed :
      (hs : List (Handler W)) (s : Pass W)
      → AllPolite hs
      → HasFailed s
      → HasFailed (run_handlers hs s)
  run_handlers-HasFailed [] s p v = v
  run_handlers-HasFailed (h ∷ hs) s p v =
      run_handlers-HasFailed hs (error_middleware l h s).1 p.1
        (error_middleware-HasFailed h s p.0 v)

  noted-fails :
      (e : Option Failure) (f : Failure) (s : Pass W)
      → s.errored ≡ false
      → HasFailed (noted l e (some f) (note_existing l s)).1
  noted-fails e f s n = record {
    status = ground (
      arith,
      n,
      finds (failed_condition l f s) (restored l (note_existing l s).existing s.conditions),
    );
    errored = ground (arith, n);
    no_prune = ground (arith, n);
  }

  error_middleware-fails :
      (h : Handler W) (s : Pass W)
      → IsPolite h
      → s.errored ≡ false
      → is_some (log_error (h s).0) ≡ true
      → HasFailed (error_middleware l h s).1
  unfolding error_middleware
  error_middleware-fails h s p n i = elim (Option-cases (log_error (h s).0)) [
    | inl e ↦ ground (arith, e, i)
    | inr (f, e) ↦ rw (e, error_middleware) (noted-fails (h s).0 f (h s).1 (p.errored s ∙ n))
  ]

  -- without an error to note, none is marked
  errored-noted :
      (e : Option Failure) (s : Pass W) → (noted l e none (note_existing l s)).1.errored ≡ s.errored
  errored-noted (some e) s = ground arith
  errored-noted none s = ground arith

  error_middleware-quiet :
      (h : Handler W) (s : Pass W)
      → IsPolite h
      → s.errored ≡ false
      → is_some (log_error (h s).0) ≡ false
      → (error_middleware l h s).1.errored ≡ false
  unfolding error_middleware
  error_middleware-quiet h s p n i = elim (Option-cases (log_error (h s).0)) [
    | inr (f, e) ↦ ground (arith, e, i)
    | inl e ↦ rw (e, error_middleware) (errored-noted (h s).0 (h s).1 ∙ p.errored s ∙ n)
  ]

  -- Where handlers run one after the other, each with the middleware, and one of them returns an
  -- error that is noted, the condition `Controller` is False at the end, the pass is marked as
  -- errored and may not prune, whatever the others return; none was marked before, the handlers
  -- leave the condition and the marks alone, and a condition that was set is found with its status.
  pub run_handlers-fails :
      (hs : List (Handler W)) (s : Pass W)
      → AllPolite hs
      → s.errored ≡ false
      → notes_error hs s ≡ true
      → HasFailed (run_handlers hs s)
  run_handlers-fails [] s p n i = ground (arith, i)
  run_handlers-fails (h ∷ hs) s p n i = elim (Bool-cases (is_some (log_error (h s).0))) [
    | inl e ↦
        run_handlers-HasFailed hs (error_middleware l h s).1 p.1
          (error_middleware-fails h s p.0 n e)
    | inr e ↦
        run_handlers-fails hs (error_middleware l h s).1 p.1 (error_middleware-quiet h s p.0 n e)
          (ground (arith, i, e))
  ]
