-- ===== src/Conditions.antt =====
-- pkg/conditions/setter.go: the middleware that notes the outcome of the handlers of a request as the
-- condition "Controller" of its object. It is modelled for an object that has conditions; around any
-- other it hands the request on.
pub mod Laws
pub mod Tests
use baaah.Prelude.{
  ℕ, Bool, true, false, Option, none, some, Str, str, List, [], ◌∷◌, ◌++◌, is_some, if◌then◌else◌,
}
use baaah.Errors.{Error, Reason, not_found}
use baaah.Apply.Client.{reason_of}

-- The errors of handlers, as errors.As goes down them: `terminal` is *ErrTerminal with its cause, and
-- `all_of` is merr.Errors, the errors of several handlers.
mutual
  pub data Failure : Type 0 where
    cause : Error → Failure
    terminal : Failure → Failure
    wrapped : Str → Failure → Failure
    all_of : Failures → Failure

  pub data Failures : Type 0 where
    nil : Failures
    cons : Failure → Failures → Failures

abbrev pub or_else : {A : Type 0} → Option A → Option A → Option A
or_else (some x) y = some x
or_else none y = y

-- errors.As(err, &uErr): the first that is found
unfoldable mutual
  pub as_terminal : Failure → Option Failure
  as_terminal (cause e) = none
  as_terminal (terminal f) = some (terminal f)
  as_terminal (wrapped s f) = as_terminal f
  as_terminal (all_of fs) = first_terminal fs

  pub first_terminal : Failures → Option Failure
  first_terminal nil = none
  first_terminal (cons f fs) = or_else (as_terminal f) (first_terminal fs)

-- the reason of the first API error that errors.As finds
unfoldable mutual
  pub failure_reason : Failure → Option Reason
  failure_reason (cause e) = reason_of e
  failure_reason (terminal f) = failure_reason f
  failure_reason (wrapped s f) = failure_reason f
  failure_reason (all_of fs) = first_failure_reason fs

  pub first_failure_reason : Failures → Option Reason
  first_failure_reason nil = none
  first_failure_reason (cons f fs) = or_else (failure_reason f) (first_failure_reason fs)

-- apierrors.IsNotFound
unfoldable pub is_missing : Failure → Bool
unfolding failure_reason
is_missing f = elim (failure_reason f) [ some not_found ↦ true | r ↦ false ]

-- logErr
abbrev pub log_error : Option Failure → Option Failure
log_error none = none
log_error (some f) = elim (as_terminal f) [
  | some t ↦ some t
  | none ↦ if is_missing f then some f else none
]

-- metav1.Condition; the status is True or False
pub record Condition : Type 0 where
  pub kind : Str
  pub status : Bool
  pub observed_generation : ℕ
  pub reason : Str
  pub message : Str

-- What one pass over the handlers shares: the object, the attributes "_errormiddleware" and
-- "_errormiddleware:errored" of the response, whether it may prune, and what is outside.
pub record Pass (W : Type 0) : Type 0 where
  pub conditions : List Condition
  pub generation : ℕ
  pub existing : Option Condition
  pub errored : Bool
  pub no_prune : Bool
  pub outside : W

abbrev pub controller : Str
controller = str "Controller"

-- FindStatusCondition and SetStatusCondition of apimachinery, the text of an error and the name of its
-- type
pub record Library : Type 0 where
  pub find_status_condition : List Condition → Str → Option Condition
  pub set_status_condition : Condition → List Condition → List Condition
  pub error_text : Failure → Str
  pub type_name : Failure → Str

-- a handler of a request, on what the pass shares
abbrev pub Handler : Type 0 → Type 0
Handler W = Pass W → Option Failure × Pass W

-- SetStatusCondition with a condition that may be nil
abbrev pub restored : Library → Option Condition → List Condition → List Condition
restored l none cs = cs
restored l (some c) cs = l.set_status_condition c cs

module _ {W : Type 0} (l : Library) where
  -- the first pass keeps a copy of the condition
  abbrev pub note_existing : Pass W → Pass W
  note_existing s = elim s.existing [
    | some c ↦ s
    | none ↦ record s { existing = l.find_status_condition s.conditions controller }
  ]

  abbrev pub put : Condition → Pass W → Pass W
  put c s = record s { conditions = l.set_status_condition c (restored l s.existing s.conditions) }

  abbrev pub failed_condition : Failure → Pass W → Condition
  failed_condition f s = record {
    kind = controller;
    status = false;
    observed_generation = s.generation;
    reason = l.type_name f;
    message = l.error_text f;
  }

  abbrev pub passed_condition : Pass W → Condition
  passed_condition s = record {
    kind = controller;
    status = true;
    observed_generation = s.generation;
    reason = [];
    message = [];
  }

  abbrev pub fail : Failure → Pass W → Pass W
  fail f s = record (put (failed_condition f s) s) { errored = true; no_prune = true }

  abbrev pub noted : Option Failure → Option Failure → Pass W → Option Failure × Pass W
  noted e (some f) s = if s.errored then (none, s) else (none, fail f s)
  noted (some e) none s = (some e, s)
  noted none none s = (none, if s.errored then s else put (passed_condition s) s)

  -- ErrorMiddleware
  unfoldable pub error_middleware : Handler W → Handler W
  error_middleware h s = let (e, s1) = h s in noted e (log_error e) (note_existing s1)
