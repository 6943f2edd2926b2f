-- ===== src/Router/Handler.antt =====
-- The interface Handler of pkg/router/types.go: a function of the request, the response and the
-- state, with the error that it returns and the response and the state that it leaves.
use baaah.Prelude.{Option, none, list_eq, nat_eq}
use baaah.Objects.{gvk_eq}
use baaah.Errors.{Error}
use baaah.Router.Request.{Request}
use baaah.Router.State.{State, Ref}
use baaah.Router.Response.{Response}

pub record Outcome (W : Type 0) : Type 0 where
  pub error : Option Error
  pub response : Response
  pub state : State W

abbrev pub Handler : Type 0 → Type 0
Handler W = Request Ref → Response → State W → Outcome W

-- a handler that returns nil at once
abbrev pub skip : {W : Type 0} → Handler W
skip req r s = record { error = none; response = r; state = s }
