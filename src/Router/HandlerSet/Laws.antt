-- ===== src/Router/HandlerSet/Laws.antt =====
-- Which changes reach the handlers, and what a failing handler prevents.
use baaah.Prelude.{Bool, true, Option, none, some, Str, ◌≡◌, arith, ℤ, list_eq, nat_eq}
use baaah.Objects.{Gvk, gvk_eq}
use baaah.Errors.{Error}
use baaah.Router.Request.{Request}
use baaah.Router.State.{State, Backend, Ref}
use baaah.Router.Response.{new_response}
use baaah.Router.Handler.{Outcome}
use baaah.Router.Handlers.{Handlers, handles, handle}
use baaah.Router.Client.{registry}
use baaah.Router.Save.{Apply}
use baaah.Router.Backoff.{LimiterKey, is_waiting, check_delay}
use baaah.Router.Keys.Laws.{IsPlain, decode_plain}
use baaah.Router.HandlerSet.{ErrorHandler, HandlerSet, handle_object, new_request, on_change}

abbrev pub limiter_key : Gvk → Str → LimiterKey
limiter_key gvk key = record { key = key; gvk = gvk }

module _ {W L : Type 0} (b : Backend W) (apply : Apply W) (hs : Handlers W) (new_limiter : L)
    (reserve : L → ℤ × L) (on_error : Option (ErrorHandler W)) where
  -- A plain change of a key that waits for its replay is dropped: the reported object is returned
  -- without an error and nothing changes.
  pub on_change_waiting :
      (gvk : Gvk) (key : Str) (obj : Option Ref) (m : HandlerSet W L)
      → IsPlain key
      → is_waiting (limiter_key gvk key) m.backoff ≡ true
      → on_change b apply on_error hs new_limiter reserve gvk key obj m
        ≡ record { object = obj; error = none; set = m }
  unfolding on_change check_delay
  on_change_waiting gvk key obj m p w = rw (decode_plain key p) (ground arith)

module _ {W : Type 0} (b : Backend W) (apply : Apply W) (hs : Handlers W) where
  abbrev pub request_of : Gvk → Str → Option Ref → Bool → State W → Request Ref
  request_of gvk key obj ft s = (new_request gvk key obj ft s).0

  abbrev pub ran : Gvk → Str → Option Ref → Bool → State W → Outcome W
  ran gvk key obj ft s =
      let (req, s1) = new_request gvk key obj ft s in handle hs req (new_response (registry req)) s1

  -- Where a handler fails and there is no error handler, its error is returned and nothing follows:
  -- no trigger is fired, nothing is applied and the state is the one that the handlers left.
  pub handle_object_failed :
      (gvk : Gvk) (key : Str) (obj : Option Ref) (ft : Bool) (s : State W) (e : Error)
      → handles hs (request_of gvk key obj ft s) ≡ true
      → (ran gvk key obj ft s).error ≡ some e
      → handle_object b apply none hs gvk key obj ft s
        ≡ record { object = none; error = some e; state = (ran gvk key obj ft s).state }
  unfolding handle_object
  handle_object_failed gvk key obj ft s e n f = ground arith
