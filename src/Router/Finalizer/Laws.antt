-- ===== src/Router/Finalizer/Laws.antt =====
-- When the handler behind a finalizer runs, and what its result does to the finalizer.
use baaah.Prelude.{Bool, false, none, some, Str, if◌then◌else◌}
use baaah.Router.Request.{Request}
use baaah.Router.State.{State, Ref, load}
use baaah.Router.Response.{Response}
use baaah.Router.Handler.{Handler}
use baaah.Router.Finalizer.{is_first}

-- The object is being deleted and the finalizer is its first.
abbrev pub is_due : {W : Type 0} → Str → Request Ref → State W → Bool
is_due id req s = elim req.object [
  | none ↦ false
  | some p ↦ if (load p s).deleting then is_first id (load p s).finalizers else false
]
