-- ===== src/Router/Request.antt =====
-- pkg/router/types.go: the request that a handler receives, less its client and its context.
use baaah.Prelude.{Bool, Option, Str}
use baaah.Objects.{Gvk}

-- `O` is Ref where handlers may still change the object, and Object where a request is read.
pub record Request (O : Type 0) : Type 0 where
  pub object : Option O
  pub gvk : Gvk
  pub namespace : Str
  pub name : Str
  pub key : Str
  pub from_trigger : Bool
