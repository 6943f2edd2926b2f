-- ===== src/Router/Response.antt =====
-- The two responses that a handler may be handed: `response` of pkg/router/handler.go and
-- ResponseWrapper of pkg/router/response_wrapper.go. Both are one record, with a flag to tell them
-- apart where their methods differ.
pub mod Delay
use baaah.Prelude.{
  ℕ, Bool, true, false, Option, none, some, Str, List, [], ◌∷◌, ◌++◌, ℤ, pos, lt_int, is_zero, ◌||◌,
  if◌then◌else◌,
}
use baaah.Prelude.Map
use baaah.Prelude.Map.{Map}
use baaah.Objects.{Object}
use baaah.Router.State.{State, Backend, Ref, load, single}
use baaah.Router.Watching.{Registry, watch}

-- a value of Attributes(), of type any
pub data Any : Type 0 where
  flag : Bool → Any
  opaque : Str → Any

pub record Response : Type 0 where
  pub is_wrapper : Bool
  pub registry : Registry
  pub delay : ℤ
  pub objects : List Ref
  pub no_prune : Bool
  pub attributes : Map Str Any

abbrev pub new_response : Registry → Response
new_response r = record {
  is_wrapper = false;
  registry = r;
  delay = pos 0;
  objects = [];
  no_prune = false;
  attributes = [];
}

abbrev pub new_wrapper : Registry → Response
new_wrapper r = record (new_response r) { is_wrapper = true }

unfoldable pub disable_prune : Response → Response
disable_prune r = record r { no_prune = true }

-- A wrapper takes the last delay, a response the least but that 0 stands for none.
unfoldable pub retry_after : ℤ → Response → Response
retry_after d r =
    if r.is_wrapper
    then record r { delay = d }
    else if is_zero r.delay || lt_int d r.delay
    then record r { delay = d }
    else r

module _ {W : Type 0} (b : Backend W) where
  -- one round of the loop of response.Objects; the error of Watch is dropped
  abbrev pub add_object : Ref → Response × State W → Response × State W
  add_object p (r, s) =
      let o = load p s in
      let (e, s') = watch b r.registry (single o) o.namespace o.name none none s in
      (record r { objects = r.objects ++ p ∷ [] }, s')

  add_objects : List Ref → Response × State W → Response × State W
  add_objects [] rs = rs
  add_objects (p ∷ ps) rs = add_objects ps (add_object p rs)

  unfoldable pub objects : List Ref → Response × State W → Response × State W
  unfolding add_objects
  objects ps (r, s) =
      if r.is_wrapper then (record r { objects = r.objects ++ ps }, s) else add_objects ps (r, s)
