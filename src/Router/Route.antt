-- ===== src/Router/Route.antt =====
-- pkg/router/router.go: the filters round a handler, and the RouteBuilder that composes them.
pub mod Laws
use baaah.Prelude.{
  ℕ, Bool, true, false, Option, none, some, Str, str, List, [], ◌∷◌, ◌++◌, ◌&&◌, ◌||◌, ◌==◌,
  list_eq, nat_eq, not, is_some, if◌then◌else◌,
}
use baaah.Prelude.Map.{Map}
use baaah.Objects.{Gvk, Object, Selector, FieldSelector}
use baaah.Errors.{Error, prefixed}
use baaah.Router.Request.{Request}
use baaah.Router.State.{State, Backend, Ref, load}
use baaah.Router.Response.{Response}
use baaah.Router.Handler.{Handler, Outcome, skip}
use baaah.Router.Handlers.{Handlers, add_handler}
use baaah.Router.Finalizer.{finalizer_handler}

-- The object that the request points at, as it reads now.
abbrev pub target : {W : Type 0} → Request Ref → State W → Option Object
target req s = elim req.object [ none ↦ none | some p ↦ some (load p s) ]

abbrev pub prefix_error : Str → Option Error → Option Error
prefix_error p none = none
prefix_error p (some e) = some (prefixed p e)

-- s.Selector.Matches(labels) of an object that is not nil
abbrev pub labels_match : Selector → Option Object → Bool
labels_match sel none = false
labels_match sel (some o) = sel.matches o.labels

-- the field selector matches, for an object that has fields
abbrev pub fields_match : FieldSelector → Option Object → Bool
fields_match sel none = false
fields_match sel (some o) = elim o.fields [ none ↦ false | some f ↦ sel.matches f ]

abbrev pub is_live : Option Object → Bool
is_live none = false
is_live (some o) = not o.deleting

module _ {W : Type 0} where
  unfoldable pub ignore_nil : Handler W → Handler W
  ignore_nil next req r s = if is_some req.object then next req r s else skip req r s

  unfoldable pub ignore_remove : Handler W → Handler W
  ignore_remove next req r s = if is_live (target req s) then next req r s else skip req r s

  unfoldable pub error_prefix : Str → Handler W → Handler W
  error_prefix p next req r s = let o = next req r s in record o { error = prefix_error p o.error }

  unfoldable pub name_namespace_filter : Str → Str → Handler W → Handler W
  name_namespace_filter name namespace next req r s =
      if not (name == []) && not (req.name == name)
      then skip req r s
      else if not (namespace == []) && not (req.namespace == namespace)
      then skip req r s
      else next req r s

  unfoldable pub selector_filter : Selector → Handler W → Handler W
  selector_filter sel next req r s =
      if labels_match sel (target req s) then next req r s else skip req r s

  unfoldable pub field_selector_filter : FieldSelector → Handler W → Handler W
  field_selector_filter sel next req r s =
      if fields_match sel (target req s) then next req r s else skip req r s

-- RouteBuilder, less the router and the object type, which AddHandler takes as the kind
pub record RouteBuilder (W : Type 0) : Type 0 where
  pub include_remove : Bool
  pub include_finalizing : Bool
  pub finalize_id : Str
  pub name : Str
  pub namespace : Str
  pub route_name : Str
  pub middleware : List (Handler W → Handler W)
  pub sel : Option Selector
  pub field_selector : Option FieldSelector

abbrev pub new_route : {W : Type 0} → RouteBuilder W
new_route = record {
  include_remove = false;
  include_finalizing = false;
  finalize_id = [];
  name = [];
  namespace = [];
  route_name = [];
  middleware = [];
  sel = none;
  field_selector = none;
}

module _ {W : Type 0} where
  unfoldable pub with_middleware : List (Handler W → Handler W) → RouteBuilder W → RouteBuilder W
  with_middleware m r = record r { middleware = r.middleware ++ m }

  -- for i := len(r.middleware) - 1; i >= 0; i-- { result = r.middleware[i](result) }
  pub wrap_middleware : List (Handler W → Handler W) → Handler W → Handler W
  wrap_middleware [] h = h
  wrap_middleware (m ∷ ms) h = m (wrap_middleware ms h)

module _ {W : Type 0} (b : Backend W) where
  abbrev pub finalized : RouteBuilder W → Handler W → Handler W
  finalized r h = if not (r.finalize_id == []) then finalizer_handler b r.finalize_id h else h

  abbrev named : RouteBuilder W → Handler W → Handler W
  named r h =
      if not (r.name == []) || not (r.namespace == [])
      then name_namespace_filter r.name r.namespace h
      else h

  abbrev selected : RouteBuilder W → Handler W → Handler W
  selected r h = elim r.sel [ none ↦ h | some sel ↦ selector_filter sel h ]

  abbrev field_selected : RouteBuilder W → Handler W → Handler W
  field_selected r h = elim r.field_selector [ none ↦ h | some sel ↦ field_selector_filter sel h ]

  abbrev nil_ignored : RouteBuilder W → Handler W → Handler W
  nil_ignored r h =
      if r.include_finalizing && not r.include_remove && r.finalize_id == []
      then ignore_nil h
      else h

  abbrev remove_ignored : RouteBuilder W → Handler W → Handler W
  remove_ignored r h =
      if not r.include_remove && not r.include_finalizing && r.finalize_id == []
      then ignore_remove h
      else h

  abbrev pub route_prefix : Str → Str
  route_prefix n = str "[" ++ (n ++ str "] ")

  abbrev pub prefixed_by : Str → Handler W → Handler W
  prefixed_by n h = if not (n == []) then error_prefix (route_prefix n) h else h

  -- r.routeName, or the name of the caller where it is not set
  abbrev pub name_of : Str → RouteBuilder W → Str
  name_of caller r = if r.route_name == [] then caller else r.route_name

  -- what RouteBuilder.Handler makes of the handler `h`
  unfoldable pub compose : Str → RouteBuilder W → Handler W → Handler W
  unfolding wrap_middleware
  compose caller r h = prefixed_by (name_of caller r) (
      remove_ignored r (
        nil_ignored r
          (field_selected r (selected r (named r (wrap_middleware r.middleware (finalized r h)))))))

  -- RouteBuilder.Handler
  unfoldable pub handler : Str → Gvk → RouteBuilder W → Handler W → Handlers W → Handlers W
  unfolding compose
  handler caller gvk r h hs = add_handler gvk (compose caller r h) hs
