-- ===== src/Router/Watching.antt =====
-- WatchGVK and triggerRegistry.Watch of pkg/router/handler.go, Register of pkg/router/trigger.go:
-- what a handler reads or writes through its client becomes a trigger and a watch on its kind.
pub mod Laws
use baaah.Prelude.{
  Bool, true, false, Option, none, some, Str, str, List, [], ◌∷◌, ◌++◌, map, trim_suffix,
  if◌then◌else◌,
}
use baaah.Prelude.Map
use baaah.Prelude.Map.{Map}
use baaah.Objects.{Gvk, gvk_eq, Object, Selector, FieldSelector}
use baaah.Errors.{Error, Result, ok, err}
use baaah.Merr.{new_errors}
use baaah.Router.Matcher.{ObjectMatcher}
use baaah.Router.Triggers.{register}
use baaah.Router.State.{State, Backend, Watchable, single, list}

-- m.watching[gvk], which is false for a missing key
abbrev pub marked : Option Bool → Bool
marked none = false
marked (some b) = b

abbrev pub is_watching : Gvk → Map Gvk Bool → Bool
is_watching g m = marked (Map.get g m)

-- the gvk and the key of a triggerRegistry: the object whose handlers run
pub record Registry : Type 0 where
  pub gvk : Gvk
  pub key : Str

-- the results of Register
pub record Registered : Type 0 where
  pub gvk : Gvk
  pub ok : Bool
  pub error : Option Error

abbrev pub no_gvk : Gvk
no_gvk = record { group = []; version = []; kind = [] }

abbrev pub is_wrapped : Watchable → Bool
is_wrapped (single o) = o.wrapped
is_wrapped (list w g) = w

-- gvk.Kind = strings.TrimSuffix(gvk.Kind, "List"), for a list
abbrev pub item_kind : Watchable → Gvk → Gvk
item_kind (single o) g = g
item_kind (list w g') g = record g { kind = trim_suffix g.kind (str "List") }

module _ {W : Type 0} (b : Backend W) where
  -- one round of the loop of WatchGVK
  abbrev pub start_watch : Gvk → State W → Option Error × State W
  start_watch g s =
      let (e, w) = b.watch g s.outside in
      elim e [
        | none ↦ (none, record s { watching = Map.insert g true s.watching; outside = w })
        | some x ↦ (some x, record s { outside = w })
      ]

  abbrev pub watch_one : Gvk → State W → Option Error × State W
  watch_one g s = if is_watching g s.watching then (none, s) else start_watch g s

  watch_all : List Gvk → State W → List (Option Error) × State W
  watch_all [] s = ([], s)
  watch_all (g ∷ gs) s =
      let (e, s1) = watch_one g s in let (es, s2) = watch_all gs s1 in (e ∷ es, s2)

  unfoldable pub watch_gvk : List Gvk → State W → Option Error × State W
  unfolding watch_all
  watch_gvk gs s = let (es, s') = watch_all gs s in (new_errors es, s')

  -- Register, past the lookup of the kind
  abbrev pub register_gvk : Registry → Gvk → ObjectMatcher → State W → Registered × State W
  register_gvk r g mt s =
      let (e, s') =
        watch_gvk (g ∷ []) (record s { matchers = register r.gvk r.key g mt s.matchers }) in
      (record { gvk = g; ok = true; error = e }, s')

  unfoldable pub register_watch :
      Registry → Watchable → ObjectMatcher → State W → Registered × State W
  register_watch r obj mt s =
      if is_wrapped obj
      then (record { gvk = no_gvk; ok = false; error = none }, s)
      else elim (b.gvk_for_object obj) [
        | err e ↦ (record { gvk = no_gvk; ok = false; error = some e }, s)
        | ok g ↦ register_gvk r (item_kind obj g) mt s
      ]

  -- t.gvks[gvk] = true, after a registration without an error
  abbrev pub note : Registered × State W → Option Error × State W
  note (r, s) = elim r.error [
    | some e ↦ (some e, s)
    | none ↦
        (none, if r.ok then record s { registered = Map.insert r.gvk true s.registered } else s)
  ]

  -- triggerRegistry.Watch
  unfoldable pub watch :
      Registry
      → Watchable
      → Str
      → Str
      → Option Selector
      → Option FieldSelector
      → State W
      → Option Error × State W
  unfolding register_watch
  watch r obj namespace name selector fields s = note (
      register_watch r obj
        (record { namespace = namespace; name = name; selector = selector; fields = fields }) s)
