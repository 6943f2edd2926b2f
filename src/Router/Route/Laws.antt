-- ===== src/Router/Route/Laws.antt =====
-- When the handler of a route runs: one condition in place of the chain of filters.
use baaah.Prelude.{
  Bool, true, Option, none, some, Str, str, [], ◌++◌, refl, ◌&&◌, ◌||◌, ◌≡◌, arith, eq_iff, ◌==◌,
  list_eq, nat_eq, not, is_some, if◌then◌else◌,
}
use baaah.Objects.{Object, Selector, FieldSelector}
use baaah.Errors.{prefixed}
use baaah.Router.Request.{Request}
use baaah.Router.State.{State, Backend, Ref}
use baaah.Router.Response.{Response}
use baaah.Router.Handler.{Handler, Outcome, skip}
use baaah.Router.Route.{
  target, labels_match, fields_match, is_live, RouteBuilder, wrap_middleware, finalized, named,
  selected, field_selected, nil_ignored, remove_ignored, name_of, prefixed_by, compose, ignore_nil,
  ignore_remove, error_prefix, name_namespace_filter, selector_filter, field_selector_filter,
}

-- An empty field of the route asks for nothing.
abbrev pub wanted : Str → Str → Bool
wanted expected actual = expected == [] || actual == expected

abbrev pub selector_admits : Option Selector → Option Object → Bool
selector_admits none o = true
selector_admits (some sel) o = labels_match sel o

abbrev pub fields_admit : Option FieldSelector → Option Object → Bool
fields_admit none o = true
fields_admit (some sel) o = fields_match sel o

module _ {W : Type 0} where
  -- Removed objects pass with IncludeRemoved or a finalizer, those being deleted with
  -- IncludeFinalizing too.
  abbrev pub presence_admits : RouteBuilder W → Option Object → Bool
  presence_admits r o =
      if r.include_remove || not (r.finalize_id == [])
      then true
      else if r.include_finalizing
      then is_some o
      else is_live o

  abbrev pub admits : RouteBuilder W → Request Ref → State W → Bool
  admits r req s =
      presence_admits r (target req s)
      && fields_admit r.field_selector (target req s)
      && selector_admits r.sel (target req s)
      && wanted r.name req.name
      && wanted r.namespace req.namespace

  -- the handler inside the filters
  abbrev pub inner : Backend W → RouteBuilder W → Handler W → Handler W
  inner b r h = wrap_middleware r.middleware (finalized b r h)

-- The outcome with the text `[n] ` before its error, if it has one and `n` is not empty.
abbrev pub with_prefix : {W : Type 0} → Str → Outcome W → Outcome W
with_prefix n o = record o {
  error = elim o.error [
    | none ↦ none
    | some e ↦ some (if n == [] then e else prefixed (str "[" ++ (n ++ str "] ")) e)
  ];
}

-- A layer of the chain: it calls the next one, or returns nil at once.
abbrev pub gate : {W : Type 0} → Bool → Handler W → Handler W
gate c h req resp s = if c then h req resp s else skip req resp s

module _ {W : Type 0} (b : Backend W) (r : RouteBuilder W) (h : Handler W) (req : Request Ref)
    (resp : Response) (s : State W) where
  named_lem :
      named b r h req resp s
      ≡ gate (wanted r.name req.name && wanted r.namespace req.namespace) h req resp s
  unfolding name_namespace_filter
  named_lem = ground (
    arith,
    eq_iff r.name [],
    eq_iff r.namespace [],
    eq_iff req.name r.name,
    eq_iff req.namespace r.namespace,
  )

  selected_lem :
      selected b r h req resp s ≡ gate (selector_admits r.sel (target req s)) h req resp s
  unfolding selector_filter
  selected_lem = ground arith

  field_selected_lem :
      field_selected b r h req resp s
      ≡ gate (fields_admit r.field_selector (target req s)) h req resp s
  unfolding field_selector_filter
  field_selected_lem = ground arith

  presence_lem :
      remove_ignored b r (nil_ignored b r h) req resp s
      ≡ gate (presence_admits r (target req s)) h req resp s
  unfolding ignore_nil ignore_remove
  presence_lem = ground (arith, eq_iff r.finalize_id [])

module _ {W : Type 0} (b : Backend W) (r : RouteBuilder W) (h : Handler W) (req : Request Ref)
    (resp : Response) (s : State W) where
  abbrev h1 : Handler W
  h1 = inner b r h

  abbrev h2 : Handler W
  h2 = named b r h1

  abbrev h3 : Handler W
  h3 = selected b r h2

  abbrev h4 : Handler W
  h4 = field_selected b r h3

  filtered_lem :
      remove_ignored b r (nil_ignored b r h4) req resp s ≡ gate (admits r req s) h1 req resp s
  filtered_lem = rw (presence_lem b r h4 req resp s) (
      rw (field_selected_lem b r h3 req resp s)
        (rw (selected_lem b r h2 req resp s) (rw (named_lem b r h1 req resp s) (ground arith))))

  prefixed_by_lem :
      (n : Str) (f : Handler W) → prefixed_by b n f req resp s ≡ with_prefix n (f req resp s)
  unfolding error_prefix
  prefixed_by_lem n f = ground arith

  -- The handler that a route composes does what the chain of middleware and finalizer does where
  -- one condition on the request holds (presence of the object, field selector, selector, name,
  -- namespace), and returns nil at once elsewhere; an error is wrapped with the text `[name] `,
  -- where the name is the route's or, where that is empty, the caller's, and is left alone if that
  -- is empty too. The response and the state are left as they are.
  pub compose-admits :
      (caller : Str)
      → compose b caller r h req resp s
        ≡ with_prefix
            (if r.route_name == [] then caller else r.route_name)
            (gate (admits r req s) h1 req resp s)
  unfolding compose
  compose-admits caller =
      rw
        (
          prefixed_by_lem (name_of b caller r) (remove_ignored b r (nil_ignored b r h4)),
          filtered_lem,
        )
        refl
