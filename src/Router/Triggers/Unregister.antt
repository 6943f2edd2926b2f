-- ===== src/Router/Triggers/Unregister.antt =====
-- What remains, and what is enqueued, when an object is gone.
use baaah.Prelude.{
  ℕ, Bool, none, is_nil, ◌||◌, list_eq, nat_eq, refl, List, [], ◌∷◌, ◌++◌, not, ◌&&◌, ◌≡◌, arith,
  if◌then◌else◌, ◌==◌, eq_iff, filter, count, count-append, ◌+◌, length,
}
use mathlib.Core.List.{append-nil, append_assoc}
use baaah.Prelude.Map
use baaah.Prelude.Map.{Distinct}
use baaah.Objects.{Gvk, gvk_eq, Object}
use baaah.Router.Request.{Request}
use baaah.Router.Matcher.{ObjectMatcher, match}
use baaah.Router.Triggers.{
  Target, target_eq, Targets, Matchers, is_self, hits, survives, Unregistering, unregister_matcher,
  unregister_matchers, unregister_target, unregister_targets, unregister_kinds,
  unregister_and_trigger,
}
use baaah.Router.Triggers.View.{
  watchers, watchers-append_matcher, IsMap, IsMap-empty, append_matcher-IsMap,
}

module _ (req : Request Object) (h : Gvk) (u : Target) where
  -- What one entry of the map adds to the matchers of `u` for the kind `h`.
  abbrev kept : Gvk → Target → List ObjectMatcher → List ObjectMatcher
  kept g t mts = if g == h && t == u then filter (survives req g) mts else []

  watchers-unregister_matchers :
      (g : Gvk) (t : Target) (mts : List ObjectMatcher) (s : Unregistering)
      → watchers (unregister_matchers req g t mts s).0 h u ≡ watchers s.0 h u ++ kept g t mts
  unfolding unregister_matchers
  watchers-unregister_matchers g t [] s = ground (arith, append-nil (watchers s.0 h u))
  watchers-unregister_matchers g t (mt ∷ mts) s = ground (
    arith,
    eq_iff g h,
    eq_iff t u,
    watchers-unregister_matchers g t mts (unregister_matcher req g t mt s),
    watchers-append_matcher g h t u mt s.0,
    append_assoc (watchers s.0 h u) (mt ∷ []) (filter (survives req g) mts),
  )

  watchers-unregister_target :
      (g : Gvk) (t : Target) (mts : List ObjectMatcher) (s : Unregistering)
      → watchers (unregister_target req g t mts s).0 h u
        ≡ watchers s.0 h u ++ (if is_self req t then [] else kept g t mts)
  unfolding unregister_target
  watchers-unregister_target g t mts s =
      ground (arith, append-nil (watchers s.0 h u), watchers-unregister_matchers g t mts s)

  abbrev kept_of : Gvk → List ObjectMatcher → List ObjectMatcher
  kept_of g mts = if g == h && not (is_self req u) then filter (survives req g) mts else []

  watchers-unregister_targets :
      (g : Gvk) (ts : Targets) (s : Unregistering)
      → Distinct ts
      → watchers (unregister_targets req g ts s).0 h u
        ≡ watchers s.0 h u ++ kept_of g (Map.get_list u ts)
  unfolding unregister_targets Map.get_list
  watchers-unregister_targets g [] s d = ground (arith, append-nil (watchers s.0 h u))
  watchers-unregister_targets g ((t, mts) ∷ ts) s d = ground (
    arith,
    eq_iff g h,
    eq_iff t u,
    watchers-unregister_targets g ts (unregister_target req g t mts s),
    watchers-unregister_target g t mts s,
    Map.get_list_of_none u ts,
    append-nil (watchers s.0 h u),
    append-nil (watchers s.0 h u ++ filter (survives req g) mts),
  )

  watchers-unregister_kinds :
      (m : Matchers) (s : Unregistering)
      → IsMap m
      → watchers (unregister_kinds req m s).0 h u ≡ watchers s.0 h u ++ kept_of h (watchers m h u)
  unfolding unregister_kinds Map.get_list
  watchers-unregister_kinds [] s v = ground (arith, append-nil (watchers s.0 h u))
  watchers-unregister_kinds ((g, ts) ∷ m) s v = ground (
    arith,
    eq_iff g h,
    watchers-unregister_kinds m (unregister_targets req g ts s),
    watchers-unregister_targets g ts s,
    Map.get_list_of_none h m,
    append-nil (watchers s.0 h u),
    append-nil (watchers s.0 h u ++ filter (survives req g) (Map.get_list u ts)),
  )

-- When the object of `req` is gone, no matcher of its own as a target is left, and of every other
-- target exactly those matchers are left, in their order, that do not name the object exactly; the
-- matchers are a map.
pub watchers-unregister :
    (req : Request Object) (m : Matchers) (h : Gvk) (u : Target)
    → IsMap m
    → watchers (unregister_and_trigger req m).0 h u
      ≡ (if is_self req u then [] else filter (survives req h) (watchers m h u))
unfolding unregister_and_trigger Map.get_list
watchers-unregister req m h u v =
    ground (arith, eq_iff h h, watchers-unregister_kinds req h u m ([], []) v)

module _ (req : Request Object) (u : Target) where
  -- How often one entry of the map enqueues `u`.
  abbrev calls : Gvk → Target → List ObjectMatcher → ℕ
  calls g t mts = if g == req.gvk && t == u then length (filter (hits req) mts) else 0

  count-unregister_matchers :
      (g : Gvk) (t : Target) (mts : List ObjectMatcher) (s : Unregistering)
      → count u (unregister_matchers req g t mts s).1 ≡ count u s.1 + calls g t mts
  unfolding unregister_matchers
  count-unregister_matchers g t [] s = ground arith
  count-unregister_matchers g t (mt ∷ mts) s = ground (
    arith,
    count-unregister_matchers g t mts (unregister_matcher req g t mt s),
    count-append u s.1 (t ∷ []),
  )

  count-unregister_target :
      (g : Gvk) (t : Target) (mts : List ObjectMatcher) (s : Unregistering)
      → count u (unregister_target req g t mts s).1
        ≡ count u s.1 + (if is_self req t then 0 else calls g t mts)
  unfolding unregister_target
  count-unregister_target g t mts s = ground (arith, count-unregister_matchers g t mts s)

  abbrev calls_of : Gvk → List ObjectMatcher → ℕ
  calls_of g mts = if g == req.gvk && not (is_self req u) then length (filter (hits req) mts) else 0

  count-unregister_targets :
      (g : Gvk) (ts : Targets) (s : Unregistering)
      → Distinct ts
      → count u (unregister_targets req g ts s).1 ≡ count u s.1 + calls_of g (Map.get_list u ts)
  unfolding unregister_targets Map.get_list
  count-unregister_targets g [] s d = ground arith
  count-unregister_targets g ((t, mts) ∷ ts) s d = ground (
    arith,
    eq_iff t u,
    count-unregister_targets g ts (unregister_target req g t mts s),
    count-unregister_target g t mts s,
    Map.get_list_of_none u ts,
  )

  count-unregister_kinds :
      (m : Matchers) (s : Unregistering)
      → IsMap m
      → count u (unregister_kinds req m s).1 ≡ count u s.1 + calls_of req.gvk (watchers m req.gvk u)
  unfolding unregister_kinds Map.get_list
  count-unregister_kinds [] s v = ground arith
  count-unregister_kinds ((g, ts) ∷ m) s v = ground (
    arith,
    eq_iff g req.gvk,
    count-unregister_kinds m (unregister_targets req g ts s),
    count-unregister_targets g ts s,
    Map.get_list_of_none req.gvk m,
  )

-- A matcher that hears of an object that is gone: one with a name if both its name and its namespace
-- are the object's, one without if it selects nothing and its namespace is empty or the object's.
abbrev pub hears_gone : Request Object → ObjectMatcher → Bool
hears_gone req mt = elim mt.name [
  | [] ↦
      (mt.namespace == [] || mt.namespace == req.namespace)
      && is_nil mt.selector
      && is_nil mt.fields
  | _ ∷ _ ↦ mt.name == req.name && mt.namespace == req.namespace
]

hits-eq-hears_gone :
    (req : Request Object) (mt : ObjectMatcher)
    → req.object ≡ none
    → hits req mt ≡ hears_gone req mt
unfolding match
hits-eq-hears_gone req mt e = ground arith

filter-hits :
    (req : Request Object) (mts : List ObjectMatcher)
    → req.object ≡ none
    → filter (hits req) mts ≡ filter (hears_gone req) mts
filter-hits req [] e = refl
filter-hits req (mt ∷ mts) e = ground (arith, hits-eq-hears_gone req mt e, filter-hits req mts e)

-- When the object of `req` is gone, a target is enqueued once for each of its matchers of the kind
-- that has the object's name and namespace, or has no name, no selectors and the object's namespace
-- or none; a matcher with a selector and no name does not enqueue it, and the object itself is not
-- enqueued. The request has no object and the matchers are a map.
pub count-unregister :
    (req : Request Object) (m : Matchers) (u : Target)
    → req.object ≡ none
    → IsMap m
    → count u (unregister_and_trigger req m).1
      ≡ (if is_self req u then 0 else length (filter (hears_gone req) (watchers m req.gvk u)))
unfolding unregister_and_trigger
count-unregister req m u e v = ground (
  arith,
  eq_iff req.gvk req.gvk,
  count-unregister_kinds req u m ([], []) v,
  filter-hits req (watchers m req.gvk u) e,
)

unregister_matchers-IsMap :
    (req : Request Object) (g : Gvk) (t : Target) (mts : List ObjectMatcher) (s : Unregistering)
    → IsMap s.0
    → IsMap (unregister_matchers req g t mts s).0
unfolding unregister_matchers
unregister_matchers-IsMap req g t [] s v = v
unregister_matchers-IsMap req g t (mt ∷ mts) s v =
    unregister_matchers-IsMap req g t mts (unregister_matcher req g t mt s)
      (ground (arith, append_matcher-IsMap g t mt s.0 v))

unregister_targets-IsMap :
    (req : Request Object) (g : Gvk) (ts : Targets) (s : Unregistering)
    → IsMap s.0
    → IsMap (unregister_targets req g ts s).0
unfolding unregister_targets unregister_target
unregister_targets-IsMap req g [] s v = v
unregister_targets-IsMap req g ((t, mts) ∷ ts) s v =
    unregister_targets-IsMap req g ts (unregister_target req g t mts s)
      (ground (arith, unregister_matchers-IsMap req g t mts s v))

unregister_kinds-IsMap :
    (req : Request Object) (m : Matchers) (s : Unregistering)
    → IsMap s.0
    → IsMap (unregister_kinds req m s).0
unfolding unregister_kinds
unregister_kinds-IsMap req [] s v = v
unregister_kinds-IsMap req ((g, ts) ∷ m) s v =
    unregister_kinds-IsMap req m (unregister_targets req g ts s)
      (unregister_targets-IsMap req g ts s v)

pub unregister-IsMap :
    (req : Request Object) (m : Matchers) → IsMap (unregister_and_trigger req m).0
unfolding unregister_and_trigger
unregister-IsMap req m = unregister_kinds-IsMap req m ([], []) IsMap-empty
