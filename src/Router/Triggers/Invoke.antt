-- ===== src/Router/Triggers/Invoke.antt =====
-- What a change enqueues.
use baaah.Prelude.{
  List, [], ◌∷◌, ◌≡◌, refl, arith, if◌then◌else◌, ◌==◌, eq_iff, any, count, count-append, none,
}
use baaah.Prelude.Map
use baaah.Prelude.Map.{Distinct}
use baaah.Objects.{gvk_eq}
use baaah.Objects.{Object}
use baaah.Router.Request.{Request}
use baaah.Router.Matcher.{ObjectMatcher}
use baaah.Router.Triggers.{
  Target, target_eq, Targets, Matchers, is_self, hits, invoke_matchers, invoke_targets, trigger,
}
use baaah.Router.Triggers.View.{watchers, IsMap, get_list-Distinct}

count-invoke_matchers :
    (req : Request Object) (t u : Target) (mts : List ObjectMatcher)
    → count u (invoke_matchers req t mts)
      ≡ (if t == u then (if any (hits req) mts then 1 else 0) else 0)
unfolding invoke_matchers
count-invoke_matchers req t u [] = ground arith
count-invoke_matchers req t u (mt ∷ mts) = ground (arith, count-invoke_matchers req t u mts)

absent-invoke_targets :
    (req : Request Object) (u : Target) (ts : Targets)
    → Map.get u ts ≡ none
    → count u (invoke_targets req ts) ≡ 0
unfolding invoke_targets Map.get
absent-invoke_targets req u [] h = refl
absent-invoke_targets req u ((t, mts) ∷ ts) h = ground (
  arith,
  eq_iff t u,
  absent-invoke_targets req u ts,
  count-invoke_matchers req t u mts,
  count-append u (invoke_matchers req t mts) (invoke_targets req ts),
)

count-invoke_targets :
    (req : Request Object) (u : Target) (ts : Targets)
    → Distinct ts
    → count u (invoke_targets req ts)
      ≡ (if is_self req u then 0 else if any (hits req) (Map.get_list u ts) then 1 else 0)
unfolding invoke_targets Map.get_list
count-invoke_targets req u [] d = ground arith
count-invoke_targets req u ((t, mts) ∷ ts) d = ground (
  arith,
  eq_iff t u,
  count-invoke_targets req u ts,
  absent-invoke_targets req u ts,
  count-invoke_matchers req t u mts,
  count-append u (invoke_matchers req t mts) (invoke_targets req ts),
)

-- A change that comes from a trigger enqueues nothing; any other change enqueues a target once if
-- one of its matchers for the kind matches, and not at all otherwise, nor if the target is the
-- changed object itself; the matchers are a map.
pub count-trigger :
    (req : Request Object) (m : Matchers) (u : Target)
    → IsMap m
    → count u (trigger req m) ≡ (
        if req.from_trigger
        then 0
        else if is_self req u
        then 0
        else if any (hits req) (watchers m req.gvk u)
        then 1
        else 0)
unfolding trigger
count-trigger req m u v = ground (
  arith,
  count-invoke_targets req u (Map.get_list req.gvk m) (get_list-Distinct req.gvk m v.inner),
)
