-- ===== src/Router/Triggers/Delivery.antt =====
-- From a registered watch to the enqueue of its owner.
use baaah.Prelude.{
  List, [], ◌∷◌, true, false, Str, ◌≡◌, ◌≢◌, arith, eq_iff, list_eq, nat_eq, any, count, none,
}
use baaah.Objects.{Gvk, gvk_eq, Object}
use baaah.Router.Request.{Request}
use baaah.Router.Matcher.{ObjectMatcher, match, equals}
use baaah.Router.Matcher.Laws.{equals_iff}
use baaah.Router.Triggers.{target_eq, Matchers, is_self, hits, register, trigger}
use baaah.Router.Triggers.View.{watchers, IsMap}
use baaah.Router.Triggers.Register.{target_of, known, known-register, register-IsMap}
use baaah.Router.Triggers.Invoke.{count-trigger}

-- The matcher that a Get of one object registers.
abbrev pub exact : Str → Str → ObjectMatcher
exact namespace name = record { namespace = namespace; name = name; selector = none; fields = none }

hits_of_equals :
    (req : Request Object) (mt : ObjectMatcher)
    → req.name ≢ []
    → equals mt (exact req.namespace req.name) ≡ true
    → hits req mt ≡ true
unfolding match
hits_of_equals req mt n k = ground (
  arith,
  equals_iff mt (exact req.namespace req.name),
  eq_iff req.name [],
  eq_iff req.name req.name,
  eq_iff req.namespace req.namespace,
)

any-known-hits :
    (req : Request Object) (mts : List ObjectMatcher)
    → req.name ≢ []
    → known (exact req.namespace req.name) mts ≡ true
    → any (hits req) mts ≡ true
any-known-hits req [] n k = cc
any-known-hits req (mt ∷ mts) n k =
    ground (arith, hits_of_equals req mt n, any-known-hits req mts n)

-- After one object is registered by its exact namespace and name (not empty) for the target
-- `gvk`/`key`, a change of that object that did not come from a trigger enqueues the target exactly
-- once, provided the matchers are a map and the target is not the changed object itself.
pub trigger-register :
    (gvk : Gvk) (key : Str) (m : Matchers) (req : Request Object)
    → IsMap m
    → req.name ≢ []
    → req.from_trigger ≡ false
    → is_self req (target_of gvk key) ≡ false
    → count
        (target_of gvk key)
        (trigger req (register gvk key req.gvk (exact req.namespace req.name) m))
      ≡ 1
trigger-register gvk key m req v n f s =
    let mt = exact req.namespace req.name in
    let t = target_of gvk key in
    ground (
      arith,
      known-register gvk key req.gvk mt m,
      any-known-hits req (watchers (register gvk key req.gvk mt m) req.gvk t),
      count-trigger req (register gvk key req.gvk mt m) t (register-IsMap gvk key req.gvk mt m v),
    )
