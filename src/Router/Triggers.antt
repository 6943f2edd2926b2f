-- ===== src/Router/Triggers.antt =====
-- pkg/router/trigger.go: who is enqueued when an object changes. The calls of `backend.Trigger` are
-- the results of the operations, in order; the code drops their errors.
pub mod View
pub mod Register
pub mod Invoke
pub mod Unregister
pub mod Delivery
use baaah.Prelude.{
  ℕ, Bool, true, false, not, ◌&&◌, ◌||◌, List, [], ◌∷◌, ◌++◌, Str, any, if◌then◌else◌, ◌≡◌, refl,
  ◌↔◌, arith, Eq, ◌==◌, eq_iff, list_eq, nat_eq,
}
use baaah.Prelude.Map
use baaah.Prelude.Map.{Map}
use baaah.Objects.{Gvk, gvk_eq, Object}
use baaah.Router.Request.{Request}
use baaah.Router.Matcher.{ObjectMatcher, equals, match}

-- enqueueTarget
pub record Target : Type 0 where
  pub key : Str
  pub gvk : Gvk

abbrev pub target_beq : Target → Target → Bool
target_beq a b = a.key == b.key && a.gvk == b.gvk

pub target_beq_iff : (a b : Target) → (target_beq a b ≡ true) ↔ (a ≡ b)
target_beq_iff a b = ground (arith, eq_iff a.key b.key, eq_iff a.gvk b.gvk)

instance abbrev pub target_eq : Eq Target
target_eq = record { beq = target_beq; beq_iff = target_beq_iff }

abbrev pub Targets : Type 0
Targets = Map Target (List ObjectMatcher)

-- the field `matchers`: by the kind that is watched, then by the object to enqueue
abbrev pub Matchers : Type 0
Matchers = Map Gvk Targets

-- the request's own object as a target
abbrev pub is_self : Request Object → Target → Bool
is_self req t = t.gvk == req.gvk && t.key == req.key

abbrev pub hits : Request Object → ObjectMatcher → Bool
hits req mt = match mt req.namespace req.name req.object

-- the loop over the matchers of one target, which ends at the first hit
invoke_matchers : Request Object → Target → List ObjectMatcher → List Target
invoke_matchers req t [] = []
invoke_matchers req t (mt ∷ mts) = if hits req mt then t ∷ [] else invoke_matchers req t mts

invoke_targets : Request Object → Targets → List Target
invoke_targets req [] = []
invoke_targets req ((t, mts) ∷ rest) =
    let later = invoke_targets req rest in
    if is_self req t then later else invoke_matchers req t mts ++ later

unfoldable pub invoke_triggers : Request Object → Matchers → List Target
unfolding invoke_matchers invoke_targets
invoke_triggers req m = invoke_targets req (Map.get_list req.gvk m)

unfoldable pub trigger : Request Object → Matchers → List Target
unfolding invoke_triggers
trigger req m = if not req.from_trigger then invoke_triggers req m else []

-- matchers[target] = append(matchers[target], mr), in the map of one kind, which is made if missing
abbrev pub append_matcher : Gvk → Target → ObjectMatcher → Matchers → Matchers
append_matcher g t mt m =
    let ts = Map.get_list g m in Map.insert g (Map.insert t (Map.get_list t ts ++ mt ∷ []) ts) m

unfoldable pub register : Gvk → Str → Gvk → ObjectMatcher → Matchers → Matchers
register gvk key target_gvk mt m =
    let target : Target = record { key = key; gvk = gvk } in
    if any (λ existing. equals existing mt) (Map.get_list target (Map.get_list target_gvk m))
    then m
    else append_matcher target_gvk target mt m

-- Matchers that stay when the request's object is gone: all but those that name it exactly.
abbrev pub survives : Request Object → Gvk → ObjectMatcher → Bool
survives req target_gvk mt =
    not (target_gvk == req.gvk) || not (mt.namespace == req.namespace) || not (mt.name == req.name)

-- The three loops of `UnregisterAndTrigger`. Their state is `remainingMatchers` and the calls.
abbrev pub Unregistering : Type 0
Unregistering = Matchers × List Target

abbrev pub unregister_matcher :
    Request Object → Gvk → Target → ObjectMatcher → Unregistering → Unregistering
unregister_matcher req g t mt s = (
  (if survives req g mt then append_matcher g t mt s.0 else s.0),
  (if g == req.gvk && hits req mt then s.1 ++ t ∷ [] else s.1),
)

unregister_matchers :
    Request Object → Gvk → Target → List ObjectMatcher → Unregistering → Unregistering
unregister_matchers req g t [] s = s
unregister_matchers req g t (mt ∷ mts) s =
    unregister_matchers req g t mts (unregister_matcher req g t mt s)

unregister_target :
    Request Object → Gvk → Target → List ObjectMatcher → Unregistering → Unregistering
unregister_target req g t mts s = if is_self req t then s else unregister_matchers req g t mts s

unregister_targets : Request Object → Gvk → Targets → Unregistering → Unregistering
unregister_targets req g [] s = s
unregister_targets req g ((t, mts) ∷ rest) s =
    unregister_targets req g rest (unregister_target req g t mts s)

unregister_kinds : Request Object → Matchers → Unregistering → Unregistering
unregister_kinds req [] s = s
unregister_kinds req ((g, ts) ∷ rest) s = unregister_kinds req rest (unregister_targets req g ts s)

unfoldable pub unregister_and_trigger : Request Object → Matchers → Unregistering
unfolding unregister_matchers unregister_target unregister_targets unregister_kinds
unregister_and_trigger req m = unregister_kinds req m ([], [])
