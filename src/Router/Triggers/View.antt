-- ===== src/Router/Triggers/View.antt =====
-- The matchers as a function: which matchers make a change of kind `g` enqueue the target `t`.
use baaah.Prelude.{List, [], ◌∷◌, ◌++◌, ◌&&◌, ◌≡◌, arith, if◌then◌else◌, ◌==◌, eq_iff, All}
use baaah.Prelude.Map
use baaah.Prelude.Map.{Map, Distinct}
use baaah.Objects.{Gvk, gvk_eq}
use baaah.Router.Matcher.{ObjectMatcher}
use baaah.Router.Triggers.{Target, target_eq, Targets, Matchers, append_matcher}

abbrev pub watchers : Matchers → Gvk → Target → List ObjectMatcher
watchers m g t = Map.get_list t (Map.get_list g m)

pub watchers-append_matcher :
    (g h : Gvk) (t u : Target) (mt : ObjectMatcher) (m : Matchers)
    → watchers (append_matcher g t mt m) h u
      ≡ (if g == h && t == u then watchers m g t ++ mt ∷ [] else watchers m h u)
watchers-append_matcher g h t u mt m = ground (
  arith,
  eq_iff g h,
  eq_iff t u,
  Map.get_list-insert g h (Map.insert t (watchers m g t ++ mt ∷ []) (Map.get_list g m)) m,
  Map.get_list-insert t u (watchers m g t ++ mt ∷ []) (Map.get_list g m),
)

-- The keys of both levels of the map are distinct, as in every Go map.
abbrev pub InnerDistinct : Matchers → Type 0
InnerDistinct = All (λ e. Distinct e.1)

pub record IsMap (m : Matchers) : Type 0 where
  pub outer : Distinct m
  pub inner : InnerDistinct m

pub IsMap-empty : IsMap []
IsMap-empty = record { outer = tt; inner = tt }

pub get_list-Distinct : (g : Gvk) (m : Matchers) → InnerDistinct m → Distinct (Map.get_list g m)
unfolding Map.get_list
get_list-Distinct g [] d = tt
get_list-Distinct g ((h, ts) ∷ m) d = ground (arith, get_list-Distinct g m)

insert-InnerDistinct :
    (g : Gvk) (ts : Targets) (m : Matchers)
    → Distinct ts
    → InnerDistinct m
    → InnerDistinct (Map.insert g ts m)
unfolding Map.insert
insert-InnerDistinct g ts [] d ds = (d, tt)
insert-InnerDistinct g ts ((h, us) ∷ m) d ds = ground (arith, insert-InnerDistinct g ts m)

pub append_matcher-IsMap :
    (g : Gvk) (t : Target) (mt : ObjectMatcher) (m : Matchers)
    → IsMap m
    → IsMap (append_matcher g t mt m)
append_matcher-IsMap g t mt m v = record {
  outer = Map.Distinct-insert g _ m v.outer;
  inner =
      insert-InnerDistinct g _ m
        (Map.Distinct-insert t (watchers m g t ++ mt ∷ []) (Map.get_list g m)
          (get_list-Distinct g m v.inner))
        v.inner;
}
