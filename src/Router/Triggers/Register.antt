-- ===== src/Router/Triggers/Register.antt =====
-- Registering a watch.
use baaah.Prelude.{
  List, [], ◌∷◌, ◌++◌, true, not, ◌&&◌, Bool, Str, ◌≡◌, arith, if◌then◌else◌, ◌==◌, eq_iff, any,
  any-append,
}
use baaah.Objects.{Gvk, gvk_eq}
use baaah.Router.Matcher.{ObjectMatcher, equals}
use baaah.Router.Matcher.Laws.{equals_refl}
use baaah.Router.Triggers.{Target, target_eq, Matchers, register}
use baaah.Router.Triggers.View.{watchers, watchers-append_matcher, IsMap, append_matcher-IsMap}

abbrev pub target_of : Gvk → Str → Target
target_of gvk key = record { key = key; gvk = gvk }

abbrev pub known : ObjectMatcher → List ObjectMatcher → Bool
known mt = any (λ existing. equals existing mt)

pub watchers-register :
    (gvk : Gvk) (key : Str) (tg : Gvk) (mt : ObjectMatcher) (m : Matchers) (h : Gvk) (u : Target)
    → watchers (register gvk key tg mt m) h u ≡ (
        if tg == h && target_of gvk key == u && not (known mt (watchers m tg (target_of gvk key)))
        then watchers m h u ++ mt ∷ []
        else watchers m h u)
unfolding register
watchers-register gvk key tg mt m h u = ground (
  arith,
  eq_iff tg h,
  eq_iff (target_of gvk key) u,
  watchers-append_matcher tg h (target_of gvk key) u mt m,
)

pub register-IsMap :
    (gvk : Gvk) (key : Str) (tg : Gvk) (mt : ObjectMatcher) (m : Matchers)
    → IsMap m
    → IsMap (register gvk key tg mt m)
unfolding register
register-IsMap gvk key tg mt m v =
    ground (arith, append_matcher-IsMap tg (target_of gvk key) mt m v)

pub known-register :
    (gvk : Gvk) (key : Str) (tg : Gvk) (mt : ObjectMatcher) (m : Matchers)
    → known mt (watchers (register gvk key tg mt m) tg (target_of gvk key)) ≡ true
known-register gvk key tg mt m =
    let t = target_of gvk key in
    ground (
      arith,
      watchers-register gvk key tg mt m tg t,
      eq_iff tg tg,
      eq_iff t t,
      any-append (λ (e : ObjectMatcher). equals e mt) (watchers m tg t) (mt ∷ []),
      equals_refl mt,
    )

register_of_known :
    (gvk : Gvk) (key : Str) (tg : Gvk) (mt : ObjectMatcher) (m : Matchers)
    → known mt (watchers m tg (target_of gvk key)) ≡ true
    → register gvk key tg mt m ≡ m
unfolding register
register_of_known gvk key tg mt m h = rw h

-- Registering the same matcher twice for a target is the same as registering it once.
pub register_idempotent :
    (gvk : Gvk) (key : Str) (tg : Gvk) (mt : ObjectMatcher) (m : Matchers)
    → register gvk key tg mt (register gvk key tg mt m) ≡ register gvk key tg mt m
register_idempotent gvk key tg mt m =
    register_of_known gvk key tg mt (register gvk key tg mt m) (known-register gvk key tg mt m)
