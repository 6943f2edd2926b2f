-- ===== src/Webhook/Laws.antt =====
-- Which requests a route takes, and which route takes a request.
use baaah.Prelude.{
  Bool, true, false, Option, none, some, Str, List, [], ◌∷◌, ◌++◌, ◌≡◌, ◌↔◌, ◌⊎◌, refl, arith, All,
  eq_iff, list_eq, nat_eq, bool_eq, ◌&&◌,
}
use baaah.Webhook.{
  AdmissionRequest, RouteMatch, check_string, check_bool, kind_of, resource_of, group_of,
  version_of, matches, admit_match, admit,
}

-- A field of the route that is empty asks for nothing.
abbrev pub Wants : Str → Str → Type 0
Wants expected actual = (expected ≡ []) ⊎ (expected ≡ actual)

abbrev pub WantsBool : Option Bool → Option Bool → Type 0
WantsBool expected actual = (expected ≡ none) ⊎ (expected ≡ actual)

check_string_iff : (e a : Str) → (check_string e a ≡ true) ↔ Wants e a
unfolding check_string
check_string_iff e a = ground (arith, eq_iff e [], eq_iff e a)

check_bool_iff : (e a : Option Bool) → (check_bool e a ≡ true) ↔ WantsBool e a
unfolding check_bool
check_bool_iff none a = ground arith
check_bool_iff (some e) none = ground arith
check_bool_iff (some e) (some a) = ground (arith, eq_iff e a)

and_iff : {a b : Bool} {P Q : Type 0} → (a ≡ true) ↔ P → (b ≡ true) ↔ Q → (a && b ≡ true) ↔ (P × Q)
and_iff {a = true} f g = (λ h. (f.0 refl, g.0 h), λ (p, q). g.1 q)
and_iff {a = false} f g = (λ h. absurd (ground arith), λ (p, q). f.1 p)

module _ {R : Type 0} where
  pub matches_iff :
      (r : RouteMatch R) (req : AdmissionRequest)
      → (matches r req ≡ true) ↔ (
          Wants r.kind (kind_of req.request_kind)
          × Wants r.resource (resource_of req.request_resource)
          × Wants r.sub_resource req.sub_resource
          × Wants r.version (version_of req.request_kind req.request_resource)
          × Wants r.group (group_of req.request_kind req.request_resource)
          × Wants r.name req.name
          × Wants r.namespace req.namespace
          × Wants r.operation req.operation
          × WantsBool r.dry_run req.dry_run)
  unfolding matches
  matches_iff r req =
      let all =
        and_iff
          (and_iff
            (and_iff
              (and_iff
                (and_iff
                  (and_iff
                    (and_iff
                      (and_iff (check_string_iff r.kind (kind_of req.request_kind))
                        (check_string_iff r.resource (resource_of req.request_resource)))
                      (check_string_iff r.sub_resource req.sub_resource))
                    (check_string_iff r.version (version_of req.request_kind req.request_resource)))
                  (check_string_iff r.group (group_of req.request_kind req.request_resource)))
                (check_string_iff r.name req.name))
              (check_string_iff r.namespace req.namespace))
            (check_string_iff r.operation req.operation))
          (check_bool_iff r.dry_run req.dry_run) in
      (
        λ h. let ((((((((a, b), c), d), e), f), g), h), i) = all.0 h in (a, b, c, d, e, f, g, h, i),
        λ (a, b, c, d, e, f, g, h, i). all.1 ((((((((a, b), c), d), e), f), g), h), i),
      )

  -- The first route that matches an admission request answers it: the routes before it, none of
  -- which matches, and those after it do not count.
  pub admit-append :
      (no_route : AdmissionRequest → Str) (earlier later : List (RouteMatch R)) (m : RouteMatch R)
      (resp : R) (req : AdmissionRequest)
      → All (λ r. matches r req ≡ false) earlier
      → matches m req ≡ true
      → admit no_route (earlier ++ m ∷ later) resp req ≡ admit_match m resp req
  unfolding admit
  admit-append no_route [] later m resp req a h = ground arith
  admit-append no_route (r ∷ rs) later m resp req a h =
      ground (arith, admit-append no_route rs later m resp req)
