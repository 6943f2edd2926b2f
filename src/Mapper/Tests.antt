-- ===== src/Mapper/Tests.antt =====
-- The mapper with an API of one group, which knows one resource.
use baaah.Prelude.{
  Bool, true, false, Str, str, List, [], ◌∷◌, ◌≡◌, ◌≢◌, refl, arith, map, inl, if◌then◌else◌, ◌==◌,
}
use baaah.Prelude.Map
use baaah.Objects.{Gvk}
use baaah.Errors.{plain, ok, err}
use baaah.Mapper.{Gvr, gvr_eq, RestMapper, Discovery, State}
use baaah.Mapper.Laws.{
  Request, kinds, mappings, plain_answer, ask_all, IsSound, ask_all-plain_answer,
}

abbrev pods : Gvr
pods = record { group = []; version = str "v1"; resource = str "pods" }

abbrev pod : Gvk
pod = record { group = []; version = str "v1"; kind = str "Pod" }

-- an API group is the list of its resources; nothing is known of an empty one
abbrev mapper_of : List (List Gvr) → RestMapper Str
mapper_of gs = record {
  kinds_for = λ r. elim gs [
    | [] ↦ err (plain (str "no match"))
    | g ∷ rest ↦ if r == pods then ok (pod ∷ []) else err (plain (str "no match"))
  ];
  resources_for = λ r. ok (r ∷ []);
  rest_mappings = λ gk. ok (gk.1 ∷ []);
  resource_singularizer = λ s. ok s;
}

abbrev discovery : Discovery Bool (List Gvr) Str
discovery = record {
  get_api_group_resources = λ w. (ok ((pods ∷ []) ∷ []), true);
  new_discovery_rest_mapper = mapper_of;
}

abbrev fresh : State Bool (List Gvr) Str
fresh = record {
  gvr_cache = [];
  gvr_gvr_cache = [];
  gk_cache = [];
  name_cache = [];
  api = [];
  outside = false;
}

fresh-IsSound :
    (n : (pods ∷ []) ∷ [] ≢ []) → IsSound discovery ((pods ∷ []) ∷ []) n (λ w. refl) fresh
unfolding Map.get
fresh-IsSound n = record {
  api_known = inl refl;
  gvr = λ r x h. ground (arith, h);
  gvr_gvr = λ r x h. ground (arith, h);
  gk = λ r x h. ground (arith, h);
  name = λ r x h. ground (arith, h);
}

known : (pods ∷ []) ∷ [] ≢ []
known h = ground (arith, h)

abbrev asked : List Request
asked = kinds pods ∷ kinds pods ∷ mappings ([], str "Pod") (str "v1" ∷ []) ∷ []

ask_all-plain_answer_example :
    ask_all discovery asked fresh ≡ map (plain_answer (mapper_of ((pods ∷ []) ∷ []))) asked
ask_all-plain_answer_example =
    ask_all-plain_answer discovery ((pods ∷ []) ∷ []) known (λ w. refl) asked fresh
      (fresh-IsSound known)
