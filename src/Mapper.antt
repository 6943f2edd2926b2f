-- ===== src/Mapper.antt =====
-- pkg/mapper/mapper.go: the REST mapper that keeps its answers in caches shared by all mappers. The
-- locks are left out: the operations are taken one after the other.
pub mod Laws
pub mod Tests
use baaah.Prelude.{
  Bool, true, false, Option, none, some, Str, str, List, [], ◌∷◌, ◌++◌, ◌≡◌, ◌↔◌, arith, ◌&&◌, Eq,
  ◌==◌, eq_iff, list_eq, nat_eq, pair_eq,
}
use baaah.Prelude.Map
use baaah.Prelude.Map.{Map}
use baaah.Objects.{Gvk, GroupKind}
use baaah.Errors.{Error, plain, Result, ok, err}

-- schema.GroupVersionResource
pub record Gvr : Type 0 where
  pub group : Str
  pub version : Str
  pub resource : Str

abbrev pub gvr_beq : Gvr → Gvr → Bool
gvr_beq a b = a.group == b.group && a.version == b.version && a.resource == b.resource

pub gvr_beq_iff : (a b : Gvr) → (gvr_beq a b ≡ true) ↔ (a ≡ b)
gvr_beq_iff a b =
    ground (arith, eq_iff a.group b.group, eq_iff a.version b.version, eq_iff a.resource b.resource)

instance abbrev pub gvr_eq : Eq Gvr
gvr_eq = record { beq = gvr_beq; beq_iff = gvr_beq_iff }

-- gkKey: the joined versions, and the group and the kind
abbrev pub GkKey : Type 0
GkKey = Str × GroupKind

-- strings.Join(versions, "|")
abbrev pub continued : List Str → Str
continued [] = []
continued (v ∷ vs) = str "|" ++ (v ++ continued vs)

abbrev pub join : List Str → Str
join [] = []
join (v ∷ vs) = v ++ continued vs

-- meta.RESTMapper of restmapper.NewDiscoveryRESTMapper, as far as it is asked here; `M` is
-- meta.RESTMapping.
pub record RestMapper (M : Type 0) : Type 0 where
  pub kinds_for : Gvr → Result (List Gvk)
  pub resources_for : Gvr → Result (List Gvr)
  pub rest_mappings : GroupKind → Result (List M)
  pub resource_singularizer : Str → Result Str

-- `G` is restmapper.APIGroupResources, and `W` the world that discovery asks.
pub record Discovery (W G M : Type 0) : Type 0 where
  pub get_api_group_resources : W → Result (List G) × W
  pub new_discovery_rest_mapper : List G → RestMapper M

-- the global caches, and the field api of the mapper
pub record State (W G M : Type 0) : Type 0 where
  pub gvr_cache : Map Gvr (List Gvk)
  pub gvr_gvr_cache : Map Gvr (List Gvr)
  pub gk_cache : Map GkKey (List M)
  pub name_cache : Map Str Str
  pub api : List G
  pub outside : W

-- xs[0]
abbrev pub first_of {ℓ} : {A : Type ℓ} → List A → Result A
first_of [] = err (plain (str "index out of range [0] with length 0"))
first_of (x ∷ xs) = ok x

abbrev pub first_or_fail {ℓ} : {A : Type ℓ} → Result (List A) → Result A
first_or_fail (err e) = err e
first_or_fail (ok xs) = first_of xs

-- KindFor drops the error.
abbrev pub first_kind : Result (List Gvk) → Result Gvk
first_kind (err e) = ok (record { group = []; version = []; kind = [] })
first_kind (ok gs) = first_of gs

module _ {W G M : Type 0} (d : Discovery W G M) where
  -- m.api = api; f(restmapper.NewDiscoveryRESTMapper(m.api))
  abbrev pub refreshed :
      {A : Type 0}
      → (RestMapper M → Result A)
      → State W G M
      → Result (List G) × W
      → Result A × State W G M
  refreshed f s (err e, w) = (err e, record s { outside = w })
  refreshed f s (ok api, w) =
      (f (d.new_discovery_rest_mapper api), record s { api = api; outside = w })

  abbrev pub refresh :
      {A : Type 0} → (RestMapper M → Result A) → State W G M → Result A × State W G M
  refresh f s = refreshed f s (d.get_api_group_resources s.outside)

  -- withClient: with nothing known, it asks discovery once; else it asks what is known first.
  abbrev pub try_known :
      {A : Type 0} → (RestMapper M → Result A) → State W G M → Result A → Result A × State W G M
  try_known f s (ok x) = (ok x, s)
  try_known f s (err e) = refresh f s

  unfoldable pub with_client :
      {A : Type 0} → (RestMapper M → Result A) → State W G M → Result A × State W G M
  with_client f s = elim s.api [
    | [] ↦ refresh f s
    | g ∷ gs ↦ try_known f s (f (d.new_discovery_rest_mapper (g ∷ gs)))
  ]

  abbrev pub keep_kinds : Gvr → Result (List Gvk) × State W G M → Result (List Gvk) × State W G M
  keep_kinds r (err e, s) = (err e, s)
  keep_kinds r (ok x, s) = (ok x, record s { gvr_cache = Map.insert r x s.gvr_cache })

  -- KindsFor
  unfoldable pub kinds_for : Gvr → State W G M → Result (List Gvk) × State W G M
  unfolding with_client
  kinds_for r s = elim (Map.get r s.gvr_cache) [
    | some x ↦ (ok x, s)
    | none ↦ keep_kinds r (with_client (λ m. m.kinds_for r) s)
  ]

  -- KindFor
  unfoldable pub kind_for : Gvr → State W G M → Result Gvk × State W G M
  unfolding kinds_for
  kind_for r s = let (x, s') = kinds_for r s in (first_kind x, s')

  abbrev pub keep_resources :
      Gvr → Result (List Gvr) × State W G M → Result (List Gvr) × State W G M
  keep_resources r (err e, s) = (err e, s)
  keep_resources r (ok x, s) = (ok x, record s { gvr_gvr_cache = Map.insert r x s.gvr_gvr_cache })

  -- ResourcesFor
  unfoldable pub resources_for : Gvr → State W G M → Result (List Gvr) × State W G M
  unfolding with_client
  resources_for r s = elim (Map.get r s.gvr_gvr_cache) [
    | some x ↦ (ok x, s)
    | none ↦ keep_resources r (with_client (λ m. m.resources_for r) s)
  ]

  -- ResourceFor
  unfoldable pub resource_for : Gvr → State W G M → Result Gvr × State W G M
  unfolding resources_for
  resource_for r s = let (x, s') = resources_for r s in (first_or_fail x, s')

  abbrev pub keep_mappings : GkKey → Result (List M) × State W G M → Result (List M) × State W G M
  keep_mappings k (err e, s) = (err e, s)
  keep_mappings k (ok x, s) = (ok x, record s { gk_cache = Map.insert k x s.gk_cache })

  -- RESTMappings: the versions are part of the key alone.
  unfoldable pub rest_mappings : GroupKind → List Str → State W G M → Result (List M) × State W G M
  unfolding with_client
  rest_mappings gk versions s = elim (Map.get (join versions, gk) s.gk_cache) [
    | some x ↦ (ok x, s)
    | none ↦ keep_mappings (join versions, gk) (with_client (λ m. m.rest_mappings gk) s)
  ]

  -- RESTMapping
  unfoldable pub rest_mapping : GroupKind → List Str → State W G M → Result M × State W G M
  unfolding rest_mappings
  rest_mapping gk versions s = let (x, s') = rest_mappings gk versions s in (first_or_fail x, s')

  abbrev pub keep_name : Str → Result Str × State W G M → Result Str × State W G M
  keep_name r (err e, s) = (err e, s)
  keep_name r (ok x, s) = (ok x, record s { name_cache = Map.insert r x s.name_cache })

  -- ResourceSingularizer
  unfoldable pub resource_singularizer : Str → State W G M → Result Str × State W G M
  unfolding with_client
  resource_singularizer r s = elim (Map.get r s.name_cache) [
    | some x ↦ (ok x, s)
    | none ↦ keep_name r (with_client (λ m. m.resource_singularizer r) s)
  ]
