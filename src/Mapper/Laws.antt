-- ===== src/Mapper/Laws.antt =====
-- The caches of the mapper against the plain mapper of an API that does not change.
use baaah.Prelude.{
  some, Str, List, [], ◌∷◌, ◌≡◌, ◌≢◌, refl, arith, eq_iff, list_eq, nat_eq, pair_eq, map, ◌⊎◌, inl,
  inr, Option-cases, sym, ap, ◌∙◌,
}
use baaah.Prelude.Map
use baaah.Objects.{Gvk, GroupKind}
use baaah.Errors.{Result, ok, err}
use baaah.Mapper.{
  Gvr, gvr_eq, GkKey, join, RestMapper, Discovery, State, with_client, refresh, try_known,
  keep_kinds, kinds_for, keep_resources, resources_for, keep_mappings, rest_mappings, keep_name,
  resource_singularizer,
}

-- The requests, and their answers.
pub data Request : Type 0 where
  kinds : Gvr → Request
  resources : Gvr → Request
  mappings : GroupKind → List Str → Request
  singular : Str → Request

pub data Answer (M : Type 0) : Type 0 where
  kinds : Result (List Gvk) → Answer M
  resources : Result (List Gvr) → Answer M
  mappings : Result (List M) → Answer M
  singular : Result Str → Answer M

-- What a mapper without caches answers; it is asked for a kind in all its versions.
abbrev pub plain_answer : {M : Type 0} → RestMapper M → Request → Answer M
plain_answer m (kinds r) = kinds (m.kinds_for r)
plain_answer m (resources r) = resources (m.resources_for r)
plain_answer m (mappings gk vs) = mappings (m.rest_mappings gk)
plain_answer m (singular s) = singular (m.resource_singularizer s)

module _ {W G M : Type 0} (d : Discovery W G M) where
  abbrev pub ask : Request → State W G M → Answer M × State W G M
  ask (kinds r) s = let (x, s') = kinds_for d r s in (kinds x, s')
  ask (resources r) s = let (x, s') = resources_for d r s in (resources x, s')
  ask (mappings gk vs) s = let (x, s') = rest_mappings d gk vs s in (mappings x, s')
  ask (singular n) s = let (x, s') = resource_singularizer d n s in (singular x, s')

  abbrev pub ask_all : List Request → State W G M → List (Answer M)
  ask_all [] s = []
  ask_all (q ∷ qs) s = (ask q s).0 ∷ ask_all qs (ask q s).1

  module _ (api : List G) (known : api ≢ [])
      (static : (w : W) → (d.get_api_group_resources w).0 ≡ ok api) where
    abbrev plain_mapper : RestMapper M
    plain_mapper = d.new_discovery_rest_mapper api

    -- The caches hold answers of the plain mapper, and what is known of the API is right.
    pub record IsSound (s : State W G M) : Type 0 where
      pub api_known : (s.api ≡ []) ⊎ (s.api ≡ api)
      pub gvr :
          (r : Gvr) (x : List Gvk)
          → Map.get r s.gvr_cache ≡ some x
          → plain_mapper.kinds_for r ≡ ok x
      pub gvr_gvr :
          (r : Gvr) (x : List Gvr)
          → Map.get r s.gvr_gvr_cache ≡ some x
          → plain_mapper.resources_for r ≡ ok x
      pub gk :
          (k : GkKey) (x : List M)
          → Map.get k s.gk_cache ≡ some x
          → plain_mapper.rest_mappings k.1 ≡ ok x
      pub name :
          (r : Str) (x : Str)
          → Map.get r s.name_cache ≡ some x
          → plain_mapper.resource_singularizer r ≡ ok x

    -- What withClient leaves: the plain answer, and the caches as they were.
    record Asked {A : Type 0} (f : RestMapper M → Result A) (t : Result A × State W G M)
        : Type 0 where
      answer : t.0 ≡ f plain_mapper
      sound : IsSound t.1

    refresh-Asked :
        {A : Type 0} (f : RestMapper M → Result A) (s : State W G M)
        → IsSound s
        → Asked f (refresh d f s)
    refresh-Asked f s v = ground (arith, static s.outside)

    -- what is known already, `gs`, is right
    tried-Asked :
        {A : Type 0} (f : RestMapper M → Result A) (s : State W G M) (r : Result A)
        → f plain_mapper ≡ r
        → IsSound s
        → Asked f (try_known d f s r)
    tried-Asked f s (ok x) e v = ground (arith, e)
    tried-Asked f s (err x) e v = refresh-Asked f s v

    with_client-Asked :
        {A : Type 0} (f : RestMapper M → Result A) (s : State W G M)
        → IsSound s
        → Asked f (with_client d f s)
    unfolding with_client
    with_client-Asked f s v = go s.api refl v.api_known
      where
        go : (gs : List G) → s.api ≡ gs → (s.api ≡ []) ⊎ (s.api ≡ api) → Asked f (with_client d f s)
        go [] e k = rw (e, with_client) (refresh-Asked f s v)
        go (x ∷ xs) e (inl k) = ground (arith, e, k)
        go (x ∷ xs) e (inr k) =
            rw (e, with_client)
              (tried-Asked f s (f (d.new_discovery_rest_mapper (x ∷ xs)))
                (ap (λ gs. f (d.new_discovery_rest_mapper gs)) (sym k ∙ e)) v)

    keep_kinds-Asked :
        (r : Gvr) (x : Result (List Gvk)) (t : State W G M)
        → Asked (λ m. m.kinds_for r) (x, t)
        → Asked (λ m. m.kinds_for r) (keep_kinds d r (x, t))
    keep_kinds-Asked r (err e) t v = v
    keep_kinds-Asked r (ok x) t v = record {
      answer = v.answer;
      sound = record {
        api_known = v.sound.api_known;
        gvr = λ j y h.
            ground (arith, eq_iff r j, Map.get-insert r j x t.gvr_cache, v.sound.gvr j y, v.answer);
        gvr_gvr = v.sound.gvr_gvr;
        gk = v.sound.gk;
        name = v.sound.name;
      };
    }

    kinds_for-Asked :
        (r : Gvr) (s : State W G M) → IsSound s → Asked (λ m. m.kinds_for r) (kinds_for d r s)
    unfolding kinds_for
    kinds_for-Asked r s v = elim (Option-cases (Map.get r s.gvr_cache)) [
      | inr (x, e) ↦ rw (e, kinds_for) (record { answer = sym (v.gvr r x e); sound = v })
      | inl e ↦
          rw (e, kinds_for) (keep_kinds-Asked r _ _ (with_client-Asked (λ m. m.kinds_for r) s v))
    ]

    keep_resources-Asked :
        (r : Gvr) (x : Result (List Gvr)) (t : State W G M)
        → Asked (λ m. m.resources_for r) (x, t)
        → Asked (λ m. m.resources_for r) (keep_resources d r (x, t))
    keep_resources-Asked r (err e) t v = v
    keep_resources-Asked r (ok x) t v = record {
      answer = v.answer;
      sound = record {
        api_known = v.sound.api_known;
        gvr = v.sound.gvr;
        gvr_gvr = λ j y h. ground (
          arith,
          eq_iff r j,
          Map.get-insert r j x t.gvr_gvr_cache,
          v.sound.gvr_gvr j y,
          v.answer,
        );
        gk = v.sound.gk;
        name = v.sound.name;
      };
    }

    resources_for-Asked :
        (r : Gvr) (s : State W G M)
        → IsSound s
        → Asked (λ m. m.resources_for r) (resources_for d r s)
    unfolding resources_for
    resources_for-Asked r s v = elim (Option-cases (Map.get r s.gvr_gvr_cache)) [
      | inr (x, e) ↦ rw (e, resources_for) (record { answer = sym (v.gvr_gvr r x e); sound = v })
      | inl e ↦
          rw (e, resources_for)
            (keep_resources-Asked r _ _ (with_client-Asked (λ m. m.resources_for r) s v))
    ]

    keep_mappings-Asked :
        (k : GkKey) (x : Result (List M)) (t : State W G M)
        → Asked (λ m. m.rest_mappings k.1) (x, t)
        → Asked (λ m. m.rest_mappings k.1) (keep_mappings d k (x, t))
    keep_mappings-Asked k (err e) t v = v
    keep_mappings-Asked k (ok x) t v = record {
      answer = v.answer;
      sound = record {
        api_known = v.sound.api_known;
        gvr = v.sound.gvr;
        gvr_gvr = v.sound.gvr_gvr;
        gk = λ j y h.
            ground (arith, eq_iff k j, Map.get-insert k j x t.gk_cache, v.sound.gk j y, v.answer);
        name = v.sound.name;
      };
    }

    rest_mappings-Asked :
        (gk : GroupKind) (vs : List Str) (s : State W G M)
        → IsSound s
        → Asked (λ m. m.rest_mappings gk) (rest_mappings d gk vs s)
    unfolding rest_mappings
    rest_mappings-Asked gk vs s v = elim (Option-cases (Map.get (join vs, gk) s.gk_cache)) [
      | inr (x, e) ↦
          rw (e, rest_mappings) (record { answer = sym (v.gk (join vs, gk) x e); sound = v })
      | inl e ↦
          rw (e, rest_mappings)
            (keep_mappings-Asked (join vs, gk) _ _
              (with_client-Asked (λ m. m.rest_mappings gk) s v))
    ]

    keep_name-Asked :
        (r : Str) (x : Result Str) (t : State W G M)
        → Asked (λ m. m.resource_singularizer r) (x, t)
        → Asked (λ m. m.resource_singularizer r) (keep_name d r (x, t))
    keep_name-Asked r (err e) t v = v
    keep_name-Asked r (ok x) t v = record {
      answer = v.answer;
      sound = record {
        api_known = v.sound.api_known;
        gvr = v.sound.gvr;
        gvr_gvr = v.sound.gvr_gvr;
        gk = v.sound.gk;
        name = λ j y h.
            ground
              (arith, eq_iff r j, Map.get-insert r j x t.name_cache, v.sound.name j y, v.answer);
      };
    }

    resource_singularizer-Asked :
        (r : Str) (s : State W G M)
        → IsSound s
        → Asked (λ m. m.resource_singularizer r) (resource_singularizer d r s)
    unfolding resource_singularizer
    resource_singularizer-Asked r s v = elim (Option-cases (Map.get r s.name_cache)) [
      | inr (x, e) ↦
          rw (e, resource_singularizer) (record { answer = sym (v.name r x e); sound = v })
      | inl e ↦
          rw (e, resource_singularizer)
            (keep_name-Asked r _ _ (with_client-Asked (λ m. m.resource_singularizer r) s v))
    ]

    ask-plain_answer :
        (q : Request) (s : State W G M)
        → IsSound s
        → ((ask q s).0 ≡ plain_answer plain_mapper q) × IsSound (ask q s).1
    ask-plain_answer (kinds r) s v =
        let t = kinds_for-Asked r s v in (ap (λ x. kinds x) t.answer, t.sound)
    ask-plain_answer (resources r) s v =
        let t = resources_for-Asked r s v in (ap (λ x. resources x) t.answer, t.sound)
    ask-plain_answer (mappings gk vs) s v =
        let t = rest_mappings-Asked gk vs s v in (ap (λ x. mappings x) t.answer, t.sound)
    ask-plain_answer (singular n) s v =
        let t = resource_singularizer-Asked n s v in (ap (λ x. singular x) t.answer, t.sound)

    -- Any sequence of requests for kinds, resources, mappings and singular names gets from the
    -- mapper with its caches the answers, errors too, of the mapper that discovery makes of the
    -- API, asked each time without caches and, for mappings, without versions; the API is not empty
    -- and does not change, discovery succeeds, and the caches hold right answers at the start.
    pub ask_all-plain_answer :
        (qs : List Request) (s : State W G M)
        → IsSound s
        → ask_all qs s ≡ map (plain_answer plain_mapper) qs
    ask_all-plain_answer [] s v = refl
    ask_all-plain_answer (q ∷ qs) s v =
        let (a, v') = ask-plain_answer q s v in
        ground (arith, a, ask_all-plain_answer qs (ask q s).1 v')
