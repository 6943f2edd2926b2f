-- ===== src/Runtime/Controller/Laws.antt =====
-- No key that is enqueued is lost, whether it comes before the work queue exists or after.
use baaah.Prelude.{
  Option, none, some, Str, List, [], ◌∷◌, ◌++◌, ◌≡◌, refl, arith, ℤ, pos, map, ap, ◌∙◌, sym,
}
use mathlib.Core.List.{append_assoc, append-nil, map-append}
use baaah.Runtime.Keys.{key_func}
use baaah.Runtime.Controller.{
  Call, add, add_after, add_rate_limited, forget, done, StartKey, Controller, new_controller,
  submit, enqueue_key, enqueue, enqueue_after, start_call, run,
}

-- The requests of a controller's clients.
pub data Request : Type 0 where
  by_key : Str → Request
  by_name : Str → Str → Request
  by_name_after : Str → Str → ℤ → Request

abbrev pub perform : Request → Controller → Controller
perform (by_key k) = enqueue_key k
perform (by_name ns n) = enqueue ns n
perform (by_name_after ns n d) = enqueue_after ns n d

unfoldable pub perform_all : List Request → Controller → Controller
perform_all [] c = c
perform_all (r ∷ rs) c = perform_all rs (perform r c)

abbrev pub requested_key : Request → Str
requested_key (by_key k) = k
requested_key (by_name ns n) = key_func ns n
requested_key (by_name_after ns n d) = key_func ns n

-- the key that a call asks to be worked on
abbrev pub asked : Call → List Str
asked (add k) = k ∷ []
asked (add_after k d) = k ∷ []
asked (add_rate_limited k) = k ∷ []
asked (forget k) = []
asked (done k) = []

abbrev pub asked_all : List Call → List Str
asked_all [] = []
asked_all (c ∷ cs) = asked c ++ asked_all cs

-- the keys that a controller has been asked for: on its queue, or before it has one
abbrev pub keys_of : Controller → List Str
keys_of c = elim c.workqueue [ none ↦ map (λ k. k.key) c.start_keys | some calls ↦ asked_all calls ]

asked_all-append : (cs ds : List Call) → asked_all (cs ++ ds) ≡ asked_all cs ++ asked_all ds
asked_all-append [] ds = refl
asked_all-append (c ∷ cs) ds =
    ap (λ l. asked c ++ l) (asked_all-append cs ds)
    ∙ sym (append_assoc (asked c) (asked_all cs) (asked_all ds))

keys_of-submit-none :
    (k : StartKey) (ks : List StartKey)
    → map (λ (j : StartKey). j.key) (ks ++ k ∷ []) ≡ map (λ (j : StartKey). j.key) ks ++ k.key ∷ []
keys_of-submit-none k ks = map-append (λ (j : StartKey). j.key) ks (k ∷ [])

keys_of-submit-some :
    (key : Str) (call : Call) (calls : List Call)
    → asked call ≡ key ∷ []
    → asked_all (calls ++ call ∷ []) ≡ asked_all calls ++ key ∷ []
keys_of-submit-some key call calls h =
    asked_all-append calls (call ∷ [])
    ∙ ap (λ l. asked_all calls ++ l) (append-nil (asked call) ∙ h)

keys_of-submit-fields :
    (k : StartKey) (call : Call) (queue : Option (List Call)) (ks : List StartKey)
    → asked call ≡ k.key ∷ []
    → keys_of (submit k call (record { workqueue = queue; start_keys = ks }))
      ≡ keys_of (record { workqueue = queue; start_keys = ks }) ++ k.key ∷ []
keys_of-submit-fields k call none ks h = keys_of-submit-none k ks
keys_of-submit-fields k call (some calls) ks h = keys_of-submit-some k.key call calls h

keys_of-submit :
    (k : StartKey) (call : Call) (c : Controller)
    → asked call ≡ k.key ∷ []
    → keys_of (submit k call c) ≡ keys_of c ++ k.key ∷ []
keys_of-submit k call c h = keys_of-submit-fields k call c.workqueue c.start_keys h

keys_of-perform :
    (r : Request) (c : Controller) → keys_of (perform r c) ≡ keys_of c ++ requested_key r ∷ []
unfolding enqueue_key enqueue enqueue_after
keys_of-perform (by_key k) c = keys_of-submit (record { key = k; after = pos 0 }) (add k) c refl
keys_of-perform (by_name ns n) c =
    keys_of-submit (record { key = key_func ns n; after = pos 0 })
      (add_rate_limited (key_func ns n)) c refl
keys_of-perform (by_name_after ns n d) c =
    keys_of-submit (record { key = key_func ns n; after = d }) (add_after (key_func ns n) d) c refl

keys_of-perform_all :
    (rs : List Request) (c : Controller)
    → keys_of (perform_all rs c) ≡ keys_of c ++ map requested_key rs
unfolding perform_all
keys_of-perform_all [] c = sym (append-nil (keys_of c))
keys_of-perform_all (r ∷ rs) c =
    keys_of-perform_all rs (perform r c)
    ∙ ap (λ l. l ++ map requested_key rs) (keys_of-perform r c)
    ∙ append_assoc (keys_of c) (requested_key r ∷ []) (map requested_key rs)

workqueue-perform :
    (r : Request) (c : Controller) → c.workqueue ≡ none → (perform r c).workqueue ≡ none
unfolding enqueue_key enqueue enqueue_after
workqueue-perform (by_key k) c h = ground arith
workqueue-perform (by_name ns n) c h = ground arith
workqueue-perform (by_name_after ns n d) c h = ground arith

workqueue-perform_all :
    (rs : List Request) (c : Controller) → c.workqueue ≡ none → (perform_all rs c).workqueue ≡ none
unfolding perform_all
workqueue-perform_all [] c h = h
workqueue-perform_all (r ∷ rs) c h =
    workqueue-perform_all rs (perform r c) (workqueue-perform r c h)

asked_all-start : (ks : List StartKey) → asked_all (map start_call ks) ≡ map (λ k. k.key) ks
asked_all-start [] = refl
asked_all-start (k ∷ ks) = ground (arith, asked_all-start ks)

keys_of-run : (c : Controller) → c.workqueue ≡ none → keys_of (run c) ≡ keys_of c
unfolding run
keys_of-run c h = ground (arith, asked_all-start c.start_keys)

-- The calls on the work queue ask for the key of every request that was made before the controller
-- ran or after, in the order of the requests, and for no other key.
pub keys_of-run_between :
    (earlier later : List Request)
    → keys_of (perform_all later (run (perform_all earlier new_controller)))
      ≡ map requested_key (earlier ++ later)
keys_of-run_between earlier later =
    let c = perform_all earlier new_controller in
    keys_of-perform_all later (run c)
    ∙ ap (λ l. l ++ map requested_key later)
        (keys_of-run c (workqueue-perform_all earlier new_controller refl)
          ∙ keys_of-perform_all earlier new_controller)
    ∙ sym (map-append requested_key earlier later)
