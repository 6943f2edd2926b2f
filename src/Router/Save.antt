-- ===== src/Router/Save.antt =====
-- pkg/router/save.go: what the handlers have asked for is applied, and a changed status written.
use baaah.Prelude.{
  Bool, true, false, Option, none, some, List, [], ◌∷◌, ◌==◌, nat_eq, not, ◌&&◌, ◌||◌, pos, lt_int,
  map, if◌then◌else◌,
}
use baaah.Objects.{Gvk, Object}
use baaah.Errors.{Error}
use baaah.Router.Request.{Request}
use baaah.Router.State.{State, Backend, Ref, load}
use baaah.Router.Response.{Response}
use baaah.Router.Client.{registry, get, write}
use baaah.Router.Finalizer.{status_changed}

-- Apply of the interface apply.Apply: the owner, which may be nil, the kinds to prune, whether to
-- prune nothing, and the objects.
abbrev pub Apply : Type 0 → Type 0
Apply W = Option Object → List Gvk → Bool → List Object → W → Option Error × W

-- the results of save
pub record Saved (W : Type 0) : Type 0 where
  pub object : Option Ref
  pub error : Option Error
  pub state : State W

abbrev pub is_empty {ℓ} : {A : Type ℓ} → List A → Bool
is_empty [] = true
is_empty (x ∷ xs) = false

-- WithNoPrune is called: pruning is disabled, or there is nothing but a retry
abbrev pub keeps_all : Response → Bool
keeps_all resp = resp.no_prune || is_empty resp.objects && lt_int (pos 0) resp.delay

abbrev pub loaded? : {W : Type 0} → Option Ref → State W → Option Object
loaded? none s = none
loaded? (some p) s = some (load p s)

module _ {W : Type 0} (b : Backend W) (apply : Apply W) where
  -- return newObj, s.client.Status().Update(req.Ctx, newObj)
  abbrev write_status : Ref → State W → Saved W
  write_status q s =
      let (e, s') = write b b.update_status q s in record { object = some q; error = e; state = s' }

  -- The object was changed while the handlers ran: it is read again.
  abbrev reread : Ref → Request Ref → Ref → State W → Saved W
  reread p req q s =
      let old = load p s in
      let (e, s1) = get b (registry req) old.namespace old.name p s in
      elim e [
        | some x ↦ record { object = none; error = some x; state = s1 }
        | none ↦
            if not (status_changed b (load p s1) (load q s1))
            then record { object = some q; error = none; state = s1 }
            else write_status q s1
      ]

  abbrev save_status : Option Ref → Request Ref → Option Ref → State W → Saved W
  save_status (some p) req (some q) s =
      if status_changed b (load p s) (load q s)
      then (if not ((load p s).generation == (load q s).generation)
          then reread p req q s
          else write_status q s)
      else record { object = some q; error = none; state = s }
  save_status unmodified req new s = record { object = new; error = none; state = s }

  -- The owner stays nil for a request without an object: the one that is made for it is declared
  -- inside the `if`, and dropped there.
  unfoldable pub save : Option Ref → Request Ref → Response → List Gvk → State W → Saved W
  save unmodified req resp gvks s =
      let (e, w) =
        apply (loaded? req.object s) gvks (keeps_all resp) (map (λ p. load p s) resp.objects)
          s.outside in
      let s1 = record s { outside = w } in
      elim e [
        | some x ↦ record { object = none; error = some x; state = s1 }
        | none ↦ save_status unmodified req req.object s1
      ]
