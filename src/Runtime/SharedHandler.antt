-- ===== src/Runtime/SharedHandler.antt =====
-- pkg/runtime/sharedhandler.go: the handlers that share the informer of a kind. A run of OnChange is over
-- the entries that are there when it begins; that a removal shifts them in their array is left out.
pub mod Laws
use baaah.Prelude.{
  ℕ, ◌+◌, Bool, true, false, Option, none, some, Str, List, [], ◌∷◌, ◌++◌, ◌==◌, nat_eq, list_eq,
  not, ◌&&◌, if◌then◌else◌,
}
use baaah.Errors.{Error}

-- `O` is runtime.Object and `W` the state behind the handlers. OnChange returns an object, which may
-- be nil, and an error.
abbrev pub OnChange : Type 0 → Type 0 → Type 0
OnChange O W = Str → Option O → W → Option O × Option Error × W

pub record HandlerEntry (O W : Type 0) : Type 0 where
  pub id : ℕ
  pub name : Str
  pub handler : OnChange O W

pub record SharedHandler (O W : Type 0) : Type 0 where
  pub id_counter : ℕ
  pub handlers : List (HandlerEntry O W)

abbrev pub new_shared_handler : {O W : Type 0} → SharedHandler O W
new_shared_handler = record { id_counter = 0; handlers = [] }

module _ {O W : Type 0} where
  -- Register: the id of the entry, and the handlers with it
  unfoldable pub register : Str → OnChange O W → SharedHandler O W → ℕ × SharedHandler O W
  register name h s =
      let id = s.id_counter + 1 in
      (
        id,
        record {
          id_counter = id;
          handlers = s.handlers ++ record { id = id; name = name; handler = h } ∷ [];
        },
      )

  remove_id : ℕ → List (HandlerEntry O W) → List (HandlerEntry O W)
  remove_id id [] = []
  remove_id id (e ∷ es) = let rest = remove_id id es in if e.id == id then es else e ∷ rest

  -- what Register leaves to be done when its context ends
  unfoldable pub unregister : ℕ → SharedHandler O W → SharedHandler O W
  unfolding remove_id
  unregister id s = record s { handlers = remove_id id s.handlers }

-- handlerError
pub record HandlerError : Type 0 where
  pub handler_name : Str
  pub err : Error

-- `accessor` is the UID that meta.Accessor finds, or none if it fails; `ignores` is
-- errors.Is(err, ErrIgnore).
-- the object for the next handler: an object without a UID is passed over
abbrev pub next_object : {O : Type 0} → (O → Option Str) → Option O → Option O → Option O
next_object accessor obj none = obj
next_object accessor obj (some o) = elim (accessor o) [
  | none ↦ some o
  | some uid ↦ if not (uid == []) then some o else obj
]

abbrev pub report : (Error → Bool) → Str → Option Error → List HandlerError
report ignores name none = []
report ignores name (some e) =
    if ignores e then [] else record { handler_name = name; err = e } ∷ []

module _ {O W : Type 0} (accessor : O → Option Str) (ignores : Error → Bool) where
  run_handlers : Str → List (HandlerEntry O W) → Option O → W → List HandlerError × W
  run_handlers key [] obj w = ([], w)
  run_handlers key (h ∷ hs) obj w =
      let (new, e, w1) = h.handler key obj w in
      let (errs, w2) = run_handlers key hs (next_object accessor obj new) w1 in
      (report ignores h.name e ++ errs, w2)

  -- SharedHandler.OnChange; the errors are nil if there is none
  unfoldable pub on_change : Str → Option O → SharedHandler O W → W → List HandlerError × W
  unfolding run_handlers
  on_change key obj s w = run_handlers key s.handlers obj w
