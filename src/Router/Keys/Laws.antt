-- ===== src/Router/Keys/Laws.antt =====
-- A marked key is read back as it was meant.
use baaah.Prelude.{true, false, Str, ◌++◌, ◌≡◌, arith, has_prefix}
use baaah.Prelude.Text.Laws.{strip_prefix-append}
use baaah.Router.Keys.{trigger_prefix, replay_prefix, decode}

-- No mark of its own, which a Kubernetes name cannot have.
abbrev pub IsPlain : Str → Type 0
IsPlain key = (has_prefix key trigger_prefix ≡ false) × (has_prefix key replay_prefix ≡ false)

pub decode-trigger :
    (key : Str)
    → has_prefix key replay_prefix ≡ false
    → decode (trigger_prefix ++ key)
      ≡ record { from_trigger = true; from_replay = false; key = key }
unfolding decode
decode-trigger key h = ground (arith, strip_prefix-append trigger_prefix key)

pub decode-replay :
    (key : Str)
    → decode (trigger_prefix ++ (replay_prefix ++ key))
      ≡ record { from_trigger = false; from_replay = true; key = key }
unfolding decode
decode-replay key = ground (
  arith,
  strip_prefix-append trigger_prefix (replay_prefix ++ key),
  strip_prefix-append replay_prefix key,
)

pub decode_plain :
    (key : Str)
    → IsPlain key
    → decode key ≡ record { from_trigger = false; from_replay = false; key = key }
unfolding decode
decode_plain key h = ground arith
