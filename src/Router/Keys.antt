-- ===== src/Router/Keys.antt =====
-- The marks that pkg/router/handler.go puts in front of a key, and how onChange reads them.
pub mod Laws
use baaah.Prelude.{Bool, true, false, Str, str, ◌&&◌, has_prefix, trim_prefix, if◌then◌else◌}

abbrev pub trigger_prefix : Str
trigger_prefix = str "_t "

abbrev pub replay_prefix : Str
replay_prefix = str "_r "

-- the variables of onChange that the key sets
pub record Decoded : Type 0 where
  pub from_trigger : Bool
  pub from_replay : Bool
  pub key : Str

abbrev pub strip_trigger : Str → Decoded
strip_trigger key =
    if has_prefix key trigger_prefix
    then record { from_trigger = true; from_replay = false; key = trim_prefix key trigger_prefix }
    else record { from_trigger = false; from_replay = false; key = key }

abbrev pub strip_replay : Decoded → Decoded
strip_replay d =
    if has_prefix d.key replay_prefix
    then record { from_trigger = false; from_replay = true; key = trim_prefix d.key replay_prefix }
    else d

unfoldable pub decode : Str → Decoded
decode key = strip_replay (strip_trigger key)
