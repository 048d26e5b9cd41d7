-- ===== src/Harness/Fault/Trigger.antt =====
-- The trigger: an operation kind, an occurrence, and what happens there.
pub mod Counting
pub mod Firing
use mathlib.Core.Option.{get_or}
use rust_browser_proofs.Base.{
  ℕ, ◌+◌, ◌%◌, ◌^◌, String, Bool, not, ◌||◌, ◌==◌, Eq, leb, nat_beq, string_eq, [], if◌then◌else◌,
}
use rust_browser_proofs.Base.Dict.{Dict, lookup, insert}

pub data OpKind : Type 0 where
  vectored_sub_write vectored_write write sync rename sync_dir_before sync_dir_after : OpKind

OpKind-discrete : Discrete OpKind
OpKind-discrete = hlevel

instance unfoldable pub op_kind_eq : Eq OpKind
unfolding OpKind-discrete
op_kind_eq = record { dec = OpKind-discrete }

pub data Action : Type 0 where
  inject_error inject_error_persistent park : Action

-- The name by which `{kind:?}` shows a kind.
abbrev pub kind_name : OpKind → String
kind_name vectored_sub_write = "VectoredSubWrite"
kind_name vectored_write = "VectoredWrite"
kind_name write = "Write"
kind_name sync = "Sync"
kind_name rename = "Rename"
kind_name sync_dir_before = "SyncDirBefore"
kind_name sync_dir_after = "SyncDirAfter"

unfoldable pub key : OpKind → String
key vectored_sub_write = "vsub"
key vectored_write = "vw"
key write = "w"
key sync = "s"
key rename = "r"
key sync_dir_before = "sdb"
key sync_dir_after = "sda"

pub record TriggerState : Type 0 where
  pub kind : OpKind
  pub at : ℕ
  pub action : Action
  pub counts : Dict String ℕ
  pub fired : ℕ
  pub armed : Bool

-- The trigger of a new wrapper, which has counted nothing.
abbrev pub unfired : OpKind → ℕ → Action → Bool → TriggerState
unfired kind at action armed = record {
  kind = kind;
  at = at;
  action = action;
  counts = [];
  fired = 0;
  armed = armed;
}

-- What a tick makes of its operation, with the occurrence that it counted.
pub data Fire : Type 0 where
  pass : Fire
  inject : ℕ → Fire
  park : ℕ → Fire

unfoldable pub should_fire : Action → ℕ → ℕ → Bool
should_fire inject_error_persistent n at = leb at n
should_fire inject_error n at = nat_beq n at
should_fire Action.park n at = nat_beq n at

unfoldable pub fire_of : Action → ℕ → Fire
fire_of inject_error n = inject n
fire_of inject_error_persistent n = inject n
fire_of Action.park n = Fire.park n

-- The occurrences of a kind that were counted.
unfoldable pub count : OpKind → TriggerState → ℕ
unfolding key
count kind t = get_or (lookup (key kind) t.counts) 0

-- `tick` as far as it concerns the trigger.
unfoldable pub count_tick : OpKind → TriggerState → Fire × TriggerState
unfolding key should_fire fire_of
count_tick kind t =
    if not (kind == t.kind) || not t.armed
    then (pass, t)
    else let n = (get_or (lookup (key kind) t.counts) 0 + 1) % 2 ^ 64 in
      let counted = record t { counts = insert (key kind) n t.counts } in
      if should_fire t.action n t.at
      then (fire_of t.action n, record counted { fired = (t.fired + 1) % 2 ^ 64 })
      else (pass, counted)
