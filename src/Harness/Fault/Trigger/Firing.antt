-- ===== src/Harness/Fault/Trigger/Firing.antt =====
-- How often the trigger of harness/src/fault.rs has fired, tick by tick.
use mathlib.Core.Option.{get_or}
use rust_browser_proofs.Base.{
  ℕ, ◌+◌, ◌%◌, ◌^◌, ◌≡◌, ◌≢◌, refl, arith, Bool, true, false, not, ◌||◌, ◌==◌, string_eq,
  if◌then◌else◌,
}
use rust_browser_proofs.Base.Dict.{lookup, insert}
use rust_browser_proofs.Harness.Fault.Trigger.{
  OpKind, op_kind_eq, Action, inject_error, inject_error_persistent, TriggerState, key, should_fire,
  fire_of, count_tick, Fire, pass, inject,
}

-- What a trigger waits for.
abbrev pub setup : TriggerState → OpKind × ℕ × Action
setup t = (t.kind, t.at, t.action)

-- What a tick of an operation counts, by what it makes of the operation.
abbrev pub Counted : OpKind → TriggerState → Fire → TriggerState → Type 0
Counted kind t pass u = (u.fired ≡ t.fired) × (setup u ≡ setup t)
Counted kind t (inject n) u = (u.fired ≡ (t.fired + 1) % 2 ^ 64) × (t.action ≢ Action.park)
Counted kind t (Fire.park n) u = (u.fired ≡ (t.fired + 1) % 2 ^ 64) × (kind ≡ t.kind) × (n ≡ t.at)

fire_of-Counted :
    (kind : OpKind) (action : Action) (n : ℕ) (t u : TriggerState)
    → u.fired ≡ (t.fired + 1) % 2 ^ 64
    → t.action ≡ action
    → kind ≡ t.kind
    → should_fire action n t.at ≡ true
    → Counted kind t (fire_of action n) u
unfolding fire_of should_fire
fire_of-Counted kind inject_error n t u h e same fires = (h, λ e'. cc)
fire_of-Counted kind inject_error_persistent n t u h e same fires = (h, λ e'. cc)
fire_of-Counted kind Action.park n t u h e same fires = (h, same, ground arith)

if-Counted :
    (kind : OpKind) (b : Bool) (t : TriggerState) (x y : Fire × TriggerState)
    → (b ≡ true → Counted kind t x.0 x.1)
    → (b ≡ false → Counted kind t y.0 y.1)
    → Counted kind t (if b then x else y).0 (if b then x else y).1
if-Counted kind true t x y hx hy = hx refl
if-Counted kind false t x y hx hy = hy refl

counting-kind :
    (kind : OpKind) (t : TriggerState)
    → (not (kind == t.kind) || not t.armed) ≡ false
    → kind ≡ t.kind
counting-kind kind t h = ground arith

pub count_tick-Counted :
    (kind : OpKind) (t : TriggerState) → Counted kind t (count_tick kind t).0 (count_tick kind t).1
unfolding count_tick key
count_tick-Counted kind t =
    let n = (get_or (lookup (key kind) t.counts) 0 + 1) % 2 ^ 64 in
    let counted = record t { counts = insert (key kind) n t.counts } in
    let firing = record counted { fired = (t.fired + 1) % 2 ^ 64 } in
    let passing : Fire × TriggerState = (pass, counted) in
    if-Counted kind (not (kind == t.kind) || not t.armed) t (pass, t)
      (if should_fire t.action n t.at then (fire_of t.action n, firing) else passing)
      (λ idle. (refl, refl))
      (λ counting.
        if-Counted kind (should_fire t.action n t.at) t (fire_of t.action n, firing) passing
          (fire_of-Counted kind t.action n t firing refl refl (counting-kind kind t counting))
          (λ quiet. (refl, refl)))
