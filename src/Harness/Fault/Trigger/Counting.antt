-- ===== src/Harness/Fault/Trigger/Counting.antt =====
-- How often a trigger fires, by the occurrences of its kind since it was armed.
use rust_browser_proofs.Base.{
  ℕ, ◌+◌, ◌-◌, ◌<◌, ◌^◌, max, ◌≡◌, refl, ap, ◌∙◌, subst, true, ◌&&◌, List, [], ◌∷◌, ◌++◌, arith,
  ◌==◌, leb, string_eq, if◌then◌else◌,
}
use native.Mathlib.Nat.{zero-add, add-zero}
use rust_browser_proofs.Base.Dict.{lookup, lookup-insert}
use rust_browser_proofs.Harness.Fault.Trigger.{
  OpKind, unfired, op_kind_eq, pass, Action, inject_error, inject_error_persistent, TriggerState,
  count, count_tick, should_fire, fire_of, key,
}

-- The trigger after ticks of these kinds, whatever became of the operations.
unfoldable pub ticks : List OpKind → TriggerState → TriggerState
ticks [] t = t
ticks (j ∷ js) t = ticks js (count_tick j t).1

pub ticks-append :
    (js ks : List OpKind) (t : TriggerState) → ticks (js ++ ks) t ≡ ticks ks (ticks js t)
unfolding ticks
ticks-append [] ks t = refl
ticks-append (j ∷ js) ks t = ticks-append js ks (count_tick j t).1

unfoldable pub occurrences : OpKind → List OpKind → ℕ
occurrences kind [] = 0
occurrences kind (j ∷ js) = (if j == kind then 1 else 0) + occurrences kind js

-- How often a trigger has fired when it has counted `n` occurrences: once it reaches the one that
-- was chosen, or at that one and at each one after it.
abbrev pub firings : Action → ℕ → ℕ → ℕ
firings inject_error at n = if leb 1 at && leb at n then 1 else 0
firings Action.park at n = if leb 1 at && leb at n then 1 else 0
firings inject_error_persistent at n = n + 1 - max at 1

-- A trigger that is armed for this and has counted `n` occurrences.
pub record IsCounting (kind : OpKind) (at : ℕ) (action : Action) (n : ℕ) (t : TriggerState)
    : Type 0 where
  pub kind_kept : t.kind ≡ kind
  pub at_kept : t.at ≡ at
  pub action_kept : t.action ≡ action
  pub armed : t.armed ≡ true
  pub counted : count kind t ≡ n
  pub firings_counted : t.fired ≡ firings action at n

count_tick-IsCounting :
    (j kind : OpKind) (at : ℕ) (action : Action) (n : ℕ) (t : TriggerState)
    → IsCounting kind at action n t
    → (if j == kind then 1 else 0) + n < 2 ^ 64
    → IsCounting kind at action ((if j == kind then 1 else 0) + n) (count_tick j t).1
unfolding count_tick count
count_tick-IsCounting j kind at inject_error n t c h =
    ground (arith, lookup-insert (key j) (key j) (n + 1) t.counts)
count_tick-IsCounting j kind at Action.park n t c h =
    ground (arith, lookup-insert (key j) (key j) (n + 1) t.counts)
count_tick-IsCounting j kind at inject_error_persistent n t c h =
    ground (arith, lookup-insert (key j) (key j) (n + 1) t.counts)

pub count_tick-IsCounting_self :
    (kind : OpKind) (at : ℕ) (action : Action) (n : ℕ) (t : TriggerState)
    → IsCounting kind at action n t
    → 1 + n < 2 ^ 64
    → IsCounting kind at action (1 + n) (count_tick kind t).1
count_tick-IsCounting_self kind at action n t c h =
    let d : (if kind == kind then 1 else 0) ≡ 1 = ground arith in
    subst (λ m. IsCounting kind at action (m + n) (count_tick kind t).1) d
      (count_tick-IsCounting kind kind at action n t c (omega (arith, d)))

-- What the tick for its own kind does: it fires exactly where the action says.
pub count_tick-fire :
    (kind : OpKind) (at : ℕ) (action : Action) (n : ℕ) (t : TriggerState)
    → IsCounting kind at action n t
    → n + 1 < 2 ^ 64
    → (count_tick kind t).0
      ≡ (if should_fire action (n + 1) at then fire_of action (n + 1) else pass)
unfolding count_tick count
count_tick-fire kind at action n t c h = ground arith

ticks-IsCounting :
    (js : List OpKind) (kind : OpKind) (at : ℕ) (action : Action) (n : ℕ) (t : TriggerState)
    → IsCounting kind at action n t
    → occurrences kind js + n < 2 ^ 64
    → IsCounting kind at action (occurrences kind js + n) (ticks js t)
unfolding ticks occurrences
ticks-IsCounting [] kind at action n t c h = rw zero-add c
ticks-IsCounting (j ∷ js) kind at action n t c h =
    let d : ℕ = if j == kind then 1 else 0 in
    subst (λ m. IsCounting kind at action m (ticks js (count_tick j t).1)) (omega arith)
      (ticks-IsCounting js kind at action (d + n) (count_tick j t).1
        (count_tick-IsCounting j kind at action n t c (omega arith)) (omega arith))

pub unfired-IsCounting :
    (kind : OpKind) (at : ℕ) (action : Action)
    → IsCounting kind at action 0 (unfired kind at action true)
unfolding count lookup
unfired-IsCounting kind at inject_error = record {
  kind_kept = refl;
  at_kept = refl;
  action_kept = refl;
  armed = refl;
  counted = refl;
  firings_counted = ground arith;
}
unfired-IsCounting kind at Action.park = record {
  kind_kept = refl;
  at_kept = refl;
  action_kept = refl;
  armed = refl;
  counted = refl;
  firings_counted = ground arith;
}
unfired-IsCounting kind at inject_error_persistent = record {
  kind_kept = refl;
  at_kept = refl;
  action_kept = refl;
  armed = refl;
  counted = refl;
  firings_counted = omega arith;
}

-- An armed trigger that has seen any operations, in any order, has fired by the count of its own
-- kind alone: once if the chosen occurrence was among them and its action is a single error, and
-- at that and every later occurrence if the error is persistent. Other operations do not count.
pub ticks-firings :
    (js : List OpKind) (kind : OpKind) (at : ℕ) (action : Action)
    → occurrences kind js < 2 ^ 64
    → (count kind (ticks js (unfired kind at action true)) ≡ occurrences kind js)
      × ((ticks js (unfired kind at action true)).fired ≡ firings action at (occurrences kind js))
ticks-firings js kind at action h =
    let c =
      ticks-IsCounting js kind at action 0 (unfired kind at action true)
        (unfired-IsCounting kind at action) (omega arith) in
    (c.counted ∙ add-zero _, c.firings_counted ∙ ap (firings action at) (add-zero _))
