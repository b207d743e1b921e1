-- ===== src/Engine/Step/Timeouts.antt =====
-- The timers that a transition sets: two for the instance at its first step, one for each state.
use direktiv.Base.{
  if◌then◌else◌, inl, inr, Bool-cases, ℕ, ◌==◌, ◌≡◌, refl, ◌∙◌, ap, ◌≢◌, String, is_empty,
  str_eq_ne, true, false, List, ◌∷◌, Option, none, some, arith, Bool,
}
use direktiv.Engine.Services.{Services}
use direktiv.Engine.World.{
  ◌>>◌, or_crash, World, returned, M, Record, Effect, scheduled_timeout, pass, the_record,
}
use direktiv.Engine.Step.{
  with_timeouts, Init, schedule_timeout, instance_deadlines, step_to, transition, timeout_name,
}

pub schedule_timeout-effects :
    (soft : Bool) (deadline : ℕ) (w : World)
    → (rest : List Effect) × (schedule_timeout soft deadline w ≡ (
      returned tt,
      record w {
        effects =
            scheduled_timeout soft (timeout_name w.instance.step) w.instance.step deadline ∷ rest;
      },
    ))
unfolding schedule_timeout
schedule_timeout-effects soft deadline w = (_, refl)

-- The world as the two timers of the instance are set.
abbrev pub timed : World → List Effect → World
timed w es = record w { effects = es }

pub is_empty_ne : (s : String) → s ≢ "" → is_empty s ≡ false
is_empty_ne s h = str_eq_ne s "" h

pub length-eq : (n step : ℕ) → n ≡ step → (n == step) ≡ true
length-eq n step h = ground arith

pub the_record-eq :
    (w : World) (r : Record) → w.instance.rec ≡ some r → the_record w ≡ (returned r, w)
the_record-eq w r h = ap (λ (o : Option Record). or_crash o w) h

with_timeouts-effects :
    (deadlines : Option (ℕ × ℕ)) (next : M (Unit {0})) (w : World)
    → deadlines ≢ none
    → (es : List Effect) × (with_timeouts deadlines next w ≡ next (timed w es))
unfolding with_timeouts
with_timeouts-effects none next w d = absurd (d refl)
with_timeouts-effects (some (soft, hard)) next w d =
    let (es, p) = schedule_timeout-effects true soft w in
    let w' =
      timed w (scheduled_timeout true (timeout_name w.instance.step) w.instance.step soft ∷ es) in
    let (es', q) = schedule_timeout-effects false hard w' in
    (_, ap (pass (λ _. schedule_timeout false hard >> next)) p ∙ ap (pass (λ _. next)) q)

-- `transition` is `step_to`, with two timers set before it at the first step.
pub transition-steps :
    (services : Services) (init : Init) (next : String) (attempt : ℕ) (w : World) (r : Record)
    → w.instance.rec ≡ some r
    → instance_deadlines services w.instance.wf.timeouts ≢ none
    → (es : List Effect) × (transition services init next attempt w
        ≡ step_to services init next attempt (timed w es))
unfolding transition
transition-steps services init next attempt w r h d =
    let m = step_to services init next attempt in
    let deadlines = instance_deadlines services w.instance.wf.timeouts in
    let (es, p) = with_timeouts-effects deadlines m w d in
    let k = λ (rec : Record). if w.instance.step == 0 then with_timeouts deadlines m else m in
    let e = ap (pass k) (the_record-eq w r h) in
    elim (Bool-cases (w.instance.step == 0)) [
      | inl t ↦ (es, e ∙ rw t p)
      | inr t ↦ (w.effects, e ∙ rw t refl)
    ]
