-- ===== src/Port/ThreadX/Signals/Answers.antt =====
-- What a pthread of ports/threadx/posix-host that is asked to stop, or stopped, or neither, can be
-- at, and how its own steps and the signals move it.
use thread_metric_benchmark.Base.{◌≡◌, refl, ◌⊎◌, inl, inr, Bool, true, false, not, ◌&&◌, arith}
use thread_metric_benchmark.Port.ThreadX.Signals.{
  HandlerPc, outside, entered, written, paused, woken, Target, enter, pause, wake, leave,
}

-- Not asked to stop; asked, but without an answer; stopped, from the answer on.
pub data Role : Type 0 where
  free : Role
  stopping : Role
  stopped : Role

abbrev pub both_not : Bool → Bool → Bool
both_not a b = not a && not b

unfoldable pub fit : Role → HandlerPc → (suspended suspend_pending resume_pending : Bool) → Bool
fit free outside f sp rp = not f && both_not sp rp
fit free entered f sp rp = false
fit free written f sp rp = not f && not sp && rp
fit free paused f sp rp = f && not sp && rp
fit free woken f sp rp = f && both_not sp rp
fit stopping outside f sp rp = not f && sp && not rp
fit stopping entered f sp rp = not f && both_not sp rp
fit stopping written f sp rp = not f && sp && rp
fit stopping paused f sp rp = f && sp && rp
fit stopping woken f sp rp = f && sp && not rp
fit stopped outside f sp rp = false
fit stopped entered f sp rp = false
fit stopped written f sp rp = not f && both_not sp rp
fit stopped paused f sp rp = f && both_not sp rp
fit stopped woken f sp rp = false

abbrev pub Fits : Role → Target → Type 0
Fits r g = fit r g.pc g.suspended g.suspend_pending g.resume_pending ≡ true

-- The handler begins only in a pthread that is asked to stop, and goes on to its answer.
pub delivered :
    (r : Role) (p : HandlerPc) (f sp rp : Bool)
    → p ≡ outside
    → sp ≡ true
    → fit r p f sp rp ≡ true
    → (r ≡ stopping) × (f ≡ false) × (rp ≡ false)
unfolding fit
delivered stopping outside false sp false e a h = (refl, refl, refl)
delivered stopping outside true sp rp e a h = ground arith
delivered stopping outside false sp true e a h = ground arith
delivered free outside f sp rp e a h = ground arith
delivered stopped outside f sp rp e a h = ground arith
delivered r entered f sp rp e a h = absurd (cc e)
delivered r written f sp rp e a h = absurd (cc e)
delivered r paused f sp rp e a h = absurd (cc e)
delivered r woken f sp rp e a h = absurd (cc e)

pub writes :
    (r : Role) (p : HandlerPc) (f sp rp : Bool)
    → p ≡ entered
    → fit r p f sp rp ≡ true
    → (r ≡ stopping) × (fit stopped written f sp rp ≡ true)
unfolding fit
writes stopping entered f sp rp e h = (refl, h)
writes free entered f sp rp e h = ground arith
writes stopped entered f sp rp e h = ground arith
writes r outside f sp rp e h = absurd (cc e)
writes r written f sp rp e h = absurd (cc e)
writes r paused f sp rp e h = absurd (cc e)
writes r woken f sp rp e h = absurd (cc e)

-- The other steps of a pthread keep what it is.
pub enter-Fits :
    (g : Target) → g.suspended ≡ false → g.resume_pending ≡ false → Fits stopping (enter g)
unfolding fit enter
enter-Fits g e h = rw (e, h) refl

pub pause-Fits : (r : Role) (g : Target) → g.pc ≡ written → Fits r g → Fits r (pause g)
unfolding fit pause
pause-Fits free g e h = ground arith
pause-Fits stopping g e h = ground arith
pause-Fits stopped g e h = ground arith

pub wake-Fits :
    (r : Role) (g : Target) → g.pc ≡ paused → g.resume_pending ≡ true → Fits r g → Fits r (wake g)
unfolding fit wake
wake-Fits free g e a h = ground arith
wake-Fits stopping g e a h = ground arith
wake-Fits stopped g e a h = ground arith

pub leave-Fits : (r : Role) (g : Target) → g.pc ≡ woken → Fits r g → Fits r (leave g)
unfolding fit leave
leave-Fits free g e h = ground arith
leave-Fits stopping g e h = ground arith
leave-Fits stopped g e h = ground arith

-- The caller's signals.
pub ask-fit :
    (p : HandlerPc) (f sp rp : Bool) → fit free p f sp rp ≡ true → fit stopping p f true rp ≡ true
unfolding fit
ask-fit outside f sp rp h = ground arith
ask-fit entered f sp rp h = ground arith
ask-fit written f sp rp h = ground arith
ask-fit paused f sp rp h = ground arith
ask-fit woken f sp rp h = ground arith

pub release-fit :
    (p : HandlerPc) (f sp rp : Bool) → fit stopped p f sp rp ≡ true → fit free p f sp true ≡ true
unfolding fit
release-fit outside f sp rp h = ground arith
release-fit entered f sp rp h = ground arith
release-fit written f sp rp h = ground arith
release-fit paused f sp rp h = ground arith
release-fit woken f sp rp h = ground arith

-- A stopped pthread is in the handler, behind its answer and before its return, and no signal is
-- under way to it.
pub stopped-place :
    (p : HandlerPc) (f sp rp : Bool)
    → fit stopped p f sp rp ≡ true
    → ((p ≡ written) ⊎ (p ≡ paused)) × (sp ≡ false) × (rp ≡ false)
unfolding fit
stopped-place outside f sp rp h = ground arith
stopped-place entered f sp rp h = ground arith
stopped-place written f sp rp h = (inl refl, ground arith, ground arith)
stopped-place paused f sp rp h = (inr refl, ground arith, ground arith)
stopped-place woken f sp rp h = ground arith

-- Outside the handler the flag is down.
pub outside-flag :
    (r : Role) (p : HandlerPc) (f sp rp : Bool) → p ≡ outside → fit r p f sp rp ≡ true → f ≡ false
unfolding fit
outside-flag free p f sp rp e h = ground arith
outside-flag stopping p f sp rp e h = ground arith
outside-flag stopped p f sp rp e h = ground arith
