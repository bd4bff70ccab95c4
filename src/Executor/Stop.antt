-- ===== src/Executor/Stop.antt =====
-- The end of an executor's thread.
use sa_excutor.Common.{◌≡◌, refl, sym, ap, ◌∙◌, false, arith}
use sa_excutor.Executor.{State, Worker, stopped, Step, Steps}
use sa_excutor.Executor.Queue.{is_stopped}

abbrev IsEnd : State → State → Type 0
IsEnd s t = (t.worker ≡ stopped) × (t.handled ≡ s.handled)

-- A thread that has stopped is at no other place.
elsewhere : (w : Worker) → w ≡ stopped → is_stopped w ≡ false → ⊥
elsewhere w e other = ground (arith, sym other ∙ ap is_stopped e)

Step-stopped : (s t : State) → Step s t → s.worker ≡ stopped → IsEnd s t
Step-stopped s t (Step.check msg running) h = (h, refl)
Step-stopped s t (Step.lock msg before after at) h = (h, refl)
Step-stopped s t (Step.post n some_post) h = (h, refl)
Step-stopped s t (Step.wait n e some_sem) h = absurd (elsewhere s.worker h (ap is_stopped e))
Step-stopped s t (Step.interrupt e) h = absurd (elsewhere s.worker h (ap is_stopped e))
Step-stopped s t (Step.timeout e z) h = (h, refl)
Step-stopped s t (Step.wakes e) h = absurd (elsewhere s.worker h (ap is_stopped e))
Step-stopped s t (Step.handle msg e) h = absurd (elsewhere s.worker h (ap is_stopped e))
Step-stopped s t Step.destroy h = (h, refl)

-- Once the thread has stopped, no sequence of steps handles another message: what is in the queue
-- then, and what a sender that had passed its test of `mExit` still adds, is never handled.
pub stopped_final :
    (s t : State) → Steps s t → s.worker ≡ stopped → (t.worker ≡ stopped) × (t.handled ≡ s.handled)
stopped_final s t Steps.here h = (h, refl)
stopped_final s t (Steps.then {t = m} st rest) h =
    let (still, same) = Step-stopped s m st h in
    let (ends, all) = stopped_final m t rest still in (ends, all ∙ same)
