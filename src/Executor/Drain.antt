-- ===== src/Executor/Drain.antt =====
-- `excute_command_thread` of saced/SaceExcutor.cpp, run until its queue is empty.
use sa_excutor.Common.{ℕ, suc, ◌≡◌, refl, sym, ◌∙◌, false, List, [], ◌∷◌, ◌++◌}
use sa_excutor.Types.Message.{SaceMessageHeader}
use sa_excutor.Executor.{State, waiting, woken, handling, Step, Steps}
use sa_excutor.Executor.Queue.{Inv, pop-front, wake-pop, Step-Inv}

-- A state that steps lead to, in which all that was queued is handled.
abbrev pub Drains : State → Type 0
Drains s = (t : State) × Steps s t × (t.worker ≡ waiting) × (t.queue ≡ []) × (t.handled ≡ s.queued)

-- One message more is handled.
go_on : (s t : State) → Step s t → s.queued ≡ t.queued → Drains t → Drains s
go_on s t st same (u, path, idle, empty, all) = (u, Steps.then st path, idle, empty, all ∙ sym same)

take_one :
    (s : State) (msg : SaceMessageHeader) (rest : List SaceMessageHeader)
    → s.worker ≡ woken
    → s.exit ≡ false
    → s.queue ≡ msg ∷ rest
    → Step s (record s { queue = rest; worker = handling msg })
take_one s msg rest e runs front =
    rw⁻¹ (wake-pop s runs ∙ pop-front s msg rest front) (Step.wakes e)

-- A thread that waits at a posted semaphore takes the front and handles it.
serve :
    (msg : SaceMessageHeader) (rest : List SaceMessageHeader) (s : State) (n : ℕ)
    → s.queue ≡ msg ∷ rest
    → Inv s
    → s.exit ≡ false
    → s.worker ≡ waiting
    → s.sem ≡ suc n
    → ((t : State) → t.queue ≡ rest → Inv t → t.exit ≡ false → t.worker ≡ waiting → Drains t)
    → Drains s
serve msg rest s n front v runs e posted next =
    let s₁ : State = record s { sem = n; worker = woken } in
    let st₁ : Step s s₁ = Step.wait n e posted in
    let v₁ = Step-Inv s s₁ st₁ v in
    let s₂ : State = record s₁ { queue = rest; worker = handling msg } in
    let st₂ : Step s₁ s₂ = take_one s₁ msg rest refl runs front in
    let v₂ = Step-Inv s₁ s₂ st₂ v₁ in
    let s₃ : State = record s₂ { worker = waiting; handled = s₂.handled ++ msg ∷ [] } in
    let st₃ : Step s₂ s₃ = Step.handle msg refl in
    go_on s s₁ st₁ refl
      (go_on s₁ s₂ st₂ refl (go_on s₂ s₃ st₃ refl (next s₃ refl (Step-Inv s₂ s₃ st₃ v₂) runs refl)))
