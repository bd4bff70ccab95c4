-- ===== src/Executor/Queue.antt =====
-- The queue and the semaphore of SaceExcutor (saced/SaceExcutor.cpp): order and wake-ups.
use sa_excutor.Common.{
  append_assoc, ℕ, suc, ◌+◌, ◌≤◌, ◌≡◌, refl, sym, ap, ◌∙◌, Bool, true, false, ◌⊎◌, inl, inr, List,
  [], ◌∷◌, ◌++◌, arith, length, length-append, Bool-cases,
}
use sa_excutor.Types.Message.{SaceMessageHeader}
use sa_excutor.Executor.{
  State, Worker, waiting, woken, stopped, handling, init, take_front, pop, wake, Step, Steps,
  Reachable,
}

-- The message in a handler.
abbrev pub in_hand : Worker → List SaceMessageHeader
in_hand (handling msg) = msg ∷ []
in_hand _ = []

-- A thread that is past its wait looks at the queue once more.
abbrev pub is_woken : Worker → ℕ
is_woken woken = 1
is_woken _ = 0

abbrev pub is_stopped : Worker → Bool
is_stopped stopped = true
is_stopped _ = false

pub record Inv (s : State) : Type 0 where
  pub order : s.handled ++ (in_hand s.worker ++ s.queue) ≡ s.queued
  pub wakes : is_stopped s.worker ≡ false → length s.queue ≤ s.sem + s.posting + is_woken s.worker

pub List-cases :
    (xs : List SaceMessageHeader)
    → (xs ≡ []) ⊎ ((x : SaceMessageHeader) × (rest : List SaceMessageHeader) × (xs ≡ x ∷ rest))
List-cases [] = inl refl
List-cases (x ∷ xs) = inr (x, xs, refl)

-- The three facts about a thread in a known place.
at_worker :
    (s : State) (w : Worker)
    → s.worker ≡ w
    → Inv s
    → (s.handled ++ (in_hand w ++ s.queue) ≡ s.queued)
      × (is_stopped w ≡ false → length s.queue ≤ s.sem + s.posting + is_woken w)
at_worker s w e v = (
  ap (λ w. s.handled ++ (in_hand w ++ s.queue)) (sym e) ∙ v.order,
  λ h.
      let moves = v.wakes (ap is_stopped e ∙ h) in
      let place : is_woken s.worker ≡ is_woken w = ap is_woken e in omega arith,
)

pub pop-empty : (s : State) → s.queue ≡ [] → pop s ≡ record s { worker = waiting }
unfolding pop take_front
pop-empty s e = ap (λ q. take_front q s) e

pub pop-front :
    (s : State) (msg : SaceMessageHeader) (rest : List SaceMessageHeader)
    → s.queue ≡ msg ∷ rest
    → pop s ≡ record s { queue = rest; worker = handling msg }
unfolding pop take_front
pop-front s msg rest e = ap (λ q. take_front q s) e

pub wake-exit : (s : State) → s.exit ≡ true → wake s ≡ record s { worker = stopped }
unfolding wake
wake-exit s e = simp e refl

pub wake-pop : (s : State) → s.exit ≡ false → wake s ≡ pop s
unfolding wake
wake-pop s e = simp e refl

-- The thread takes the front, or finds the queue empty.
pop-Inv : (s : State) → s.worker ≡ woken → Inv s → Inv (pop s)
pop-Inv s e v =
    let (order, wakes) = at_worker s woken e v in
    elim (List-cases s.queue) [
      | inl none_left ↦
          let short : length s.queue ≡ 0 = ap length none_left in
          rw (pop-empty s none_left) (record { order = order; wakes = λ _. omega arith })
      | inr (msg, rest, taken) ↦
          let bound = wakes refl in
          let longer : length s.queue ≡ suc (length rest) = ap length taken in
          rw (pop-front s msg rest taken) (record {
            order = ap (λ q. s.handled ++ q) (sym taken) ∙ order;
            wakes = λ _. omega arith;
          })
    ]

wake-Inv : (s : State) → s.worker ≡ woken → Inv s → Inv (wake s)
wake-Inv s e v = elim (Bool-cases s.exit) [
  | inl ends ↦
      let (order, _) = at_worker s woken e v in
      rw (wake-exit s ends) (record { order = order; wakes = λ h. ground (arith, h) })
  | inr goes_on ↦ rw (wake-pop s goes_on) (pop-Inv s e v)
]

pub Step-Inv : (s t : State) → Step s t → Inv s → Inv t
Step-Inv s t (Step.check msg running) v = record { order = v.order; wakes = v.wakes }
Step-Inv s t (Step.lock msg before after at) v = record {
  order =
      ap (λ q. s.handled ++ q) (sym (append_assoc (in_hand s.worker) s.queue (msg ∷ [])))
      ∙ sym (append_assoc s.handled (in_hand s.worker ++ s.queue) (msg ∷ []))
      ∙ ap (λ q. q ++ msg ∷ []) v.order;
  wakes = λ h. omega (arith, v.wakes h, length-append s.queue (msg ∷ []));
}
Step-Inv s t (Step.post n some_post) v = record {
  order = v.order;
  wakes = λ h. omega (arith, v.wakes h);
}
Step-Inv s t (Step.wait n e some_sem) v =
    let (order, wakes) = at_worker s waiting e v in
    record { order = order; wakes = λ _. omega (arith, wakes refl) }
Step-Inv s t (Step.interrupt e) v =
    let (order, wakes) = at_worker s waiting e v in
    record { order = order; wakes = λ _. omega (arith, wakes refl) }
Step-Inv s t (Step.timeout e z) v = v
Step-Inv s t (Step.wakes e) v = wake-Inv s e v
Step-Inv s t (Step.handle msg e) v =
    let (order, wakes) = at_worker s (handling msg) e v in
    record {
      order = append_assoc s.handled (msg ∷ []) s.queue ∙ order;
      wakes = λ _. omega (arith, wakes refl);
    }
Step-Inv s t Step.destroy v = record { order = v.order; wakes = λ h. omega (arith, v.wakes h) }

Steps-Inv : (s t : State) → Steps s t → Inv s → Inv t
Steps-Inv s t Steps.here v = v
Steps-Inv s t (Steps.then {t = m} st rest) v = Steps-Inv m t rest (Step-Inv s m st v)

-- In every reachable state: what was handled, then the message in the handler, then the queue, are
-- the messages in the order in which they were queued; and while the thread runs, the queue is no
-- longer than the posts that are made or still to come, with one for a thread past its wait.
pub Reachable-Inv : (s : State) → Reachable s → Inv s
unfolding init
Reachable-Inv s r = Steps-Inv init s r (record { order = refl; wakes = λ _. omega arith })
