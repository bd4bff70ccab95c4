-- ===== src/Service/Uninit.antt =====
-- `onUninit` and the destructor of SaceServiceExcutor.
use sa_excutor.Common.{ℕ, List, [], ◌∷◌, none, some, ℕ_eq, Str_eq, Run, done, undefined, ◌>>=◌}
use sa_excutor.Common.Map.{find, erase}
use sa_excutor.Service.{ServiceInfo, State, kill, emit, WaitAnswer, sigint}
use sa_excutor.Types.Command.{SaceResponseStatus}
use sa_excutor.Service.{send_response, sigkill}
use sa_excutor.Service.Monitor.{response_of, monitor_service_status}

-- The loop of `onUninit`, before its last look at the services.
unfoldable pub interrupt_all : List ℕ → State → Run State
interrupt_all [] s = done s
interrupt_all (addr ∷ rest) s = elim (find addr s.heap) [
  | none ↦ undefined
  | some info ↦ interrupt_all rest (emit (kill info.pid sigint) s)
]

unfoldable pub on_uninit : (ℕ → WaitAnswer) → State → Run State
unfolding interrupt_all monitor_service_status
on_uninit waits s = interrupt_all s.running s >>= monitor_service_status waits

-- One round of the destructor: a SIGKILL, a response with no extra bytes, the memory.
abbrev pub destroyed : ℕ → ServiceInfo → State → State
destroyed addr info s = record s {
  heap = erase addr s.heap;
  effects =
      send_response (response_of SaceResponseStatus.signal [] info) info.writer
        (kill info.pid sigkill ∷ s.effects);
}

unfoldable pub destroy_all : List ℕ → State → Run State
unfolding send_response
destroy_all [] s = done s
destroy_all (addr ∷ rest) s = elim (find addr s.heap) [
  | none ↦ undefined
  | some info ↦ destroy_all rest (destroyed addr info s)
]

-- The destructor.
unfoldable pub destroy : State → Run State
unfolding destroy_all
destroy s =
    destroy_all s.running s >>= λ s'. done (record s' { running = []; seq = []; names = [] })
