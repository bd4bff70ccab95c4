-- ===== src/Service/Monitor.antt =====
-- `monitor_service_status` of saced/SaceExcutor.cpp. The first loop visits the vector and records
-- the iterators of the services that ended; the second erases them. An iterator is a position.
use sa_excutor.Common.{
  ℕ, zero, suc, Bool, true, false, ◌||◌, List, [], ◌∷◌, Option, none, some, nat_eq, ℕ_eq, Str_eq,
  if◌then◌else◌, Run, done, undefined, ◌>>=◌,
}
use sa_excutor.Common.Map.{find, erase}
use sa_excutor.Common.Bytes.{le_bytes, replicate}
use sa_excutor.Types.{SaceStatusResponse}
use sa_excutor.Types.Command.{SaceResponseStatus, SaceResponseType}
use sa_excutor.Service.{
  ServiceInfo, State, WaitAnswer, exited, signaled, changed, still, no_child, failed, sigterm, put,
  send_response, Is,
}
use sa_excutor.Service.Info.{
  ServiceState, paused, stoped, running, died, died_signal, died_unknown, finished, finishing_user,
  finished_user,
}

-- The states in which a service is waited for.
abbrev pub is_waited : ServiceState → Bool
is_waited st = Is st paused || Is st running || Is st stoped || Is st finishing_user

-- The state and the response for a service that ended, by what `waitpid` says; `extra` holds the
-- 4 bytes of an int, zero where nothing is copied.
abbrev pub response_of : SaceResponseStatus → List ℕ → ServiceInfo → SaceStatusResponse
response_of status extra info = record {
  label = info.label;
  name = info.name;
  type = SaceResponseType.service;
  status = status;
  extra = extra;
}

unfoldable pub ended : WaitAnswer → ServiceInfo → Option (ServiceState × SaceStatusResponse)
ended (exited code) info = some (
  if nat_eq code 0 then finished else died,
  response_of SaceResponseStatus.exit (le_bytes 4 code) info,
)
ended (signaled sig) info =
    if Is info.state finishing_user
    then (if nat_eq sig sigterm
        then some (finished_user, response_of SaceResponseStatus.user (replicate 4 0) info)
        else some (died_signal, response_of SaceResponseStatus.signal (le_bytes 4 sig) info))
    else some (died_signal, response_of SaceResponseStatus.signal (le_bytes 4 sig) info)
ended (changed status) info =
    some (died_unknown, response_of SaceResponseStatus.unknown (le_bytes 4 status) info)
ended still info = none
ended no_child info = none
ended failed info = none

abbrev pub is_no_child : WaitAnswer → Bool
is_no_child no_child = true
is_no_child _ = false

-- One round of the first loop on a service that is allocated: the state afterwards, and whether
-- its iterator is recorded.
unfoldable pub visit_info : WaitAnswer → ℕ → ServiceInfo → State → State × Bool
unfolding ended send_response
visit_info w addr info s =
    if is_waited info.state
    then elim (ended w info) [
      | none ↦ (s, is_no_child w)
      | some (st, response) ↦ (
        record (put addr (record info { state = st }) s) {
          effects = send_response response info.writer s.effects;
        },
        true,
      )
    ]
    else (s, false)

unfoldable pub visit : WaitAnswer → ℕ → State → Run (State × Bool)
unfolding visit_info
visit w addr s = elim (find addr s.heap) [
  | none ↦ undefined
  | some info ↦ done (visit_info w addr info s)
]

abbrev pub mark : ℕ → Bool → List ℕ → List ℕ
mark pos true gc = pos ∷ gc
mark pos false gc = gc

-- The first loop from position `pos` on; `waits` answers by position.
unfoldable pub scan : (ℕ → WaitAnswer) → ℕ → List ℕ → State → Run (State × List ℕ)
unfolding visit
scan waits pos [] s = done (s, [])
scan waits pos (addr ∷ rest) s = visit (waits pos) addr s >>= λ r.
    scan waits (suc pos) rest r.0 >>= λ q. done (q.0, mark pos r.1 q.1)

unfoldable pub get_elem? : List ℕ → ℕ → Option ℕ
get_elem? [] i = none
get_elem? (x ∷ xs) zero = some x
get_elem? (x ∷ xs) (suc i) = get_elem? xs i

unfoldable pub remove_at : ℕ → List ℕ → List ℕ
remove_at i [] = []
remove_at zero (x ∷ xs) = xs
remove_at (suc i) (x ∷ xs) = x ∷ remove_at i xs

-- The maps, the vector and the memory of one service that ended.
abbrev pub freed : ℕ → ℕ → ServiceInfo → State → State
freed pos addr info s = record s {
  running = remove_at pos s.running;
  seq = erase info.label s.seq;
  names = erase info.name s.names;
  heap = erase addr s.heap;
}

unfoldable pub collect_one : ℕ → State → Run State
unfolding get_elem? remove_at
collect_one pos s = elim (get_elem? s.running pos) [
  | none ↦ undefined
  | some addr ↦ elim (find addr s.heap) [
    | none ↦ undefined
    | some info ↦ done (freed pos addr info s)
  ]
]

-- The second loop. The iterators ascend, so erasing at one makes the next ones invalid.
unfoldable pub collect : List ℕ → State → Run State
unfolding collect_one
collect [] s = done s
collect (pos ∷ []) s = collect_one pos s
collect (pos ∷ _ ∷ _) s = collect_one pos s >>= λ _. undefined

unfoldable pub monitor_service_status : (ℕ → WaitAnswer) → State → Run State
unfolding scan collect
monitor_service_status waits s = scan waits 0 s.running s >>= λ r. collect r.1 r.0
