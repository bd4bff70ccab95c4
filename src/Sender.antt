-- ===== src/Sender.antt =====
-- SaceSocketSender (libsace/SaceSender.cpp): commands go out on a socket, and a thread puts the
-- results that come back into a map by their sequence number, where the callers look for them.
-- The pthread functions return positive error numbers, so the tests `< 0` of `init` never hold.
pub mod Match
pub mod Waiting
pub mod Descriptors
pub mod Receive
pub mod Delivered
use sa_excutor.Common.{
  ℕ, Bool, true, false, Str, List, [], ◌∷◌, Option, none, some, nat_eq, ltb, ℕ_eq, if◌then◌else◌,
  Run, done, hangs,
}
use sa_excutor.Common.Map.{Map, find, insert, erase}
use sa_excutor.Types.{SaceCommand, SaceResult, SaceStatusResponse, new_result, minus_one}
use sa_excutor.Types.Command.{SaceResultStatus, SaceResultType}

-- `opened` are the descriptors of the process that the sender has to close; `receiving` tells
-- whether the thread runs.
pub record Sender : Type 0 where
  pub initlized : Bool
  pub sockfd : ℕ
  pub event_fd : ℕ
  pub results : Map ℕ SaceResult
  pub receiving : Bool
  pub opened : List ℕ
  pub responses : List SaceStatusResponse

-- The constructor.
unfoldable pub new_sender : Sender
new_sender = record {
  initlized = false;
  sockfd = minus_one;
  event_fd = minus_one;
  results = [];
  receiving = false;
  opened = [];
  responses = [];
}

unfoldable pub close_fd : ℕ → List ℕ → List ℕ
close_fd fd [] = []
close_fd fd (x ∷ xs) = if nat_eq fd x then xs else x ∷ close_fd fd xs

-- `init`: the answers of socket_local_client and of eventfd; `none` is an error.
unfoldable pub init : Option ℕ → Option ℕ → Sender → Sender × Bool
unfolding close_fd
init none event s = (record s { sockfd = minus_one }, false)
init (some fd) none s =
    (record s { sockfd = fd; event_fd = minus_one; opened = close_fd fd (fd ∷ s.opened) }, false)
init (some fd) (some event) s = (
  record s {
    sockfd = fd;
    event_fd = event;
    opened = event ∷ fd ∷ s.opened;
    receiving = true;
    initlized = true;
  },
  true,
)

-- `uninit` writes to `event_fd`, which the thread closes when it sees that.
unfoldable pub uninit : Sender → Sender
unfolding close_fd
uninit s = record s { opened = close_fd s.sockfd s.opened; initlized = false }

-- The thread's way out at `event_fd`.
unfoldable pub exit_thread : Sender → Sender
unfolding close_fd
exit_thread s =
    if s.receiving then record s { opened = close_fd s.event_fd s.opened; receiving = false } else s

-- `handleResult`.
unfoldable pub handle_result : SaceResult → Sender → Sender
handle_result r s = record s { results = insert r.sequence r s.results }

unfoldable pub handle_results : List SaceResult → Sender → Sender
unfolding handle_result
handle_results [] s = s
handle_results (r ∷ rs) s = handle_results rs (handle_result r s)

-- `handleResponse`, which hands the response to the callback.
unfoldable pub handle_response : SaceStatusResponse → Sender → Sender
handle_response r s = record s { responses = r ∷ s.responses }

-- One wait on the condition: the results that come in while the caller waits, and how it ends:
-- by a broadcast, at the deadline, or with another error.
pub data Wait : Type 0 where
  woken timed_out failed : List SaceResult → Wait

unfoldable pub with_status : SaceResultStatus → SaceResult → SaceResult
with_status status r = record r { result_status = status }

-- The loop of `excuteCommand`: the waits are those that the caller makes, and `hangs` stands for a
-- caller that is still waiting after all of them.
unfoldable pub await : ℕ → List Wait → SaceResult → Sender → Run (Sender × SaceResult)
unfolding handle_results with_status
await sequence [] result s = hangs
await sequence (timed_out rs ∷ ws) result s =
    done (handle_results rs s, with_status SaceResultStatus.timeout result)
await sequence (failed rs ∷ ws) result s =
    done (handle_results rs s, with_status SaceResultStatus.fail result)
await sequence (woken rs ∷ ws) result s =
    let s' = handle_results rs s in
    elim (find sequence s'.results) [
      | none ↦ await sequence ws result s'
      | some r ↦ done (record s' { results = erase sequence s'.results }, r)
    ]

-- What a call meets outside: the answers of `init`, the answer of `write` (`none` is an error), the
-- size of the parcel, the results that come in between the write and the first wait, and the waits.
pub record Env : Type 0 where
  pub socket : Option ℕ
  pub event : Option ℕ
  pub written : Option ℕ
  pub size : ℕ
  pub early : List SaceResult
  pub waits : List Wait

abbrev pub initial_result : SaceCommand → SaceResult
initial_result cmd = record new_result {
  result_type = SaceResultType.nothing;
  result_status = SaceResultStatus.fail;
  sequence = cmd.sequence;
}

unfoldable pub sent_command : Env → SaceCommand → Sender → Option ℕ → Run (Sender × SaceResult)
unfolding uninit handle_results await
sent_command env cmd s none = done (uninit s, initial_result cmd)
sent_command env cmd s (some n) =
    if nat_eq n 0
    then done (uninit s, initial_result cmd)
    else if nat_eq n env.size
    then await cmd.sequence env.waits (initial_result cmd) (handle_results env.early s)
    else done (s, initial_result cmd)

-- `excuteCommand`.
unfoldable pub excute_command : Env → SaceCommand → Sender → Run (Sender × SaceResult)
unfolding init sent_command
excute_command env cmd s =
    if s.initlized
    then sent_command env cmd s env.written
    else (let (s', ready) = init env.socket env.event s in
        if ready then sent_command env cmd s' env.written else done (s', initial_result cmd))
