-- ===== src/Event/Monitor.antt =====
-- The life of SaceEvent (saced/SaceEvent.cpp): onInit, event_monitor_thread and onUninit. What the
-- platform answers is an argument, and so is what the thread finds in its pipe in each round.
use sa_excutor.Common.{
  ℕ, ◌≡◌, refl, Bool, false, Str, List, [], ◌∷◌, ◌++◌, Option, none, some, nat_eq, if◌then◌else◌,
  Run, done, ◌>>=◌, length, ◌≤◌,
}
use sa_excutor.Common.Map.{Map}
use sa_excutor.Types.{SaceWriter, Channel, SaceResult, extra_bufer_len}
use sa_excutor.Wire.Laws.{Item, ParcelApi, IsLawful}
use sa_excutor.Wire.Result.{
  base_normal, base_response, SaceResultHeader, read_header, read_result, read_response,
}
use sa_excutor.Wire.Result.Layout.{result_items, carried_fd}
use sa_excutor.Wire.Result.RoundTrip.{Reads-header, Reads-result}
use sa_excutor.Event.{State, Effect, posted_stop, stop_event, monitor_round}
use sa_excutor.Event.Handle.{handle_result, handle_response}
use sa_excutor.Event.File.{Tables}
use sa_excutor.Event.Parser.{Process, read_ini_file}

-- What `onInit` is given: the ends of the pipe, the content of the event file, the daemon's pid, and
-- whether the thread starts.
pub record Start : Type 0 where
  pub pipe : Option (ℕ × ℕ)
  pub content : Option Str
  pub pid : ℕ
  pub thread_starts : Bool

-- `running`, `writer_fd` and the rest.
pub record Monitor : Type 0 where
  pub running : Bool
  pub writer_fd : ℕ
  pub closed : List ℕ
  pub state : State

unfoldable pub with_events : Process → Tables → Option Str → State → State
unfolding read_ini_file
with_events pr t content s = record s {
  events =
      (read_ini_file pr t content
        (record { command = none; events = s.events; used = 0 })).0.events;
}

unfoldable pub on_init : Process → Tables → Start → Monitor → Monitor × Bool
unfolding with_events
on_init pr t start m = elim start.pipe [
  | none ↦ (m, false)
  | some ends ↦ (
    record m {
      running = start.thread_starts;
      writer_fd = ends.0;
      state = with_events pr t start.content (record (m.state) {
        event_writer = record { id = start.pid; channel = Channel.event_pipe ends.1 };
      });
    },
    start.thread_starts,
  )
]

-- The loop over the running events; every stop is the same message with another label.
unfoldable pub stop_all : Map Str ℕ → State → State
unfolding stop_event
stop_all [] s = s
stop_all ((name, label) ∷ m) s = stop_all m (stop_event label 0 s)

abbrev pub writer_descriptor : SaceWriter → List ℕ
writer_descriptor w = elim (w.channel) [
  | Channel.socket fd ↦ []
  | Channel.binder fd ↦ []
  | Channel.event_pipe fd ↦ fd ∷ []
  | Channel.discard ↦ []
]

-- After the thread has ended.
unfoldable pub on_uninit : Monitor → Monitor
unfolding stop_all
on_uninit m = record m {
  running = false;
  closed = writer_descriptor m.state.event_writer ++ m.writer_fd ∷ m.closed;
  state = stop_all m.state.running_events m.state;
}

module _ (api : ParcelApi) where
  unfoldable pub read_as : SaceResultHeader → api.Parcel → State → Run State
  unfolding handle_result handle_response
  read_as header p s =
      if nat_eq header.type base_normal
      then (do ((h, r), q) ← read_result api p; handle_result r s)
      else if nat_eq header.type base_response
      then (do ((h, r), q) ← read_response api p; done (handle_response r s))
      else done s

  -- What `read` took from the pipe, as a parcel.
  unfoldable pub read_message : api.Parcel → State → Run State
  unfolding read_as
  read_message p s = do
    (header, q) ← read_header api p
    read_as header (api.set_data_position 0 q) s

  -- What a round finds: nothing or an error, the end of the pipe, or bytes.
  pub data Found : Type 0 where
    nothing peer_closed : Found
    bytes : api.Parcel → Found

  -- The rounds of the thread while `running` holds, each with the properties of its time.
  unfoldable pub event_monitor_thread : List ((Str → Str) × Found) → State → Run State
  unfolding monitor_round read_message
  event_monitor_thread [] s = done s
  event_monitor_thread ((property_get, found) ∷ rounds) s = elim found [
    | nothing ↦ event_monitor_thread rounds (monitor_round property_get s)
    | peer_closed ↦ done (monitor_round property_get s)
    | bytes p ↦ read_message p (monitor_round property_get s) >>= event_monitor_thread rounds
  ]

module _ (api : ParcelApi) (laws : IsLawful api) where
  -- Where a read from the pipe takes several messages at once, the thread handles the first, a result
  -- here, and no other: whatever follows in the parcel changes nothing.
  pub first_only :
      (unset n : ℕ) (r : SaceResult) (more : List Item) (p : api.Parcel) (s : State)
      → length r.result_extra ≤ extra_bufer_len
      → laws.view p ≡ ([], (Item.u32 n ∷ result_items unset r) ++ more)
      → read_message api p s
        ≡ handle_result (record r { result_fd = carried_fd unset r.result_type r.result_fd }) s
  unfolding read_message read_as
  first_only unset n r more p s fits e =
      let all = (Item.u32 n ∷ result_items unset r) ++ more in
      let head = Item.u32 n ∷ Item.byte base_normal ∷ Item.u64 r.label ∷ [] in
      let (q, read, seen) = (Reads-header {laws = laws} n base_normal r.label).at p [] _ e in
      let start = api.set_data_position 0 q in
      let at_start : laws.view start ≡ ([], all) = laws.seek_lem q head _ [] all seen refl in
      let (q', read', seen') =
        (Reads-result {laws = laws} unset n r fits).at start [] more at_start in
      rw read (rw read' refl)

-- The stops that onUninit posts.
unfoldable pub stops : Map Str ℕ → List Effect → List Effect
stops [] es = es
stops (e ∷ m) es = stops m (posted_stop ∷ es)

unfoldable pub last_label : Map Str ℕ → ℕ → ℕ
last_label [] l = l
last_label ((name, label) ∷ m) l = last_label m label

-- onUninit posts one stop for each running event, but all of them are one message, which has the
-- label of the last running event at the end: a stop that is still in the queue then names that one.
pub stop_all_last :
    (m : Map Str ℕ) (s : State)
    → ((stop_all m s).effects ≡ stops m s.effects)
      × ((stop_all m s).stop_cmd.label ≡ last_label m s.stop_cmd.label)
unfolding stop_all stop_event stops last_label
stop_all_last [] s = (refl, refl)
stop_all_last ((name, label) ∷ m) s = stop_all_last m (stop_event label 0 s)
