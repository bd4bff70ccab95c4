-- ===== src/Manager/Reach.antt =====
-- The managers that calls, responses and callbacks reach.
use sa_excutor.Common.{
  ℕ, ◌≡◌, refl, ap, Bool, true, false, Str, Option, none, some, ℕ_eq, if◌then◌else◌, Run, done,
  hangs, undefined, ◌>>=◌,
}
use mathlib.Core.Path.{subst}
use sa_excutor.Params.{SaceCommandParams}
use sa_excutor.Types.{SaceCommand, SaceStatusResponse}
use sa_excutor.Client.{SaceServiceObj, is_ok, response_to_error}
use sa_excutor.Manager.{
  Manager, Env, new_manager, cmd_callback, send, run_command, start_command, live_service,
}
use sa_excutor.Manager.Services.{
  query, queried, start_missing, check_service, add_event, delete_event, is_fine, info_command,
  event_info_command, start_service_command,
}
use sa_excutor.Manager.Response.{set_callback, on_response}
use sa_excutor.Manager.Valid.{
  IsValid, new_manager-IsValid, hold-IsValid, keep_service-IsValid, send-IsValid,
  ran_command-IsValid, cmd_callback-IsValid, on_response-IsValid,
}

-- A result, if there is one, has the property.
record Ensures {A : Type 0} (P : A → Type 0) (r : Run A) : Type 0 where
  at : (a : A) → r ≡ done a → P a

Ensures-done : {A : Type 0} (P : A → Type 0) (a : A) → P a → Ensures P (done a)
Ensures-done {A} P a h = record {
  at = λ b e. subst P (ap (λ (r : Run A). elim r [ done c ↦ c | hangs ↦ a | undefined ↦ a ]) e) h;
}

Ensures-bind :
    {A B : Type 0} (P : A → Type 0) (Q : B → Type 0) (r : Run A) (f : A → Run B)
    → Ensures P r
    → ((a : A) → P a → Ensures Q (f a))
    → Ensures Q (r >>= f)
Ensures-bind P Q (done a) f h k = k a (h.at a refl)
Ensures-bind P Q hangs f h k = record { at = λ b e. absurd (cc) }
Ensures-bind P Q undefined f h k = record { at = λ b e. absurd (cc) }

Ensures-if :
    {A : Type 0} (P : A → Type 0) (b : Bool) (r s : Run A)
    → Ensures P r
    → Ensures P s
    → Ensures P (if b then r else s)
Ensures-if P true r s h k = h
Ensures-if P false r s h k = k

query-IsValid :
    (env : Env) (name : Str) (c : SaceCommand) (m : Manager)
    → IsValid m
    → Ensures (λ (r : Manager × SaceServiceObj). IsValid r.0) (query env name c m)
unfolding query
query-IsValid env name c m v =
    let r = env.answer c in
    Ensures-bind (λ (o : SaceServiceObj). Unit {0}) (λ (r : Manager × SaceServiceObj). IsValid r.0)
      (queried env name c.sequence r r.result_status r.result_type)
      (λ o. done ((send env c m).0, o)) (record { at = λ o e. tt })
      (λ o _. Ensures-done _ _ (send-IsValid env c m v))

if-IsValid :
    (b : Bool) (r s : Manager × ℕ) → IsValid r.0 → IsValid s.0 → IsValid (if b then r else s).0
if-IsValid true r s h k = h
if-IsValid false r s h k = k

abbrev ValidResult : Manager × ℕ → Type 0
ValidResult r = IsValid r.0

start_missing-IsValid :
    (env : Env) (name : Str) (cmd : Option Str) (param : Option SaceCommandParams)
    (old : SaceServiceObj) (m : Manager)
    → IsValid m
    → Ensures ValidResult (start_missing env name cmd param old m)
unfolding start_missing
start_missing-IsValid env name none param old m v = record { at = λ r e. absurd (cc) }
start_missing-IsValid env name (some cmd) param old m v =
    let c = start_service_command env name cmd param m in
    let sent = send-IsValid env c m v in
    Ensures-done ValidResult _ (
      if-IsValid (is_ok (env.answer c).result_status) _ _
        (hold-IsValid (live_service env (env.answer c).label name cmd) (send env c m).0 sent)
        (keep_service-IsValid old (send env c m).0 sent))

check_service-IsValid :
    (env : Env) (name : Str) (cmd : Option Str) (param : Option SaceCommandParams) (m : Manager)
    → IsValid m
    → Ensures ValidResult (check_service env name cmd param m)
unfolding check_service
check_service-IsValid env name cmd param m v =
    Ensures-bind (λ (r : Manager × SaceServiceObj). IsValid r.0) ValidResult _ _
      (query-IsValid env name (info_command env name) m v)
      λ (m₁, found) v₁.
        Ensures-if ValidResult (is_fine found.error) _ _
          (Ensures-done ValidResult _ (hold-IsValid found m₁ v₁))
          (Ensures-bind (λ (r : Manager × SaceServiceObj). IsValid r.0) ValidResult _ _
            (query-IsValid env name (event_info_command env name) m₁ v₁)
            λ (m₂, event) v₂.
              Ensures-if ValidResult (is_fine event.error) _ _
                (Ensures-done ValidResult _ (hold-IsValid event m₂ v₂))
                (start_missing-IsValid env name cmd param event m₂ v₂))

-- What a client, the sender and the held objects do to a manager.
pub data Step (m : Manager) : Manager → Type 0 where
  ran :
      (env : Env) (cmd : Str) (param : Option SaceCommandParams) (input : Bool)
      → Step m (run_command env cmd param input m).0
  checked :
      (env : Env) (name : Str) (cmd : Option Str) (param : Option SaceCommandParams)
      (r : Manager × ℕ)
      → check_service env name cmd param m ≡ done r
      → Step m r.0
  added :
      (env : Env) (name cmd : Str) (param : Option SaceCommandParams)
      → Step m (add_event env name cmd param m).0
  deleted : (env : Env) (name : Str) (stop : Bool) → Step m (delete_event env name stop m).0
  responded : (r : SaceStatusResponse) → Step m (on_response r m)
  called_back : (type label : ℕ) → Step m (cmd_callback type label m)
  set : (callback : Bool) → Step m (set_callback callback m)

pub data Reachable (cap_size : ℕ) : Manager → Type 0 where
  start : Reachable cap_size (new_manager cap_size)
  next : {m m' : Manager} → Reachable cap_size m → Step m m' → Reachable cap_size m'

run_command-IsValid :
    (env : Env) (cmd : Str) (param : Option SaceCommandParams) (input : Bool) (m : Manager)
    → IsValid m
    → IsValid (run_command env cmd param input m).0
unfolding run_command
run_command-IsValid env cmd param input m v =
    let c = start_command env cmd param input m in
    let r = env.answer c in
    ran_command-IsValid env cmd input c.sequence (send env c m).0 r r.result_status r.result_type
      (send-IsValid env c m v)

Step-IsValid : {m m' : Manager} → Step m m' → IsValid m → IsValid m'
unfolding add_event delete_event on_response set_callback
Step-IsValid (ran env cmd param input) v = run_command-IsValid env cmd param input _ v
Step-IsValid (checked env name cmd param r e) v =
    (check_service-IsValid env name cmd param _ v).at r e
Step-IsValid (added env name cmd param) v = send-IsValid env _ _ v
Step-IsValid (deleted env name stop) v = send-IsValid env _ _ v
Step-IsValid (responded r) v = on_response-IsValid r.type r.label (response_to_error r.status) _ v
Step-IsValid (called_back type label) v = cmd_callback-IsValid type label _ v
Step-IsValid (set callback) v = record {
  held_services = v.held_services;
  held_commands = v.held_commands;
}

-- In every manager that calls of the client, responses of the daemon and callbacks of the objects
-- reach from the constructor, the place under a label of the two maps holds an object with that
-- label, and all objects lie below the next free place.
pub Reachable-IsValid : {cap_size : ℕ} {m : Manager} → Reachable cap_size m → IsValid m
Reachable-IsValid {cap_size} start = new_manager-IsValid cap_size
Reachable-IsValid (next r s) = Step-IsValid s (Reachable-IsValid r)
