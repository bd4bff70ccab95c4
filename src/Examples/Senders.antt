-- ===== src/Examples/Senders.antt =====
-- Runs of the client's sender.
use sa_excutor.Common.{ℕ, ◌≡◌, refl, codes, List, [], ◌∷◌, some, done, ℕ_eq}
use sa_excutor.Common.Map.{find, insert, erase}
use sa_excutor.Types.{SaceCommand, SaceResult, new_command, new_result}
use sa_excutor.Types.Command.{SaceResultStatus}
use sa_excutor.Sender.{Sender, new_sender, init, handle_results, Wait, Env, excute_command}
use sa_excutor.Sender.Match.{Reachable, matched}
use sa_excutor.Sender.Waiting.{excute_command_returns, early_result_missed}

abbrev cmd : SaceCommand
cmd = record (new_command 41 (codes "9:9")) { sequence = 41 }

abbrev result : ℕ → SaceResult
result label = record new_result { sequence = 41; label = label; name = codes "svc" }

abbrev env : List SaceResult → List Wait → Env
env early waits = record {
  socket = some 3;
  event = some 4;
  written = some 60;
  size = 60;
  early = early;
  waits = waits;
}

abbrev ready : Sender
ready = (init (some 3) (some 4) new_sender).0

abbrev waits : List Wait
waits = Wait.woken [] ∷ Wait.woken (result 5 ∷ []) ∷ []

matched_example : (result 5).sequence ≡ 41
unfolding excute_command new_sender find insert erase
matched_example =
    matched {s = new_sender} {s' = record ready { results = [] }} (env [] waits) cmd (result 5)
      Reachable.start refl

excute_command_returns_example :
    (out : Sender × SaceResult) × (excute_command
        (env [] (Wait.woken [] ∷ Wait.timed_out [] ∷ []))
        cmd
        ready
      ≡ done out)
excute_command_returns_example =
    excute_command_returns (env [] (Wait.woken [] ∷ Wait.timed_out [] ∷ [])) cmd ready tt

early_result_missed_example :
    (s' : Sender) × (answer : SaceResult) × (s'' : Sender) × (excute_command
        (env (result 5 ∷ []) (Wait.timed_out [] ∷ []))
        cmd
        ready
      ≡ done (s', answer))
    × (answer.result_status ≡ SaceResultStatus.timeout)
    × (find 41 s'.results ≡ some (result 5))
    × (excute_command (env [] (Wait.woken (result 6 ∷ []) ∷ [])) cmd s' ≡ done (s'', result 5))
unfolding init new_sender handle_results find insert
early_result_missed_example =
    early_result_missed (env (result 5 ∷ []) (Wait.timed_out [] ∷ []))
      (env [] (Wait.woken (result 6 ∷ []) ∷ [])) cmd cmd ready (result 5) [] (result 6 ∷ []) [] []
      refl (60, refl, refl, refl) (60, refl, refl, refl) refl refl refl refl
