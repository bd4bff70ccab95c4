-- ===== src/Sender/Match.antt =====
-- The result that a caller of the sender gets is one for its sequence number.
use sa_excutor.Common.{
  ℕ, ◌≡◌, refl, sym, ap, ◌∙◌, Bool, true, false, List, [], ◌∷◌, Option, none, some, nat_eq,
  nat_eq_iff, ℕ_eq, if◌then◌else◌, arith, inl, inr, Bool-cases, Option-cases, Run, done, hangs,
  undefined,
}
use mathlib.Core.Path.{subst}
use sa_excutor.Common.Map.{find, erase, find-insert, find-erase, or_else}
use sa_excutor.Types.{SaceCommand, SaceResult, SaceStatusResponse}
use sa_excutor.Sender.{
  Sender, new_sender, init, uninit, exit_thread, handle_result, handle_results, handle_response,
  Wait, woken, timed_out, failed, with_status, await, Env, initial_result, sent_command,
  excute_command,
}

-- Every result in the map stands under its own sequence number.
pub record IsKeyed (s : Sender) : Type 0 where
  pub keyed :
      (sequence : ℕ) (r : SaceResult) → find sequence s.results ≡ some r → r.sequence ≡ sequence

pub handle_result-IsKeyed : (r : SaceResult) (s : Sender) → IsKeyed s → IsKeyed (handle_result r s)
unfolding handle_result
handle_result-IsKeyed r s h = record {
  keyed = λ k v e. keyed_at k v (sym (find-insert k r.sequence r s.results) ∙ e);
}
  where
    keyed_new :
        (k : ℕ) (v : SaceResult)
        → some (or_else r (find r.sequence s.results)) ≡ some v
        → v.sequence ≡ r.sequence
    keyed_new k v e = elim (Option-cases (find r.sequence s.results)) [
      | inl new ↦ ground arith
      | inr (old, at) ↦ ground (arith, h.keyed r.sequence old at)
    ]

    keyed_at :
        (k : ℕ) (v : SaceResult)
        → (if nat_eq k r.sequence
            then some (or_else r (find r.sequence s.results))
            else find k s.results)
          ≡ some v
        → v.sequence ≡ k
    keyed_at k v e = elim (Bool-cases (nat_eq k r.sequence)) [
      | inl t ↦ keyed_new k v (ground arith) ∙ sym ((nat_eq_iff k r.sequence).0 t)
      | inr f ↦ h.keyed k v (ground arith)
    ]

pub handle_results-IsKeyed :
    (rs : List SaceResult) (s : Sender) → IsKeyed s → IsKeyed (handle_results rs s)
unfolding handle_results
handle_results-IsKeyed [] s h = h
handle_results-IsKeyed (r ∷ rs) s h =
    handle_results-IsKeyed rs (handle_result r s) (handle_result-IsKeyed r s h)

erase-IsKeyed :
    (k : ℕ) (s : Sender) → IsKeyed s → IsKeyed (record s { results = erase k s.results })
erase-IsKeyed k s h = record {
  keyed = λ j r e. h.keyed j r (ground (arith, find-erase j k s.results));
}

-- The outcome of a call for a sequence number: the map is still keyed, and the result is for it.
pub record Answers (sequence : ℕ) (out : Run (Sender × SaceResult)) : Type 0 where
  pub at : (s : Sender) (r : SaceResult) → out ≡ done (s, r) → IsKeyed s × (r.sequence ≡ sequence)

Answers-done :
    (sequence : ℕ) (s : Sender) (r : SaceResult)
    → IsKeyed s
    → r.sequence ≡ sequence
    → Answers sequence (done (s, r))
Answers-done sequence s r h e = record {
  at = λ s' r' eq.
      let same : (s, r) ≡ (s', r') = done-inj eq in
      subst (λ (p : Sender × SaceResult). IsKeyed p.0 × (p.1.sequence ≡ sequence)) same (h, e);
}
  where
    done-inj : {p q : Sender × SaceResult} → Run.done p ≡ done q → p ≡ q
    done-inj {p} e =
        ap
          (λ (out : Run (Sender × SaceResult)). elim out [ done c ↦ c | hangs ↦ p | undefined ↦ p ])
          e

await-Answers :
    (sequence : ℕ) (ws : List Wait) (result : SaceResult) (s : Sender)
    → IsKeyed s
    → result.sequence ≡ sequence
    → Answers sequence (await sequence ws result s)
unfolding await with_status
await-Answers sequence [] result s h e = record { at = λ s' r eq. absurd (cc) }
await-Answers sequence (timed_out rs ∷ ws) result s h e =
    Answers-done sequence (handle_results rs s) _ (handle_results-IsKeyed rs s h) e
await-Answers sequence (failed rs ∷ ws) result s h e =
    Answers-done sequence (handle_results rs s) _ (handle_results-IsKeyed rs s h) e
await-Answers sequence (woken rs ∷ ws) result s h e =
    let s' = handle_results rs s in
    let h' = handle_results-IsKeyed rs s h in
    elim (Option-cases (find sequence s'.results)) [
      | inl missing ↦ rw (await, missing) (await-Answers sequence ws result s' h' e)
      | inr (r, at) ↦
          rw (await, at)
            (Answers-done sequence _ r (erase-IsKeyed sequence s' h') (h'.keyed sequence r at))
    ]

uninit-IsKeyed : (s : Sender) → IsKeyed s → IsKeyed (uninit s)
unfolding uninit
uninit-IsKeyed s h = record { keyed = h.keyed }

init-IsKeyed : (sock event : Option ℕ) (s : Sender) → IsKeyed s → IsKeyed (init sock event s).0
unfolding init
init-IsKeyed none event s h = record { keyed = h.keyed }
init-IsKeyed (some fd) none s h = record { keyed = h.keyed }
init-IsKeyed (some fd) (some e) s h = record { keyed = h.keyed }

exit_thread-IsKeyed : (s : Sender) → IsKeyed s → IsKeyed (exit_thread s)
unfolding exit_thread
exit_thread-IsKeyed s h = elim (Bool-cases s.receiving) [
  | inl t ↦ rw (exit_thread, t) (record { keyed = h.keyed })
  | inr f ↦ rw (exit_thread, f) (record { keyed = h.keyed })
]

Answers-if :
    {sequence : ℕ} (b : Bool) (p q : Run (Sender × SaceResult))
    → Answers sequence p
    → Answers sequence q
    → Answers sequence (if b then p else q)
Answers-if true p q h k = h
Answers-if false p q h k = k

sent_command-Answers :
    (env : Env) (cmd : SaceCommand) (s : Sender) (written : Option ℕ)
    → IsKeyed s
    → Answers cmd.sequence (sent_command env cmd s written)
unfolding sent_command
sent_command-Answers env cmd s none h =
    Answers-done cmd.sequence (uninit s) _ (uninit-IsKeyed s h) refl
sent_command-Answers env cmd s (some n) h =
    Answers-if (nat_eq n 0) _ _ (Answers-done cmd.sequence (uninit s) _ (uninit-IsKeyed s h) refl) (
      Answers-if (nat_eq n env.size) _ _
        (await-Answers cmd.sequence env.waits (initial_result cmd) (handle_results env.early s)
          (handle_results-IsKeyed env.early s h) refl)
        (Answers-done cmd.sequence s _ h refl))

excute_command-Answers :
    (env : Env) (cmd : SaceCommand) (s : Sender)
    → IsKeyed s
    → Answers cmd.sequence (excute_command env cmd s)
unfolding excute_command
excute_command-Answers env cmd s h =
    let s' = (init env.socket env.event s).0 in
    let h' = init-IsKeyed env.socket env.event s h in
    Answers-if s.initlized _ _ (sent_command-Answers env cmd s env.written h) (
      Answers-if (init env.socket env.event s).1 _ _
        (sent_command-Answers env cmd s' env.written h') (Answers-done cmd.sequence s' _ h' refl))

-- What happens to a sender: calls that return, results and responses that come in, the thread's end.
pub data Step (s : Sender) : Sender → Type 0 where
  excuted :
      (env : Env) (cmd : SaceCommand) (s' : Sender) (r : SaceResult)
      → excute_command env cmd s ≡ done (s', r)
      → Step s s'
  got_result : (r : SaceResult) → Step s (handle_result r s)
  got_response : (r : SaceStatusResponse) → Step s (handle_response r s)
  exited : Step s (exit_thread s)

pub data Reachable : Sender → Type 0 where
  start : Reachable new_sender
  next : {s s' : Sender} → Reachable s → Step s s' → Reachable s'

Step-IsKeyed : {s s' : Sender} → Step s s' → IsKeyed s → IsKeyed s'
unfolding handle_response
Step-IsKeyed {s} (excuted env cmd s' r e) h = ((excute_command-Answers env cmd s h).at s' r e).0
Step-IsKeyed {s} (got_result r) h = handle_result-IsKeyed r s h
Step-IsKeyed (got_response r) h = record { keyed = h.keyed }
Step-IsKeyed {s} exited h = exit_thread-IsKeyed s h

Reachable-IsKeyed : {s : Sender} → Reachable s → IsKeyed s
unfolding new_sender find
Reachable-IsKeyed start = record { keyed = λ k r e. absurd (cc) }
Reachable-IsKeyed (next r st) = Step-IsKeyed st (Reachable-IsKeyed r)

-- In every state that calls, results, responses and the end of the thread reach, a call that
-- returns gives a result with the sequence number of its command, on every path: when the sender
-- cannot be set up, when the write fails or is short, at the deadline, and when an answer is found.
pub matched :
    {s s' : Sender} (env : Env) (cmd : SaceCommand) (r : SaceResult)
    → Reachable s
    → excute_command env cmd s ≡ done (s', r)
    → r.sequence ≡ cmd.sequence
matched {s} {s'} env cmd r reach e =
    ((excute_command-Answers env cmd s (Reachable-IsKeyed reach)).at s' r e).1
