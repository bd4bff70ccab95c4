-- ===== src/Sender/Waiting.antt =====
-- The wait of `excuteCommand`: it ends, and what it does with a result that came before it.
use sa_excutor.Common.{
  ℕ, ◌≡◌, refl, ap, ◌∙◌, Bool, true, false, List, [], ◌∷◌, Option, none, some, nat_eq, ℕ_eq,
  if◌then◌else◌, inl, inr, Option-cases, Run, done,
}
use sa_excutor.Common.Map.{find, erase, find-insert_kept}
use sa_excutor.Types.{SaceCommand, SaceResult}
use sa_excutor.Types.Command.{SaceResultStatus}
use sa_excutor.Sender.{
  Sender, init, handle_result, handle_results, Wait, woken, timed_out, failed, with_status, await,
  Env, initial_result, sent_command, excute_command,
}

-- The waits come to the deadline or to an error.
abbrev pub HasEnd : List Wait → Type 0
HasEnd [] = ⊥
HasEnd (woken rs ∷ ws) = HasEnd ws
HasEnd (timed_out rs ∷ ws) = Unit
HasEnd (failed rs ∷ ws) = Unit

abbrev Returns : Run (Sender × SaceResult) → Type 0
Returns r = (out : Sender × SaceResult) × (r ≡ done out)

await-Returns :
    (sequence : ℕ) (ws : List Wait) (result : SaceResult) (s : Sender)
    → HasEnd ws
    → Returns (await sequence ws result s)
unfolding await
await-Returns sequence [] result s h = absurd h
await-Returns sequence (timed_out rs ∷ ws) result s h = (_, refl)
await-Returns sequence (failed rs ∷ ws) result s h = (_, refl)
await-Returns sequence (woken rs ∷ ws) result s h =
    elim (Option-cases (find sequence (handle_results rs s).results)) [
      | inl missing ↦ rw (await, missing) (await-Returns sequence ws result (handle_results rs s) h)
      | inr (r, at) ↦
          let s' = handle_results rs s in
          ((record s' { results = erase sequence s'.results }, r), rw (await, at) refl)
    ]

if-Returns :
    (b : Bool) (p q : Run (Sender × SaceResult))
    → Returns p
    → Returns q
    → Returns (if b then p else q)
if-Returns true p q h k = h
if-Returns false p q h k = k

sent_command-Returns :
    (env : Env) (cmd : SaceCommand) (s : Sender) (written : Option ℕ)
    → HasEnd env.waits
    → Returns (sent_command env cmd s written)
unfolding sent_command
sent_command-Returns env cmd s none h = (_, refl)
sent_command-Returns env cmd s (some n) h =
    if-Returns (nat_eq n 0) _ _ (_, refl)
      (if-Returns (nat_eq n env.size) _ _ (await-Returns cmd.sequence env.waits _ _ h) (_, refl))

-- Where the waits come to the deadline or to an error at last, whatever the wake-ups before it
-- bring, the call returns.
pub excute_command_returns :
    (env : Env) (cmd : SaceCommand) (s : Sender)
    → HasEnd env.waits
    → (out : Sender × SaceResult) × (excute_command env cmd s ≡ done out)
unfolding excute_command
excute_command_returns env cmd s h =
    if-Returns s.initlized _ _ (sent_command-Returns env cmd s env.written h) (
      if-Returns (init env.socket env.event s).1 _ _
        (sent_command-Returns env cmd (init env.socket env.event s).0 env.written h) (_, refl))

-- A result that is in the map is not replaced.
handle_results-kept :
    (sequence : ℕ) (old : SaceResult) (rs : List SaceResult) (s : Sender)
    → find sequence s.results ≡ some old
    → find sequence (handle_results rs s).results ≡ some old
unfolding handle_results
handle_results-kept sequence old [] s h = h
handle_results-kept sequence old (r ∷ rs) s h =
    handle_results-kept sequence old rs (handle_result r s)
      (find-insert_kept sequence r.sequence r old s.results h)

handle_results-initlized :
    (rs : List SaceResult) (s : Sender) → (handle_results rs s).initlized ≡ s.initlized
unfolding handle_results
handle_results-initlized [] s = refl
handle_results-initlized (r ∷ rs) s = handle_results-initlized rs (handle_result r s)

-- The write of a call takes the whole parcel.
abbrev pub Writes : Env → Type 0
Writes env = (n : ℕ) × (env.written ≡ some n) × (nat_eq n 0 ≡ false) × (nat_eq n env.size ≡ true)

if-true : {A : Type 0} (b : Bool) (x y : A) → b ≡ true → (if b then x else y) ≡ x
if-true true x y h = refl
if-true false x y h = absurd (cc)

if-false : {A : Type 0} (b : Bool) (x y : A) → b ≡ false → (if b then x else y) ≡ y
if-false true x y h = absurd (cc)
if-false false x y h = refl

excute_command-await :
    (env : Env) (cmd : SaceCommand) (s : Sender)
    → s.initlized ≡ true
    → Writes env
    → excute_command env cmd s
      ≡ await cmd.sequence env.waits (initial_result cmd) (handle_results env.early s)
unfolding excute_command
excute_command-await env cmd s ready (n, written, some_bytes, all_bytes) =
    if-true s.initlized _ _ ready
    ∙ ap (sent_command env cmd s) written
    ∙ if-false (nat_eq n 0) _ _ some_bytes
    ∙ if-true (nat_eq n env.size) _ _ all_bytes

-- A result that comes between the write and the first wait of its caller is missed, and kept for the
-- next command with the same number. On a sender that is set up, with writes that succeed: if nothing wakes the caller before the deadline, the call
-- answers TIMEOUT with the result in the map; and a later call for a command with that sequence
-- number, once it is woken, gets that old result, whatever results come for it.
pub early_result_missed :
    (env env' : Env) (cmd cmd' : SaceCommand) (s : Sender) (r : SaceResult)
    (late woke : List SaceResult) (ws ws' : List Wait)
    → s.initlized ≡ true
    → Writes env
    → Writes env'
    → find cmd.sequence (handle_results env.early s).results ≡ some r
    → env.waits ≡ timed_out late ∷ ws
    → cmd'.sequence ≡ cmd.sequence
    → env'.waits ≡ woken woke ∷ ws'
    → (s' : Sender) × (answer : SaceResult) × (s'' : Sender) × (excute_command env cmd s
        ≡ done (s', answer))
      × (answer.result_status ≡ SaceResultStatus.timeout)
      × (find cmd.sequence s'.results ≡ some r)
      × (excute_command env' cmd' s' ≡ done (s'', r))
unfolding await with_status
early_result_missed env env' cmd cmd' s r late woke ws ws' begun sends sends' early waits same
      waits' =
    let s' = handle_results late (handle_results env.early s) in
    let kept = handle_results-kept cmd.sequence r late (handle_results env.early s) early in
    let ready : s'.initlized ≡ true =
      handle_results-initlized late (handle_results env.early s)
      ∙ handle_results-initlized env.early s
      ∙ begun in
    let s₂ = handle_results woke (handle_results env'.early s') in
    let found : find cmd'.sequence s₂.results ≡ some r = rw same (
      handle_results-kept cmd.sequence r woke (handle_results env'.early s')
        (handle_results-kept cmd.sequence r env'.early s' kept)) in
    (
      s',
      with_status SaceResultStatus.timeout (initial_result cmd),
      record s₂ { results = erase cmd'.sequence s₂.results },
      excute_command-await env cmd s begun sends ∙ rw waits refl,
      refl,
      kept,
      excute_command-await env' cmd' s' ready sends' ∙ rw waits' (rw (await, found) refl),
    )
