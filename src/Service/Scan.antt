-- ===== src/Service/Scan.antt =====
-- `monitor_service_status` when at most one wait of the pass answers.
use sa_excutor.Common.{
  ℕ, zero, suc, ◌+◌, ◌≤◌, ◌≡◌, ◌⊎◌, refl, ap, ◌∙◌, Bool, true, false, inl, inr, List, [], ◌∷◌, none,
  some, arith, nat_eq, ℕ_eq, Str_eq, ==_refl, Bool-cases, Option-cases, done,
}
use sa_excutor.Common.Map.{find, erase, update, find-update, erase-update}
use sa_excutor.Types.{SaceStatusResponse}
use sa_excutor.Service.Info.{ServiceState}
use sa_excutor.Service.{
  Effect, ServiceInfo, State, WaitAnswer, exited, signaled, changed, still, no_child, failed, put,
  send_response,
}
use sa_excutor.Service.Monitor.{
  is_waited, ended, is_no_child, visit_info, visit, mark, scan, get_elem?, remove_at, freed,
  collect_one, collect, monitor_service_status,
}

-- Answers that end nothing.
abbrev pub is_calm : WaitAnswer → Bool
is_calm still = true
is_calm failed = true
is_calm _ = false

abbrev pub IsAllocated : State → ℕ → Type 0
IsAllocated s a = (i : ServiceInfo) × (find a s.heap ≡ some i)

abbrev pub In : ℕ → List ℕ → Type 0
In a [] = ⊥
In a (x ∷ xs) = (a ≡ x) ⊎ In a xs

-- The state when the service at position `k` is gone.
abbrev pub released : ℕ → ℕ → ServiceInfo → List Effect → State → State
released k a i effects s = record {
  running = remove_at k s.running;
  seq = erase i.label s.seq;
  names = erase i.name s.names;
  heap = erase a s.heap;
  effects = effects;
}

-- All waits but that at position `k` end nothing.
abbrev pub CalmBut : ℕ → (ℕ → WaitAnswer) → Type 0
CalmBut k waits = (i : ℕ) → nat_eq i k ≡ false → is_calm (waits i) ≡ true

visit-calm :
    (w : WaitAnswer) (a : ℕ) (s : State)
    → is_calm w ≡ true
    → IsAllocated s a
    → visit w a s ≡ done (s, false)
unfolding visit visit_info ended
visit-calm still a s h (i, found) = ground (arith, found)
visit-calm failed a s h (i, found) = ground (arith, found)
visit-calm no_child a s h _ = ground arith
visit-calm (exited _) a s h _ = ground arith
visit-calm (signaled _) a s h _ = ground arith
visit-calm (changed _) a s h _ = ground arith

pub visit-found :
    (w : WaitAnswer) (a : ℕ) (i : ServiceInfo) (s : State)
    → find a s.heap ≡ some i
    → visit w a s ≡ done (visit_info w a i s)
unfolding visit visit_info
visit-found w a i s found = rw (visit, found) refl

visit-lost :
    (w : WaitAnswer) (a : ℕ) (i : ServiceInfo) (s : State)
    → w ≡ no_child
    → is_waited i.state ≡ true
    → visit_info w a i s ≡ (s, true)
unfolding visit_info ended
visit-lost w a i s lost waited = rw (waited, ap (λ w. ended w i) lost, ap is_no_child lost) refl

pub collect_one-found :
    (k a : ℕ) (i : ServiceInfo) (s : State)
    → get_elem? s.running k ≡ some a
    → find a s.heap ≡ some i
    → collect_one k s ≡ done (freed k a i s)
unfolding collect_one
collect_one-found k a i s here found = ground (arith, here, found)

module _ (waits : ℕ → WaitAnswer) where
  pub scan-calm :
      (pos : ℕ) (xs : List ℕ) (s : State)
      → ((i : ℕ) → pos ≤ i → is_calm (waits i) ≡ true)
      → ((a : ℕ) → In a xs → IsAllocated s a)
      → scan waits pos xs s ≡ done (s, [])
  unfolding scan
  scan-calm pos [] s calm h = refl
  scan-calm pos (x ∷ xs) s calm h = rw (
    visit-calm (waits pos) x s (calm pos (omega arith)) (h x (inl refl)),
    scan-calm (suc pos) xs s (λ i le. calm i (omega arith)) (λ a m. h a (inr m)),
  )

  pub put-IsAllocated :
      (a b : ℕ) (i : ServiceInfo) (s : State) → IsAllocated s b → IsAllocated (put a i s) b
  put-IsAllocated a b i s (j, found) = elim (Bool-cases (nat_eq b a)) [
    | inl e ↦ (i, ground (arith, find-update b a (λ _. i) s.heap))
    | inr e ↦ (j, ground (arith, find-update b a (λ _. i) s.heap))
  ]

  -- After a round the same addresses are allocated.
  visit_info-IsAllocated :
      (w : WaitAnswer) (a b : ℕ) (i : ServiceInfo) (s : State)
      → IsAllocated s b
      → IsAllocated (visit_info w a i s).0 b
  unfolding visit_info
  visit_info-IsAllocated w a b i s h = elim (Bool-cases (is_waited i.state)) [
    | inr e ↦ rw e h
    | inl e ↦ elim (Option-cases (ended w i)) [
      | inl none_yet ↦ rw (e, none_yet) h
      | inr (r, over) ↦ rw (e, over) (put-IsAllocated a b (record i { state = r.0 }) s h)
    ]
  ]

  -- `n` is the position of the only answer, `k` its distance from here.
  pub scan-one :
      (k n pos : ℕ) (xs : List ℕ) (s : State) (a : ℕ) (i : ServiceInfo)
      → pos + k ≡ n
      → get_elem? xs k ≡ some a
      → find a s.heap ≡ some i
      → CalmBut n waits
      → ((b : ℕ) → In b xs → IsAllocated s b)
      → scan waits pos xs s
        ≡ done ((visit_info (waits n) a i s).0, mark n (visit_info (waits n) a i s).1 [])
  unfolding scan get_elem?
  scan-one k n pos [] s a i at here found calm h = ground arith
  scan-one zero n pos (x ∷ xs) s a i at here found calm h =
      let this : x ≡ a = ground (arith, here) in
      let now : pos ≡ n = omega arith in
      rw (
        this,
        now,
        visit-found (waits n) a i s found,
        scan-calm (suc n) xs (visit_info (waits n) a i s).0 (λ j le. calm j (ground arith))
            (λ b m. visit_info-IsAllocated (waits n) a b i s (h b (inr m))),
      )
  scan-one (suc k) n pos (x ∷ xs) s a i at here found calm h = rw (
    visit-calm (waits pos) x s (calm pos (ground arith)) (h x (inl refl)),
    scan-one k n (suc pos) xs s a i (omega arith) here found calm (λ b m. h b (inr m)),
  )

  -- The answer is past the end.
  pub scan-out :
      (k n pos : ℕ) (xs : List ℕ) (s : State)
      → pos + k ≡ n
      → get_elem? xs k ≡ none
      → CalmBut n waits
      → ((b : ℕ) → In b xs → IsAllocated s b)
      → scan waits pos xs s ≡ done (s, [])
  unfolding scan get_elem?
  scan-out k n pos [] s at out calm h = refl
  scan-out zero n pos (x ∷ xs) s at out calm h = ground arith
  scan-out (suc k) n pos (x ∷ xs) s at out calm h = rw (
    visit-calm (waits pos) x s (calm pos (ground arith)) (h x (inl refl)),
    scan-out k n (suc pos) xs s (omega arith) out calm (λ b m. h b (inr m)),
  )

  pub monitor-out :
      (k : ℕ) (s : State)
      → get_elem? s.running k ≡ none
      → CalmBut k waits
      → ((a : ℕ) → In a s.running → IsAllocated s a)
      → monitor_service_status waits s ≡ done s
  unfolding monitor_service_status collect
  monitor-out k s out calm h = rw (scan-out k k 0 s.running s (omega arith) out calm h)

  -- No answer: nothing changes.
  pub monitor-calm :
      (s : State)
      → ((i : ℕ) → is_calm (waits i) ≡ true)
      → ((a : ℕ) → In a s.running → IsAllocated s a)
      → monitor_service_status waits s ≡ done s
  unfolding monitor_service_status collect
  monitor-calm s calm h = rw (scan-calm 0 s.running s (λ i _. calm i) h)

  module _ (k a : ℕ) (i : ServiceInfo) (s : State) (here : get_elem? s.running k ≡ some a)
      (found : find a s.heap ≡ some i) (calm : CalmBut k waits)
      (allocated : (b : ℕ) → In b s.running → IsAllocated s b) where
    scanned :
        scan waits 0 s.running s
        ≡ done ((visit_info (waits k) a i s).0, mark k (visit_info (waits k) a i s).1 [])
    scanned = scan-one k k 0 s.running s a i (omega arith) here found calm allocated

    -- One end that `waitpid` tells: a response, and the service is freed.
    pub monitor-ended :
        (r : ServiceState × SaceStatusResponse)
        → is_waited i.state ≡ true
        → ended (waits k) i ≡ some r
        → monitor_service_status waits s
          ≡ done (released k a i (send_response r.1 i.writer s.effects) s)
    unfolding monitor_service_status collect visit_info
    monitor-ended r waited over =
        let changed : ServiceInfo = record i { state = r.0 } in
        let stored : find a (update a (λ _. changed) s.heap) ≡ some changed =
          rw (find-update, ==_refl, found) refl in
        rw (scanned, waited, over)
          (collect_one-found k a changed
              (record (put a changed s) { effects = send_response r.1 i.writer s.effects }) here
              stored
            ∙ ap
                (λ h.
                  done
                    (record (released k a i (send_response r.1 i.writer s.effects) s) { heap = h }))
                (erase-update a (λ _. changed) s.heap))

    -- ECHILD: the service is freed with no response.
    pub monitor-lost :
        is_waited i.state ≡ true
        → waits k ≡ no_child
        → monitor_service_status waits s ≡ done (released k a i s.effects s)
    unfolding monitor_service_status collect
    monitor-lost waited lost =
        let seen = visit-lost (waits k) a i s lost waited in
        rw (scanned, seen) (collect_one-found k a i s here found)
