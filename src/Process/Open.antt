-- ===== src/Process/Open.antt =====
-- `sace_popen` of saced/SaceExcutor.cpp and the two ends of its pipe.
use sa_excutor.Common.{
  ℕ, ◌-◌, ◌<◌, ◌≡◌, ◌≢◌, refl, ◌⊎◌, inl, inr, Bool, true, false, List, [], ◌∷◌, Option, none, some,
  arith, ◌∙◌, if◌then◌else◌,
}
use sa_excutor.Types.{minus_one, is_negative}
use sa_excutor.Process.{
  PidEntry, PopenEnv, Opened, sace_popen, Waited, running, remove_fd, find_fd, sace_pclose,
}
use sa_excutor.Process.Close.{final, pclose_ends}

abbrev pub Fails : PopenEnv → List PidEntry → Opened → Type 0
Fails env pidlist o =
    (o.ret ≡ minus_one)
    × (o.out_pid ≡ none)
    × (o.pidlist ≡ pidlist)
    × (((env.pipe ≡ none) × (o.closed ≡ []))
        ⊎ ((r : ℕ) × (w : ℕ) × (env.pipe ≡ some (r, w)) × (o.closed ≡ r ∷ w ∷ [])))

abbrev pub Succeeds : Bool → PopenEnv → List PidEntry → Opened → Type 0
Succeeds write env pidlist o =
    (r : ℕ) × (w : ℕ) × (pid : ℕ) × (env.pipe ≡ some (r, w))
    × (env.memory ≡ true)
    × (env.vfork ≡ some pid)
    × (o.ret ≡ (if write then w else r))
    × (o.out_pid ≡ some pid)
    × (o.pidlist ≡ record { fd = o.ret; pid = pid } ∷ pidlist)
    × (o.closed ≡ (if write then r else w) ∷ [])

popen_cases :
    (write : Bool) (pipe : Option (ℕ × ℕ)) (memory : Bool) (vfork : Option ℕ)
    (pidlist : List PidEntry)
    → let env : PopenEnv = record { pipe = pipe; memory = memory; vfork = vfork } in
      let o = sace_popen write env pidlist in Fails env pidlist o ⊎ Succeeds write env pidlist o
unfolding sace_popen
popen_cases write none memory vfork pidlist = inl (refl, refl, refl, inl (refl, refl))
popen_cases write (some (r, w)) false vfork pidlist = inl (refl, refl, refl, inr (r, w, refl, refl))
popen_cases write (some (r, w)) true none pidlist = inl (refl, refl, refl, inr (r, w, refl, refl))
popen_cases write (some (r, w)) true (some pid) pidlist =
    inr (r, w, pid, refl, refl, refl, refl, refl, refl, refl)

-- No end of a pipe leaks. On failure the result is -1, the list is as before and both ends (if the
-- pipe was made) are closed; on success the end for the direction is the result and the head of the
-- list with the child's pid, and only the other end is closed.
pub popen_ends :
    (write : Bool) (env : PopenEnv) (pidlist : List PidEntry)
    → let o = sace_popen write env pidlist in Fails env pidlist o ⊎ Succeeds write env pidlist o
popen_ends write env pidlist = popen_cases write env.pipe env.memory env.vfork pidlist

-- A newest entry is the first that `sace_pclose` finds.
find_fd_head : (e : PidEntry) (l : List PidEntry) → find_fd e.fd (e ∷ l) ≡ some e
unfolding find_fd
find_fd_head e l = ground arith

remove_fd_head : (e : PidEntry) (l : List PidEntry) → remove_fd e.fd (e ∷ l) ≡ l
unfolding remove_fd
remove_fd_head e l = ground arith

-- `sace_pclose` on the end that a successful `sace_popen` gave, a number below 2^31: when the child
-- ends, or can no longer be waited for, at the n-th look within the fuel, the list is as it was before
-- the popen, the result is the child's status (-1 if the wait failed), and n - 9 SIGKILLs were sent.
pub pclose-popen :
    (write : Bool) (env : PopenEnv) (pidlist : List PidEntry) (waits : ℕ → Waited) (n fuel pid : ℕ)
    → let o = sace_popen write env pidlist in
      o.out_pid ≡ some pid
      → is_negative o.ret ≡ false
      → ((k : ℕ) → k < n → waits k ≡ running)
      → waits n ≢ running
      → n < fuel
      → sace_pclose waits fuel o.ret o.pidlist
        ≡ some (record { pidlist = pidlist; ret = final (waits n); kills = n - 9; closed = true })
pclose-popen write env pidlist waits n fuel pid opened sign still ends h =
    elim (popen_ends write env pidlist) [
      | inl (_, failed, _, _) ↦ cc
      | inr (r, w, pid', _, _, _, _, _, grown, _) ↦
          let e : PidEntry = record { fd = (sace_popen write env pidlist).ret; pid = pid' } in
          rw grown (
            pclose_ends waits n fuel _ (e ∷ pidlist) e sign (find_fd_head e pidlist) still ends h
            ∙ rw (remove_fd_head e pidlist))
    ]
