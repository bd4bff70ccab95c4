-- ===== src/Process/Child.antt =====
-- What the child of `sace_popen` does before it runs the shell: the descriptors, then
-- `handle_child_params` with `set_proc_capability` (saced/SaceExcutor.cpp). The calls are listed in
-- order; their failures are only logged by the source. A descriptor table maps a number to what it
-- is open on, and `close` and `dup2` act on it as POSIX says.
use sa_excutor.Common.{
  ℕ, suc, ◌≡◌, ◌≢◌, refl, Bool, true, false, Str, List, [], ◌∷◌, ◌++◌, map, Option, none, some, ◌∙◌,
  sym, arith, Bool-cases, inl, inr, All-map, All-map₂, All, ltb, nat_eq, if◌then◌else◌,
}
use sa_excutor.Params.Decode.{CommandParams, Rlimit}
use sa_excutor.Process.{PidEntry}

pub data ChildCall : Type 0 where
  close : ℕ → ChildCall
  dup2 : ℕ → ℕ → ChildCall
  setrlimit : Rlimit → ChildCall
  cap_set_flag : ℕ → ChildCall
  cap_set_proc : ChildCall
  setgid setuid : ℕ → ChildCall
  setgroups : List ℕ → ChildCall
  setexeccon : Str → ChildCall
  set_name : Str → ChildCall
  set_pdeathsig : ChildCall
  execl : Str → ChildCall

-- The flags that `set_proc_capability` sets, from bit `cap` on.
unfoldable pub set_flags : ℕ → List Bool → List ChildCall
set_flags cap [] = []
set_flags cap (b ∷ bs) =
    let rest = set_flags (suc cap) bs in if b then cap_set_flag cap ∷ rest else rest

unfoldable pub set_proc_capability : List Bool → List ChildCall
unfolding set_flags
set_proc_capability to_keep = set_flags 0 to_keep ++ cap_set_proc ∷ []

abbrev when : Bool → List ChildCall → List ChildCall
when b calls = if b then calls else []

abbrev is_empty {ℓ} : {A : Type ℓ} → List A → Bool
is_empty [] = true
is_empty (x ∷ xs) = false

unfoldable pub handle_child_params : Option CommandParams → List ChildCall
unfolding set_proc_capability
handle_child_params none = []
handle_child_params (some p) =
    map setrlimit p.rlimits
    ++ ((if is_empty p.capabilities then [] else set_proc_capability p.capabilities)
        ++ (when (ltb 0 p.gid) (setgid p.gid ∷ [])
            ++ ((if is_empty p.supp_gids then [] else setgroups p.supp_gids ∷ [])
                ++ (when (ltb 0 p.uid) (setuid p.uid ∷ [])
                    ++ (if is_empty p.seclabel then [] else setexeccon p.seclabel ∷ [])))))

abbrev stdin_fileno : ℕ
stdin_fileno = 0

abbrev stdout_fileno : ℕ
stdout_fileno = 1

-- `close (unused)`, and the used end moved to the standard stream `target`.
unfoldable pub redirect : ℕ → ℕ → ℕ → List ChildCall
redirect unused used target =
    close unused ∷ (if nat_eq used target then [] else dup2 used target ∷ close used ∷ [])

unfoldable pub child_descriptors : Bool → ℕ × ℕ → List PidEntry → List ChildCall
unfolding redirect
child_descriptors write (read_end, write_end) pidlist =
    map (λ old. close old.fd) pidlist
    ++ (if write
        then redirect write_end read_end stdin_fileno
        else redirect read_end write_end stdout_fileno)

unfoldable pub child_program :
    Bool → ℕ × ℕ → List PidEntry → Option CommandParams → Str → List ChildCall
unfolding child_descriptors handle_child_params
child_program write ends pidlist param cmd =
    child_descriptors write ends pidlist
    ++ (handle_child_params param ++ (set_name cmd ∷ set_pdeathsig ∷ execl cmd ∷ []))

-- A descriptor table: what each number is open on.
abbrev pub Table : Type 0
Table = ℕ → Option ℕ

abbrev pub assign : Table → ℕ → Option ℕ → Table
assign t fd v k = if nat_eq k fd then v else t k

abbrev pub call : ChildCall → Table → Table
call (close fd) t = assign t fd none
call (dup2 old new) t = assign t new (t old)
call _ t = t

pub calls : List ChildCall → Table → Table
calls [] t = t
calls (c ∷ cs) t = calls cs (call c t)

calls-append : (xs ys : List ChildCall) (t : Table) → calls (xs ++ ys) t ≡ calls ys (calls xs t)
unfolding calls
calls-append [] ys t = refl
calls-append (x ∷ xs) ys t = calls-append xs ys (call x t)

-- Closing the inherited descriptors leaves the others alone.
calls-close_ne :
    (l : List PidEntry) (t : Table) (k : ℕ)
    → All (λ e. e.fd ≢ k) l
    → calls (map (λ old. close old.fd) l) t k ≡ t k
unfolding calls
calls-close_ne [] t k h = refl
calls-close_ne (e ∷ l) t k h = calls-close_ne l (assign t e.fd none) k h.1 ∙ ground (arith, h.0)

-- Closing closes: an inherited descriptor is gone afterwards.
calls-close_none :
    (l : List PidEntry) (t : Table) (k : ℕ)
    → t k ≡ none
    → calls (map (λ old. close old.fd) l) t k ≡ none
unfolding calls
calls-close_none [] t k h = h
calls-close_none (e ∷ l) t k h = calls-close_none l (assign t e.fd none) k (ground arith)

redirect_lem :
    (unused used target : ℕ) (t : Table)
    → unused ≢ used
    → let t' = calls (redirect unused used target) t in
      (t' target ≡ t used)
      × (used ≢ target → t' used ≡ none)
      × (unused ≢ target → t' unused ≡ none)
      × ((k : ℕ) → k ≢ unused → k ≢ used → k ≢ target → t' k ≡ t k)
unfolding calls redirect
redirect_lem unused used target t h = elim (Bool-cases (nat_eq used target)) [
  | inl same ↦ rw same (ground arith, ground arith, ground arith, λ k hu hd ht. ground arith)
  | inr moved ↦ rw moved (ground arith, ground arith, ground arith, λ k hu hd ht. ground arith)
]

closed_everywhere :
    (l : List PidEntry) (t : Table) → All (λ e. calls (map (λ old. close old.fd) l) t e.fd ≡ none) l
unfolding calls
closed_everywhere [] t = tt
closed_everywhere (e ∷ l) t = (
  calls-close_none l (assign t e.fd none) e.fd (ground arith),
  closed_everywhere l (assign t e.fd none),
)

child_table_at :
    (unused used target : ℕ) (pidlist : List PidEntry) (t : Table)
    → unused ≢ used
    → All (λ e. (e.fd ≢ unused) × (e.fd ≢ used)) pidlist
    → let t' = calls (map (λ old. close old.fd) pidlist ++ redirect unused used target) t in
      (t' target ≡ t used)
      × (used ≢ target → t' used ≡ none)
      × (unused ≢ target → t' unused ≡ none)
      × All (λ e. e.fd ≢ target → t' e.fd ≡ none) pidlist
child_table_at unused used target pidlist t h apart =
    let before = calls (map (λ old. close old.fd) pidlist) t in
    let (at_target, at_used, at_unused, others) = redirect_lem unused used target before h in
    rw (calls-append (map (λ old. close old.fd) pidlist) (redirect unused used target) t) (
      at_target ∙ calls-close_ne pidlist t used (All-map pidlist (λ e p. p.1) apart),
      at_used,
      at_unused,
      All-map₂ pidlist (λ e p none_left at. others e.fd p.0 p.1 at ∙ none_left) apart
          (closed_everywhere pidlist t),
    )

-- The child sees the pipe and nothing of its siblings. For "r" its standard output is what the
-- write end was open on (for "w", its standard input what the read end was open on); both ends and
-- every descriptor of the list are closed, where they are not that standard stream itself.
pub child_table :
    (write : Bool) (r w : ℕ) (pidlist : List PidEntry) (t : Table)
    → r ≢ w
    → All (λ e. (e.fd ≢ r) × (e.fd ≢ w)) pidlist
    → let used = if write then r else w in
      let unused = if write then w else r in
      let target = if write then stdin_fileno else stdout_fileno in
      let t' = calls (child_descriptors write (r, w) pidlist) t in
      (t' target ≡ t used)
      × (used ≢ target → t' used ≡ none)
      × (unused ≢ target → t' unused ≡ none)
      × All (λ e. e.fd ≢ target → t' e.fd ≡ none) pidlist
unfolding child_descriptors
child_table true r w pidlist t h apart =
    child_table_at w r 0 pidlist t (λ e. h (sym e)) (All-map pidlist (λ e p. (p.1, p.0)) apart)
child_table false r w pidlist t h apart = child_table_at r w 1 pidlist t h apart
