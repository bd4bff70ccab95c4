-- ===== src/Process/Close.antt =====
-- The wait of `sace_pclose` (saced/SaceExcutor.cpp).
use sa_excutor.Common.{
  ℕ, zero, suc, ◌+◌, ◌-◌, ◌*◌, ◌<◌, ◌≡◌, ◌≢◌, refl, true, false, List, none, some, ◌∙◌, ap, arith,
  Bool-cases, Option-cases, inl, inr, leb, leb→le, not-leb→lt, lt→not-leb,
}
use mathlib.Core.Path.{ap₂}
use native.Mathlib.Nat.{add-zero, zero-add}
use sa_excutor.Types.{minus_one, is_negative}
use sa_excutor.Process.{
  PidEntry, Waited, reaped, running, failed, close_wait, find_fd, remove_fd, Closed, sace_pclose,
}

-- What the loop returns for the answer that ends it.
abbrev pub final : Waited → ℕ
final (reaped pstat) = pstat
final running = minus_one
final failed = minus_one

close_wait_stop :
    (waits : ℕ → Waited) (w : Waited) (fuel round time kills : ℕ)
    → waits round ≡ w
    → w ≢ running
    → close_wait waits (suc fuel) round time kills ≡ some (final w, kills)
unfolding close_wait
close_wait_stop waits (reaped pstat) fuel round time kills e h = rw (e, close_wait)
close_wait_stop waits running fuel round time kills e h = absurd (h refl)
close_wait_stop waits failed fuel round time kills e h = rw (e, close_wait)

close_wait_more :
    (waits : ℕ → Waited) (fuel round kills : ℕ)
    → waits round ≡ running
    → close_wait waits (suc fuel) round (100 * round) kills
      ≡ close_wait waits fuel (suc round) (100 * suc round) (kills + (suc round - 9 - (round - 9)))
unfolding close_wait
close_wait_more waits fuel round kills e = elim (Bool-cases (leb 1000 (100 * round + 100))) [
  | inl late ↦
      rw (e, close_wait, late)
        (ap₂ (λ t k. close_wait waits fuel (suc round) t k) (omega arith)
          (omega (arith, leb→le _ _ late)))
  | inr early ↦
      let more : leb 2000 (100 * round + 100) ≡ false =
        lt→not-leb _ _ (omega (arith, not-leb→lt _ _ early)) in
      rw (e, close_wait, early, more)
        (ap₂ (λ t k. close_wait waits fuel (suc round) t k) (omega arith)
          (omega (arith, not-leb→lt _ _ early)))
]

close_wait_from :
    (waits : ℕ → Waited) (n fuel round kills : ℕ)
    → ((k : ℕ) → k < n → waits (round + k) ≡ running)
    → waits (round + n) ≢ running
    → n < fuel
    → close_wait waits fuel round (100 * round) kills
      ≡ some (final (waits (round + n)), kills + (round + n - 9 - (round - 9)))
close_wait_from waits n zero round kills still ends h = absurd (omega arith)
close_wait_from waits zero (suc fuel) round kills still ends h = rw add-zero (
    close_wait_stop waits (waits round) fuel round (100 * round) kills refl (rw add-zero at ends)
    ∙ ap (λ k. some (final (waits round), k)) (omega arith))
close_wait_from waits (suc n) (suc fuel) round kills still ends h =
    close_wait_more waits fuel round kills (rw add-zero at (still 0 (omega arith)))
    ∙ close_wait_from waits n fuel (suc round) (kills + (suc round - 9 - (round - 9)))
        (λ k lt.
          let e : suc round + k ≡ round + suc k = omega arith in rw e (still (suc k) (omega arith)))
        (let e : suc round + n ≡ round + suc n = omega arith in rw e ends) (omega arith)
    ∙ ap₂ (λ m k. some (final (waits m), k)) (omega arith) (omega arith)

-- If the child has ended, or can no longer be waited for, at the n-th look, `sace_pclose` on a
-- descriptor of the list returns then: it drops the newest entry with that descriptor, closes the
-- descriptor, returns the child's status (-1 if the wait failed), and has sent a SIGKILL at each
-- look from the tenth to the last but one.
pub pclose_ends :
    (waits : ℕ → Waited) (n fuel fd : ℕ) (pidlist : List PidEntry) (cur : PidEntry)
    → is_negative fd ≡ false
    → find_fd fd pidlist ≡ some cur
    → ((k : ℕ) → k < n → waits k ≡ running)
    → waits n ≢ running
    → n < fuel
    → sace_pclose waits fuel fd pidlist
      ≡ some (record {
        pidlist = remove_fd fd pidlist;
        ret = final (waits n);
        kills = n - 9;
        closed = true;
      })
unfolding sace_pclose
pclose_ends waits n fuel fd pidlist cur sign known still ends h =
    let e : close_wait waits fuel 0 0 0 ≡ some (final (waits n), n - 9) =
      close_wait_from waits n fuel 0 0 still' ends' h
      ∙ ap₂ (λ m k. some (final (waits m), k)) (omega arith) (omega arith) in
    rw (sign, known, e)
  where
    still' : (k : ℕ) → k < n → waits (0 + k) ≡ running
    still' k lt = rw zero-add (still k lt)

    ends' : waits (0 + n) ≢ running
    ends' = rw zero-add ends

close_wait_never :
    (waits : ℕ → Waited) (fuel round kills : ℕ)
    → ((k : ℕ) → waits k ≡ running)
    → close_wait waits fuel round (100 * round) kills ≡ none
close_wait_never waits zero round kills h = unfold close_wait in refl
close_wait_never waits (suc fuel) round kills h =
    close_wait_more waits fuel round kills (h round)
    ∙ close_wait_never waits fuel (suc round) (kills + (suc round - 9 - (round - 9))) h

-- The limit of two seconds is never reached: for a child that keeps running, in spite of SIGKILL,
-- `sace_pclose` does not return, whatever the fuel.
pub pclose_never :
    (waits : ℕ → Waited) (fuel fd : ℕ) (pidlist : List PidEntry) (cur : PidEntry)
    → is_negative fd ≡ false
    → find_fd fd pidlist ≡ some cur
    → ((k : ℕ) → waits k ≡ running)
    → sace_pclose waits fuel fd pidlist ≡ none
unfolding sace_pclose
pclose_never waits fuel fd pidlist cur sign known h =
    let e : close_wait waits fuel 0 0 0 ≡ none = close_wait_never waits fuel 0 0 h in
    rw (sign, known, e)

pclose_negative :
    (waits : ℕ → Waited) (fuel fd : ℕ) (pidlist : List PidEntry)
    → is_negative fd ≡ true
    → sace_pclose waits fuel fd pidlist
      ≡ some (record { pidlist = pidlist; ret = minus_one; kills = 0; closed = false })
unfolding sace_pclose
pclose_negative waits fuel fd pidlist h = rw h

pub pclose_unknown :
    (waits : ℕ → Waited) (fuel fd : ℕ) (pidlist : List PidEntry)
    → find_fd fd pidlist ≡ none
    → sace_pclose waits fuel fd pidlist
      ≡ some (record { pidlist = pidlist; ret = minus_one; kills = 0; closed = false })
unfolding sace_pclose
pclose_unknown waits fuel fd pidlist h = elim (Bool-cases (is_negative fd)) [
  | inl e ↦ rw e
  | inr e ↦ rw (e, h)
]

-- A child that ends, or cannot be waited for, at some look within the fuel.
abbrev pub Ends : (ℕ → Waited) → ℕ → Type 0
Ends waits fuel = (n : ℕ) × (n < fuel) × ((k : ℕ) → k < n → waits k ≡ running) × (waits n ≢ running)

-- Then `sace_pclose` returns, for every descriptor and every list.
pub pclose_returns :
    (waits : ℕ → Waited) (fuel fd : ℕ) (pidlist : List PidEntry)
    → Ends waits fuel
    → (c : Closed) × (sace_pclose waits fuel fd pidlist ≡ some c)
pclose_returns waits fuel fd pidlist (n, h, still, ends) =
    elim (Option-cases (find_fd fd pidlist)) [
      | inl unknown ↦ (_, pclose_unknown waits fuel fd pidlist unknown)
      | inr (cur, known) ↦ elim (Bool-cases (is_negative fd)) [
        | inl sign ↦ (_, pclose_negative waits fuel fd pidlist sign)
        | inr sign ↦ (_, pclose_ends waits n fuel fd pidlist cur sign known still ends h)
      ]
    ]
