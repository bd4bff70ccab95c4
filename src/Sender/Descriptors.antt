-- ===== src/Sender/Descriptors.antt =====
-- The descriptors that the sender opens and closes.
use sa_excutor.Common.{ℕ, ◌≡◌, refl, true, false, ◌∷◌, Option, none, some, nat_eq, arith}
use sa_excutor.Sender.{Sender, init, uninit, exit_thread, close_fd}

-- The thread ends when the peer closes the connection, or when select or recvmsg fails: it returns
-- without closing `event_fd`.
unfoldable pub peer_closed : Sender → Sender
peer_closed s = record s { receiving = false }

-- Setting up a sender that is not set up leaves no descriptor open if it fails, whichever step fails;
-- if it succeeds, `uninit` and the thread's exit close all that it opened.
pub init_closed :
    (sock event : Option ℕ) (s : Sender)
    → s.initlized ≡ false
    → let (s', ready) = init sock event s in
      (ready ≡ s'.initlized)
      × (ready ≡ false → s'.opened ≡ s.opened)
      × (ready ≡ true
          → ((exit_thread (uninit s')).opened ≡ s.opened)
            × ((exit_thread (uninit s')).initlized ≡ false))
unfolding init uninit exit_thread close_fd
init_closed none event s h = (ground arith, λ _. refl, λ e. absurd (cc))
init_closed (some fd) none s h = (ground arith, λ _. ground arith, λ e. absurd (cc))
init_closed (some fd) (some ev) s h = (refl, λ e. absurd (cc), λ _. (ground arith, refl))

-- A connection that the peer closes leaves `event_fd` open for good: the thread is gone when
-- `uninit` writes to it, and the next set-up takes new descriptors.
pub event_fd_leaked :
    (sock event : ℕ) (s : Sender)
    → nat_eq sock event ≡ false
    → (exit_thread (uninit (peer_closed (init (some sock) (some event) s).0))).opened
      ≡ event ∷ s.opened
unfolding init uninit exit_thread peer_closed close_fd
event_fd_leaked sock event s h = ground arith
