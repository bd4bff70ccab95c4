-- ===== src/Types/Client.antt =====
-- saced/SaceClient.h, and the writers of saced/SaceWriter.h and saced/SaceEvent.h.
use sa_excutor.Common.{ℕ, ◌≡◌, ◌↔◌, Bool, ◌&&◌, Option, none, some, true, false, arith, nat_eq, Key}

pub record SaceClientIdentifier : Type 0 where
  pub uid : ℕ
  pub pid : ℕ

unfoldable pub client_eq : SaceClientIdentifier → SaceClientIdentifier → Bool
client_eq a b = nat_eq a.uid b.uid && nat_eq a.pid b.pid

pub client_eq_iff : (a b : SaceClientIdentifier) → (client_eq a b ≡ true) ↔ (a ≡ b)
unfolding client_eq
client_eq_iff a b = ground arith

instance abbrev pub Client_eq : Key SaceClientIdentifier
Client_eq = record { same = client_eq; same_iff = client_eq_iff }

-- Where a writer sends: a client's socket, a binder listener, the event module's pipe, or nowhere.
pub data Channel : Type 0 where
  socket binder event_pipe : ℕ → Channel
  discard : Channel

-- `mId` is the peer's pid; `operator==` compares nothing else.
pub record SaceWriter : Type 0 where
  pub id : ℕ
  pub channel : Channel

unfoldable pub same_writer : SaceWriter → Option SaceWriter → Bool
same_writer w none = false
same_writer w (some v) = nat_eq w.id v.id
