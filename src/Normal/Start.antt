-- ===== src/Normal/Start.antt =====
-- Starting a command, and closing it again.
use sa_excutor.Common.{
  ℕ, ◌<◌, ◌-◌, ◌≡◌, ◌≢◌, refl, true, false, List, none, some, arith, nat_eq, nat_eq_iff, ℕ_eq,
  ==_refl, All, done, ◌>>=◌,
}
use sa_excutor.Common.Map.{Map, find, insert, erase, find-insert_new, find-insert, find-erase}
use sa_excutor.Types.{
  is_negative, SaceClientIdentifier, Client_eq, client_eq_iff, SaceWriter, SaceReaderMessage,
}
use sa_excutor.Process.{Closed, running, sace_pclose}
use sa_excutor.Process.Open.{pclose-popen}
use sa_excutor.Process.Close.{final}
use sa_excutor.Normal.{
  CommandInfo, State, Env, same_info, add_label, drop_label, new_label, new_info, popen_of,
  write_flag, started, start_normal_cmd, close_info, close_normal_cmd, info_closed, command_closed,
}
use sa_excutor.Normal.Labels.{
  labels_of, nonempty, find-add_label, find-drop_label, labels_of-add_label, remove-append_last,
}

pub start-started :
    (env : Env) (msg : SaceReaderMessage) (writer : SaceWriter) (s : State)
    → msg.writer ≡ some writer
    → is_negative (popen_of env msg s).ret ≡ false
    → start_normal_cmd env msg s ≡ done (started env msg writer (popen_of env msg s) s)
unfolding start_normal_cmd
start-started env msg writer s w h = rw (w, h)

-- What has to be true before a start for its command to be told from all others: the label and the
-- address are new, and no list of labels is empty.
pub record IsFresh (label addr : ℕ) (client : SaceClientIdentifier) (s : State) : Type 0 where
  pub label_new : find label s.seq_cmd ≡ none
  pub addr_new : All (λ i. nat_eq addr i.addr ≡ false) s.running
  pub unlisted : All (λ l. nat_eq label l ≡ false) (labels_of client s.client_cmd)
  pub listed : nonempty (labels_of client s.client_cmd) ≡ find client s.client_cmd

-- A close that finds its command, whose child ends.
pub close_found :
    (env : Env) (msg : SaceReaderMessage) (writer : SaceWriter) (s : State) (info : CommandInfo)
    (c : Closed)
    → msg.writer ≡ some writer
    → find msg.cmd.label s.seq_cmd ≡ some info
    → sace_pclose (env.waits info.fd) env.fuel info.fd s.pidlist ≡ some c
    → close_normal_cmd env msg s
      ≡ done (command_closed msg writer info (info_closed msg.cmd.label info c s))
unfolding close_normal_cmd close_info
close_found env msg writer s info c w known ended = ground arith

module _ (env : Env) (msg : SaceReaderMessage) (writer : SaceWriter) (s : State)
    (fresh : IsFresh (new_label env msg) env.addr msg.client s) where
  started_label :
      find (new_label env msg) (started env msg writer (popen_of env msg s) s).seq_cmd
      ≡ some (new_info env msg writer (popen_of env msg s))
  unfolding started
  started_label = find-insert_new _ _ _ fresh.label_new

  -- The client's list after the label came and went.
  relisted :
      (c : SaceClientIdentifier)
      → find c (
          drop_label msg.client
            (new_label env msg)
            (add_label msg.client (new_label env msg) s.client_cmd))
        ≡ find c s.client_cmd
  relisted c = ground (
    arith,
    find-drop_label c msg.client label added,
    labels_of-add_label msg.client label s.client_cmd,
    remove-append_last (nat_eq label) (labels_of msg.client s.client_cmd) label fresh.unlisted
        (==_refl label),
    fresh.listed,
    find-add_label c msg.client label s.client_cmd,
    client_eq_iff c msg.client,
  )
    where
      label : ℕ
      label = new_label env msg

      added : Map SaceClientIdentifier (List ℕ)
      added = add_label msg.client label s.client_cmd

  reseq :
      (info : CommandInfo) (j : ℕ)
      → find j (erase (new_label env msg) (insert (new_label env msg) info s.seq_cmd))
        ≡ find j s.seq_cmd
  reseq info j = ground (
    arith,
    find-erase j label (insert label info s.seq_cmd),
    find-insert j label info s.seq_cmd,
    nat_eq_iff j label,
    fresh.label_new,
  )
    where
      label : ℕ
      label = new_label env msg

-- A command that was started and is closed by the same client leaves no trace but its effects: the
-- vector and the process list are as before, and every lookup in the two maps too. The popen has
-- succeeded, the label and the address were new, and the child ends at the n-th look.
pub close-start :
    (env env' : Env) (msg msg' : SaceReaderMessage) (writer writer' : SaceWriter) (s : State)
    (n pid : ℕ)
    → let o = popen_of env msg s in
      msg.writer ≡ some writer
      → msg'.writer ≡ some writer'
      → msg'.client ≡ msg.client
      → msg'.cmd.label ≡ new_label env msg
      → o.out_pid ≡ some pid
      → is_negative o.ret ≡ false
      → IsFresh (new_label env msg) env.addr msg.client s
      → ((k : ℕ) → k < n → env'.waits o.ret k ≡ running)
      → env'.waits o.ret n ≢ running
      → n < env'.fuel
      → (s' : State) × ((start_normal_cmd env msg s >>= close_normal_cmd env' msg') ≡ done s')
        × (s'.running ≡ s.running)
        × (s'.pidlist ≡ s.pidlist)
        × ((j : ℕ) → find j s'.seq_cmd ≡ find j s.seq_cmd)
        × ((c : SaceClientIdentifier) → find c s'.client_cmd ≡ find c s.client_cmd)
unfolding started
close-start env env' msg msg' writer writer' s n pid w w' same label opened sign fresh still ends
      h =
    let o = popen_of env msg s in
    let info = new_info env msg writer o in
    let c : Closed = record {
      pidlist = s.pidlist;
      ret = final (env'.waits o.ret n);
      kills = n - 9;
      closed = true;
    } in
    let s1 = started env msg writer o s in
    let known : find msg'.cmd.label s1.seq_cmd ≡ some info =
      rw label (started_label env msg writer s fresh) in
    let ended =
      pclose-popen (write_flag msg.cmd) env.popen s.pidlist (env'.waits o.ret) n env'.fuel pid
        opened sign still ends h in
    (
      command_closed msg' writer' info (info_closed msg'.cmd.label info c s1),
      rw (start-started env msg writer s w sign)
          (close_found env' msg' writer' s1 info c w' known ended),
      remove-append_last (same_info info) s.running info fresh.addr_new (ground arith),
      refl,
      λ j. rw label (reseq env msg writer s fresh info j),
      λ c. rw same (relisted env msg writer s fresh c),
    )
