-- ===== src/Service/Query.antt =====
-- A query after a START.
use sa_excutor.Common.{
  ℕ, ◌≤◌, ◌<◌, ◌^◌, ◌≡◌, refl, sym, true, false, [], ◌∷◌, none, some, arith, nat_eq, nat_eq_iff,
  ℕ_eq, Str_eq, str_eq, str_eq_iff, length, ltb, done,
}
use sa_excutor.Common.Map.{find, find-insert_new}
use sa_excutor.Common.Bytes.{take, of_le_bytes, of_le_bytes-le_bytes}
use sa_excutor.Types.{SaceWriter, SaceCommand, label_lem}
use sa_excutor.Types.Command.{SaceResultStatus}
use sa_excutor.Service.{ServiceInfo, State, Env, put, add_writer}
use sa_excutor.Service.Info.{running, get_by_name, state_code, of_image}
use sa_excutor.Service.Image.{ZeroFree, of_image-image}
use sa_excutor.Service.Handle.{
  new_label, new_info, started, start_result, start_service, image_of, info_result,
  handle_service_info,
}
use sa_excutor.Service.Keeps.{IsNew}

module _ (env : Env) (cmd query : SaceCommand) (writer reader : SaceWriter) (s : State) (pid : ℕ)
    (new : IsNew env cmd s) (unnamed : find cmd.name s.names ≡ none)
    (fits : length cmd.command ≤ 128) (forked : env.fork ≡ some pid)
    (asks : query.command ≡ get_by_name) (same_name : query.name ≡ cmd.name)
    (same_flags : query.cmd_flags ≡ cmd.cmd_flags) (name_text : ZeroFree cmd.name)
    (cmd_text : ZeroFree cmd.command) where
  abbrev info : ServiceInfo
  info = new_info env cmd writer pid

  abbrev s' : State
  s' = started env cmd writer pid s

  start : start_service env cmd writer s ≡ done (s', start_result env cmd)
  unfolding start_service
  start =
      let short : ltb 128 (length cmd.command) ≡ false = ground arith in
      rw (start_service, unnamed, short, forked) refl

  query-answer :
      handle_service_info query reader s'
      ≡ done (
        put env.addr (record info { writer = add_writer reader (writer ∷ []) }) s',
        info_result query info,
      )
  unfolding handle_service_info
  query-answer =
      let is_query : str_eq query.command get_by_name ≡ true =
        (str_eq_iff query.command get_by_name).1 asks in
      let named : find query.name s'.names ≡ some env.addr =
        rw same_name (find-insert_new cmd.name env.addr s.names unnamed) in
      let stored : find env.addr s'.heap ≡ some info = find-insert_new env.addr info s.heap new.0 in
      let flags : nat_eq cmd.cmd_flags query.cmd_flags ≡ true =
        (nat_eq_iff cmd.cmd_flags query.cmd_flags).1 (sym same_flags) in
      rw (handle_service_info, is_query, named, stored, flags) refl

  -- A START with a new name, label and address, a command of at most 128 bytes and a fork that
  -- succeeds, then a query of that name with the same flags: both are answered OK, the 8 bytes of
  -- the first answer are the label, and the image in the second has the first 63 bytes of the name
  -- and 127 of the command, the state RUNNING and that label.
  pub start-info :
      (start_service env cmd writer s ≡ done (s', start_result env cmd))
      × ((start_result env cmd).result_status ≡ SaceResultStatus.ok)
      × (of_le_bytes (start_result env cmd).result_extra ≡ new_label env cmd)
      × (handle_service_info query reader s'
          ≡ done (
            put env.addr (record info { writer = add_writer reader (writer ∷ []) }) s',
            info_result query info,
          ))
      × ((info_result query info).result_status ≡ SaceResultStatus.ok)
      × (of_image (info_result query info).result_extra ≡ record {
        name = take 63 cmd.name;
        cmd = take 127 cmd.command;
        state = state_code running;
        label = new_label env cmd;
      })
  start-info =
      let bound : new_label env cmd < 2 ^ 64 = (label_lem cmd.sequence env.addr 0 0).0 in
      (
        start,
        refl,
        of_le_bytes-le_bytes 8 (new_label env cmd) bound,
        query-answer,
        refl,
        of_image-image (image_of info) name_text cmd_text (omega arith) bound,
      )
