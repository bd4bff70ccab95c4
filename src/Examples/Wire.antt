-- ===== src/Examples/Wire.antt =====
-- Runs of the codecs of commands and results.
use sa_excutor.Common.{
  ◌≡◌, refl, true, false, codes, [], ◌∷◌, ◌++◌, none, some, arith, done, undefined,
}
use sa_excutor.Common.Bytes.{replicate}
use sa_excutor.Params.{SaceCommandParams}
use sa_excutor.Types.{SaceCommand, new_command}
use sa_excutor.Wire.Laws.{Item}
use sa_excutor.Wire.Params.{to_ulong}
use sa_excutor.Wire.Command.{write_command, read_command}
use sa_excutor.Wire.Command.Layout.{head_items}
use sa_excutor.Wire.Command.RoundTrip.{read-write_command, read_command_overflows}
use sa_excutor.Examples.Parcels.{Values, value_list, value_list_laws}

abbrev event_params : SaceCommandParams
event_params = record {
  uid = codes "system";
  gid = codes "1000";
  supp_gids = codes "1003" ∷ [];
  rlimits = [];
  seclabel = codes "u:r:su:s0";
  capabilities = true ∷ false ∷ [];
  event =
      some (record {
        property_key = codes "sys.ok" ∷ [];
        property_value = codes "1" ∷ [];
        boot = true;
      });
}

-- A START of a service, with the event parameters that a manager gives to services.
abbrev start : SaceCommand
start = record (new_command 70000 (codes "9:9")) {
  type = 1;
  command = codes "/bin/true";
  extra = 1 ∷ 2 ∷ [];
  command_params = some event_params;
}

abbrev fresh : SaceCommand
fresh = new_command 1 (codes "5:5")

abbrev empty : Values
empty = ([], [])

read-write_command_example :
    (q : Values) × (read_command value_list 2 fresh
        (value_list.set_data_position 0 (write_command value_list start empty))
      ≡ done (
        record start {
          len = value_list.data_size (write_command value_list start empty);
          command_params = some (record event_params { event = none });
        },
        q,
      ))
unfolding to_ulong new_command
read-write_command_example =
    read-write_command value_list value_list_laws 2 start fresh empty refl (omega arith)
      (refl, λ e. absurd (cc)) refl (ground arith) (omega arith) refl

abbrev long : SaceCommand
long = record start { extra = replicate 300 7 }

read_command_overflows_example :
    read_command value_list 2 fresh ([], head_items 400 long ++ Item.raw long.extra ∷ [])
    ≡ undefined
unfolding replicate
read_command_overflows_example =
    read_command_overflows value_list value_list_laws 2 400 long fresh
      ([], head_items 400 long ++ Item.raw long.extra ∷ []) [] [] (omega arith) refl
