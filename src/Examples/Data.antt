-- ===== src/Examples/Data.antt =====
-- Runs of the parameters and of the labels.
use sa_excutor.Common.{◌≡◌, false, Str, codes, List, [], ◌∷◌, none, arith}
use sa_excutor.Params.{SaceCommandParams, set_uid, set_gid}
use sa_excutor.Params.Decode.{parse_command_params}
use sa_excutor.Params.RoundTrip.{parse-set_uid-set_gid}
use sa_excutor.Params.Trigger.{Trigger}
use sa_excutor.Examples.{platform, limit}

abbrev params : List Str → SaceCommandParams
params gids = record {
  uid = [];
  gid = [];
  supp_gids = gids;
  rlimits = [];
  seclabel = [];
  capabilities = [];
  event = none;
}

parse-set_uid-set_gid_example :
    let r = parse_command_params platform 0 limit (set_gid 1001 (set_uid 2000 (params []))) in
    (r.uid ≡ 2000) × (r.gid ≡ 1001)
parse-set_uid-set_gid_example =
    parse-set_uid-set_gid platform 0 limit (params []) 2000 1001 (omega arith) (omega arith)

abbrev triggers : List Trigger
triggers = Trigger.property (codes "sys.ok") (codes "1") [] ∷ Trigger.boot false ∷ []
