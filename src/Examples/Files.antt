-- ===== src/Examples/Files.antt =====
-- Runs of the parser of the event file.
use sa_excutor.Common.{ℕ, ◌+◌, ◌≡◌, refl, Str, codes, [], ◌∷◌, some, none, true}
use sa_excutor.Params.{EventPart, add_property}
use sa_excutor.Event.File.{Tables, parse_service_attr}
use sa_excutor.Event.Parser.{Parser, Process, fresh_params}
use sa_excutor.Event.Attributes.{trigger_line}

abbrev pub process : Process
process = record { sequence = λ i. i + 1; thread = codes "9:9" }

abbrev pub tables : Tables
tables = record {
  cap_map = (codes "CAP_CHOWN", 0) ∷ [];
  rlimit_map = (codes "RLIMIT_CORE", 4) ∷ [];
  cap_size = 3;
}

abbrev pub empty_parser : Parser
empty_parser = record { command = none; events = []; used = 0 }

abbrev event_part : EventPart
event_part = record { property_key = []; property_value = []; boot = true }

trigger_line_example :
    parse_service_attr tables (codes "trigger property:sys.up=1") (fresh_params tables)
    ≡ record (fresh_params tables) {
      event = some (add_property (codes ":sys.up") (codes "=1") event_part);
    }
trigger_line_example =
    trigger_line tables (codes "sys.up") (codes "1") (fresh_params tables) event_part
      (refl, (refl, (refl, (refl, (refl, (refl, tt))))))
      (refl, (refl, (refl, (refl, (refl, (refl, tt)))))) (refl, tt) refl
