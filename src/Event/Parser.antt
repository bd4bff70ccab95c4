-- ===== src/Event/Parser.antt =====
-- The event file (saced/SaceEvent.cpp): parse_event_from_ini over the lines that getline delivers, and
-- read_ini_file. The content of the file is an argument.
use sa_excutor.Common.{
  ℕ, zero, suc, Bool, true, false, ◌+◌, Str, List, [], ◌∷◌, ◌++◌, Option, none, some, nat_eq,
  Str_eq, if◌then◌else◌,
}
use sa_excutor.Common.Map.{Map, insert}
use sa_excutor.Common.Bytes.{replicate}
use sa_excutor.Params.{SaceCommandParams}
use sa_excutor.Params.Trigger.{Trigger, parse_event_params}
use sa_excutor.Types.{SaceCommand, new_command}
use sa_excutor.Event.{Service}
use sa_excutor.Event.File.{Tables, Token, trim_space_char, next_token, parse_service_attr}

-- The static variables and the map of events; a null `parse_command` goes with PARSE_NONE. `used`
-- counts the commands that were made, and a reading past the end of a vector is `undefined`.
pub record Parser : Type 0 where
  pub command : Option SaceCommand
  pub events : Map Str Service
  pub used : ℕ

-- What the process gives: the sequence number of the i-th command, and "pid:tid".
pub record Process : Type 0 where
  pub sequence : ℕ → ℕ
  pub thread : Str

abbrev pub fresh_params : Tables → SaceCommandParams
fresh_params t = record {
  uid = [];
  gid = [];
  supp_gids = [];
  rlimits = [];
  seclabel = [];
  capabilities = replicate t.cap_size false;
  event = some (record { property_key = []; property_value = []; boot = true });
}

-- The triggers of the parameters. The parser adds a value with each name, so there are as many.
unfoldable pub triggers_of_params : Option SaceCommandParams → List Trigger
unfolding parse_event_params
triggers_of_params none = []
triggers_of_params (some p) = elim p.event [
  | none ↦ []
  | some e ↦ elim (parse_event_params e) [ none ↦ [] | some ts ↦ ts ]
]

-- An empty line ends a service.
unfoldable pub finish_service : Parser → Parser
unfolding triggers_of_params
finish_service s = elim s.command [
  | none ↦ s
  | some cmd ↦ record s {
    command = none;
    events =
        insert cmd.name (record { triggers = triggers_of_params cmd.command_params; cmd = cmd })
          s.events;
  }
]

-- The first line of a service, where something follows the name.
unfoldable pub begin_service : Process → Tables → Str → Str → Parser → Parser
begin_service pr t name [] s = s
begin_service pr t name (c ∷ rest) s = record s {
  command = some (record (new_command (pr.sequence s.used) pr.thread) {
    command_params = some (fresh_params t);
    name = name;
    command = c ∷ rest;
  });
  used = s.used + 1;
}

abbrev pub with_attr : Tables → Str → SaceCommand → SaceCommand
with_attr t line cmd = record cmd {
  command_params = elim cmd.command_params [
    | none ↦ none
    | some p ↦ some (parse_service_attr t line p)
  ];
}

-- `next_token` does not throw here: the line is trimmed and not empty.
unfoldable pub parse_line : Process → Tables → Str → Option SaceCommand → Parser → Parser
unfolding next_token begin_service parse_service_attr
parse_line pr t line none s = elim (next_token line) [
  | Token.text name rest ↦ begin_service pr t name rest s
  | Token.empty ↦ s
  | Token.thrown ↦ s
]
parse_line pr t line (some cmd) s = record s { command = some (with_attr t line cmd) }

-- A line after `trim_space_char`: empty, a null character, a comment, or text.
unfoldable pub parse_trimmed : Process → Tables → Str → Parser → Parser
unfolding finish_service parse_line
parse_trimmed pr t [] s = finish_service s
parse_trimmed pr t (c ∷ []) s =
    if nat_eq c 0
    then finish_service s
    else if nat_eq c b'#'
    then s
    else parse_line pr t (c ∷ []) s.command s
parse_trimmed pr t (c ∷ d ∷ line) s =
    if nat_eq c b'#' then s else parse_line pr t (c ∷ d ∷ line) s.command s

unfoldable pub parse_event_from_ini : Process → Tables → Str → Parser → Parser
unfolding trim_space_char parse_trimmed
parse_event_from_ini pr t line s = parse_trimmed pr t (trim_space_char line) s

abbrev last_line : Str → List Str
last_line [] = []
last_line (c ∷ s) = (c ∷ s) ∷ []

-- The lines that `getline` delivers into a buffer of 128 bytes: one that ends with a newline has the
-- null character of the buffer at its end; one that fills the buffer is the last; and at the end of
-- the file a line that has no newline is as it is.
unfoldable pub lines : Str → ℕ → Str → List Str
lines acc room [] = last_line acc
lines acc zero (c ∷ s) = elim (nat_eq c 10) [
  | true ↦ (acc ++ 0 ∷ []) ∷ lines [] 127 s
  | false ↦ acc ∷ []
]
lines acc (suc room) (c ∷ s) = elim (nat_eq c 10) [
  | true ↦ (acc ++ 0 ∷ []) ∷ lines [] 127 s
  | false ↦ lines (acc ++ c ∷ []) room s
]

unfoldable pub parse_lines : Process → Tables → List Str → Parser → Parser
unfolding parse_event_from_ini
parse_lines pr t [] s = s
parse_lines pr t (l ∷ ls) s = parse_lines pr t ls (parse_event_from_ini pr t l s)

-- `read_ini_file`, with the content of the file that could be opened.
unfoldable pub read_ini_file : Process → Tables → Option Str → Parser → Parser × Bool
unfolding lines parse_lines parse_event_from_ini
read_ini_file pr t none s = (s, false)
read_ini_file pr t (some content) s =
    (parse_event_from_ini pr t [] (parse_lines pr t (lines [] 127 content) s), true)
