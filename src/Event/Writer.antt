-- ===== src/Event/Writer.antt =====
-- write_ini_file (saced/SaceEvent.cpp) and Trigger::to_string (libsace/SaceParams.cpp). What the file
-- system answers is an argument.
use sa_excutor.Common.{
  ℕ, Bool, true, false, Str, codes, List, [], ◌∷◌, ◌++◌, Option, none, some, ltb, length,
  if◌then◌else◌, Run, done, undefined, ◌>>=◌,
}
use sa_excutor.Common.Map.{Map}
use sa_excutor.Params.{SaceCommandParams, int_to_string}
use sa_excutor.Params.Text.{to_string}
use sa_excutor.Params.Trigger.{Trigger}
use sa_excutor.Types.{SaceCommand}
use sa_excutor.Service.Info.{c_str}
use sa_excutor.Wire.Params.{to_ulong}
use sa_excutor.Event.{Service}

-- Whether the file exists, can be opened, and opens as a stream; and the int that a `char` becomes,
-- which the platform chooses above 127.
pub record Disk : Type 0 where
  pub exists : Bool
  pub opens : Bool
  pub stream_opens : Bool
  pub int_of_char : ℕ → ℕ

unfoldable pub trigger_to_string : Trigger → Str
trigger_to_string (Trigger.property name value last) = codes "property:" ++ (name ++ b'=' ∷ value)
trigger_to_string (Trigger.boot has_triggered) = codes "boot"

-- `sprintf` into the buffer of 128 bytes: a longer text and its null character go past its end.
unfoldable pub sprintf : Str → Run Str
sprintf s = if ltb (length s) 128 then done s else undefined

abbrev pub name_line : SaceCommand → Str
name_line cmd = c_str cmd.name ++ 32 ∷ (c_str cmd.command ++ 10 ∷ [])

abbrev pub user_lines : SaceCommandParams → Str
user_lines p =
    codes "  user "
    ++ (c_str p.uid
        ++ (codes "\n  group "
            ++ (c_str p.gid ++ (codes "\n  seclabel " ++ (c_str p.seclabel ++ codes "\n")))))

-- The number of the set, with no newline after it.
unfoldable pub capability_text : SaceCommandParams → Str
unfolding to_ulong to_string
capability_text p =
    let n = to_ulong p.capabilities in if ltb 0 n then codes "  capability " ++ to_string n else []

unfoldable pub group_words : List Str → Str
group_words [] = []
group_words (g ∷ gs) = g ++ 32 ∷ group_words gs

unfoldable pub groups_line : List Str → Str
unfolding group_words
groups_line [] = []
groups_line (g ∷ gs) = codes "  groups " ++ (group_words (g ∷ gs) ++ codes "\n")

-- The first three characters of each entry, as numbers. A shorter entry has its null character, and
-- what lies behind that is undefined.
unfoldable pub limit_text : Disk → Str → Run Str
unfolding int_to_string
limit_text d (a ∷ b ∷ c ∷ s) = done (
    codes "  rlimits "
    ++ (int_to_string (d.int_of_char a)
        ++ 32
          ∷ (int_to_string (d.int_of_char b) ++ 32 ∷ (int_to_string (d.int_of_char c) ++ 32 ∷ []))))
limit_text d (a ∷ b ∷ []) = done (
    codes "  rlimits "
    ++ (int_to_string (d.int_of_char a)
        ++ 32 ∷ (int_to_string (d.int_of_char b) ++ 32 ∷ (int_to_string 0 ++ 32 ∷ []))))
limit_text d (a ∷ []) = undefined
limit_text d [] = undefined

unfoldable pub limit_texts : Disk → List Str → Run Str
unfolding limit_text
limit_texts d [] = done []
limit_texts d (r ∷ rs) = do t ← limit_text d r; ts ← limit_texts d rs; done (t ++ ts)

unfoldable pub trigger_lines : List Trigger → Str
unfolding trigger_to_string
trigger_lines [] = []
trigger_lines (t ∷ ts) = codes "  trigger " ++ (trigger_to_string t ++ 10 ∷ trigger_lines ts)

-- `service_str`; a null `cmd_param` is read.
unfoldable pub service_str : Disk → Service → Run Str
unfolding sprintf c_str capability_text groups_line limit_texts trigger_lines
service_str d service = elim service.cmd.command_params [
  | none ↦ undefined
  | some p ↦ do
    name ← sprintf (name_line service.cmd)
    user ← sprintf (user_lines p)
    limits ← limit_texts d p.rlimits
    done (
        name
        ++ (user
            ++ (capability_text p
                ++ (groups_line p.supp_gids ++ (limits ++ trigger_lines service.triggers)))))
]

-- The loop over the events, where the stream takes what is written.
unfoldable pub services_str : Disk → Map Str Service → Run Str
unfolding service_str
services_str d [] = done []
services_str d ((name, service) ∷ m) = do
  s ← service_str d service
  rest ← services_str d m
  done (s ++ 10 ∷ rest)

-- The new content of the file, which is that of before where it cannot be opened, and the result.
unfoldable pub write_stream : Disk → Map Str Service → Option Str → Run (Option Str × Bool)
unfolding services_str
write_stream d events old =
    if d.stream_opens
    then (services_str d events >>= λ content. done (some content, true))
    else done (old, false)

unfoldable pub write_ini_file : Disk → Map Str Service → Option Str → Run (Option Str × Bool)
unfolding write_stream
write_ini_file d events old =
    if d.exists
    then (if d.opens then write_stream d events old else done (old, false))
    else write_stream d events old
