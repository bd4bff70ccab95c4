-- ===== src/Event/Reread.antt =====
-- What the parser makes of a service that write_ini_file wrote.
use sa_excutor.Common.{
  ℕ, ◌+◌, ◌<◌, ◌≡◌, refl, ap, ◌∙◌, Bool, true, false, Str, codes, List, [], ◌∷◌, ◌++◌, Option, none,
  some, nat_eq, All, length, if◌then◌else◌, Str_eq,
}
use sa_excutor.Common.Map.{insert}
use sa_excutor.Params.{SaceCommandParams, set_boot}
use sa_excutor.Params.Text.{is_space}
use sa_excutor.Params.Trigger.{Trigger}
use sa_excutor.Types.{SaceCommand, new_command}
use sa_excutor.Service.Info.{c_str}
use sa_excutor.Wire.Params.{to_ulong}
use sa_excutor.Event.{Service}
use sa_excutor.Event.File.{
  Tables, trim_space_char, set_attr, parse_service_attr, on_event, add_trigger,
}
use sa_excutor.Event.Parser.{Parser, Process, fresh_params, triggers_of_params}
use sa_excutor.Event.Lines.{Plain, trim_space_char-full}
use sa_excutor.Event.Attributes.{NoSpace, extract_word_null}
use sa_excutor.Event.Blocks.{
  Block, IsBlock, IsLine, block_lines, ends, is_comment, attribute, attributes, declare,
}
use sa_excutor.Event.Writer.{name_line, user_lines}

-- A service whose only trigger is the boot, with no groups, limits and capabilities.
pub record Item : Type 0 where
  pub cmd : SaceCommand
  pub first : ℕ
  pub name : Str
  pub command : Str
  pub params : SaceCommandParams
  pub started : Bool

abbrev pub params_of : Item → SaceCommandParams
params_of i = record (i.params) { supp_gids = []; rlimits = [] }

abbrev pub service_of : Item → Service
service_of i = record {
  triggers = Trigger.boot i.started ∷ [];
  cmd = record (i.cmd) {
    name = i.first ∷ i.name;
    command = i.command;
    command_params = some (params_of i);
  };
}

abbrev pub block_of : Item → Block
block_of i = record {
  first = i.first;
  name = i.name;
  command = i.command;
  attrs =
      (codes "  user " ++ i.params.uid)
      ∷ (codes "  group " ++ i.params.gid)
      ∷ (codes "  seclabel " ++ i.params.seclabel)
      ∷ codes "  trigger boot"
      ∷ [];
  end = [];
}

trim-tag :
    (c : ℕ) (s w : Str)
    → is_space c ≡ false
    → trim_space_char (((32 ∷ 32 ∷ c ∷ s) ++ w) ++ 0 ∷ []) ≡ c ∷ ((s ++ w) ++ 0 ∷ [])
unfolding trim_space_char
trim-tag c s w h = trim_space_char-full c (s ++ w) 0 h refl

abbrev parse_trimmed_attr : Tables → SaceCommandParams → Str → SaceCommandParams
parse_trimmed_attr t q l = if is_comment l then q else parse_service_attr t l q

user_line :
    (t : Tables) (w : Str) (q : SaceCommandParams)
    → All NoSpace w
    → attribute t ((codes "  user " ++ w) ++ 0 ∷ []) q ≡ record q { uid = w ++ 0 ∷ [] }
unfolding attribute parse_service_attr set_attr is_comment
user_line t w q h =
    ap (parse_trimmed_attr t q) (trim-tag b'u' (codes "ser ") w refl)
    ∙ ap (λ (o : Option (Str × Str)). elim o [ none ↦ q | some (v, rest) ↦ record q { uid = v } ])
        (extract_word_null w h)

group_line :
    (t : Tables) (w : Str) (q : SaceCommandParams)
    → All NoSpace w
    → attribute t ((codes "  group " ++ w) ++ 0 ∷ []) q ≡ record q { gid = w ++ 0 ∷ [] }
unfolding attribute parse_service_attr set_attr is_comment
group_line t w q h =
    ap (parse_trimmed_attr t q) (trim-tag b'g' (codes "roup ") w refl)
    ∙ ap (λ (o : Option (Str × Str)). elim o [ none ↦ q | some (v, rest) ↦ record q { gid = v } ])
        (extract_word_null w h)

seclabel_line :
    (t : Tables) (w : Str) (q : SaceCommandParams)
    → All NoSpace w
    → attribute t ((codes "  seclabel " ++ w) ++ 0 ∷ []) q ≡ record q { seclabel = w ++ 0 ∷ [] }
unfolding attribute parse_service_attr set_attr is_comment
seclabel_line t w q h =
    ap (parse_trimmed_attr t q) (trim-tag b's' (codes "eclabel ") w refl)
    ∙ ap
        (λ (o : Option (Str × Str)). elim o [
          | none ↦ q
          | some (v, rest) ↦ record q { seclabel = v }
        ])
        (extract_word_null w h)

boot_line :
    (t : Tables) (q : SaceCommandParams)
    → attribute t (codes "  trigger boot" ++ 0 ∷ []) q ≡ on_event (set_boot true) q
unfolding attribute parse_service_attr set_attr is_comment trim_space_char add_trigger set_boot
boot_line t q = refl

abbrev pub reread_params : Tables → Item → SaceCommandParams
reread_params t i = record (fresh_params t) {
  uid = i.params.uid ++ 0 ∷ [];
  gid = i.params.gid ++ 0 ∷ [];
  seclabel = i.params.seclabel ++ 0 ∷ [];
}

-- What reading a written service enters.
unfoldable pub reread : Process → Tables → Item → Parser → Parser
reread pr t i p = record {
  command = none;
  events =
      insert (i.first ∷ i.name)
        (record {
          triggers = Trigger.boot false ∷ [];
          cmd = record (new_command (pr.sequence p.used) pr.thread) {
            name = i.first ∷ i.name;
            command = 32 ∷ i.command;
            command_params = some (reread_params t i);
          };
        })
        p.events;
  used = p.used + 1;
}

unfoldable pub reread_all : Process → Tables → List Item → Parser → Parser
unfolding reread
reread_all pr t [] p = p
reread_all pr t (i ∷ is) p = reread_all pr t is (reread pr t i p)

abbrev pub NullFree : Str → Type 0
NullFree s = c_str s ≡ s

-- A name as the parser reads it, texts with no null character, in the parameters no white space, and
-- nothing that is too long for the two buffers.
abbrev pub IsItem : Item → Type 0
IsItem i =
    All Plain (i.first ∷ i.name)
    × (nat_eq i.first b'#' ≡ false)
    × (NullFree (i.first ∷ i.name)
        × NullFree i.command
        × NullFree i.params.uid
        × NullFree i.params.gid
        × NullFree i.params.seclabel)
    × (All NoSpace i.params.uid × All NoSpace i.params.gid × All NoSpace i.params.seclabel)
    × (to_ulong i.params.capabilities ≡ 0)
    × (length (name_line (service_of i).cmd) < 128)
    × (length (user_lines (params_of i)) < 128)
    × All IsLine (block_lines (block_of i))

attributes-block_of :
    (t : Tables) (i : Item)
    → IsItem i
    → attributes t (block_of i).attrs (fresh_params t) ≡ reread_params t i
unfolding attributes set_boot
attributes-block_of t i h =
    ap
      (λ q. attribute t (codes "  trigger boot" ++ 0 ∷ []) (
        attribute t ((codes "  seclabel " ++ i.params.seclabel) ++ 0 ∷ [])
          (attribute t ((codes "  group " ++ i.params.gid) ++ 0 ∷ []) q)))
      (user_line t i.params.uid (fresh_params t) h.3.0)
    ∙ ap
        (λ q.
          attribute t (codes "  trigger boot" ++ 0 ∷ [])
            (attribute t ((codes "  seclabel " ++ i.params.seclabel) ++ 0 ∷ []) q))
        (group_line t i.params.gid (record (fresh_params t) { uid = i.params.uid ++ 0 ∷ [] }) h.3.1)
    ∙ ap (attribute t (codes "  trigger boot" ++ 0 ∷ [])) (
        seclabel_line t i.params.seclabel
          (record (fresh_params t) { uid = i.params.uid ++ 0 ∷ []; gid = i.params.gid ++ 0 ∷ [] })
          h.3.2)
    ∙ boot_line t (reread_params t i)

abbrev entered : Process → Item → Parser → SaceCommandParams → Parser
entered pr i p q =
    let cmd = record (new_command (pr.sequence p.used) pr.thread) {
      name = i.first ∷ i.name;
      command = 32 ∷ i.command;
      command_params = some q;
    } in
    record {
      command = none;
      events =
          insert cmd.name (record { triggers = triggers_of_params (some q); cmd = cmd }) p.events;
      used = p.used + 1;
    }

pub declare-block_of :
    (pr : Process) (t : Tables) (i : Item) (p : Parser)
    → IsItem i
    → declare pr t (block_of i) p ≡ reread pr t i p
unfolding declare reread triggers_of_params
declare-block_of pr t i p h = ap (entered pr i p) (attributes-block_of t i h)

line-IsAttribute :
    (c e : ℕ) (s w : Str)
    → is_space c ≡ false
    → ends (trim_space_char (((32 ∷ 32 ∷ c ∷ e ∷ s) ++ w) ++ 0 ∷ [])) ≡ false
unfolding ends
line-IsAttribute c e s w h = ap ends (trim-tag c (e ∷ s) w h)

pub block_of-IsBlock : (i : Item) → IsItem i → IsBlock (block_of i)
unfolding ends trim_space_char
block_of-IsBlock i h = (
  h.0,
  h.1,
  (
    line-IsAttribute b'u' b's' (codes "er ") i.params.uid refl,
    (
      line-IsAttribute b'g' b'r' (codes "oup ") i.params.gid refl,
      (line-IsAttribute b's' b'e' (codes "clabel ") i.params.seclabel refl, (refl, tt)),
    ),
  ),
  refl,
  h.7,
)
