-- ===== src/Event/Blocks.antt =====
-- The event file as a list of services: each is a line with a name and a command, lines of
-- attributes, and a line that ends it.
use sa_excutor.Common.{
  ℕ, ◌+◌, ◌≡◌, refl, ap, ◌∙◌, Bool, true, false, Str, List, [], ◌∷◌, ◌++◌, none, some, nat_eq,
  Str_eq, if◌then◌else◌, All, arith, length, ◌≤◌, append_assoc,
}
use sa_excutor.Common.Map.{insert}
use sa_excutor.Params.{SaceCommandParams}
use sa_excutor.Types.{SaceCommand, new_command}
use sa_excutor.Event.File.{Tables, trim_space_char, parse_service_attr}
use sa_excutor.Event.Parser.{
  Parser, Process, fresh_params, triggers_of_params, finish_service, parse_line, parse_trimmed,
  parse_event_from_ini, parse_lines,
}
use sa_excutor.Event.Lines.{Plain, service_line}

unfoldable pub ends : Str → Bool
ends [] = true
ends (c ∷ []) = nat_eq c 0
ends (c ∷ d ∷ s) = false

unfoldable pub is_comment : Str → Bool
is_comment [] = false
is_comment (c ∷ s) = nat_eq c b'#'

-- What a line of attributes does to the parameters.
unfoldable pub attribute : Tables → Str → SaceCommandParams → SaceCommandParams
unfolding trim_space_char is_comment
attribute t line p =
    let l = trim_space_char line in if is_comment l then p else parse_service_attr t l p

unfoldable pub attributes : Tables → List Str → SaceCommandParams → SaceCommandParams
unfolding attribute
attributes t [] p = p
attributes t (l ∷ ls) p = attributes t ls (attribute t (l ++ 0 ∷ []) p)

pub record Block : Type 0 where
  pub first : ℕ
  pub name : Str
  pub command : Str
  pub attrs : List Str
  pub end : Str

abbrev pub block_lines : Block → List Str
block_lines b = (b.first ∷ (b.name ++ 32 ∷ b.command)) ∷ (b.attrs ++ b.end ∷ [])

-- Lines as getline delivers them.
unfoldable pub with_null : List Str → List Str
with_null [] = []
with_null (l ∷ ls) = (l ++ 0 ∷ []) ∷ with_null ls

-- A line that fits the buffer.
abbrev pub IsLine : Str → Type 0
IsLine l = All (λ c. nat_eq c 10 ≡ false) l × (length l ≤ 127)

-- A name without white space and quotes that is no comment, lines of attributes that do not end the
-- service, and a line that does, each of at most 127 characters and none a newline.
abbrev pub IsBlock : Block → Type 0
IsBlock b =
    All Plain (b.first ∷ b.name)
    × (nat_eq b.first b'#' ≡ false)
    × All (λ l. ends (trim_space_char (l ++ 0 ∷ [])) ≡ false) b.attrs
    × (ends (trim_space_char (b.end ++ 0 ∷ [])) ≡ true)
    × All IsLine (block_lines b)

abbrev in_service : Parser → SaceCommand → SaceCommandParams → Parser
in_service p cmd q = record p { command = some (record cmd { command_params = some q }) }

chosen-in_service :
    (b : Bool) (p : Parser) (cmd : SaceCommand) (q r : SaceCommandParams)
    → (if b then in_service p cmd q else in_service p cmd r) ≡ in_service p cmd (if b then q else r)
chosen-in_service true p cmd q r = refl
chosen-in_service false p cmd q r = refl

trimmed-attribute :
    (pr : Process) (t : Tables) (l : Str) (p : Parser) (cmd : SaceCommand) (q : SaceCommandParams)
    → ends l ≡ false
    → parse_trimmed pr t l (in_service p cmd q)
      ≡ in_service p cmd (if is_comment l then q else parse_service_attr t l q)
unfolding ends is_comment parse_trimmed parse_line
trimmed-attribute pr t [] p cmd q more = ground arith
trimmed-attribute pr t (c ∷ []) p cmd q more =
    rw more (chosen-in_service (nat_eq c b'#') p cmd q (parse_service_attr t (c ∷ []) q))
trimmed-attribute pr t (c ∷ d ∷ l) p cmd q more =
    chosen-in_service (nat_eq c b'#') p cmd q (parse_service_attr t (c ∷ d ∷ l) q)

trimmed-end :
    (pr : Process) (t : Tables) (l : Str) (p : Parser)
    → ends l ≡ true
    → parse_trimmed pr t l p ≡ finish_service p
unfolding ends parse_trimmed
trimmed-end pr t [] p over = refl
trimmed-end pr t (c ∷ []) p over = ground arith
trimmed-end pr t (c ∷ d ∷ l) p over = ground arith

attribute_line :
    (pr : Process) (t : Tables) (l : Str) (p : Parser) (cmd : SaceCommand) (q : SaceCommandParams)
    → ends (trim_space_char l) ≡ false
    → parse_event_from_ini pr t l (in_service p cmd q) ≡ in_service p cmd (attribute t l q)
unfolding attribute parse_event_from_ini
attribute_line pr t l p cmd q more = trimmed-attribute pr t (trim_space_char l) p cmd q more

pub end_line :
    (pr : Process) (t : Tables) (l : Str) (p : Parser)
    → ends (trim_space_char l) ≡ true
    → parse_event_from_ini pr t l p ≡ finish_service p
unfolding parse_event_from_ini
end_line pr t l p over = trimmed-end pr t (trim_space_char l) p over

parse_lines-append :
    (pr : Process) (t : Tables) (ls ms : List Str) (p : Parser)
    → parse_lines pr t (ls ++ ms) p ≡ parse_lines pr t ms (parse_lines pr t ls p)
unfolding parse_lines
parse_lines-append pr t [] ms p = refl
parse_lines-append pr t (l ∷ ls) ms p =
    parse_lines-append pr t ls ms (parse_event_from_ini pr t l p)

with_null-append : (ls ms : List Str) → with_null (ls ++ ms) ≡ with_null ls ++ with_null ms
unfolding with_null
with_null-append [] ms = refl
with_null-append (l ∷ ls) ms = ap (◌∷◌ (l ++ 0 ∷ [])) (with_null-append ls ms)

attribute_lines :
    (pr : Process) (t : Tables) (ls : List Str) (p : Parser) (cmd : SaceCommand)
    → (q : SaceCommandParams) → All (λ l. ends (trim_space_char (l ++ 0 ∷ [])) ≡ false) ls
    → parse_lines pr t (with_null ls) (in_service p cmd q) ≡ in_service p cmd (attributes t ls q)
unfolding parse_lines attributes with_null
attribute_lines pr t [] p cmd q more = refl
attribute_lines pr t (l ∷ ls) p cmd q more =
    ap (parse_lines pr t (with_null ls)) (attribute_line pr t (l ++ 0 ∷ []) p cmd q more.0)
    ∙ attribute_lines pr t ls p cmd (attribute t (l ++ 0 ∷ []) q) more.1

abbrev pub named : Process → ℕ → Block → SaceCommand
named pr n b = record (new_command (pr.sequence n) pr.thread) {
  name = b.first ∷ b.name;
  command = 32 ∷ b.command;
}

-- The command of a service of the file, the n-th that is made.
abbrev pub declared : Process → Tables → ℕ → Block → SaceCommand
declared pr t n b = record (named pr n b) {
  command_params = some (attributes t b.attrs (fresh_params t));
}

-- What a service of the file means: an event under its name. The first of a name is kept.
unfoldable pub declare : Process → Tables → Block → Parser → Parser
unfolding triggers_of_params attributes
declare pr t b p =
    let cmd = declared pr t p.used b in
    record {
      command = none;
      events =
          insert cmd.name (record { triggers = triggers_of_params cmd.command_params; cmd = cmd })
            p.events;
      used = p.used + 1;
    }

first_line :
    (pr : Process) (t : Tables) (b : Block) (p : Parser)
    → IsBlock b
    → p.command ≡ none
    → parse_event_from_ini pr t (b.first ∷ ((b.name ++ 32 ∷ b.command) ++ 0 ∷ [])) p
      ≡ in_service (record p { used = p.used + 1 }) (named pr p.used b) (fresh_params t)
first_line pr t b p h idle =
    ap (λ l. parse_event_from_ini pr t (b.first ∷ l) p)
      (append_assoc b.name (32 ∷ b.command) (0 ∷ []))
    ∙ service_line pr t b.first b.name b.command 0 p h.0 h.1 refl idle

block_parsed :
    (pr : Process) (t : Tables) (b : Block) (p : Parser)
    → IsBlock b
    → p.command ≡ none
    → parse_lines pr t (with_null (block_lines b)) p ≡ declare pr t b p
unfolding parse_lines declare finish_service with_null
block_parsed pr t b p h idle =
    let cmd = named pr p.used b in
    let p' = record p { used = p.used + 1 } in
    ap (parse_lines pr t (with_null (b.attrs ++ b.end ∷ []))) (first_line pr t b p h idle)
    ∙ ap (λ ls. parse_lines pr t ls (in_service p' cmd (fresh_params t)))
        (with_null-append b.attrs (b.end ∷ []))
    ∙ parse_lines-append pr t (with_null b.attrs) ((b.end ++ 0 ∷ []) ∷ [])
        (in_service p' cmd (fresh_params t))
    ∙ ap (parse_lines pr t ((b.end ++ 0 ∷ []) ∷ []))
        (attribute_lines pr t b.attrs p' cmd (fresh_params t) h.2)
    ∙ end_line pr t (b.end ++ 0 ∷ []) (in_service p' cmd (attributes t b.attrs (fresh_params t)))
        h.3

unfoldable pub file_lines : List Block → List Str
file_lines [] = []
file_lines (b ∷ bs) = block_lines b ++ file_lines bs

unfoldable pub declare_all : Process → Tables → List Block → Parser → Parser
unfolding declare
declare_all pr t [] p = p
declare_all pr t (b ∷ bs) p = declare_all pr t bs (declare pr t b p)

pub parse_lines-file_lines :
    (pr : Process) (t : Tables) (bs : List Block) (p : Parser)
    → All IsBlock bs
    → p.command ≡ none
    → parse_lines pr t (with_null (file_lines bs)) p ≡ declare_all pr t bs p
unfolding file_lines declare_all declare parse_lines with_null
parse_lines-file_lines pr t [] p h idle = refl
parse_lines-file_lines pr t (b ∷ bs) p h idle =
    ap (λ ls. parse_lines pr t ls p) (with_null-append (block_lines b) (file_lines bs))
    ∙ parse_lines-append pr t (with_null (block_lines b)) (with_null (file_lines bs)) p
    ∙ ap (parse_lines pr t (with_null (file_lines bs))) (block_parsed pr t b p h.0 idle)
    ∙ parse_lines-file_lines pr t bs (declare pr t b p) h.1 refl
