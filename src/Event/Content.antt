-- ===== src/Event/Content.antt =====
-- The event file as text: the lines that getline delivers, and the services of the whole file.
use sa_excutor.Common.{
  ℕ, zero, suc, ◌≤◌, ◌≡◌, refl, ap, ◌∙◌, true, false, Str, List, [], ◌∷◌, ◌++◌, none, some, nat_eq,
  Str_eq, All, length, arith, append_assoc,
}
use sa_excutor.Event.File.{Tables}
use sa_excutor.Event.Parser.{
  Parser, Process, finish_service, parse_event_from_ini, lines, parse_lines, read_ini_file,
}
use sa_excutor.Event.Blocks.{
  Block, IsBlock, IsLine, block_lines, with_null, file_lines, declare, declare_all, end_line, ends,
  parse_lines-file_lines,
}

-- Lines with a newline after each.
unfoldable pub join : List Str → Str
join [] = []
join (l ∷ ls) = l ++ 10 ∷ join ls

lines-line :
    (acc l rest : Str) (room : ℕ)
    → All (λ c. nat_eq c 10 ≡ false) l
    → length l ≤ room
    → lines acc room (l ++ 10 ∷ rest) ≡ (acc ++ (l ++ 0 ∷ [])) ∷ lines [] 127 rest
unfolding lines
lines-line acc [] rest zero plain fits = refl
lines-line acc [] rest (suc room) plain fits = refl
lines-line acc (c ∷ l) rest zero plain fits = ground arith
lines-line acc (c ∷ l) rest (suc room) plain fits =
    rw (lines, plain.0)
      (lines-line (acc ++ c ∷ []) l rest room plain.1 (omega (arith, fits))
        ∙ ap (λ s. s ∷ lines [] 127 rest) (append_assoc acc (c ∷ []) (l ++ 0 ∷ [])))

lines-join : (ls : List Str) → All IsLine ls → lines [] 127 (join ls) ≡ with_null ls
unfolding lines join with_null
lines-join [] h = refl
lines-join (l ∷ ls) h =
    lines-line [] l (join ls) 127 h.0.0 h.0.1 ∙ ap (◌∷◌ (l ++ 0 ∷ [])) (lines-join ls h.1)

All-append-IsLine : (ls ms : List Str) → All IsLine ls → All IsLine ms → All IsLine (ls ++ ms)
All-append-IsLine [] ms h k = k
All-append-IsLine (l ∷ ls) ms h k = (h.0, All-append-IsLine ls ms h.1 k)

file_lines-IsLine : (bs : List Block) → All IsBlock bs → All IsLine (file_lines bs)
unfolding file_lines
file_lines-IsLine [] h = tt
file_lines-IsLine (b ∷ bs) h =
    All-append-IsLine (block_lines b) (file_lines bs) h.0.4 (file_lines-IsLine bs h.1)

declare_all-idle :
    (pr : Process) (t : Tables) (bs : List Block) (p : Parser)
    → p.command ≡ none
    → (declare_all pr t bs p).command ≡ none
unfolding declare_all declare
declare_all-idle pr t [] p idle = idle
declare_all-idle pr t (b ∷ bs) p idle = declare_all-idle pr t bs (declare pr t b p) refl

finish_service-idle : (p : Parser) → p.command ≡ none → finish_service p ≡ p
unfolding finish_service
finish_service-idle p idle = rw idle refl

-- The parser of the event file implements the list of services that the file describes: for the text
-- of a list of services, each a line with its name and command, lines of attributes and an end line,
-- every line of at most 127 characters and followed by a newline, and a parser that is not inside a
-- service, read_ini_file enters the services under their names in the order of the file, where the
-- first of a name is kept, each with the parameters that its attributes give one after the other and
-- the triggers of those.
pub read_ini_file-join :
    (pr : Process) (t : Tables) (bs : List Block) (p : Parser)
    → All IsBlock bs
    → p.command ≡ none
    → read_ini_file pr t (some (join (file_lines bs))) p ≡ (declare_all pr t bs p, true)
unfolding read_ini_file ends
read_ini_file-join pr t bs p blocks idle =
    ap (λ q. (parse_event_from_ini pr t [] q, true))
      (ap (λ ls. parse_lines pr t ls p) (lines-join (file_lines bs) (file_lines-IsLine bs blocks))
        ∙ parse_lines-file_lines pr t bs p blocks idle)
    ∙ ap (λ q. (q, true))
        (end_line pr t [] (declare_all pr t bs p) refl
          ∙ finish_service-idle (declare_all pr t bs p) (declare_all-idle pr t bs p idle))
