-- ===== src/Event/Rewrite.antt =====
-- Writing the event file and reading it back (saced/SaceEvent.cpp).
use sa_excutor.Common.{
  ◌<◌, ◌≡◌, refl, sym, ap, ◌∙◌, Bool, true, false, Str, codes, List, [], ◌∷◌, ◌++◌, Option, none,
  some, All, length, arith, append_assoc, if◌then◌else◌, Str_eq, done,
}
use sa_excutor.Common.Map.{Map}
use sa_excutor.Params.{SaceCommandParams}
use sa_excutor.Wire.Params.{to_ulong}
use sa_excutor.Event.{Service}
use sa_excutor.Event.File.{Tables}
use sa_excutor.Event.Parser.{Parser, Process, read_ini_file}
use sa_excutor.Event.Blocks.{Block, IsBlock, block_lines, file_lines, declare_all}
use sa_excutor.Event.Content.{join, read_ini_file-join}
use sa_excutor.Event.Writer.{
  Disk, name_line, user_lines, service_str, services_str, sprintf, capability_text, groups_line,
  limit_texts, trigger_lines, write_stream, write_ini_file,
}
use sa_excutor.Event.Reread.{
  Item, params_of, service_of, block_of, IsItem, reread, reread_all, block_of-IsBlock,
  declare-block_of,
}

-- The text of a service by its parts.
abbrev text : Str → Str → Str → Str → Str → Str
text n c u g s =
    (n ++ 32 ∷ (c ++ 10 ∷ []))
    ++ ((codes "  user "
          ++ (u ++ (codes "\n  group " ++ (g ++ (codes "\n  seclabel " ++ (s ++ codes "\n"))))))
        ++ codes "  trigger boot\n")

text-lines :
    (n c u g s rest : Str)
    → text n c u g s ++ 10 ∷ rest
      ≡ join (
          (n ++ 32 ∷ c)
          ∷ (codes "  user " ++ u)
          ∷ (codes "  group " ++ g)
          ∷ (codes "  seclabel " ++ s)
          ∷ codes "  trigger boot"
          ∷ []
          ∷ [])
        ++ rest
unfolding join
text-lines n c u g s rest = simp append_assoc

join-append : (ls ms : List Str) → join (ls ++ ms) ≡ join ls ++ join ms
unfolding join
join-append [] ms = refl
join-append (l ∷ ls) ms =
    ap (λ s. l ++ 10 ∷ s) (join-append ls ms) ∙ sym (append_assoc l (10 ∷ join ls) (join ms))

sprintf-short : (s : Str) → length s < 128 → sprintf s ≡ done s
unfolding sprintf
sprintf-short s h = ground arith

capability_text-none :
    (p : SaceCommandParams) → to_ulong p.capabilities ≡ 0 → capability_text p ≡ []
unfolding capability_text
capability_text-none p h = rw (capability_text, h) refl

service_str-text :
    (d : Disk) (i : Item)
    → IsItem i
    → service_str d (service_of i)
      ≡ done (text (i.first ∷ i.name) i.command i.params.uid i.params.gid i.params.seclabel)
unfolding service_str groups_line limit_texts trigger_lines
service_str-text d i h =
    rw
      (
        service_str,
        sprintf-short (name_line (service_of i).cmd) h.5,
        sprintf-short (user_lines (params_of i)) h.6,
        capability_text-none (params_of i) h.4,
      )
      (rw (h.2.0, h.2.1, h.2.2, h.2.3, h.2.4) refl)

abbrev pub events_of : List Item → Map Str Service
events_of [] = []
events_of (i ∷ is) = (i.first ∷ i.name, service_of i) ∷ events_of is

abbrev blocks_of : List Item → List Block
blocks_of [] = []
blocks_of (i ∷ is) = block_of i ∷ blocks_of is

services_str-events_of :
    (d : Disk) (is : List Item)
    → All IsItem is
    → services_str d (events_of is) ≡ done (join (file_lines (blocks_of is)))
unfolding services_str file_lines join
services_str-events_of d [] h = refl
services_str-events_of d (i ∷ is) h =
    rw (services_str, service_str-text d i h.0, services_str-events_of d is h.1)
      (ap done (
        text-lines (i.first ∷ i.name) i.command i.params.uid i.params.gid i.params.seclabel
          (join (file_lines (blocks_of is)))
        ∙ sym (join-append (block_lines (block_of i)) (file_lines (blocks_of is)))))

blocks_of-IsBlock : (is : List Item) → All IsItem is → All IsBlock (blocks_of is)
blocks_of-IsBlock [] h = tt
blocks_of-IsBlock (i ∷ is) h = (block_of-IsBlock i h.0, blocks_of-IsBlock is h.1)

declare_all-blocks_of :
    (pr : Process) (t : Tables) (is : List Item) (p : Parser)
    → All IsItem is
    → declare_all pr t (blocks_of is) p ≡ reread_all pr t is p
unfolding declare_all reread_all
declare_all-blocks_of pr t [] p h = refl
declare_all-blocks_of pr t (i ∷ is) p h =
    ap (declare_all pr t (blocks_of is)) (declare-block_of pr t i p h.0)
    ∙ declare_all-blocks_of pr t is (reread pr t i p) h.1

-- The stream opens, and so does the file where it exists.
abbrev pub IsOpen : Disk → Type 0
IsOpen d = ((if d.exists then d.opens else true) ≡ true) × (d.stream_opens ≡ true)

opened :
    {A : Type 0} (exists opens : Bool) (v w : A)
    → (if exists then opens else true) ≡ true
    → (if exists then (if opens then w else v) else w) ≡ w
opened false opens v w h = refl
opened true true v w h = refl
opened true false v w h = ground arith

write_stream-open :
    (d : Disk) (events : Map Str Service) (old : Option Str) (content : Str)
    → d.stream_opens ≡ true
    → services_str d events ≡ done content
    → write_stream d events old ≡ done (some content, true)
unfolding write_stream
write_stream-open d events old content h k = rw (write_stream, h, k) refl

write_ini_file-open :
    (d : Disk) (events : Map Str Service) (old : Option Str) (content : Str)
    → IsOpen d
    → services_str d events ≡ done content
    → write_ini_file d events old ≡ done (some content, true)
unfolding write_ini_file
write_ini_file-open d events old content h k =
    opened d.exists d.opens (done (old, false)) (write_stream d events old) h.0
    ∙ write_stream-open d events old content h.1 k

-- The writer and the parser of the event file do not agree. For services that the boot starts, with
-- names that the parser reads, texts with no null character, no white space in user, group and
-- label, no groups, limits and capabilities, and texts that fit the buffers: the file can be written,
-- and reading it outside a service enters each service under its name, but with one more blank in
-- front of its command and with a null character at the end of its user, its group and its label.
pub read-write_ini_file :
    (d : Disk) (pr : Process) (t : Tables) (is : List Item) (old : Option Str) (p : Parser)
    → All IsItem is
    → IsOpen d
    → p.command ≡ none
    → (content : Str) × (write_ini_file d (events_of is) old ≡ done (some content, true))
      × (read_ini_file pr t (some content) p ≡ (reread_all pr t is p, true))
read-write_ini_file d pr t is old p items opens idle = (
  join (file_lines (blocks_of is)),
  write_ini_file-open d (events_of is) old (join (file_lines (blocks_of is))) opens
      (services_str-events_of d is items),
  read_ini_file-join pr t (blocks_of is) p (blocks_of-IsBlock is items) idle
      ∙ ap (λ q. (q, true)) (declare_all-blocks_of pr t is p items),
)
