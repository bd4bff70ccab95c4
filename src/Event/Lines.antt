-- ===== src/Event/Lines.antt =====
-- What the parser of the event file makes of the lines of a service.
use sa_excutor.Common.{
  ℕ, ◌+◌, ◌≡◌, refl, sym, ap, ◌∙◌, false, Str, [], ◌∷◌, ◌++◌, Option, none, some, nat_eq, All,
  length, arith, append_assoc,
}
use sa_excutor.Common.Bytes.{drop-append}
use sa_excutor.Params.Text.{is_space, skip_space}
use sa_excutor.Types.{SaceCommand, new_command}
use sa_excutor.Event.File.{
  trim_right, trim_space_char, drop_last, Token, scan_token, token_of, next_token, Tables,
}
use sa_excutor.Event.Parser.{
  Parser, Process, fresh_params, begin_service, parse_line, parse_trimmed, parse_event_from_ini,
}

-- A character of a name: no white space and no quote.
abbrev pub Plain : ℕ → Type 0
Plain c = (is_space c ≡ false) × (nat_eq c b'"' ≡ false)

trim_right-full : (s : Str) (z : ℕ) → is_space z ≡ false → trim_right (s ++ z ∷ []) ≡ s ++ z ∷ []
unfolding trim_right
trim_right-full [] z h = ground arith
trim_right-full (c ∷ []) z h = ground arith
trim_right-full (c ∷ d ∷ s) z h = rw (trim_right, trim_right-full (d ∷ s) z h) refl

drop_last-append : (s : Str) (z : ℕ) → drop_last (s ++ z ∷ []) ≡ s
unfolding drop_last
drop_last-append [] z = refl
drop_last-append (c ∷ []) z = refl
drop_last-append (c ∷ d ∷ s) z = ap (◌∷◌ c) (drop_last-append (d ∷ s) z)

scan_token-name : (name rest : Str) → All Plain name → scan_token (name ++ 32 ∷ rest) ≡ name
unfolding scan_token
scan_token-name [] rest h = refl
scan_token-name (c ∷ name) rest h = ground (arith, scan_token-name name rest h.1)

pub skip_space-text : (c : ℕ) (s : Str) → is_space c ≡ false → skip_space (c ∷ s) ≡ c ∷ s
unfolding skip_space
skip_space-text c s h = ground arith

pub trim_space_char-full :
    (c : ℕ) (s : Str) (z : ℕ)
    → is_space c ≡ false
    → is_space z ≡ false
    → trim_space_char (c ∷ (s ++ z ∷ [])) ≡ c ∷ (s ++ z ∷ [])
unfolding trim_space_char
trim_space_char-full c s z h k =
    rw (trim_space_char, skip_space-text c (s ++ z ∷ []) h) (ap (◌∷◌ c) (trim_right-full s z k))

parse_trimmed-text :
    (pr : Process) (t : Tables) (c : ℕ) (s : Str) (z : ℕ) (p : Parser)
    → nat_eq c b'#' ≡ false
    → parse_trimmed pr t (c ∷ (s ++ z ∷ [])) p ≡ parse_line pr t (c ∷ (s ++ z ∷ [])) p.command p
unfolding parse_trimmed
parse_trimmed-text pr t c [] z p h = ground arith
parse_trimmed-text pr t c (d ∷ s) z p h = ground arith

next_token-full :
    (c : ℕ) (s : Str) (z : ℕ)
    → is_space z ≡ false
    → next_token (c ∷ (s ++ z ∷ [])) ≡ token_of (c ∷ s)
unfolding next_token
next_token-full c s z h =
    rw (next_token, trim_right-full (c ∷ s) z h) (ap token_of (drop_last-append (c ∷ s) z))

token_of-name :
    (c : ℕ) (name rest : Str)
    → All Plain (c ∷ name)
    → token_of (c ∷ (name ++ 32 ∷ rest)) ≡ Token.text (c ∷ name) (32 ∷ rest)
unfolding token_of
token_of-name c name rest h =
    rw (token_of, scan_token-name (c ∷ name) rest h)
      (ap (Token.text (c ∷ name)) (drop-append (length (c ∷ name)) (c ∷ name) (32 ∷ rest) refl))

-- What a line outside a service makes of its first token.
abbrev after_token : Process → Tables → Parser → Token → Parser
after_token pr t p tok = elim tok [
  | Token.text name rest ↦ begin_service pr t name rest p
  | Token.empty ↦ p
  | Token.thrown ↦ p
]

-- A line that begins a service: a name without white space and quotes that does not start with `#`,
-- a blank, and a command, with any last character that is no white space. Outside a service it makes
-- a command with that name and fresh parameters; its text keeps the blank and loses the last
-- character of the line, which is the null character that getline leaves for a line that ends with a
-- newline, and the last character of the command for a line at the end of the file.
pub service_line :
    (pr : Process) (t : Tables) (c : ℕ) (name cmd : Str) (z : ℕ) (p : Parser)
    → All Plain (c ∷ name)
    → nat_eq c b'#' ≡ false
    → is_space z ≡ false
    → p.command ≡ none
    → parse_event_from_ini pr t (c ∷ (name ++ 32 ∷ (cmd ++ z ∷ []))) p ≡ record p {
      command = some (record (new_command (pr.sequence p.used) pr.thread) {
        command_params = some (fresh_params t);
        name = c ∷ name;
        command = 32 ∷ cmd;
      });
      used = p.used + 1;
    }
unfolding parse_event_from_ini parse_line begin_service
service_line pr t c name cmd z p plain hash last idle =
    let whole : c ∷ (name ++ 32 ∷ (cmd ++ z ∷ [])) ≡ c ∷ ((name ++ 32 ∷ cmd) ++ z ∷ []) =
      ap (◌∷◌ c) (sym (append_assoc name (32 ∷ cmd) (z ∷ []))) in
    rw whole (
      rw (parse_event_from_ini, trim_space_char-full c (name ++ 32 ∷ cmd) z plain.0.0 last)
        (parse_trimmed-text pr t c (name ++ 32 ∷ cmd) z p hash
          ∙ ap
              (λ (o : Option SaceCommand). parse_line pr t (c ∷ ((name ++ 32 ∷ cmd) ++ z ∷ [])) o p)
              idle
          ∙ ap (after_token pr t p)
              (next_token-full c (name ++ 32 ∷ cmd) z last ∙ token_of-name c name cmd plain)))
