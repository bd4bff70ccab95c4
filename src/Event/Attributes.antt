-- ===== src/Event/Attributes.antt =====
-- What the parser of the event file makes of the attributes of a service.
use sa_excutor.Common.{
  ℕ, ◌≡◌, refl, ap, ◌∙◌, false, Str, codes, [], ◌∷◌, ◌++◌, Option, none, some, nat_eq, Str_eq, All,
  arith,
}
use sa_excutor.Params.{SaceCommandParams, EventPart, add_property}
use sa_excutor.Params.Text.{is_space, skip_space}
use sa_excutor.Event.File.{
  word, extract_word, Tables, split_at, set_attr, parse_service_attr, on_event,
}
use sa_excutor.Event.Lines.{skip_space-text}

abbrev pub NoSpace : ℕ → Type 0
NoSpace c = is_space c ≡ false

word_end : (w : Str) → All NoSpace w → word w ≡ (w, [])
unfolding word
word_end [] h = refl
word_end (c ∷ w) h = ground (arith, word_end w h.1)

All-append-NoSpace : (v w : Str) → All NoSpace v → All NoSpace w → All NoSpace (v ++ w)
All-append-NoSpace [] w h k = k
All-append-NoSpace (c ∷ v) w h k = (h.0, All-append-NoSpace v w h.1 k)

split_at-key :
    (key value : Str)
    → All (λ c. nat_eq b'=' c ≡ false) key
    → split_at b'=' (key ++ b'=' ∷ value) ≡ (key, b'=' ∷ value)
unfolding split_at
split_at-key [] value h = refl
split_at-key (c ∷ key) value h = ground (arith, split_at-key key value h.1)

-- What a property trigger makes of its text after the colon, split at the equals sign.
abbrev with_property : SaceCommandParams → Str × Str → SaceCommandParams
with_property p (key, []) = p
with_property p (key, c ∷ value) = on_event (add_property (b':' ∷ key) (c ∷ value)) p

-- The line `trigger property:key=value` of the event file adds a trigger for the property `:key` with
-- the value `=value`: both keep the separator in front of them. It holds for every key without white
-- space and `=` and every value without white space, for parameters of an event.
pub trigger_line :
    (t : Tables) (key value : Str) (p : SaceCommandParams) (e : EventPart)
    → All NoSpace key
    → All (λ c. nat_eq b'=' c ≡ false) key
    → All NoSpace value
    → p.event ≡ some e
    → parse_service_attr t (codes "trigger property:" ++ (key ++ b'=' ∷ value)) p
      ≡ record p { event = some (add_property (b':' ∷ key) (b'=' ∷ value) e) }
unfolding parse_service_attr set_attr
trigger_line t key value p e key_words key_plain value_words event =
    ap (with_property p) (
      ap (λ (r : Str × Str). split_at b'=' r.0)
        (word_end (key ++ b'=' ∷ value)
          (All-append-NoSpace key (b'=' ∷ value) key_words (refl, value_words)))
      ∙ split_at-key key value key_plain)
    ∙ ap
        (λ (o : Option EventPart). record p {
          event = elim o [
            | none ↦ none
            | some e ↦ some (add_property (b':' ∷ key) (b'=' ∷ value) e)
          ];
        })
        event

skip_space_word : (name : Str) → All NoSpace name → skip_space (name ++ 0 ∷ []) ≡ name ++ 0 ∷ []
unfolding skip_space
skip_space_word [] h = refl
skip_space_word (c ∷ name) h = skip_space-text c (name ++ 0 ∷ []) h.0

pub extract_word_null :
    (name : Str) → All NoSpace name → extract_word (name ++ 0 ∷ []) ≡ some (name ++ 0 ∷ [], [])
unfolding extract_word
extract_word_null [] h = refl
extract_word_null (c ∷ name) h =
    rw (extract_word, skip_space_word (c ∷ name) h)
      (ap some
        (word_end (c ∷ (name ++ 0 ∷ [])) (All-append-NoSpace (c ∷ name) (0 ∷ []) h (refl, tt))))
