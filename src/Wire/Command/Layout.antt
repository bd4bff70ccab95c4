-- ===== src/Wire/Command/Layout.antt =====
-- The layout of a command on the wire: what is written, and what of it is read.
use sa_excutor.Common.{
  ℕ, ◌≡◌, refl, sym, ap, ◌∙◌, Bool, true, false, List, [], ◌∷◌, ◌++◌, Option, none, some, nat_eq,
  length, if◌then◌else◌, append_nil, append_assoc,
}
use sa_excutor.Params.{SaceCommandParams}
use sa_excutor.Types.{SaceCommand, type_event}
use sa_excutor.Wire.Laws.{Item}
use sa_excutor.Wire.Params.{base_items, event_part}
use sa_excutor.Wire.Command.{is_known}

abbrev pub union_items : SaceCommand → List Item
union_items c = if is_known c.type then Item.byte c.cmd_type ∷ Item.byte c.cmd_flags ∷ [] else []

abbrev pub params_items : Option SaceCommandParams → List Item
params_items none = Item.flag false ∷ []
params_items (some p) = Item.flag true ∷ (base_items p ++ event_part p.event)

-- The values of a command after the word of its size.
abbrev pub body_items : SaceCommand → List Item
body_items c =
    Item.byte c.type
    ∷ Item.u32 c.sequence
    ∷ Item.u64 c.label
    ∷ Item.text c.name
    ∷ Item.text c.command
    ∷ Item.u32 (length c.extra)
    ∷ Item.raw c.extra
    ∷ (union_items c ++ params_items c.command_params)

-- `make_shared` makes event parameters for an event and plain ones for all other types.
abbrev pub read_back : ℕ → Option SaceCommandParams → Option SaceCommandParams
read_back type none = none
read_back type (some p) = some (if nat_eq type type_event then p else record p { event = none })

-- What is read of the parameters, and what is left.
abbrev pub params_read : ℕ → Option SaceCommandParams → List Item
params_read type none = Item.flag false ∷ []
params_read type (some p) =
    Item.flag true ∷ (base_items p ++ (if nat_eq type type_event then event_part p.event else []))

abbrev pub params_left : ℕ → Option SaceCommandParams → List Item
params_left type none = []
params_left type (some p) = if nat_eq type type_event then [] else event_part p.event

abbrev pub body_read : SaceCommand → List Item
body_read c =
    Item.byte c.type
    ∷ Item.u32 c.sequence
    ∷ Item.u64 c.label
    ∷ Item.text c.name
    ∷ Item.text c.command
    ∷ Item.u32 (length c.extra)
    ∷ Item.raw c.extra
    ∷ (union_items c ++ params_read c.type c.command_params)

-- The parameters are of the size of this platform's bitset, and an event carries event parameters.
abbrev pub HasParams : ℕ → ℕ → Option SaceCommandParams → Type 0
HasParams cap_size type none = Unit {0}
HasParams cap_size type (some p) =
    (length p.capabilities ≡ cap_size)
    × (nat_eq type type_event ≡ true → (e : _) × (p.event ≡ some e))

pub split_event :
    (b : Bool) (is js : List Item)
    → is ++ js ≡ (is ++ (if b then js else [])) ++ (if b then [] else js)
split_event true is js = sym (append_nil (is ++ js))
split_event false is js = ap (λ (l : List Item). l ++ js) (sym (append_nil is))

pub split_params :
    (type : ℕ) (o : Option SaceCommandParams)
    → params_items o ≡ params_read type o ++ params_left type o
split_params type none = refl
split_params type (some p) =
    split_event (nat_eq type type_event) (Item.flag true ∷ base_items p) (event_part p.event)

pub split_body :
    (c : SaceCommand) → body_items c ≡ body_read c ++ params_left c.type c.command_params
split_body c =
    ap
      (λ (l : List Item).
        Item.byte c.type
        ∷ Item.u32 c.sequence
        ∷ Item.u64 c.label
        ∷ Item.text c.name
        ∷ Item.text c.command
        ∷ Item.u32 (length c.extra)
        ∷ Item.raw c.extra
        ∷ l)
      (ap (λ (l : List Item). union_items c ++ l) (split_params c.type c.command_params)
        ∙ sym (
            append_assoc (union_items c) (params_read c.type c.command_params)
              (params_left c.type c.command_params)))

-- The values before the array `extra`.
abbrev pub head_items : ℕ → SaceCommand → List Item
head_items n c =
    Item.u32 n
    ∷ Item.byte c.type
    ∷ Item.u32 c.sequence
    ∷ Item.u64 c.label
    ∷ Item.text c.name
    ∷ Item.text c.command
    ∷ Item.u32 (length c.extra)
    ∷ []
