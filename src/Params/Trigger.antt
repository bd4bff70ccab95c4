-- ===== src/Params/Trigger.antt =====
-- The triggers of libsace/SaceParams.cpp, `parseEventParams`, and the poll over a service's
-- triggers in saced/SaceEvent.cpp. `property_get` is the platform's: the value of a property, empty
-- if it has none.
use sa_excutor.Common.{
  ℕ, zero, suc, Bool, true, false, Str, List, [], ◌∷◌, ◌++◌, Option, none, some, str_eq,
  if◌then◌else◌,
}
use sa_excutor.Params.{EventPart}

pub data Trigger : Type 0 where
  property : Str → Str → Str → Trigger
  boot : Bool → Trigger

abbrev pub is_empty : Str → Bool
is_empty [] = true
is_empty (c ∷ s) = false

-- `triggered ()` of the two classes; a property's trigger remembers the value that it fired at.
unfoldable pub triggered : (Str → Str) → Trigger → Trigger × Bool
triggered property_get (property name value last) =
    let now = property_get name in
    if is_empty now
    then (property name value last, false)
    else if str_eq value now
    then (if str_eq last now
        then (property name value last, false)
        else (property name value now, true))
    else (property name value last, false)
triggered property_get (boot has_triggered) =
    if has_triggered then (boot has_triggered, false) else (boot true, true)

-- `SaceEvent::Service::triggered`: the first trigger that fires ends the loop.
unfoldable pub any_triggered : (Str → Str) → List Trigger → List Trigger × Bool
unfolding triggered
any_triggered property_get [] = ([], false)
any_triggered property_get (t ∷ ts) =
    let (t', fired) = triggered property_get t in
    let (ts', later) = any_triggered property_get ts in
    if fired then (t' ∷ ts, true) else (t' ∷ ts', later)

-- `none` stands for the read past the end of `property_value`.
unfoldable pub property_triggers : List Str → List Str → Option (List Trigger)
property_triggers [] vs = some []
property_triggers (k ∷ ks) [] = none
property_triggers (k ∷ ks) (v ∷ vs) = elim (property_triggers ks vs) [
  | none ↦ none
  | some ts ↦ some (property k v [] ∷ ts)
]

unfoldable pub parse_event_params : EventPart → Option (List Trigger)
unfolding property_triggers
parse_event_params e = elim (property_triggers e.property_key e.property_value) [
  | none ↦ none
  | some ts ↦ some (if e.boot then ts ++ boot false ∷ [] else ts)
]

-- `n` polls of the same triggers, and how many of them reported an event.
unfoldable pub polls : (Str → Str) → ℕ → List Trigger → List Trigger × ℕ
polls property_get zero ts = (ts, 0)
polls property_get (suc n) ts =
    let (ts', fired) = any_triggered property_get ts in
    let (ts'', count) = polls property_get n ts' in (ts'', if fired then suc count else count)

-- How many triggers would fire now.
armed : (Str → Str) → List Trigger → ℕ
armed property_get [] = 0
armed property_get (t ∷ ts) =
    let rest = armed property_get ts in if (triggered property_get t).1 then suc rest else rest
