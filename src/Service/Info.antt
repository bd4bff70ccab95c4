-- ===== src/Service/Info.antt =====
-- SaceServiceInfo (libsace/include/sace/SaceServiceInfo.h and libsace/SaceServiceInfo.cpp): the states
-- of a service, and the memory image of a ServiceInfo that a query returns.
use sa_excutor.Common.{ℕ, ◌-◌, Str, codes, List, [], ◌∷◌, ◌++◌, if◌then◌else◌, nat_eq}
use sa_excutor.Common.Bytes.{le_bytes, of_le_bytes, take, drop, replicate}

pub data ServiceState : Type 0 where
  paused stoped running died died_signal died_unknown finished finishing_user finished_user :
      ServiceState
  unknown : ServiceState

abbrev pub extra_bufer_len : ℕ
extra_bufer_len = 256

abbrev pub cmd_buffer_len : ℕ
cmd_buffer_len = 128

abbrev pub service_name_len : ℕ
service_name_len = 64

-- The info commands.
abbrev pub get_by_name : Str
get_by_name = codes "GET_BY_NAME"

abbrev pub get_by_label : Str
get_by_label = codes "GET_BY_LABEL"

abbrev pub state_code : ServiceState → ℕ
state_code paused = 0
state_code stoped = 1
state_code running = 2
state_code died = 3
state_code died_signal = 4
state_code died_unknown = 5
state_code finished = 6
state_code finishing_user = 7
state_code finished_user = 8
state_code unknown = 9

pub map_state_str : ServiceState → Str
map_state_str running = codes "SERVICE_RUNNING"
map_state_str paused = codes "SERVICE_PAUSED"
map_state_str died = codes "SERVICE_DIED"
map_state_str stoped = codes "SERVICE_STOPED"
map_state_str finished = codes "SERVICE_FINISHED"
map_state_str _ = codes "UNKOWN"

-- The fields of `SaceServiceInfo::ServiceInfo`.
pub record ServiceImage : Type 0 where
  pub name : Str
  pub cmd : Str
  pub state : ℕ
  pub label : ℕ

-- `strncpy (buffer, s, n - 1)` into a buffer of `n` zero bytes, for a text without a zero byte.
unfoldable pub strncpy : ℕ → Str → List ℕ
unfolding take replicate
strncpy n s = take n (take (n - 1) s ++ replicate n 0)

-- The text in a buffer, up to the first zero byte.
unfoldable pub c_str : List ℕ → Str
c_str [] = []
c_str (c ∷ s) = if nat_eq c 0 then [] else c ∷ c_str s

-- The struct as it lies in memory: two buffers, a 4-byte enumeration, 4 bytes of padding, and
-- an 8-byte label.
unfoldable pub image : ServiceImage → List ℕ
unfolding strncpy le_bytes
image i =
    strncpy service_name_len i.name
    ++ (strncpy cmd_buffer_len i.cmd
        ++ (le_bytes 4 i.state ++ (replicate 4 0 ++ le_bytes 8 i.label)))

-- What a client reads from the bytes (libsace/SaceManager.cpp).
unfoldable pub of_image : List ℕ → ServiceImage
of_image bytes = record {
  name = c_str (take 64 bytes);
  cmd = c_str (take 128 (drop 64 bytes));
  state = of_le_bytes (take 4 (drop 192 bytes));
  label = of_le_bytes (take 8 (drop 200 bytes));
}
