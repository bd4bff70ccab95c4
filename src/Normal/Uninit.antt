-- ===== src/Normal/Uninit.antt =====
-- `onUninit` and the destructor of SaceNormalExcutor.
use sa_excutor.Common.{List, [], ◌∷◌}
use sa_excutor.Types.Command.{SaceResponseStatus, SaceResponseType}
use sa_excutor.Normal.{CommandInfo, Effect, responded, killed, interrupted, State}

-- `onUninit`: a SIGINT to every running command.
unfoldable pub interrupt_all : List CommandInfo → List Effect → List Effect
interrupt_all [] effects = effects
interrupt_all (info ∷ infos) effects = interrupt_all infos (interrupted info.pid ∷ effects)

unfoldable pub on_uninit : State → State
unfolding interrupt_all
on_uninit s = record s { effects = interrupt_all s.running s.effects }

-- The destructor: a SIGKILL to every running command and a response to its writer.
unfoldable pub destroy_all : List CommandInfo → List Effect → List Effect
destroy_all [] effects = effects
destroy_all (info ∷ infos) effects = destroy_all infos (
    responded info.writer (record {
      label = info.label;
      name = info.cmd_line;
      type = SaceResponseType.normal;
      status = SaceResponseStatus.signal;
      extra = [];
    })
    ∷ killed info.pid
    ∷ effects)

unfoldable pub destroy : State → State
unfolding destroy_all
destroy s = record s { running = []; effects = destroy_all s.running s.effects }
