-- ===== src/Manager/Valid.antt =====
-- Every manager that its operations reach holds, under each label, an object with that label.
use sa_excutor.Common.{
  ℕ, refl, Bool, true, false, Str, ◌∷◌, nat_eq, ℕ_eq, if◌then◌else◌, arith, inl, inr, Bool-cases,
  Option-cases,
}
use sa_excutor.Common.Map.{find, or_else}
use sa_excutor.Types.{SaceCommand, SaceResult, type_normal, type_service, minus_one}
use sa_excutor.Types.Command.{SaceResultStatus, SaceResultType, SaceResponseType}
use sa_excutor.Client.{ErrorCode, SaceCommandObj, SaceServiceObj}
use sa_excutor.Manager.{
  Manager, Env, Notice, new_manager, cmd_callback, send, ran_command, keep_service, keep_command,
  live_command,
}
use sa_excutor.Manager.Held.{
  Held, Held-empty, Held-next, Held-alloc, Held-insert, Held-erase, Held-update,
}
use sa_excutor.Manager.Services.{hold}
use sa_excutor.Manager.Response.{service_response, command_response, on_response_of}

pub record IsValid (m : Manager) : Type 0 where
  pub held_services : Held (λ (o : SaceServiceObj). o.label) m.services m.service_objs m.next
  pub held_commands : Held (λ (o : SaceCommandObj). o.label) m.commands m.command_objs m.next

pub new_manager-IsValid : (cap_size : ℕ) → IsValid (new_manager cap_size)
unfolding new_manager
new_manager-IsValid cap_size = record { held_services = Held-empty; held_commands = Held-empty }

pub hold-IsValid : (o : SaceServiceObj) (m : Manager) → IsValid m → IsValid (hold o m).0
unfolding hold find
hold-IsValid o m v = record {
  held_services = Held-insert o.label m.next o (ground arith) refl (Held-alloc o v.held_services);
  held_commands = Held-next v.held_commands;
}

pub keep_service-IsValid :
    (o : SaceServiceObj) (m : Manager) → IsValid m → IsValid (keep_service o m).0
keep_service-IsValid o m v = record {
  held_services = Held-alloc o v.held_services;
  held_commands = Held-next v.held_commands;
}

keep_command-IsValid : (o : SaceCommandObj) (m : Manager) → IsValid m → IsValid (keep_command o m).0
keep_command-IsValid o m v = record {
  held_services = Held-next v.held_services;
  held_commands = Held-alloc o v.held_commands;
}

pub send-IsValid :
    (env : Env) (c : SaceCommand) (m : Manager) → IsValid m → IsValid (send env c m).0
unfolding send
send-IsValid env c m v = record { held_services = v.held_services; held_commands = v.held_commands }

pub ran_command-IsValid :
    (env : Env) (cmd : Str) (input : Bool) (sequence : ℕ) (m : Manager) (r : SaceResult)
    (status : SaceResultStatus) (type : SaceResultType)
    → IsValid m
    → IsValid (ran_command env cmd input sequence m r status type).0
unfolding ran_command find
ran_command-IsValid env cmd input sequence m r SaceResultStatus.ok SaceResultType.fd v = record {
  held_services = Held-next v.held_services;
  held_commands =
      Held-insert r.label m.next
        (live_command env r.label cmd (or_else minus_one r.result_fd) input) (ground arith) refl
        (Held-alloc _ v.held_commands);
}
ran_command-IsValid env cmd input sequence m r SaceResultStatus.ok SaceResultType.nothing v =
    keep_command-IsValid _ m v
ran_command-IsValid env cmd input sequence m r SaceResultStatus.ok SaceResultType.start v =
    keep_command-IsValid _ m v
ran_command-IsValid env cmd input sequence m r SaceResultStatus.ok SaceResultType.close v =
    keep_command-IsValid _ m v
ran_command-IsValid env cmd input sequence m r SaceResultStatus.ok SaceResultType.extra v =
    keep_command-IsValid _ m v
ran_command-IsValid env cmd input sequence m r SaceResultStatus.ok SaceResultType.label v =
    keep_command-IsValid _ m v
ran_command-IsValid env cmd input sequence m r SaceResultStatus.timeout type v =
    keep_command-IsValid _ m v
ran_command-IsValid env cmd input sequence m r SaceResultStatus.fail type v =
    keep_command-IsValid _ m v
ran_command-IsValid env cmd input sequence m r SaceResultStatus.secure type v =
    keep_command-IsValid _ m v
ran_command-IsValid env cmd input sequence m r SaceResultStatus.exists type v =
    keep_command-IsValid _ m v

pub cmd_callback-IsValid :
    (type label : ℕ) (m : Manager) → IsValid m → IsValid (cmd_callback type label m)
unfolding cmd_callback
cmd_callback-IsValid type label m v = elim (Bool-cases (nat_eq type type_service)) [
  | inl t ↦
      rw t (record {
        held_services = Held-erase label v.held_services;
        held_commands = v.held_commands;
      })
  | inr f ↦ rw f (elim (Bool-cases (nat_eq type type_normal)) [
    | inl t ↦ rw t (record {
      held_services = v.held_services;
      held_commands = Held-erase label v.held_commands;
    })
    | inr g ↦ rw g v
  ])
]

notify-IsValid :
    (b : Bool) (n : Notice) (m : Manager)
    → IsValid m
    → IsValid (if b then record m { notices = n ∷ m.notices } else m)
notify-IsValid true n m v = record {
  held_services = v.held_services;
  held_commands = v.held_commands;
}
notify-IsValid false n m v = v

service_response-IsValid :
    (label : ℕ) (code : ErrorCode) (m : Manager)
    → IsValid m
    → IsValid (service_response label code m)
unfolding service_response
service_response-IsValid label code m v = elim (Option-cases (find label m.services)) [
  | inl e ↦ rw (service_response, e) v
  | inr (id, e) ↦
      let (o, at, same) = v.held_services.place label id e in
      rw (service_response, e, at)
        (notify-IsValid m.has_callback _ _ (record {
          held_services =
              Held-update id (λ o. record o { error = code }) (λ o. refl)
                (Held-erase label v.held_services);
          held_commands = v.held_commands;
        }))
]

command_response-IsValid :
    (label : ℕ) (code : ErrorCode) (m : Manager)
    → IsValid m
    → IsValid (command_response label code m)
unfolding command_response
command_response-IsValid label code m v = elim (Option-cases (find label m.commands)) [
  | inl e ↦ rw (command_response, e) v
  | inr (id, e) ↦
      let (o, at, same) = v.held_commands.place label id e in
      rw (command_response, e, at)
        (notify-IsValid m.has_callback _ _ (record {
          held_services = v.held_services;
          held_commands =
              Held-update id (λ o. record o { error = code }) (λ o. refl)
                (Held-erase label v.held_commands);
        }))
]

pub on_response-IsValid :
    (type : SaceResponseType) (label : ℕ) (code : ErrorCode) (m : Manager)
    → IsValid m
    → IsValid (on_response_of type label code m)
unfolding on_response_of
on_response-IsValid SaceResponseType.service label code m v =
    service_response-IsValid label code m v
on_response-IsValid SaceResponseType.normal label code m v = command_response-IsValid label code m v
