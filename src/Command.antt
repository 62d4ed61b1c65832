-- ===== src/Command.antt =====
-- src/capture_arena.rs: the slot through which one client at a time hands a command to the worker
-- and gets its result. A cell of uninitialised memory is `none`, and a read of it `panic`; its
-- content stays when it is read, since a read copies the bytes.
mod Tests
pub mod Protocol
pub mod Exchange
use last_audio_memory_buffer.Base.{ℕ, Bool, true, false, Option, none, some}
use last_audio_memory_buffer.Base.Error.{Result, ok, err, panic, control_invariant}

-- `COMMAND_IDLE` and the other states.
pub data CommandState : Type 0 where
  idle preparing ready taking processing result_ready result_taking : CommandState

-- `CommandSlot`, of any commands and results.
pub record CommandSlot (Command Reply : Type 0) : Type 0 where
  pub state : CommandState
  pub kind : ℕ
  pub abandoned : Bool
  pub command : Option Command
  pub result : Option Reply

module _ {Command Reply : Type 0} where
  -- `CommandSlot::new`
  abbrev pub new_slot : CommandSlot Command Reply
  new_slot = record { state = idle; kind = 0; abandoned = false; command = none; result = none }

  -- `begin`
  unfoldable pub begin :
      ℕ → CommandSlot Command Reply → CommandSlot Command Reply × Result (Unit {0})
  begin kind s = elim s.state [
    | idle ↦ (record s { state = preparing; kind = kind; abandoned = false }, ok tt)
    | _ ↦ (s, err (control_invariant "capture command already pending"))
  ]

  -- `publish`
  unfoldable pub publish : Command → CommandSlot Command Reply → CommandSlot Command Reply
  publish command s = record s { command = some command; state = ready }

  -- The command that `ready_target` reads the target of: none where no command is ready.
  unfoldable pub ready_command : CommandSlot Command Reply → Option (Result Command)
  ready_command s = elim s.state [
    | ready ↦ elim s.command [ none ↦ some (err panic) | some command ↦ some (ok command) ]
    | _ ↦ none
  ]

  -- `take_command`
  unfoldable pub take_command :
      CommandSlot Command Reply → CommandSlot Command Reply × Result Command
  take_command s = elim s.state [
    | ready ↦ elim s.command [
      | none ↦ (record s { state = taking }, err panic)
      | some command ↦ (record s { state = processing }, ok command)
    ]
    | _ ↦ (s, err panic)
  ]

  -- `publish_result`
  unfoldable pub publish_result : Reply → CommandSlot Command Reply → CommandSlot Command Reply
  publish_result result s = record s { result = some result; state = result_ready }

  -- `take_result`
  unfoldable pub take_result :
      CommandSlot Command Reply → CommandSlot Command Reply × Option (Result Reply)
  take_result s = elim s.state [
    | result_ready ↦ elim s.result [
      | none ↦ (record s { state = result_taking }, some (err panic))
      | some result ↦ (record s { state = idle; kind = 0; abandoned = false }, some (ok result))
    ]
    | _ ↦ (s, none)
  ]

  -- `cancel_preparing`
  unfoldable pub cancel_preparing : CommandSlot Command Reply → CommandSlot Command Reply × Bool
  cancel_preparing s = elim s.state [
    | preparing ↦ (record s { state = idle }, true)
    | _ ↦ (s, false)
  ]
