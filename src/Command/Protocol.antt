-- ===== src/Command/Protocol.antt =====
-- The protocol on the slot: which side may call when, and what is on its way in each state.
use last_audio_memory_buffer.Base.{ℕ, ◌≡◌, List, [], ◌∷◌, ◌++◌, none, some, length, ◌+◌}
use last_audio_memory_buffer.Base.Error.{ok}
use last_audio_memory_buffer.Command.{
  preparing, ready, taking, processing, result_ready, result_taking, CommandSlot, new_slot, begin,
  publish, take_command, publish_result, take_result, cancel_preparing,
}

-- What has gone over: commands published and taken, and results published and taken.
pub record Log (Command Reply : Type 0) : Type 0 where
  pub sent : List Command
  pub received : List Command
  pub answered : List Reply
  pub collected : List Reply

module _ {Command Reply : Type 0} where
  -- The calls that the two sides make. The client publishes only between a `begin` that succeeded
  -- and a cancel, the worker takes only a command that it saw ready, and answers only the command
  -- it took; the other calls may come at any time.
  pub data SlotStep (s : CommandSlot Command Reply) (l : Log Command Reply)
      : CommandSlot Command Reply → Log Command Reply → Type 0 where
    begins : (kind : ℕ) → SlotStep s l (begin kind s).0 l
    cancels : SlotStep s l (cancel_preparing s).0 l
    publishes :
        (c : Command)
        → s.state ≡ preparing
        → SlotStep s l (publish c s) (record l { sent = l.sent ++ (c ∷ []) })
    takes :
        (c : Command)
        → s.state ≡ ready
        → (take_command s).1 ≡ ok c
        → SlotStep s l (take_command s).0 (record l { received = l.received ++ (c ∷ []) })
    answers :
        (r : Reply)
        → s.state ≡ processing
        → SlotStep s l (publish_result r s) (record l { answered = l.answered ++ (r ∷ []) })
    collects :
        (r : Reply)
        → (take_result s).1 ≡ some (ok r)
        → SlotStep s l (take_result s).0 (record l { collected = l.collected ++ (r ∷ []) })
    misses : (take_result s).1 ≡ none → SlotStep s l (take_result s).0 l

  pub data SlotRun : CommandSlot Command Reply → Log Command Reply → Type 0 where
    fresh : SlotRun new_slot (record { sent = []; received = []; answered = []; collected = [] })
    step :
        {s s' : CommandSlot Command Reply} {l l' : Log Command Reply}
        → SlotRun s l
        → SlotStep s l s' l'
        → SlotRun s' l'

  -- What is on its way in each state.
  abbrev pub pending_command : CommandSlot Command Reply → List Command
  pending_command s = elim s.state [
    | ready ↦ elim s.command [ none ↦ [] | some c ↦ c ∷ [] ]
    | _ ↦ []
  ]

  abbrev pub pending_result : CommandSlot Command Reply → List Reply
  pending_result s = elim s.state [
    | result_ready ↦ elim s.result [ none ↦ [] | some r ↦ r ∷ [] ]
    | _ ↦ []
  ]

  -- The cells are initialised where they are read, and no state is left half way.
  abbrev pub IsFilled : CommandSlot Command Reply → Type 0
  IsFilled s = elim s.state as (λ _. Type 0) [
    | ready ↦ (c : Command) × (s.command ≡ some c)
    | result_ready ↦ (r : Reply) × (s.result ≡ some r)
    | taking ↦ ⊥
    | result_taking ↦ ⊥
    | _ ↦ Unit
  ]

  -- A command that is taken and not yet answered.
  abbrev pub in_hand : CommandSlot Command Reply → ℕ
  in_hand s = elim s.state [ processing ↦ 1 | _ ↦ 0 ]

  pub record Exchanges (s : CommandSlot Command Reply) (l : Log Command Reply) : Type 0 where
    pub filled : IsFilled s
    pub commands : l.received ++ pending_command s ≡ l.sent
    pub results : l.collected ++ pending_result s ≡ l.answered
    pub matched : length l.received ≡ length l.answered + in_hand s
