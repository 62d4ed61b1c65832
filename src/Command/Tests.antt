-- ===== src/Command/Tests.antt =====
-- One command and its result on the slot, and the theorems about it at this history.
use last_audio_memory_buffer.Base.{ℕ, refl, [], ◌∷◌}
use last_audio_memory_buffer.Command.{
  CommandSlot, new_slot, begin, publish, take_command, publish_result,
}
use last_audio_memory_buffer.Command.Protocol.{Log, SlotRun, fresh, step, Exchanges}
use last_audio_memory_buffer.Command.Exchange.{slot_lem}
use last_audio_memory_buffer.Command.Protocol.{begins, publishes, takes, answers}

abbrev begun : CommandSlot ℕ ℕ
begun = (begin 4 new_slot).0

abbrev answered_slot : CommandSlot ℕ ℕ
answered_slot = publish_result 70 (take_command (publish 7 begun)).0

abbrev one_answered : Log ℕ ℕ
one_answered = record { sent = 7 ∷ []; received = 7 ∷ []; answered = 70 ∷ []; collected = [] }

one_exchange : SlotRun answered_slot one_answered
unfolding begin publish take_command publish_result
one_exchange =
    step (step (step (step fresh (begins 4)) (publishes 7 refl)) (takes 7 refl refl))
      (answers 70 refl)

slot_example : Exchanges answered_slot one_answered
slot_example = slot_lem answered_slot one_answered one_exchange
