-- ===== src/Command/Exchange.antt =====
-- Histories of the slot: each command and each result goes over once, in order.
use mathlib.Core.List.{append-nil}
use last_audio_memory_buffer.Base.{
  ℕ, ◌≡◌, ◌∙◌, refl, sym, ap, subst, [], ◌∷◌, ◌++◌, Bool, Option, none, some, length-append, arith,
}
use last_audio_memory_buffer.Base.Error.{ok}
use last_audio_memory_buffer.Command.{
  CommandState, idle, preparing, ready, taking, processing, result_ready, result_taking,
  CommandSlot, begin, publish, take_command, publish_result, take_result, cancel_preparing,
}
use last_audio_memory_buffer.Command.Protocol.{
  Log, SlotStep, SlotRun, Exchanges, fresh, step, begins, cancels, publishes, takes, answers,
  collects, misses,
}

module _ {Command Reply : Type 0} where
  begin-Exchanges :
      (kind : ℕ) (state : CommandState) (k : ℕ) (abandoned : Bool) (command : Option Command)
      (result : Option Reply) (l : Log Command Reply)
      → let s : CommandSlot Command Reply = record {
        state = state;
        kind = k;
        abandoned = abandoned;
        command = command;
        result = result;
      } in
        Exchanges s l → Exchanges (begin kind s).0 l
  unfolding begin
  begin-Exchanges kind idle k abandoned command result l v = record {
    filled = tt;
    commands = v.commands;
    results = v.results;
    matched = v.matched;
  }
  begin-Exchanges kind preparing k abandoned command result l v = v
  begin-Exchanges kind ready k abandoned command result l v = v
  begin-Exchanges kind taking k abandoned command result l v = v
  begin-Exchanges kind processing k abandoned command result l v = v
  begin-Exchanges kind result_ready k abandoned command result l v = v
  begin-Exchanges kind result_taking k abandoned command result l v = v

  cancel-Exchanges :
      (state : CommandState) (k : ℕ) (abandoned : Bool) (command : Option Command)
      (result : Option Reply) (l : Log Command Reply)
      → let s : CommandSlot Command Reply = record {
        state = state;
        kind = k;
        abandoned = abandoned;
        command = command;
        result = result;
      } in
        Exchanges s l → Exchanges (cancel_preparing s).0 l
  unfolding cancel_preparing
  cancel-Exchanges preparing k abandoned command result l v = record {
    filled = tt;
    commands = v.commands;
    results = v.results;
    matched = v.matched;
  }
  cancel-Exchanges idle k abandoned command result l v = v
  cancel-Exchanges ready k abandoned command result l v = v
  cancel-Exchanges taking k abandoned command result l v = v
  cancel-Exchanges processing k abandoned command result l v = v
  cancel-Exchanges result_ready k abandoned command result l v = v
  cancel-Exchanges result_taking k abandoned command result l v = v

  publish-Exchanges :
      (c : Command) (k : ℕ) (abandoned : Bool) (command : Option Command) (result : Option Reply)
      (l : Log Command Reply)
      → let s : CommandSlot Command Reply = record {
        state = preparing;
        kind = k;
        abandoned = abandoned;
        command = command;
        result = result;
      } in
        Exchanges s l → Exchanges (publish c s) (record l { sent = l.sent ++ (c ∷ []) })
  unfolding publish
  publish-Exchanges c k abandoned command result l v = record {
    filled = (c, refl);
    commands = ap (λ m. m ++ (c ∷ [])) (sym (append-nil l.received) ∙ v.commands);
    results = v.results;
    matched = v.matched;
  }

  take-Exchanges :
      (c : Command) (k : ℕ) (abandoned : Bool) (command : Option Command) (result : Option Reply)
      (l : Log Command Reply)
      → let s : CommandSlot Command Reply = record {
        state = ready;
        kind = k;
        abandoned = abandoned;
        command = command;
        result = result;
      } in
        Exchanges s l
        → (take_command s).1 ≡ ok c
        → Exchanges (take_command s).0 (record l { received = l.received ++ (c ∷ []) })
  unfolding take_command
  take-Exchanges c k abandoned none result l v e = absurd cc
  take-Exchanges c k abandoned (some d) result l v e =
      let same : d ≡ c = cc in
      record {
        filled = tt;
        commands =
            append-nil (l.received ++ (c ∷ []))
            ∙ ap (λ x. l.received ++ (x ∷ [])) (sym same)
            ∙ v.commands;
        results = v.results;
        matched = omega (arith, v.matched, length-append l.received (c ∷ []));
      }

  answer-Exchanges :
      (r : Reply) (k : ℕ) (abandoned : Bool) (command : Option Command) (result : Option Reply)
      (l : Log Command Reply)
      → let s : CommandSlot Command Reply = record {
        state = processing;
        kind = k;
        abandoned = abandoned;
        command = command;
        result = result;
      } in
        Exchanges s l
        → Exchanges (publish_result r s) (record l { answered = l.answered ++ (r ∷ []) })
  unfolding publish_result
  answer-Exchanges r k abandoned command result l v = record {
    filled = (r, refl);
    commands = v.commands;
    results = ap (λ m. m ++ (r ∷ [])) (sym (append-nil l.collected) ∙ v.results);
    matched = omega (arith, v.matched, length-append l.answered (r ∷ []));
  }

  collect-Exchanges :
      (r : Reply) (state : CommandState) (k : ℕ) (abandoned : Bool) (command : Option Command)
      (result : Option Reply) (l : Log Command Reply)
      → let s : CommandSlot Command Reply = record {
        state = state;
        kind = k;
        abandoned = abandoned;
        command = command;
        result = result;
      } in
        Exchanges s l
        → (take_result s).1 ≡ some (ok r)
        → Exchanges (take_result s).0 (record l { collected = l.collected ++ (r ∷ []) })
  unfolding take_result
  collect-Exchanges r result_ready k abandoned command (some d) l v e =
      let same : d ≡ r = cc in
      record {
        filled = tt;
        commands = v.commands;
        results =
            append-nil (l.collected ++ (r ∷ []))
            ∙ ap (λ x. l.collected ++ (x ∷ [])) (sym same)
            ∙ v.results;
        matched = v.matched;
      }
  collect-Exchanges r result_ready k abandoned command none l v e = absurd cc
  collect-Exchanges r idle k abandoned command result l v e = absurd cc
  collect-Exchanges r preparing k abandoned command result l v e = absurd cc
  collect-Exchanges r ready k abandoned command result l v e = absurd cc
  collect-Exchanges r taking k abandoned command result l v e = absurd cc
  collect-Exchanges r processing k abandoned command result l v e = absurd cc
  collect-Exchanges r result_taking k abandoned command result l v e = absurd cc

  miss-Exchanges :
      (state : CommandState) (k : ℕ) (abandoned : Bool) (command : Option Command)
      (result : Option Reply) (l : Log Command Reply)
      → let s : CommandSlot Command Reply = record {
        state = state;
        kind = k;
        abandoned = abandoned;
        command = command;
        result = result;
      } in
        Exchanges s l → (take_result s).1 ≡ none → Exchanges (take_result s).0 l
  unfolding take_result
  miss-Exchanges result_ready k abandoned command (some d) l v e = absurd cc
  miss-Exchanges result_ready k abandoned command none l v e = absurd cc
  miss-Exchanges idle k abandoned command result l v e = v
  miss-Exchanges preparing k abandoned command result l v e = v
  miss-Exchanges ready k abandoned command result l v e = v
  miss-Exchanges taking k abandoned command result l v e = v
  miss-Exchanges processing k abandoned command result l v e = v
  miss-Exchanges result_taking k abandoned command result l v e = v

  step-Exchanges :
      (s s' : CommandSlot Command Reply) (l l' : Log Command Reply)
      → Exchanges s l
      → SlotStep s l s' l'
      → Exchanges s' l'
  unfolding publish publish_result
  step-Exchanges s s' l l' v (begins kind) =
      begin-Exchanges kind s.state s.kind s.abandoned s.command s.result l v
  step-Exchanges s s' l l' v cancels =
      cancel-Exchanges s.state s.kind s.abandoned s.command s.result l v
  step-Exchanges s s' l l' v (publishes c e) =
      publish-Exchanges c s.kind s.abandoned s.command s.result l
        (subst (λ st. Exchanges (record s { state = st }) l) e v)
  step-Exchanges s s' l l' v (takes c e t) =
      subst
        (λ st.
          Exchanges (take_command (record s { state = st })).0
            (record l { received = l.received ++ (c ∷ []) }))
        (sym e)
        (take-Exchanges c s.kind s.abandoned s.command s.result l
          (subst (λ st. Exchanges (record s { state = st }) l) e v)
          (subst (λ st. (take_command (record s { state = st })).1 ≡ ok c) e t))
  step-Exchanges s s' l l' v (answers r e) =
      answer-Exchanges r s.kind s.abandoned s.command s.result l
        (subst (λ st. Exchanges (record s { state = st }) l) e v)
  step-Exchanges s s' l l' v (collects r e) =
      collect-Exchanges r s.state s.kind s.abandoned s.command s.result l v e
  step-Exchanges s s' l l' v (misses e) =
      miss-Exchanges s.state s.kind s.abandoned s.command s.result l v e

  -- In any history of the calls of both sides, from a new slot: the commands taken, and then the
  -- one that waits in the slot, are those published, in order; the same of the results; and the
  -- results published are as many as the commands taken, less the one in hand. So each command is
  -- taken and answered once, and its result is collected once.
  pub slot_lem :
      (s : CommandSlot Command Reply) (l : Log Command Reply) → SlotRun s l → Exchanges s l
  slot_lem s l fresh = record { filled = tt; commands = refl; results = refl; matched = refl }
  slot_lem s l (step {s = s₀} {s' = s₁} {l = l₀} {l' = l₁} run move) =
      step-Exchanges s₀ s₁ l₀ l₁ (slot_lem s₀ l₀ run) move
