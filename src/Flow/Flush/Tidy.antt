-- ===== src/Flow/Flush/Tidy.antt =====
-- A flush leaves a flow draining, or with nothing buffered.
use neat.Base.{◌≡◌, refl, true, Bool-cases, ◌⊎◌, inl, inr, List, [], ◌∷◌}
use neat.Flow.State.{Code, Message, Flow}
use neat.Flow.Fill.{is_empty}
use neat.Flow.Flush.{
  Answer, Chunk, Flush, finished, running, fault, flush_from, in_flow, write_flush,
}

-- A flow that does not drain has nothing buffered.
abbrev pub IsTidy : Flow → Type 0
IsTidy flow = (flow.is_draining ≡ true) ⊎ (flow.buffered_messages ≡ [])

pub data LeavesTidy : Flush Flow → Type 0 where
  when_finished :
      (code : Code) (flow : Flow) (log : List Chunk)
      → IsTidy flow
      → LeavesTidy (finished code flow log)
  when_running : (flow : Flow) (log : List Chunk) → LeavesTidy (running flow log)
  when_fault : LeavesTidy fault

in_flow-LeavesTidy :
    (flow : Flow) (run : Flush (List Message))
    → flow.is_draining ≡ true
    → LeavesTidy (in_flow flow run)
unfolding is_empty
in_flow-LeavesTidy flow (finished code [] log) d = when_finished _ _ _ (inr refl)
in_flow-LeavesTidy flow (finished code (m ∷ ms) log) d = when_finished _ _ _ (inl d)
in_flow-LeavesTidy flow (running ms log) d = when_running _ _
in_flow-LeavesTidy flow fault d = when_fault

pub write_flush-LeavesTidy :
    (flow : Flow) (answers : List Answer)
    → flow.is_draining ≡ true
    → LeavesTidy (write_flush flow answers)
unfolding write_flush
write_flush-LeavesTidy flow answers d = elim (Bool-cases (is_empty flow.buffered_messages)) [
  | inl e ↦ simp (e) (when_finished _ _ _ (inl d))
  | inr e ↦ simp (e) (in_flow-LeavesTidy flow (flush_from flow answers flow.buffered_messages) d)
]
