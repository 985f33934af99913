-- ===== src/AgentCore/Collections/Examples.antt =====
-- Runs of the small stores, and the theorems at concrete inputs.
use Prim.Native.String.{String}
use inkpi.Base.{◌≡◌, ◌<◌, ◌≤◌, refl, some, List, [], ◌∷◌, ◌++◌, length}
use inkpi.AgentCore.Collections.KillRing
use inkpi.AgentCore.Collections.KillRing.{new_ring, KillCall, pushes, rotates, run-peek}
use inkpi.AgentCore.Collections.MessageQueue
use inkpi.AgentCore.Collections.MessageQueue.{
  QueueCall, enqueues, drains, one_at_a_time, all_messages, enqueued, run-enqueued,
}

abbrev kills : List KillCall
kills = pushes "a" ∷ pushes "" ∷ pushes "b" ∷ pushes "c" ∷ rotates ∷ []

-- A ring of two keeps the two newest texts, and the pointer stands on the older.
kill_run : KillRing.peek (KillRing.run (new_ring 2) kills) ≡ some "b"
unfolding KillRing.peek KillRing.run KillRing.step KillRing.push KillRing.drop_last KillRing.rotate
kill_run = refl

run-peek_example :
    (length (KillRing.run (new_ring 2) kills).ring ≤ 2)
    × ((0 < length (KillRing.run (new_ring 2) kills).ring)
        → (s : String) × (KillRing.peek (KillRing.run (new_ring 2) kills) ≡ some s))
run-peek_example = run-peek 2 kills

abbrev calls : List (QueueCall String)
calls =
    enqueues ("b" ∷ "c" ∷ [])
    ∷ drains one_at_a_time
    ∷ enqueues ("d" ∷ [])
    ∷ drains all_messages
    ∷ []

queue_run : MessageQueue.run ("a" ∷ []) calls ≡ ([], "a" ∷ "b" ∷ "c" ∷ "d" ∷ [])
unfolding MessageQueue.run MessageQueue.drain
queue_run = refl

run-enqueued_example :
    (MessageQueue.run ("a" ∷ []) calls).1 ++ (MessageQueue.run ("a" ∷ []) calls).0
    ≡ ("a" ∷ []) ++ enqueued calls
run-enqueued_example = run-enqueued ("a" ∷ []) calls
