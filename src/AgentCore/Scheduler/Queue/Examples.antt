-- ===== src/AgentCore/Scheduler/Queue/Examples.antt =====
-- The theorems on the queue of packages/agent-core/src/lifecycle/scheduler.ts at concrete inputs.
use Prim.Native.Nat.{Ordering}
use Prim.Native.String.{String}
use inkpi.Base.{◌≡◌, ◌≢◌, refl, ◌↔◌, some}
use inkpi.Base.Int.{pos}
use inkpi.AgentCore.Scheduler.{is_before, compare_scheduled_records}
use inkpi.AgentCore.Scheduler.Queue.Arrays.{Entry, set, entry_at}
use inkpi.AgentCore.Scheduler.Queue.{
  ScheduledPriorityQueue, empty_queue, peek, push, pop, remove, sift_up, swap,
}
use inkpi.AgentCore.Scheduler.Queue.Order.{IsOrder, IsValid}
use inkpi.AgentCore.Scheduler.Queue.Index.{Holds}
use inkpi.AgentCore.Scheduler.Queue.Laws.{
  Popped, pop-peek, push_lem, remove_lem, empty_queue-IsValid,
}
use inkpi.AgentCore.Scheduler.Orders.{IsCollation, is_before-IsOrder}

-- A locale in which all texts tie.
abbrev pub collate : String → String → Ordering
collate a b = Ordering.eq

pub collate-IsCollation : IsCollation collate
collate-IsCollation = record { asym = λ a b h. cc h; connected = λ a b c h k. refl }

abbrev low : Entry
low = record { ref = 0; id = "draft"; priority = pos 1; ready_at = 0 }

abbrev high : Entry
high = record { ref = 1; id = "review"; priority = pos 5; ready_at = 0 }

abbrev queue : ScheduledPriorityQueue
queue = push (is_before collate) (push (is_before collate) empty_queue low) high

order : IsOrder (is_before collate)
order = is_before-IsOrder collate collate-IsCollation

queue-IsValid : IsValid (is_before collate) queue
unfolding push sift_up swap set entry_at compare_scheduled_records
queue-IsValid =
    let one_entry =
      push_lem (is_before collate) order empty_queue low
        (empty_queue-IsValid (is_before collate) order) refl in
    (push_lem (is_before collate) order (push (is_before collate) empty_queue low) high one_entry.0
      refl).0

queue_first : peek queue ≡ some high
unfolding peek push sift_up swap set entry_at compare_scheduled_records
queue_first = refl

pop-peek_example : Popped (is_before collate) order queue high (pop (is_before collate) queue)
pop-peek_example = pop-peek (is_before collate) order queue high queue-IsValid queue_first

remove_lem_example :
    IsValid (is_before collate) (remove (is_before collate) queue "draft").0
    × ((x : Entry)
        → Holds (remove (is_before collate) queue "draft").0 x ↔ (Holds queue x × (x.id ≢ "draft")))
remove_lem_example = remove_lem (is_before collate) order queue "draft" queue-IsValid
