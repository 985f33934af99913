-- ===== src/AgentCore/Collections/MessageQueue.antt =====
-- packages/agent-core/src/queues.ts, over any type of messages.
use inkpi.Base.{
  ◌≡◌, refl, sym, ap, ◌∙◌, Option, List, [], ◌∷◌, ◌++◌, append_assoc, append-nil, get_elem?,
}

pub data QueueMode : Type 0 where
  all_messages one_at_a_time : QueueMode

module _ {ℓ} {A : Type ℓ} where
  abbrev pub enqueue : List A → List A → List A
  enqueue queue messages = queue ++ messages

  -- The queue that is left, and what was taken from it.
  unfoldable pub drain : List A → QueueMode → List A × List A
  drain [] mode = ([], [])
  drain (x ∷ queue) one_at_a_time = (queue, x ∷ [])
  drain (x ∷ queue) all_messages = ([], x ∷ queue)

  abbrev pub peek : List A → Option A
  peek queue = get_elem? queue 0

pub data QueueCall {ℓ} (A : Type ℓ) : Type ℓ where
  enqueues : List A → QueueCall A
  drains : QueueMode → QueueCall A

module _ {ℓ} {A : Type ℓ} where
  -- The queue after the calls, and all that was drained, in order.
  unfoldable pub run : List A → List (QueueCall A) → List A × List A
  run queue [] = (queue, [])
  run queue (enqueues ms ∷ cs) = run (enqueue queue ms) cs
  run queue (drains mode ∷ cs) =
      let out = drain queue mode in let rest = run out.0 cs in (rest.0, out.1 ++ rest.1)

  unfoldable pub enqueued : List (QueueCall A) → List A
  enqueued [] = []
  enqueued (enqueues ms ∷ cs) = ms ++ enqueued cs
  enqueued (drains mode ∷ cs) = enqueued cs

  drain-append :
      (queue : List A) (mode : QueueMode) → (drain queue mode).1 ++ (drain queue mode).0 ≡ queue
  unfolding drain
  drain-append [] mode = refl
  drain-append (x ∷ queue) one_at_a_time = refl
  drain-append (x ∷ queue) all_messages = append-nil (x ∷ queue)

  -- Whatever is enqueued and drained, in either mode: what was drained, and then what is left, is what
  -- was there and then what was enqueued. No message is lost, doubled or moved.
  pub run-enqueued :
      (queue : List A) (cs : List (QueueCall A))
      → (run queue cs).1 ++ (run queue cs).0 ≡ queue ++ enqueued cs
  unfolding run enqueued
  run-enqueued queue [] = sym (append-nil queue)
  run-enqueued queue (enqueues ms ∷ cs) =
      run-enqueued (queue ++ ms) cs ∙ append_assoc queue ms (enqueued cs)
  run-enqueued queue (drains mode ∷ cs) =
      let out = drain queue mode in
      append_assoc out.1 (run out.0 cs).1 (run out.0 cs).0
      ∙ ap (out.1 ++◌) (run-enqueued out.0 cs)
      ∙ sym (append_assoc out.1 out.0 (enqueued cs))
      ∙ ap (λ q. q ++ enqueued cs) (drain-append queue mode)
