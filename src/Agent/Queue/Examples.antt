-- ===== src/Agent/Queue/Examples.antt =====
-- The queue's theorems at a concrete queue.
use pcos.Prelude.{
  ℕ, ◌≡◌, refl, List, [], ◌∷◌, ◌++◌, none, codes, arith, if◌then◌else◌, ◌==◌, true, map, Text,
}
use pcos.Agent.Queue.{
  QueuedTransfer, sort_by_priority, QueueFile, items, ok, list, without_id, enqueue, dequeue,
}
use pcos.Agent.Queue.Laws.{IsQueue, Dequeued, view, enqueue_lem, dequeue_lem}

abbrev transfer : ℕ → ℕ → QueuedTransfer
transfer i p = record {
  id = i ∷ [];
  local_path = [];
  relative_path = [];
  storage_node_id = none;
  op = codes "upload";
  size_bytes = 1;
  sha256 = none;
  priority = p;
  attempts = 0;
  created_at = [];
}

abbrev two_items : QueueFile
two_items = items (transfer 1 50 ∷ transfer 2 5 ∷ [])

ids : List QueuedTransfer → List Text
ids = map (λ (t : QueuedTransfer). t.id)

enqueue_runs :
    ids (list (enqueue true (transfer 3 50) two_items).0) ≡ (1 ∷ []) ∷ (3 ∷ []) ∷ (2 ∷ []) ∷ []
unfolding enqueue sort_by_priority ids
enqueue_runs = refl

two_items-IsQueue : IsQueue two_items
unfolding list
two_items-IsQueue = record {
  sorted = ((omega arith, tt), (tt, tt));
  unique = (((λ e. cc), tt), (tt, tt));
}

enqueue_lem_example :
    IsQueue (enqueue true (transfer 3 50) two_items).0
    × ((enqueue true (transfer 3 50) two_items).1 ≡ ok tt)
    × ((p : ℕ)
        → view (enqueue true (transfer 3 50) two_items).0 p
          ≡ without_id (3 ∷ []) (view two_items p) ++ (if 50 == p then transfer 3 50 ∷ [] else []))
enqueue_lem_example = enqueue_lem (transfer 3 50) two_items two_items-IsQueue.unique

dequeue_lem_example : Dequeued (2 ∷ []) two_items (dequeue true (2 ∷ []) two_items)
dequeue_lem_example = dequeue_lem (2 ∷ []) two_items two_items-IsQueue
