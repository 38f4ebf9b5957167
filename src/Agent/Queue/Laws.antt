-- ===== src/Agent/Queue/Laws.antt =====
-- The queue as a family of first-in first-out queues, one to a priority, with unique identifiers.
use mathlib.Core.Path.{subst}
use mathlib.Core.List.{Memᴰ}
use pcos.Prelude.{
  ℕ, ◌≡◌, ◌≢◌, ◌⊎◌, refl, sym, ap, ◌∙◌, List, [], ◌∷◌, ◌++◌, Option, none, some, true, false, Text,
  text_eq, text_eq_iff, text_ne, ◌==◌, if◌then◌else◌, arith, All, All-append, Bool-cases, inl, inr,
}
use pcos.Agent.Queue.{
  QueuedTransfer, QueueFile, IoResult, ok, failed, list, without_id, enqueue, take_id,
  finish_dequeue, dequeue, drain,
}
use pcos.Agent.Queue.Order.{
  IsSorted, HasUniqueIds, of_priority, sort-IsSorted, sort-HasUniqueIds, of_priority-sort,
}

abbrev pub LacksId : Text → QueuedTransfer → Type 0
LacksId id t = t.id ≢ id

without_id-All {κ} :
    (P : QueuedTransfer → Type κ) (id : Text) (ts : List QueuedTransfer)
    → All P ts
    → All P (without_id id ts)
unfolding without_id
without_id-All P id [] h = tt
without_id-All P id (t ∷ ts) h = elim (Bool-cases (text_eq t.id id)) [
  | inl e ↦ rw e (without_id-All P id ts h.1)
  | inr e ↦ rw e (h.0, without_id-All P id ts h.1)
]

without_id-LacksId : (id : Text) (ts : List QueuedTransfer) → All (LacksId id) (without_id id ts)
unfolding without_id
without_id-LacksId id [] = tt
without_id-LacksId id (t ∷ ts) = elim (Bool-cases (text_eq t.id id)) [
  | inl e ↦ rw e (without_id-LacksId id ts)
  | inr e ↦ rw e (text_ne t.id id e, without_id-LacksId id ts)
]

without_id-HasUniqueIds :
    (id : Text) (ts : List QueuedTransfer) → HasUniqueIds ts → HasUniqueIds (without_id id ts)
unfolding without_id
without_id-HasUniqueIds id [] h = tt
without_id-HasUniqueIds id (t ∷ ts) h = elim (Bool-cases (text_eq t.id id)) [
  | inl e ↦ rw e (without_id-HasUniqueIds id ts h.1)
  | inr e ↦ rw e (without_id-All (LacksId t.id) id ts h.0, without_id-HasUniqueIds id ts h.1)
]

without_id-IsSorted :
    (id : Text) (ts : List QueuedTransfer) → IsSorted ts → IsSorted (without_id id ts)
unfolding without_id
without_id-IsSorted id [] h = tt
without_id-IsSorted id (t ∷ ts) h = elim (Bool-cases (text_eq t.id id)) [
  | inl e ↦ rw e (without_id-IsSorted id ts h.1)
  | inr e ↦ rw e (without_id-All _ id ts h.0, without_id-IsSorted id ts h.1)
]

snoc-HasUniqueIds :
    (ts : List QueuedTransfer) (t : QueuedTransfer)
    → All (LacksId t.id) ts
    → HasUniqueIds ts
    → HasUniqueIds (ts ++ t ∷ [])
snoc-HasUniqueIds [] t l h = (tt, tt)
snoc-HasUniqueIds (u ∷ us) t l h = (
  All-append (LacksId u.id) us (t ∷ []) h.0 (λ e. l.0 (sym e), tt),
  snoc-HasUniqueIds us t l.1 h.1,
)

of_priority-snoc :
    (p : ℕ) (ts : List QueuedTransfer) (t : QueuedTransfer)
    → of_priority p (ts ++ t ∷ []) ≡ of_priority p ts ++ (if t.priority == p then t ∷ [] else [])
unfolding of_priority
of_priority-snoc p [] t = ground arith
of_priority-snoc p (u ∷ us) t = ground (arith, of_priority-snoc p us t)

of_priority-without_id :
    (p : ℕ) (id : Text) (ts : List QueuedTransfer)
    → of_priority p (without_id id ts) ≡ without_id id (of_priority p ts)
unfolding of_priority without_id
of_priority-without_id p id [] = refl
of_priority-without_id p id (t ∷ ts) = ground (arith, of_priority-without_id p id ts)

-- Between two operations the queue is sorted and no identifier stands in it twice.
pub record IsQueue (file : QueueFile) : Type 0 where
  pub sorted : IsSorted (list file)
  pub unique : HasUniqueIds (list file)

-- What the operations promise, priority by priority.
abbrev pub view : QueueFile → ℕ → List QueuedTransfer
view file p = of_priority p (list file)

-- Where the file can be written and its items have different identifiers, `enqueue` succeeds, the queue is sorted
-- after it and its identifiers are still unique; in each priority the items stand as before, less
-- one with the new item's identifier, and the new item stands last in its own priority.
pub enqueue_lem :
    (t : QueuedTransfer) (file : QueueFile)
    → HasUniqueIds (list file)
    → IsQueue (enqueue true t file).0
      × ((enqueue true t file).1 ≡ ok tt)
      × ((p : ℕ)
          → view (enqueue true t file).0 p
            ≡ without_id t.id (view file p) ++ (if t.priority == p then t ∷ [] else []))
unfolding enqueue
enqueue_lem t file h =
    let kept = without_id t.id (list file) in
    (
      record {
        sorted = sort-IsSorted (kept ++ t ∷ []);
        unique = sort-HasUniqueIds (kept ++ t ∷ []) (
            snoc-HasUniqueIds kept t (without_id-LacksId t.id (list file))
              (without_id-HasUniqueIds t.id (list file) h));
      },
      refl,
      λ p.
          of_priority-sort p (kept ++ t ∷ [])
          ∙ of_priority-snoc p kept t
          ∙ ap (λ ts. ts ++ (if t.priority == p then t ∷ [] else []))
              (of_priority-without_id p t.id (list file)),
    )

without_id-LacksId_self :
    (id : Text) (ts : List QueuedTransfer) → All (LacksId id) ts → without_id id ts ≡ ts
unfolding without_id
without_id-LacksId_self id [] h = refl
without_id-LacksId_self id (t ∷ ts) h = elim (Bool-cases (text_eq t.id id)) [
  | inl e ↦ absurd (h.0 ((text_eq_iff t.id id).0 e))
  | inr e ↦ rw e (ap (λ us. t ∷ us) (without_id-LacksId_self id ts h.1))
]

-- `take_id` finds the one item with the identifier, or there is none.
abbrev Taken : Text → List QueuedTransfer → Option (QueuedTransfer × List QueuedTransfer) → Type 0
Taken id ts none = All (LacksId id) ts
Taken id ts (some (t, others)) = (t.id ≡ id) × Memᴰ t ts × (others ≡ without_id id ts)

Taken-skip :
    (id : Text) (t : QueuedTransfer) (ts : List QueuedTransfer)
    → text_eq t.id id ≡ false
    → (o : Option (QueuedTransfer × List QueuedTransfer)) → Taken id ts o
    → Taken id (t ∷ ts) (elim o [ none ↦ none | some (found, others) ↦ some (found, t ∷ others) ])
unfolding without_id
Taken-skip id t ts e none h = (text_ne t.id id e, h)
Taken-skip id t ts e (some (u, others)) h = rw e (h.0, Memᴰ.tail h.1, ap (λ us. t ∷ us) h.2)

without_id-head :
    (id : Text) (t : QueuedTransfer) (ts : List QueuedTransfer)
    → text_eq t.id id ≡ true
    → All (LacksId id) ts
    → ts ≡ without_id id (t ∷ ts)
unfolding without_id
without_id-head id t ts e h = rw e (sym (without_id-LacksId_self id ts h))

take_id-Taken :
    (id : Text) (ts : List QueuedTransfer) → HasUniqueIds ts → Taken id ts (take_id id ts)
unfolding take_id
take_id-Taken id [] h = tt
take_id-Taken id (t ∷ ts) h = elim (Bool-cases (text_eq t.id id)) [
  | inl e ↦
      let same : t.id ≡ id = (text_eq_iff t.id id).0 e in
      let others : All (LacksId id) ts = subst (λ i. All (LacksId i) ts) same h.0 in
      rw e (same, Memᴰ.head refl, without_id-head id t ts e others)
  | inr e ↦ rw e (Taken-skip id t ts e (take_id id ts) (take_id-Taken id ts h.1))
]

-- What `dequeue` promises, of the state after it and its result.
abbrev pub Dequeued : Text → QueueFile → QueueFile × IoResult (Option QueuedTransfer) → Type 0
Dequeued id file (file', r) =
    IsQueue file'
    × ((p : ℕ) → view file' p ≡ without_id id (view file p))
    × (((r ≡ ok none) × (file' ≡ file) × All (LacksId id) (list file))
        ⊎ ((t : QueuedTransfer) × (r ≡ ok (some t)) × (t.id ≡ id) × Memᴰ t (list file)))

finish_dequeue-Dequeued :
    (id : Text) (file : QueueFile) (o : Option (QueuedTransfer × List QueuedTransfer))
    → IsQueue file
    → Taken id (list file) o
    → Dequeued id file (finish_dequeue true file o)
finish_dequeue-Dequeued id file none q h =
    unfold finish_dequeue in
    (
      q,
      λ p.
          ap (of_priority p) (sym (without_id-LacksId_self id (list file) h))
          ∙ of_priority-without_id p id (list file),
      inl (refl, refl, h),
    )
finish_dequeue-Dequeued id file (some (t, others)) q h =
    unfold finish_dequeue list in
    (
      record {
        sorted = rw h.2 (without_id-IsSorted id _ q.sorted);
        unique = rw h.2 (without_id-HasUniqueIds id _ q.unique);
      },
      λ p. rw h.2 (of_priority-without_id p id _),
      inr (t, refl, h.0, h.1),
    )

-- `dequeue` of a queue whose file can be written leaves a queue with each priority's other items in
-- their order; it answers the item with the identifier, or `none`, with the file left alone, where
-- there is none.
pub dequeue_lem :
    (id : Text) (file : QueueFile) → IsQueue file → Dequeued id file (dequeue true id file)
dequeue_lem id file q =
    unfold dequeue in
    finish_dequeue-Dequeued id file (take_id id (list file)) q
      (take_id-Taken id (list file) q.unique)

-- Where the file cannot be written, `enqueue`, `dequeue` and `drain` leave it as it was, so no item
-- is lost, and `enqueue` and `drain` answer an error; where it can, `drain` answers every item and
-- leaves the queue empty.
pub failed_save_keeps :
    (t : QueuedTransfer) (id : Text) (file : QueueFile)
    → (enqueue false t file ≡ (file, failed))
      × ((dequeue false id file).0 ≡ file)
      × (drain false file ≡ (file, failed))
      × ((drain true file).1 ≡ ok (list file))
      × (list (drain true file).0 ≡ [])
unfolding enqueue dequeue drain
failed_save_keeps t id file = (refl, ground arith, refl, refl, refl)
