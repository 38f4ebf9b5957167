-- ===== src/Agent/Queue/Order.antt =====
-- The order of the queue: sorted, with unique identifiers, stable in each priority.
use pcos.Prelude.{
  ℕ, ◌≤◌, ◌≡◌, ◌≢◌, refl, sym, ap, ◌∙◌, List, [], ◌∷◌, ◌==◌, leb, if◌then◌else◌, arith, All,
  Bool-cases, inl, inr,
}
use pcos.Prelude.Members.{All-map}
use pcos.Agent.Queue.{QueuedTransfer, insert_by_priority, sort_by_priority}

-- The highest priority first.
abbrev pub IsSorted : List QueuedTransfer → Type 0
IsSorted [] = Unit
IsSorted (t ∷ ts) = All (λ (u : QueuedTransfer). u.priority ≤ t.priority) ts × IsSorted ts

abbrev pub HasUniqueIds : List QueuedTransfer → Type 0
HasUniqueIds [] = Unit
HasUniqueIds (t ∷ ts) = All (λ (u : QueuedTransfer). u.id ≢ t.id) ts × HasUniqueIds ts

-- The items of one priority, in their order.
unfoldable pub of_priority : ℕ → List QueuedTransfer → List QueuedTransfer
of_priority p [] = []
of_priority p (t ∷ ts) = let rest = of_priority p ts in if t.priority == p then t ∷ rest else rest

insert-All {κ} :
    (P : QueuedTransfer → Type κ) (t : QueuedTransfer) (us : List QueuedTransfer)
    → P t
    → All P us
    → All P (insert_by_priority t us)
unfolding insert_by_priority
insert-All P t [] ht h = (ht, tt)
insert-All P t (u ∷ us) ht h = elim (Bool-cases (leb u.priority t.priority)) [
  | inl e ↦ rw e (ht, h)
  | inr e ↦ rw e (h.0, insert-All P t us ht h.1)
]

insert-IsSorted :
    (t : QueuedTransfer) (us : List QueuedTransfer)
    → IsSorted us
    → IsSorted (insert_by_priority t us)
unfolding insert_by_priority
insert-IsSorted t [] h = (tt, tt)
insert-IsSorted t (u ∷ us) h = elim (Bool-cases (leb u.priority t.priority)) [
  | inl e ↦ rw e (
    (
      ground arith,
      All-map (λ (v : QueuedTransfer). v.priority ≤ u.priority) (λ v. v.priority ≤ t.priority) us
          (λ v k. ground arith) h.0,
    ),
    h,
  )
  | inr e ↦ rw e (
    insert-All (λ (v : QueuedTransfer). v.priority ≤ u.priority) t us (ground arith) h.0,
    insert-IsSorted t us h.1,
  )
]

pub sort-IsSorted : (ts : List QueuedTransfer) → IsSorted (sort_by_priority ts)
unfolding sort_by_priority
sort-IsSorted [] = tt
sort-IsSorted (t ∷ ts) = insert-IsSorted t (sort_by_priority ts) (sort-IsSorted ts)

insert-HasUniqueIds :
    (t : QueuedTransfer) (us : List QueuedTransfer)
    → All (λ (u : QueuedTransfer). u.id ≢ t.id) us
    → HasUniqueIds us
    → HasUniqueIds (insert_by_priority t us)
unfolding insert_by_priority
insert-HasUniqueIds t [] ht h = (tt, tt)
insert-HasUniqueIds t (u ∷ us) ht h = elim (Bool-cases (leb u.priority t.priority)) [
  | inl e ↦ rw e (ht, h)
  | inr e ↦ rw e (
    insert-All (λ (v : QueuedTransfer). v.id ≢ u.id) t us (λ p. ht.0 (sym p)) h.0,
    insert-HasUniqueIds t us ht.1 h.1,
  )
]

sort-All {κ} :
    (P : QueuedTransfer → Type κ) (ts : List QueuedTransfer)
    → All P ts
    → All P (sort_by_priority ts)
unfolding sort_by_priority
sort-All P [] h = tt
sort-All P (t ∷ ts) h = insert-All P t (sort_by_priority ts) h.0 (sort-All P ts h.1)

pub sort-HasUniqueIds :
    (ts : List QueuedTransfer) → HasUniqueIds ts → HasUniqueIds (sort_by_priority ts)
unfolding sort_by_priority
sort-HasUniqueIds [] h = tt
sort-HasUniqueIds (t ∷ ts) h =
    insert-HasUniqueIds t (sort_by_priority ts) (sort-All _ ts h.0) (sort-HasUniqueIds ts h.1)

-- The sort is stable.
of_priority-insert :
    (p : ℕ) (t : QueuedTransfer) (us : List QueuedTransfer)
    → of_priority p (insert_by_priority t us) ≡ of_priority p (t ∷ us)
unfolding insert_by_priority of_priority
of_priority-insert p t [] = refl
of_priority-insert p t (u ∷ us) = ground (arith, of_priority-insert p t us)

pub of_priority-sort :
    (p : ℕ) (ts : List QueuedTransfer) → of_priority p (sort_by_priority ts) ≡ of_priority p ts
unfolding sort_by_priority of_priority
of_priority-sort p [] = refl
of_priority-sort p (t ∷ ts) =
    of_priority-insert p t (sort_by_priority ts)
    ∙ ap (λ rest. if t.priority == p then t ∷ rest else rest) (of_priority-sort p ts)
