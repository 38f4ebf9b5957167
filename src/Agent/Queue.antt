-- ===== src/Agent/Queue.antt =====
-- The offline transfer queue of agent/src/queue.rs. The state is the queue's file. Its JSON text is
-- taken as the list that serde_json reads from it; whether the system calls of `save` succeed is an
-- argument, and `save` renames a finished temporary file, so a failed one leaves the file as it was.
mod Sort
mod Order
pub mod Laws
mod Examples
pub use Sort.{QueuedTransfer}
unfoldable pub use Sort.{insert_by_priority, sort_by_priority}
use pcos.Prelude.{
  ℕ, List, [], ◌∷◌, ◌++◌, Option, none, some, Bool, true, false, not, Text, text_eq, if◌then◌else◌,
  length, leb,
}

-- What `exists`, `read_to_string` and `from_str` find: no file, a file that cannot be read or parsed,
-- or items.
pub data QueueFile : Type 0 where
  absent unreadable : QueueFile
  items : List QueuedTransfer → QueueFile

pub data IoResult {ℓ} (A : Type ℓ) : Type ℓ where
  ok : A → IoResult A
  failed : IoResult A

pub list : QueueFile → List QueuedTransfer
list absent = []
list unreadable = []
list (items ts) = ts

pub save : Bool → List QueuedTransfer → QueueFile → QueueFile × IoResult (Unit {0})
save true ts file = (items ts, ok tt)
save false ts file = (file, failed)

-- `items.retain(|i| i.id != id)`.
pub without_id : Text → List QueuedTransfer → List QueuedTransfer
without_id id [] = []
without_id id (t ∷ ts) = let rest = without_id id ts in if text_eq t.id id then rest else t ∷ rest

pub enqueue : Bool → QueuedTransfer → QueueFile → QueueFile × IoResult (Unit {0})
unfolding list save without_id
enqueue io transfer file =
    save io (sort_by_priority (without_id transfer.id (list file) ++ transfer ∷ [])) file

-- `items.iter().position(|i| i.id == id)` with `items.remove(pos)`: the first item with the id, and
-- the other items.
pub take_id : Text → List QueuedTransfer → Option (QueuedTransfer × List QueuedTransfer)
take_id id [] = none
take_id id (t ∷ ts) =
    let rest = take_id id ts in
    if text_eq t.id id
    then some (t, ts)
    else elim rest [ none ↦ none | some (found, others) ↦ some (found, t ∷ others) ]

-- `self.save(&items)?; Ok(Some(removed))`.
abbrev saved :
    QueuedTransfer → QueueFile × IoResult (Unit {0}) → QueueFile × IoResult (Option QueuedTransfer)
saved t (file, ok _) = (file, ok (some t))
saved t (file, failed) = (file, failed)

-- The two branches of `dequeue`.
pub finish_dequeue :
    Bool
    → QueueFile
    → Option (QueuedTransfer × List QueuedTransfer)
    → QueueFile × IoResult (Option QueuedTransfer)
unfolding save
finish_dequeue io file none = (file, ok none)
finish_dequeue io file (some (removed, others)) = saved removed (save io others file)

pub dequeue : Bool → Text → QueueFile → QueueFile × IoResult (Option QueuedTransfer)
unfolding list finish_dequeue take_id
dequeue io id file = finish_dequeue io file (take_id id (list file))

abbrev drained :
    List QueuedTransfer
    → QueueFile × IoResult (Unit {0})
    → QueueFile × IoResult (List QueuedTransfer)
drained ts (file, ok _) = (file, ok ts)
drained ts (file, failed) = (file, failed)

pub drain : Bool → QueueFile → QueueFile × IoResult (List QueuedTransfer)
unfolding list save
drain io file = drained (list file) (save io [] file)

pub len : QueueFile → ℕ
unfolding list
len file = length (list file)

pub is_empty : QueueFile → Bool
unfolding list
is_empty file = elim (list file) [ [] ↦ true | t ∷ ts ↦ false ]
