-- ===== src/Files/Placement/Node.antt =====
-- The node that is recommended.
use mathlib.Core.Path.{subst}
use mathlib.Core.List.{Memᴰ}
use pcos.Prelude.{
  ℕ, ◌≤◌, ◌≡◌, ◌⊎◌, refl, sym, List, [], ◌∷◌, Option, none, some, true, false, arith, All, Text,
  ltb, Bool-cases, inl, inr,
}
use pcos.Prelude.Members.{All-map}
use pcos.Files.Placement.{StorageNode, is_candidate, freer, freest_node, evaluate_storage}

-- A node is no candidate, or has at most so many free bytes.
abbrev pub IsAtMost : ℕ → ℕ → StorageNode → Type 0
IsAtMost user free n = (is_candidate user n ≡ false) ⊎ (n.free_bytes ≤ free)

abbrev pub IsFreest : ℕ → List StorageNode → Option StorageNode → Type 0
IsFreest user ns none = All (λ (n : StorageNode). is_candidate user n ≡ false) ns
IsFreest user ns (some m) =
    Memᴰ m ns × (is_candidate user m ≡ true) × All (IsAtMost user m.free_bytes) ns

raise_bound :
    (user a b : ℕ) (ns : List StorageNode)
    → a ≤ b
    → All (IsAtMost user a) ns
    → All (IsAtMost user b) ns
raise_bound user a b ns h =
    All-map (IsAtMost user a) (IsAtMost user b) ns
      λ (n : StorageNode) q. elim q [ inl e ↦ inl e | inr le ↦ inr (omega (arith, le, h)) ]

keeps :
    (user : ℕ) (n : StorageNode) (ns : List StorageNode) (o : Option StorageNode)
    → is_candidate user n ≡ true
    → IsFreest user ns o
    → IsFreest user (n ∷ ns) (some (freer n o))
keeps user n ns none e h = (
  Memᴰ.head refl,
  e,
  (inr (omega arith), All-map _ (IsAtMost user n.free_bytes) ns (λ m q. inl q) h),
)
keeps user n ns (some m) e h = elim (Bool-cases (ltb n.free_bytes m.free_bytes)) [
  | inl lt ↦
      let chosen : freer n (some m) ≡ m = rw (lt, freer) refl in
      subst (λ (x : StorageNode). IsFreest user (n ∷ ns) (some x)) (sym chosen)
        (Memᴰ.tail h.0, h.1, (inr (ground arith), h.2))
  | inr ge ↦
      let chosen : freer n (some m) ≡ n = rw (ge, freer) refl in
      subst (λ (x : StorageNode). IsFreest user (n ∷ ns) (some x)) (sym chosen)
        (
          Memᴰ.head refl,
          e,
          (inr (omega arith), raise_bound user m.free_bytes n.free_bytes ns (ground arith) h.2),
        )
]

passes :
    (user : ℕ) (n : StorageNode) (ns : List StorageNode) (o : Option StorageNode)
    → is_candidate user n ≡ false
    → IsFreest user ns o
    → IsFreest user (n ∷ ns) o
passes user n ns none e h = (e, h)
passes user n ns (some m) e h = (Memᴰ.tail h.0, h.1, (inl e, h.2))

freest_node-IsFreest : (user : ℕ) (ns : List StorageNode) → IsFreest user ns (freest_node user ns)
unfolding freest_node
freest_node-IsFreest user [] = tt
freest_node-IsFreest user (n ∷ ns) =
    let rest = freest_node-IsFreest user ns in
    elim (Bool-cases (is_candidate user n)) [
      | inl e ↦ rw e (keeps user n ns (freest_node user ns) e rest)
      | inr e ↦ rw e (passes user n ns (freest_node user ns) e rest)
    ]

-- Which node `evaluate_storage` recommends, for any file: one of the user's that is online, none of which
-- has more free bytes; or none, and then the user has none online.
pub evaluate_storage-IsFreest :
    (to_lowercase : Text → Text) (user : ℕ) (name mime_type : Option Text) (ns : List StorageNode)
    → IsFreest user ns (evaluate_storage to_lowercase user name mime_type ns).node
unfolding evaluate_storage
evaluate_storage-IsFreest to_lowercase user name mime_type ns = freest_node-IsFreest user ns
