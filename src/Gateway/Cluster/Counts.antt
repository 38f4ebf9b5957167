-- ===== src/Gateway/Cluster/Counts.antt =====
-- Counting the replicas of a file while others are placed: backend/crates/gateway/src/cluster.rs.
use pcos.Prelude.{
  ℕ, ◌+◌, ◌≡◌, inl, inr, refl, arith, List, [], ◌∷◌, ◌++◌, Bool, true, false, not, if◌then◌else◌,
  any, Text, Bool-cases,
}
use pcos.Files.Table.{Row}
use pcos.Gateway.Cluster.{Device, Replica, count_replicas, is_on, new_replica, place}

pub count-append :
    (test : Replica → Bool) (rs : List Replica) (r : Replica)
    → count_replicas test (rs ++ r ∷ []) ≡ count_replicas test rs + (if test r then 1 else 0)
count-append test [] r = omega arith
count-append test (s ∷ rs) r = omega (arith, count-append test rs r)

pub any-append :
    (test : Replica → Bool) (rs : List Replica) (r : Replica)
    → test r ≡ false
    → any test (rs ++ r ∷ []) ≡ any test rs
any-append test [] r h = rw (h, any) refl
any-append test (s ∷ rs) r h = elim (Bool-cases (test s)) [
  | inl e ↦ rw (e, any) refl
  | inr e ↦ rw (e, any) (any-append test rs r h)
]

module _ (show : ℕ → Text) (rep_id : ℕ → ℕ → Text) (now : ℕ) where
  -- Some device has no replica of the file.
  abbrev pub has_free : ℕ → List Device → List Replica → Bool
  has_free file devices replicas =
      any (λ (d : Device). not (any (is_on show rep_id now file d.id) replicas)) devices

  pub place_free :
      (f : Row) (devices : List Device) (replicas : List Replica)
      → has_free f.id devices replicas ≡ true
      → (d : Device) × (place show rep_id now f devices replicas
          ≡ (1, replicas ++ new_replica show rep_id now f d.id ∷ []))
  unfolding place
  place_free f [] replicas h = absurd (ground arith)
  place_free f (d ∷ devices) replicas h =
      elim (Bool-cases (any (is_on show rep_id now f.id d.id) replicas)) [
        | inl e ↦
            let (x, p) = place_free f devices replicas (rw (e, any) at h) in (x, rw (e, place) p)
        | inr e ↦ (d, rw (e, place) refl)
      ]

  pub place_full :
      (f : Row) (devices : List Device) (replicas : List Replica)
      → has_free f.id devices replicas ≡ false
      → place show rep_id now f devices replicas ≡ (0, replicas)
  unfolding place
  place_full f [] replicas h = refl
  place_full f (d ∷ devices) replicas h =
      elim (Bool-cases (any (is_on show rep_id now f.id d.id) replicas)) [
        | inl e ↦ rw (e, place) (place_full f devices replicas (rw (e, any) at h))
        | inr e ↦ absurd (let h' = rw (e, any) at h in ground arith)
      ]
