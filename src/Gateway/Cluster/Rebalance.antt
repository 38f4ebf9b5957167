-- ===== src/Gateway/Cluster/Rebalance.antt =====
-- What `rebalance_cluster` of backend/crates/gateway/src/cluster.rs does to the replicas of each file.
use mathlib.Core.List.{Memᴰ}
use mathlib.Core.Path.{subst}
use pcos.Prelude.{
  ℕ, suc, ◌+◌, ◌≡◌, ◌≢◌, ◌⊎◌, inl, inr, refl, sym, ap, ◌∙◌, arith, List, [], ◌∷◌, ◌++◌, Bool, true,
  false, not, ◌&&◌, ltb, ◌==◌, ==_iff, any, length, length-append, Text, Bool-cases,
}
use pcos.Files.Table.{Row, is_keyed, select}
use pcos.Prelude.Members.{any_of_mem}
use pcos.Files.Service.Owned.{split_and, not-true}
use pcos.Gateway.Cluster.{
  Device, Replica, Cluster, find_protection, online_devices, mode_of, target_replicas, is_active,
  replica_count, is_on, new_replica, rebalance_file, rebalance_files, rebalance_cluster,
}
use pcos.Gateway.Cluster.Counts.{count-append, any-append, has_free, place_free, place_full}

module _ (show : ℕ → Text) (rep_id : ℕ → ℕ → Text) (now target : ℕ) (devices : List Device) where
  abbrev one : Row → List Replica → ℕ × List Replica
  one = rebalance_file show rep_id now target devices

  abbrev many : List Row → List Replica → ℕ × List Replica
  many = rebalance_files show rep_id now target devices

  abbrev free : ℕ → List Replica → Bool
  free x rs = has_free show rep_id now x devices rs

  -- Too few replicas, and a device to place one on.
  abbrev pub is_short : ℕ → List Replica → Bool
  is_short x rs =
      ltb 1 target && ltb 1 (length devices) && ltb (replica_count x rs) target && free x rs

  -- Nothing changes for the file `x`.
  abbrev Same : ℕ → List Replica → List Replica → Type 0
  Same x rs rs' = (replica_count x rs' ≡ replica_count x rs) × (free x rs' ≡ free x rs)

  -- What one round does for the file `x`.
  abbrev pub Grows : ℕ → List Replica → List Replica → Type 0
  Grows x rs rs' =
      ((is_short x rs ≡ true) × (replica_count x rs' ≡ suc (replica_count x rs)))
      ⊎ ((is_short x rs ≡ false) × (replica_count x rs' ≡ replica_count x rs))

  not_on :
      (x d e : ℕ) (g : Row)
      → g.id ≢ x
      → is_on show rep_id now x d (new_replica show rep_id now g e) ≡ false
  not_on x d e g n = elim (Bool-cases (g.id == x)) [
    | inl h ↦ absurd (n ((==_iff g.id x).0 h))
    | inr h ↦ rw h refl
  ]

  free_other :
      (x e : ℕ) (g : Row) (rs : List Replica) (ds : List Device)
      → g.id ≢ x
      → has_free show rep_id now x ds (rs ++ new_replica show rep_id now g e ∷ [])
        ≡ has_free show rep_id now x ds rs
  free_other x e g rs [] n = refl
  free_other x e g rs (d ∷ ds) n =
      let same =
        any-append (is_on show rep_id now x d.id) rs (new_replica show rep_id now g e)
          (not_on x d.id e g n) in
      λ i. elim (not (same i)) [ true ↦ true | false ↦ free_other x e g rs ds n i ]

  count_other :
      (x e : ℕ) (g : Row) (rs : List Replica)
      → g.id ≢ x
      → replica_count x (rs ++ new_replica show rep_id now g e ∷ []) ≡ replica_count x rs
  count_other x e g rs n = elim (Bool-cases (g.id == x)) [
    | inl h ↦ absurd (n ((==_iff g.id x).0 h))
    | inr h ↦
        let sum = count-append (λ r. r.file_id == x) rs (new_replica show rep_id now g e) in
        let sum' = rw h at sum in omega (arith, sum')
  ]

  one_other : (x : ℕ) (g : Row) (rs : List Replica) → g.id ≢ x → Same x rs (one g rs).1
  one_other x g rs n =
      elim (Bool-cases
        (ltb 1 target && ltb 1 (length devices) && ltb (replica_count g.id rs) target)) [
          | inr e ↦ rw e (refl, refl)
          | inl e ↦ elim (Bool-cases (free g.id rs)) [
            | inr f ↦ rw (e, place_full show rep_id now g devices rs f) (refl, refl)
            | inl f ↦
                let (d, p) = place_free show rep_id now g devices rs f in
                rw (e, p) (count_other x d.id g rs n, free_other x d.id g rs devices n)
          ]
        ]

  many_other :
      (x : ℕ) (files : List Row) (rs : List Replica)
      → any (λ (f : Row). f.id == x) files ≡ false
      → Same x rs (many files rs).1
  unfolding rebalance_files
  many_other x [] rs h = (refl, refl)
  many_other x (g ∷ files) rs h = elim (Bool-cases (g.id == x)) [
    | inl e ↦ absurd (let h' = rw (e, any) at h in ground arith)
    | inr e ↦
        let differ : g.id ≢ x = λ same. false_true (sym e ∙ (==_iff g.id x).1 same) in
        let (c, f) = one_other x g rs differ in
        let (c', f') = many_other x files (one g rs).1 (rw (e, any) at h) in (c' ∙ c, f' ∙ f)
  ]
    where
      false_true : false ≡ true → ⊥
      false_true h = ground arith

  one_here : (f : Row) (rs : List Replica) → Grows f.id rs (one f rs).1
  one_here f rs =
      elim (Bool-cases
        (ltb 1 target && ltb 1 (length devices) && ltb (replica_count f.id rs) target)) [
          | inr e ↦ rw e (inr (refl, refl))
          | inl e ↦ elim (Bool-cases (free f.id rs)) [
            | inr g ↦ rw (e, place_full show rep_id now f devices rs g) (inr (g, refl))
            | inl g ↦
                let (d, p) = place_free show rep_id now f devices rs g in
                let sum =
                  count-append (λ r. r.file_id == f.id) rs (new_replica show rep_id now f d.id) in
                let same : (f.id == f.id) ≡ true = (==_iff f.id f.id).1 refl in
                let sum' = rw same at sum in rw (e, p) (inl (g, omega (arith, sum')))
          ]
        ]

  abbrev short_by : ℕ → Bool → Bool
  short_by count f = ltb 1 target && ltb 1 (length devices) && ltb count target && f

  both : {b : Bool} → b ≡ true → b ≡ false → ⊥
  both h k = let same : true ≡ false = sym h ∙ k in ground arith

  then_same :
      (x : ℕ) (rs rs' after : List Replica)
      → Grows x rs rs'
      → replica_count x after ≡ replica_count x rs'
      → Grows x rs after
  then_same x rs rs' after (inl (short, grown)) c = inl (short, c ∙ grown)
  then_same x rs rs' after (inr (short, same)) c = inr (short, c ∙ same)

  step_back :
      (x : ℕ) (rs rs' after : List Replica) → Same x rs rs' → Grows x rs' after → Grows x rs after
  step_back x rs rs' after (c, f) (inl (short, grown)) = inl (
    subst (λ b. short_by b (free x rs) ≡ true) c
        (subst (λ b. short_by (replica_count x rs') b ≡ true) f short),
    grown ∙ ap suc c,
  )
  step_back x rs rs' after (c, f) (inr (short, same)) = inr (
    subst (λ b. short_by b (free x rs) ≡ false) c
        (subst (λ b. short_by (replica_count x rs') b ≡ false) f short),
    same ∙ c,
  )

  many_here :
      (f : Row) (files : List Row) (rs : List Replica)
      → Memᴰ f files
      → is_keyed files ≡ true
      → Grows f.id rs (many files rs).1
  unfolding rebalance_files is_keyed
  many_here f [] rs m k = elim m [ ]
  many_here f (g ∷ files) rs (Memᴰ.head e) k =
      let (fresh, keyed) = split_and _ (is_keyed files) k in
      let (c, h) = many_other g.id files (one g rs).1 (not-true _ fresh) in
      subst (λ (x : Row). Grows x.id rs (many files (one g rs).1).1) (sym e)
        (then_same g.id rs (one g rs).1 (many files (one g rs).1).1 (one_here g rs) c)
  many_here f (g ∷ files) rs (Memᴰ.tail m) k =
      let (fresh, keyed) = split_and _ (is_keyed files) k in
      let differ : g.id ≢ f.id = λ same.
        both (any_of_mem (λ (x : Row). x.id == g.id) m ((==_iff f.id g.id).1 (sym same)))
          (not-true _ fresh) in
      step_back f.id rs (one g rs).1 (many files (one g rs).1).1 (one_other f.id g rs differ)
        (many_here f files (one g rs).1 m keyed)

  -- The number of replicas grows by what is answered.
  one_added : (g : Row) (rs : List Replica) → length (one g rs).1 ≡ length rs + (one g rs).0
  one_added g rs =
      elim (Bool-cases
        (ltb 1 target && ltb 1 (length devices) && ltb (replica_count g.id rs) target)) [
          | inr e ↦ rw e (omega arith)
          | inl e ↦ elim (Bool-cases (free g.id rs)) [
            | inr f ↦ rw (e, place_full show rep_id now g devices rs f) (omega arith)
            | inl f ↦
                let (d, p) = place_free show rep_id now g devices rs f in
                rw (e, p)
                  (omega (arith, length-append rs (new_replica show rep_id now g d.id ∷ [])))
          ]
        ]

  many_added :
      (files : List Row) (rs : List Replica)
      → length (many files rs).1 ≡ length rs + (many files rs).0
  unfolding rebalance_files
  many_added [] rs = omega arith
  many_added (g ∷ files) rs = omega (arith, one_added g rs, many_added files (one g rs).1)

any-select :
    (p test : Row → Bool) (rows : List Row) → any p rows ≡ false → any p (select test rows) ≡ false
unfolding select
any-select p test [] h = refl
any-select p test (r ∷ rows) h = elim (Bool-cases (p r)) [
  | inl f ↦ absurd (let h' = rw (f, any) at h in ground arith)
  | inr f ↦ elim (Bool-cases (test r)) [
    | inl e ↦ rw (e, any, f) (any-select p test rows (rw (f, any) at h))
    | inr e ↦ rw e (any-select p test rows (rw (f, any) at h))
  ]
]

keyed_select :
    (test : Row → Bool) (rows : List Row)
    → is_keyed rows ≡ true
    → is_keyed (select test rows) ≡ true
unfolding select is_keyed
keyed_select test [] k = refl
keyed_select test (r ∷ rows) k =
    let (fresh, rest) = split_and _ (is_keyed rows) k in
    elim (Bool-cases (test r)) [
      | inr e ↦ rw e (keyed_select test rows rest)
      | inl e ↦
          let fresh' = any-select (λ (x : Row). x.id == r.id) test rows (not-true _ fresh) in
          rw (e, is_keyed, fresh') (keyed_select test rows rest)
    ]

Mem-select :
    (test : Row → Bool) (x : Row) (rows : List Row)
    → Memᴰ x rows
    → test x ≡ true
    → Memᴰ x (select test rows)
unfolding select
Mem-select test x [] m h = elim m [ ]
Mem-select test x (r ∷ rows) (Memᴰ.head e) h =
    let here : test r ≡ true = subst (λ y. test y ≡ true) e h in rw here (Memᴰ.head e)
Mem-select test x (r ∷ rows) (Memᴰ.tail m) h = elim (Bool-cases (test r)) [
  | inl e ↦ rw e (Memᴰ.tail (Mem-select test x rows m h))
  | inr e ↦ rw e (Mem-select test x rows m h)
]

-- Where identifiers of files are unique and a file of the user's is not trashed, rebalancing does this: it gets exactly one more replica if the mode wants more than one, more than
-- one device is online, the file has fewer than the mode wants and some online device has none of it, and
-- none otherwise; and all replicas together grow by the number that is answered.
pub rebalance_cluster_lem :
    (show : ℕ → Text) (rep_id : ℕ → ℕ → Text) (now user : ℕ) (c : Cluster) (f : Row)
    → Memᴰ f c.files
    → is_active user f ≡ true
    → is_keyed c.files ≡ true
    → let target = target_replicas (mode_of (find_protection user c.protections)) in
      let ((added, verified), after) = rebalance_cluster show rep_id now user c in
      Grows show rep_id now target (online_devices user c.devices) f.id c.replicas after.replicas
      × (length after.replicas ≡ length c.replicas + added)
unfolding rebalance_cluster
rebalance_cluster_lem show rep_id now user c f m active keyed =
    let target = target_replicas (mode_of (find_protection user c.protections)) in
    let devices = online_devices user c.devices in
    let files = select (is_active user) c.files in
    (
      many_here show rep_id now target devices f files c.replicas
          (Mem-select (is_active user) f c.files m active)
          (keyed_select (is_active user) c.files keyed),
      many_added show rep_id now target devices files c.replicas,
    )
