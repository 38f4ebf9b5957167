-- ===== src/Agent/Jail/Removal.antt =====
-- What `FsHandler::delete` of agent/src/fs_handler.rs removes.
use mathlib.Core.Path.{subst}
use pcos.Prelude.{
  ◌≡◌, ◌⊎◌, inl, inr, refl, sym, ap, ◌∙◌, arith, [], ◌∷◌, Option, none, some, Bool, true, false,
  if◌then◌else◌, Text, text_eq_iff, text_eq_self, text_eq, Bool-cases,
}
use pcos.Agent.Jail.{
  PathBuf, canonicalize, is_within, Resolved, resolved, refused, safe_resolve, io,
  permission_denied,
}
use pcos.Agent.Jail.Canonical.{safe_resolve_lem}
use pcos.Agent.Jail.Disk.{
  Object, contents, directory, symlink, Disk, path_eq, lookup, nodes, object_at, remove_at,
  remove_below, is_empty_dir,
}
use pcos.Agent.Jail.Operations.{
  FsResult, success, failure, change_at, remove_object, delete_below, delete,
}

pub path_eq_self : (p : PathBuf) → path_eq p p ≡ true
path_eq_self [] = refl
path_eq_self (c ∷ p) = rw (text_eq_self c) (path_eq_self p)

pub path_eq_sound : (p q : PathBuf) → path_eq p q ≡ true → p ≡ q
path_eq_sound [] [] h = refl
path_eq_sound [] (d ∷ q) h = absurd (ground arith)
path_eq_sound (c ∷ p) [] h = absurd (ground arith)
path_eq_sound (c ∷ p) (d ∷ q) h = elim (Bool-cases (text_eq c d)) [
  | inr e ↦ absurd (let h' = rw e at h in ground arith)
  | inl e ↦
      let same = (text_eq_iff c d).0 e in
      let rest = path_eq_sound p q (rw e at h) in ap (λ x. x ∷ p) same ∙ ap (λ x. d ∷ x) rest
]

within_self : (p : PathBuf) → is_within p p ≡ true
within_self [] = refl
within_self (c ∷ p) = rw (text_eq_self c) (within_self p)

within_trans :
    (r p q : PathBuf) → is_within r p ≡ true → is_within p q ≡ true → is_within r q ≡ true
within_trans [] p q h k = refl
within_trans (c ∷ r) [] q h k = absurd (ground arith)
within_trans (c ∷ r) (d ∷ p) [] h k = absurd (ground arith)
within_trans (c ∷ r) (d ∷ p) (e ∷ q) h k = elim (Bool-cases (text_eq c d)) [
  | inr n ↦ absurd (let h' = rw n at h in ground arith)
  | inl y ↦ elim (Bool-cases (text_eq d e)) [
    | inr n ↦ absurd (let k' = rw n at k in ground arith)
    | inl z ↦
        let same : text_eq c e ≡ true =
          subst (λ x. text_eq x e ≡ true) (sym ((text_eq_iff c d).0 y)) z in
        rw same (within_trans r p q (rw y at h) (rw z at k))
  ]
]

within_antisym : (r p : PathBuf) → is_within r p ≡ true → is_within p r ≡ true → path_eq p r ≡ true
within_antisym [] [] h k = refl
within_antisym [] (d ∷ p) h k = absurd (ground arith)
within_antisym (c ∷ r) [] h k = absurd (ground arith)
within_antisym (c ∷ r) (d ∷ p) h k = elim (Bool-cases (text_eq c d)) [
  | inr n ↦ absurd (let h' = rw n at h in ground arith)
  | inl y ↦ elim (Bool-cases (text_eq d c)) [
    | inr n ↦ absurd (let k' = rw n at k in ground arith)
    | inl z ↦ rw z (within_antisym r p (rw y at h) (rw z at k))
  ]
]

pub some_injective : {p q : PathBuf} → some p ≡ some q → p ≡ q
some_injective h = cc

both : {b : Bool} → b ≡ true → b ≡ false → ⊥
both h k = let same : true ≡ false = sym h ∙ k in ground arith

-- What is not removed stays.
lookup-remove_at :
    (p q : PathBuf) (disk : Disk)
    → path_eq p q ≡ false
    → lookup (remove_at p disk) q ≡ lookup disk q
unfolding lookup remove_at
lookup-remove_at p q [] n = refl
lookup-remove_at p q ((s, o) ∷ disk) n = elim (Bool-cases (path_eq p s)) [
  | inr e ↦ rw e (ap (λ l. if path_eq s q then some o else l) (lookup-remove_at p q disk n))
  | inl e ↦ elim (Bool-cases (path_eq s q)) [
    | inl f ↦ absurd (both (subst (λ x. path_eq p x ≡ true) (path_eq_sound s q f) e) n)
    | inr f ↦ rw (e, f) (lookup-remove_at p q disk n)
  ]
]

lookup-remove_below :
    (p q : PathBuf) (disk : Disk)
    → is_within p q ≡ false
    → lookup (remove_below p disk) q ≡ lookup disk q
unfolding lookup remove_below
lookup-remove_below p q [] n = refl
lookup-remove_below p q ((s, o) ∷ disk) n = elim (Bool-cases (is_within p s)) [
  | inr e ↦ rw e (ap (λ l. if path_eq s q then some o else l) (lookup-remove_below p q disk n))
  | inl e ↦ elim (Bool-cases (path_eq s q)) [
    | inl f ↦ absurd (both (subst (λ x. is_within p x ≡ true) (path_eq_sound s q f) e) n)
    | inr f ↦ rw (e, f) (lookup-remove_below p q disk n)
  ]
]

remove_at_gone : (p : PathBuf) (disk : Disk) → lookup (remove_at p disk) p ≡ none
unfolding lookup remove_at
remove_at_gone p [] = refl
remove_at_gone p ((s, o) ∷ disk) = elim (Bool-cases (path_eq p s)) [
  | inl e ↦ rw e (remove_at_gone p disk)
  | inr e ↦ elim (Bool-cases (path_eq s p)) [
    | inl f ↦
        absurd
          (both (subst (λ x. path_eq p x ≡ true) (sym (path_eq_sound s p f)) (path_eq_self p)) e)
    | inr f ↦ rw (e, lookup, f) (remove_at_gone p disk)
  ]
]

remove_below_gone :
    (p q : PathBuf) (disk : Disk) → is_within p q ≡ true → lookup (remove_below p disk) q ≡ none
unfolding lookup remove_below
remove_below_gone p q [] w = refl
remove_below_gone p q ((s, o) ∷ disk) w = elim (Bool-cases (is_within p s)) [
  | inl e ↦ rw e (remove_below_gone p q disk w)
  | inr e ↦ elim (Bool-cases (path_eq s q)) [
    | inl f ↦ absurd (both (subst (λ x. is_within p x ≡ true) (sym (path_eq_sound s q f)) w) e)
    | inr f ↦ rw (e, lookup, f) (remove_below_gone p q disk w)
  ]
]

-- What a removal does below the root `r`: it keeps what is not below it and the root, and it takes an
-- object away or leaves the disk as it was.
abbrev pub KeepsOutside : PathBuf → Disk → Disk → Type 0
KeepsOutside r disk after =
    (q : PathBuf) → ((is_within r q ≡ false) ⊎ (q ≡ r)) → lookup after q ≡ lookup disk q

-- What a removal of `p` answers: the root is refused; what is not there is not deleted; an object that is there goes, with
-- nothing that is not within it; and a folder that is not empty is refused unless the removal is recursive.
abbrev pub Removes : PathBuf → PathBuf → Bool → Disk → Disk × FsResult Bool → Type 0
Removes r p recursive disk (after, answer) =
    ((p ≡ r) × (after ≡ disk) × (answer ≡ failure permission_denied))
    ⊎ ((object_at disk p ≡ none) × (after ≡ disk) × (answer ≡ success false))
    ⊎ ((o : Object) × (object_at disk p ≡ some o)
        × (lookup after p ≡ none)
        × ((q : PathBuf) → is_within p q ≡ false → lookup after q ≡ lookup disk q)
        × (answer ≡ success true))
    ⊎ ((object_at disk p ≡ some directory)
        × (recursive ≡ false)
        × (is_empty_dir disk p ≡ false)
        × (after ≡ disk)
        × (answer ≡ failure io))

module _ (disk : Disk) (r p : PathBuf) where
  outside :
      (q : PathBuf)
      → is_within r p ≡ true
      → path_eq p r ≡ false
      → ((is_within r q ≡ false) ⊎ (q ≡ r))
      → is_within p q ≡ false
  outside q w other out = elim (Bool-cases (is_within p q)) [
    | inr n ↦ n
    | inl y ↦ elim out [
      | inl n ↦ absurd (both (within_trans r p q w y) n)
      | inr same ↦
          absurd (both (within_antisym r p w (subst (λ x. is_within p x ≡ true) same y)) other)
    ]
  ]

  not_same : (q : PathBuf) → is_within p q ≡ false → path_eq p q ≡ false
  not_same q n = elim (Bool-cases (path_eq p q)) [
    | inr f ↦ f
    | inl f ↦
        absurd (both (subst (λ x. is_within p x ≡ true) (path_eq_sound p q f) (within_self p)) n)
  ]

  gone_at : (q : PathBuf) → is_within p q ≡ false → lookup (remove_at p disk) q ≡ lookup disk q
  gone_at q n = lookup-remove_at p q disk (not_same q n)

  remove_object_lem :
      (recursive : Bool) (o : Option Object)
      → object_at disk p ≡ o
      → is_within r p ≡ true
      → path_eq p r ≡ false
      → KeepsOutside r disk (remove_object disk p recursive o).0
        × Removes r p recursive disk (remove_object disk p recursive o)
  remove_object_lem recursive none here w other = ((λ q out. refl), inr (inl (here, refl, refl)))
  remove_object_lem true (some directory) here w other = (
    (λ q out. lookup-remove_below p q disk (outside q w other out)),
    inr (
        inr (
          inl (
            directory,
            here,
            remove_below_gone p p disk (within_self p),
            (λ q n. lookup-remove_below p q disk n),
            refl,
          ))),
  )
  remove_object_lem false (some directory) here w other = elim (Bool-cases (is_empty_dir disk p)) [
    | inl e ↦ rw e (
      (λ q out. gone_at q (outside q w other out)),
      inr (inr (inl (directory, here, remove_at_gone p disk, gone_at, refl))),
    )
    | inr e ↦ rw e ((λ q out. refl), inr (inr (inr (here, refl, refl, refl, refl))))
  ]
  remove_object_lem recursive (some (contents bytes)) here w other = (
    (λ q out. gone_at q (outside q w other out)),
    inr (inr (inl (contents bytes, here, remove_at_gone p disk, gone_at, refl))),
  )
  remove_object_lem recursive (some (symlink target)) here w other = (
    (λ q out. gone_at q (outside q w other out)),
    inr (inr (inl (symlink target, here, remove_at_gone p disk, gone_at, refl))),
  )

  delete_below_lem :
      (recursive : Bool)
      → is_within r p ≡ true
      → KeepsOutside r disk (delete_below disk p recursive (some r)).0
        × Removes r p recursive disk (delete_below disk p recursive (some r))
  delete_below_lem recursive w = elim (Bool-cases (path_eq p r)) [
    | inl e ↦ rw e ((λ q out. refl), inl (path_eq_sound p r e, refl, refl))
    | inr e ↦ rw e (remove_object_lem recursive (object_at disk p) refl w e)
  ]

-- What `delete` answers for a path: the root stands and all that is not below it, and the path that it resolves to is
-- removed or not as the answer says.
abbrev pub DeletesBelow : PathBuf → Bool → Resolved → Disk → Disk × FsResult Bool → Type 0
DeletesBelow r recursive (resolved p) disk result =
    KeepsOutside r disk result.0 × Removes r p recursive disk result
DeletesBelow r recursive (refused e) disk result = result ≡ (disk, failure e)

module _ (disk : Disk) (root r : PathBuf) (rel_path : Text) (recursive : Bool) where
  delete_resolved :
      (s : Resolved)
      → safe_resolve (nodes disk) root rel_path ≡ s
      → canonicalize (nodes disk) root ≡ some r
      → DeletesBelow r recursive s disk
          (change_at disk s (λ p. delete_below disk p recursive (canonicalize (nodes disk) root)))
  delete_resolved (refused e) h canonical = refl
  delete_resolved (resolved p) h canonical =
      let (r', found, fixed, (w, rest)) = safe_resolve_lem (nodes disk) root p rel_path h in
      let same : r' ≡ r = some_injective (sym found ∙ canonical) in
      subst
        (λ c.
          KeepsOutside r disk (delete_below disk p recursive c).0
          × Removes r p recursive disk (delete_below disk p recursive c))
        (sym canonical)
        (delete_below_lem disk r p recursive (subst (λ x. is_within x p ≡ true) same w))

  -- What `delete` may remove, and what it answers. Where the root resolves to `r`: a path that is refused
  -- leaves the disk as it was; otherwise `r` itself and every path that is not within it keep what they hold, and one of
  -- four things happens. The path is `r` and the permission is denied; or there is no object at it and the answer is
  -- false; or there was one, which is gone, all that is not within it is kept, and the answer is
  -- true; or it is a folder that is not empty, the call is not recursive and the answer is an error. But
  -- for the third the disk is as it was.
  pub delete_lem :
      canonicalize (nodes disk) root ≡ some r
      → DeletesBelow r recursive
          (safe_resolve (nodes disk) root rel_path)
          disk
          (delete disk root rel_path recursive)
  unfolding delete
  delete_lem canonical = delete_resolved (safe_resolve (nodes disk) root rel_path) refl canonical
