-- ===== src/Agent/Jail/Overwrite.antt =====
-- Writing into a file that exists and reading it again: `FsHandler::write_chunk` and `read_chunk` of
-- agent/src/fs_handler.rs.
use mathlib.Core.Path.{subst, fun_ext}
use pcos.Prelude.{
  ℕ, zero, suc, ◌+◌, ◌-◌, ◌≤◌, ◌<◌, ◌≡◌, ◌⊎◌, inl, inr, refl, sym, ap, ◌∙◌, arith, List, [], ◌∷◌,
  ◌++◌, append-nil, append_assoc, Option, none, some, false, if◌then◌else◌, length, length-append,
  length-take, length-replicate, take, drop, replicate, Text, Bool-cases, Option-cases,
}
use pcos.Agent.Jail.{PathBuf, file, resolve, canonicalize, parent, resolved, safe_resolve}
use pcos.Agent.Jail.Canonical.{
  IsWalked, IsWalked-folder, IsFixed, safe_resolve_lem, step_none, step_through_file, step_link,
  step_folder, walk_end,
}
use pcos.Agent.Jail.Disk.{
  Object, contents, directory, symlink, Disk, path_eq, lookup, nodes, node_of, put, object_at,
  create_dir_all, open_file, overwrite,
}
use pcos.Agent.Jail.Operations.{success, change_at, write_opened, write_in_parent, write_chunk}
use pcos.Agent.Jail.Removal.{path_eq_self, path_eq_sound, some_injective}

-- The bytes written stand where they were written.
front : List ℕ → ℕ → List ℕ
front old offset = take offset old ++ replicate (offset - length old) 0

length-front : (old : List ℕ) (offset : ℕ) → length (front old offset) ≡ offset
unfolding front
length-front old offset = omega (
  arith,
  length-append (take offset old) (replicate (offset - length old) 0),
  length-take offset old,
  length-replicate {A = ℕ} (offset - length old) 0,
)

drop-append : (xs ys : List ℕ) → drop (length xs) (xs ++ ys) ≡ ys
drop-append [] ys = refl
drop-append (x ∷ xs) ys = drop-append xs ys

take-append : (xs ys : List ℕ) → take (length xs) (xs ++ ys) ≡ xs
take-append [] ys = refl
take-append (x ∷ xs) ys = ap (λ t. x ∷ t) (take-append xs ys)

pub overwrite_there :
    (old : List ℕ) (offset : ℕ) (bytes : List ℕ)
    → take (length bytes) (drop offset (overwrite old offset bytes)) ≡ bytes
unfolding overwrite front
overwrite_there old offset [] = refl
overwrite_there old offset (b ∷ bytes) =
    let tail = drop (offset + suc (length bytes)) old in
    let shape : overwrite old offset (b ∷ bytes) ≡ front old offset ++ ((b ∷ bytes) ++ tail) =
      append_assoc (front old offset) (b ∷ bytes) tail in
    let behind : drop offset (front old offset ++ ((b ∷ bytes) ++ tail)) ≡ (b ∷ bytes) ++ tail =
      subst (λ n. drop n (front old offset ++ ((b ∷ bytes) ++ tail)) ≡ (b ∷ bytes) ++ tail)
        (length-front old offset) (drop-append (front old offset) ((b ∷ bytes) ++ tail)) in
    ap (λ l. take (length (b ∷ bytes)) (drop offset l)) shape
    ∙ ap (take (length (b ∷ bytes))) behind
    ∙ take-append (b ∷ bytes) tail

pub length-overwrite_lower :
    (old : List ℕ) (offset : ℕ) (bytes : List ℕ)
    → 0 < length bytes
    → offset + length bytes ≤ length (overwrite old offset bytes)
unfolding overwrite front
length-overwrite_lower old offset [] h = absurd (omega (arith, h))
length-overwrite_lower old offset (b ∷ bytes) h =
    let tail = drop (offset + suc (length bytes)) old in
    omega (
      arith,
      length-append (front old offset ++ (b ∷ bytes)) tail,
      length-append (front old offset) (b ∷ bytes),
      length-front old offset,
    )

-- What is put at a path stands there, and nothing else changes.
lookup-put_same : (disk : Disk) (p : PathBuf) (o : Object) → lookup (put disk p o) p ≡ some o
unfolding lookup put
lookup-put_same [] p o = rw (path_eq_self p) refl
lookup-put_same ((q, x) ∷ disk) p o = elim (Bool-cases (path_eq q p)) [
  | inl e ↦ rw (e, lookup, e) refl
  | inr e ↦ rw (e, lookup, e) (lookup-put_same disk p o)
]

pub lookup-put_other :
    (disk : Disk) (p q : PathBuf) (o : Object)
    → path_eq p q ≡ false
    → lookup (put disk p o) q ≡ lookup disk q
unfolding lookup put
lookup-put_other [] p q o n = rw (n, lookup) refl
lookup-put_other ((s, x) ∷ disk) p q o n = elim (Bool-cases (path_eq s p)) [
  | inl e ↦
      let n' : path_eq s q ≡ false =
        subst (λ y. path_eq y q ≡ false) (sym (path_eq_sound s p e)) n in
      rw (e, lookup, n') refl
  | inr e ↦
      rw (e, lookup) (ap (λ l. if path_eq s q then some x else l) (lookup-put_other disk p q o n))
]

nodes-put :
    (disk : Disk) (p : PathBuf) (old new : List ℕ)
    → lookup disk p ≡ some (contents old)
    → nodes (put disk p (contents new)) ≡ nodes disk
nodes-put disk p old new h = fun_ext (λ q. elim (Bool-cases (path_eq p q)) [
  | inr n ↦ ap node_of (lookup-put_other disk p q (contents new) n)
  | inl e ↦
      let same = path_eq_sound p q e in
      subst (λ x. node_of (lookup (put disk p (contents new)) x) ≡ node_of (lookup disk x)) same
        (ap node_of (lookup-put_same disk p (contents new)) ∙ sym (ap node_of h))
])

-- A path that stands without links.
object_at-snoc :
    (disk : Disk) (done : PathBuf) (c : Text)
    → canonicalize (nodes disk) (done ++ c ∷ []) ≡ some (done ++ c ∷ [])
    → object_at disk (done ++ c ∷ []) ≡ lookup disk (done ++ c ∷ [])
unfolding object_at
object_at-snoc disk [] c h = rw (h, object_at) refl
object_at-snoc disk (d ∷ done) c h = rw (h, object_at) refl

module _ (disk : Disk) where
  blocked : {q : PathBuf} (o : Option PathBuf) → o ≡ none → o ≡ some q → ⊥
  blocked o e h = let same = sym e ∙ h in ground arith

  through_file :
      (done : PathBuf) (x : Text) (rest : PathBuf) (c : Text)
      → nodes disk (done ++ x ∷ []) ≡ some file
      → resolve (nodes disk) zero done (x ∷ rest ++ c ∷ []) ≡ none
  through_file done x [] c e = step_through_file (nodes disk) zero done x c [] e
  through_file done x (y ∷ rest) c e =
      step_through_file (nodes disk) zero done x y (rest ++ c ∷ []) e

  canonicalize_walked :
      (p : PathBuf) → IsWalked (nodes disk) p → canonicalize (nodes disk) p ≡ some p
  unfolding canonicalize
  canonicalize_walked p w = walk_end (nodes disk) p w 40

  -- The folders on the way to an object are there.
  parents_stand :
      (done rest : PathBuf) (c : Text) (q : PathBuf)
      → IsWalked (nodes disk) done
      → resolve (nodes disk) zero done (rest ++ c ∷ []) ≡ some q
      → create_dir_all disk done rest ≡ (disk, some (done ++ rest))
  unfolding create_dir_all
  parents_stand done [] c q w h = ap (λ p. (disk, some p)) (sym (append-nil done))
  parents_stand done (x ∷ rest) c q w h = elim (Option-cases (lookup disk (done ++ x ∷ []))) [
    | inl e ↦
        absurd (blocked _ (step_none (nodes disk) zero done x (rest ++ c ∷ []) (ap node_of e)) h)
    | inr (contents bytes, e) ↦ absurd (blocked _ (through_file done x rest c (ap node_of e)) h)
    | inr (symlink t, e) ↦
        absurd
          (blocked _ (step_link (nodes disk) zero done x (rest ++ c ∷ []) t (ap node_of e)).1 h)
    | inr (directory, e) ↦
        let w' = IsWalked-folder (nodes disk) done x w (ap node_of e) in
        let stands = canonicalize_walked (done ++ x ∷ []) w' in
        let is_folder : object_at disk (done ++ x ∷ []) ≡ some directory =
          object_at-snoc disk done x stands ∙ e in
        rw (e, create_dir_all, stands, is_folder)
          (parents_stand (done ++ x ∷ []) rest c q w'
              (sym (step_folder (nodes disk) zero done x (rest ++ c ∷ []) (ap node_of e)) ∙ h)
            ∙ ap (λ p. (disk, some p)) (append_assoc done (x ∷ []) rest))
  ]

-- The last name of a path that is not empty.
last_name : (p : PathBuf) → (p ≡ []) ⊎ ((c : Text) × (p ≡ parent p ++ c ∷ []))
last_name [] = inl refl
last_name (c ∷ []) = inr (c, refl)
last_name (c ∷ d ∷ p) = elim (last_name (d ∷ p)) [
  | inl e ↦ absurd (let h = e in ground arith)
  | inr (x, e) ↦ inr (x, ap (λ l. c ∷ l) e)
]

object_at_or_root :
    (disk : Disk) (p : PathBuf)
    → canonicalize (nodes disk) p ≡ some p
    → (p ≡ []) ⊎ (object_at disk p ≡ lookup disk p)
unfolding object_at
object_at_or_root disk [] h = inl refl
object_at_or_root disk (c ∷ p) h = inr (rw (h, object_at) refl)

root_holds_nothing : (disk : Disk) (bytes : List ℕ) → object_at disk [] ≡ some (contents bytes) → ⊥
unfolding object_at canonicalize resolve
root_holds_nothing disk bytes h = ground arith

object_at_found :
    (disk : Disk) (p : PathBuf) (bytes : List ℕ)
    → object_at disk p ≡ some (contents bytes)
    → (q : PathBuf) × (canonicalize (nodes disk) p ≡ some q)
      × (lookup disk q ≡ some (contents bytes))
unfolding object_at
object_at_found disk p bytes h = elim (Option-cases (canonicalize (nodes disk) p)) [
  | inl e ↦ absurd (let h' = rw (e, object_at) at h in ground arith)
  | inr ([], e) ↦ absurd (let h' = rw (e, object_at) at h in ground arith)
  | inr (c ∷ q, e) ↦ (c ∷ q, e, rw (e, object_at) at h)
]

module _ (disk : Disk) (p : PathBuf) (old : List ℕ) (fixed : IsFixed (nodes disk) p)
    (found : object_at disk p ≡ some (contents old)) where
  stands : canonicalize (nodes disk) p ≡ some p
  unfolding canonicalize
  stands = fixed 40

  pub lookup_here : lookup disk p ≡ some (contents old)
  lookup_here =
      let (q, e, l) = object_at_found disk p old found in
      subst (λ x. lookup disk x ≡ some (contents old)) (some_injective (sym e ∙ stands)) l

  pub opens : open_file disk p ≡ some (p, old)
  unfolding open_file
  opens = rw (stands, open_file, found) refl

  pub parents : create_dir_all disk [] (parent p) ≡ (disk, some (parent p))
  parents = elim (last_name p) [
    | inr (c, e) ↦
        parents_stand disk [] (parent p) c p (λ m rest. refl)
          (subst (λ x. resolve (nodes disk) zero [] x ≡ some p) e (fixed zero))
    | inl e ↦
        absurd (
          root_holds_nothing disk old (subst (λ x. object_at disk x ≡ some (contents old)) e found))
  ]

  resolves_after : (new : List ℕ) → canonicalize (nodes (put disk p (contents new))) p ≡ some p
  resolves_after new =
      subst (λ fs. canonicalize fs p ≡ some p) (sym (nodes-put disk p old new lookup_here)) stands

  pub found_after : (new : List ℕ) → object_at (put disk p (contents new)) p ≡ some (contents new)
  found_after new = elim (object_at_or_root (put disk p (contents new)) p (resolves_after new)) [
    | inl e ↦
        absurd (
          root_holds_nothing disk old (subst (λ x. object_at disk x ≡ some (contents old)) e found))
    | inr e ↦ e ∙ lookup-put_same disk p (contents new)
  ]

-- Writing into a file that is there. Where the path resolves to `p`, the bytes of which are `old`, the call
-- answers how much it wrote; then `p` holds `old` overwritten at the offset, the path resolves as
-- before, and every other object is as it was.
abbrev pub Overwrites : Disk → PathBuf → Text → PathBuf → List ℕ → ℕ → List ℕ → Type 0
Overwrites disk root rel_path p old offset bytes =
    let (after, answer) = write_chunk disk root rel_path offset bytes in
    (answer
      ≡ success (record {
        relative_path = rel_path;
        offset = offset;
        bytes_written = length bytes;
        total_size = length (overwrite old offset bytes);
      }))
    × (object_at after p ≡ some (contents (overwrite old offset bytes)))
    × (safe_resolve (nodes after) root rel_path ≡ resolved p)
    × ((q : PathBuf) → path_eq p q ≡ false → lookup after q ≡ lookup disk q)

module _ (disk : Disk) (root : PathBuf) (rel_path : Text) (p : PathBuf) (old : List ℕ) (offset : ℕ)
    (bytes : List ℕ) (here : safe_resolve (nodes disk) root rel_path ≡ resolved p)
    (found : object_at disk p ≡ some (contents old)) where
  p-IsFixed : IsFixed (nodes disk) p
  p-IsFixed =
      let (r, canonical, rest, (w, where_)) = safe_resolve_lem (nodes disk) root p rel_path here in
      elim where_ [
        | inl fixed ↦ fixed
        | inr (missing, above) ↦
            let (q, e, l) = object_at_found disk p old found in absurd (blocked disk _ missing e)
      ]

  written :
      write_chunk disk root rel_path offset bytes
      ≡ write_opened disk rel_path offset bytes (some (p, old))
  unfolding write_chunk
  written =
      ap
        (λ s.
          change_at disk s
            (λ f. write_in_parent f rel_path offset bytes (create_dir_all disk [] (parent f))))
        here
      ∙ ap (write_in_parent p rel_path offset bytes) (parents disk p old p-IsFixed found)
      ∙ ap (write_opened disk rel_path offset bytes) (opens disk p old p-IsFixed found)

  pub write_chunk_lem : Overwrites disk root rel_path p old offset bytes
  write_chunk_lem =
      let new = overwrite old offset bytes in
      subst
        (λ result.
          (result.1
            ≡ success (record {
              relative_path = rel_path;
              offset = offset;
              bytes_written = length bytes;
              total_size = length new;
            }))
          × (object_at result.0 p ≡ some (contents new))
          × (safe_resolve (nodes result.0) root rel_path ≡ resolved p)
          × ((q : PathBuf) → path_eq p q ≡ false → lookup result.0 q ≡ lookup disk q))
        (sym written)
        (
          refl,
          found_after disk p old p-IsFixed found new,
          subst (λ fs. safe_resolve fs root rel_path ≡ resolved p)
              (sym (nodes-put disk p old new (lookup_here disk p old p-IsFixed found))) here,
          λ q n. lookup-put_other disk p q (contents new) n,
        )
