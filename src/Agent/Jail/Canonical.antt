-- ===== src/Agent/Jail/Canonical.antt =====
-- What `safe_resolve` accepts.
use mathlib.Core.Path.{subst}
use pcos.Prelude.{
  ℕ, zero, suc, ◌≡◌, ◌⊎◌, refl, sym, ap, ◌∙◌, [], ◌∷◌, ◌++◌, append_assoc, append-nil, Option, none,
  some, true, arith, any, Text, text_eq_self, Bool-cases, Option-cases, inl, inr,
}
use pcos.Agent.Jail.{
  PathBuf, file, folder, link, Fs, resolve, canonicalize, is_within, parent, split_slash,
  components, cleaned, has_drive, is_parent_dir, resolved, check_parent, check_candidate,
  resolve_below, safe_resolve,
}

module _ (fs : Fs) where
  -- A path that is walked without a link: what is left to walk from the root can be walked from it.
  abbrev pub IsWalked : PathBuf → Type 0
  IsWalked done = (m : ℕ) (rest : PathBuf) → resolve fs m [] (done ++ rest) ≡ resolve fs m done rest

  pub step_folder :
      (m : ℕ) (done : PathBuf) (c : Text) (rest : PathBuf)
      → fs (done ++ c ∷ []) ≡ some folder
      → resolve fs m done (c ∷ rest) ≡ resolve fs m (done ++ c ∷ []) rest
  unfolding resolve
  step_folder zero done c rest h = rw (h, resolve) refl
  step_folder (suc m) done c rest h = rw (h, resolve) refl

  step_file :
      (m : ℕ) (done : PathBuf) (c : Text)
      → fs (done ++ c ∷ []) ≡ some file
      → resolve fs m done (c ∷ []) ≡ some (done ++ c ∷ [])
  unfolding resolve
  step_file zero done c h = rw (h, resolve) refl
  step_file (suc m) done c h = rw (h, resolve) refl

  pub step_none :
      (m : ℕ) (done : PathBuf) (c : Text) (rest : PathBuf)
      → fs (done ++ c ∷ []) ≡ none
      → resolve fs m done (c ∷ rest) ≡ none
  unfolding resolve
  step_none zero done c rest h = rw (h, resolve) refl
  step_none (suc m) done c rest h = rw (h, resolve) refl

  pub step_through_file :
      (m : ℕ) (done : PathBuf) (c d : Text) (rest : PathBuf)
      → fs (done ++ c ∷ []) ≡ some file
      → resolve fs m done (c ∷ d ∷ rest) ≡ none
  unfolding resolve
  step_through_file zero done c d rest h = rw (h, resolve) refl
  step_through_file (suc m) done c d rest h = rw (h, resolve) refl

  pub step_link :
      (m : ℕ) (done : PathBuf) (c : Text) (rest target : PathBuf)
      → fs (done ++ c ∷ []) ≡ some (link target)
      → (resolve fs (suc m) done (c ∷ rest) ≡ resolve fs m [] (target ++ rest))
        × (resolve fs zero done (c ∷ rest) ≡ none)
  unfolding resolve
  step_link m done c rest target h = (rw (h, resolve) refl, rw (h, resolve) refl)

  pub IsWalked-folder :
      (done : PathBuf) (c : Text)
      → IsWalked done
      → fs (done ++ c ∷ []) ≡ some folder
      → IsWalked (done ++ c ∷ [])
  IsWalked-folder done c w h m rest =
      ap (resolve fs m []) (append_assoc done (c ∷ []) rest)
      ∙ w m (c ∷ rest)
      ∙ step_folder m done c rest h

  -- What is resolved resolves to itself, however many links may be followed.
  abbrev pub IsFixed : PathBuf → Type 0
  IsFixed p = (m : ℕ) → resolve fs m [] p ≡ some p

  pub resolve_self : (m : ℕ) (done : PathBuf) → resolve fs m done [] ≡ some done
  unfolding resolve
  resolve_self zero done = refl
  resolve_self (suc m) done = refl

  pub walk_end : (done : PathBuf) → IsWalked done → IsFixed done
  walk_end done w m = ap (resolve fs m []) (sym (append-nil done)) ∙ w m [] ∙ resolve_self m done

  file_end :
      (done : PathBuf) (c : Text)
      → IsWalked done
      → fs (done ++ c ∷ []) ≡ some file
      → IsFixed (done ++ c ∷ [])
  file_end done c w h m = w m (c ∷ []) ∙ step_file m done c h

  carry_over :
      (o : Option PathBuf) (q p : PathBuf) → o ≡ some q → o ≡ some p → IsFixed q → IsFixed p
  carry_over o q p e h f = subst IsFixed (let same : some q ≡ some p = sym e ∙ h in cc) f

  not_none : (o : Option PathBuf) (p : PathBuf) → o ≡ none → o ≡ some p → ⊥
  not_none o p e h = let same : ◌≡◌ {A = Option PathBuf} none (some p) = sym e ∙ h in ground arith

  file-IsFixed :
      (n : ℕ) (done : PathBuf) (c : Text) (rest p : PathBuf)
      → IsWalked done
      → fs (done ++ c ∷ []) ≡ some file
      → resolve fs n done (c ∷ rest) ≡ some p
      → IsFixed p
  file-IsFixed n done c [] p w e h =
      carry_over _ (done ++ c ∷ []) p (step_file n done c e) h (file_end done c w e)
  file-IsFixed n done c (d ∷ rest) p w e h =
      absurd (not_none _ p (step_through_file n done c d rest e) h)

  resolve-IsFixed :
      (n : ℕ) (done rest p : PathBuf) → IsWalked done → resolve fs n done rest ≡ some p → IsFixed p
  resolve-IsFixed n done [] p w h = carry_over _ done p (resolve_self n done) h (walk_end done w)
  resolve-IsFixed zero done (c ∷ rest) p w h = elim (Option-cases (fs (done ++ c ∷ []))) [
    | inl e ↦ absurd (not_none _ p (step_none zero done c rest e) h)
    | inr (file, e) ↦ file-IsFixed zero done c rest p w e h
    | inr (folder, e) ↦
        resolve-IsFixed zero (done ++ c ∷ []) rest p (IsWalked-folder done c w e)
          (sym (step_folder zero done c rest e) ∙ h)
    | inr (link target, e) ↦ absurd (not_none _ p (step_link zero done c rest target e).1 h)
  ]
  resolve-IsFixed (suc n) done (c ∷ rest) p w h = elim (Option-cases (fs (done ++ c ∷ []))) [
    | inl e ↦ absurd (not_none _ p (step_none (suc n) done c rest e) h)
    | inr (file, e) ↦ file-IsFixed (suc n) done c rest p w e h
    | inr (folder, e) ↦
        resolve-IsFixed (suc n) (done ++ c ∷ []) rest p (IsWalked-folder done c w e)
          (sym (step_folder (suc n) done c rest e) ∙ h)
    | inr (link target, e) ↦
        resolve-IsFixed n [] (target ++ rest) p (λ m r. refl)
          (sym (step_link n done c rest target e).0 ∙ h)
  ]

  within_append : (r path : PathBuf) → is_within r (r ++ path) ≡ true
  within_append [] path = refl
  within_append (c ∷ r) path = rw (text_eq_self c) (within_append r path)

  -- What a resolved path is: it stands as it is and needs no link, or it does not exist, and then its
  -- parent, if that exists, is within the root.
  abbrev pub IsInside : PathBuf → PathBuf → Type 0
  IsInside r p =
      (is_within r p ≡ true)
      × (IsFixed p
          ⊎ ((canonicalize fs p ≡ none)
              × ((canonicalize fs (parent p) ≡ none)
                  ⊎ ((q : PathBuf) × (canonicalize fs (parent p) ≡ some q)
                      × (is_within r q ≡ true)))))

  resolved_injective : (p q : PathBuf) → resolved p ≡ resolved q → p ≡ q
  resolved_injective p q h = cc

  check_parent-within :
      (r candidate p : PathBuf) (o : Option PathBuf)
      → check_parent r candidate o ≡ resolved p
      → (candidate ≡ p) × ((o ≡ none) ⊎ ((q : PathBuf) × (o ≡ some q) × (is_within r q ≡ true)))
  unfolding check_parent
  check_parent-within r candidate p none h = (resolved_injective candidate p h, inl refl)
  check_parent-within r candidate p (some s) h = elim (Bool-cases (is_within r s)) [
    | inl e ↦ (resolved_injective candidate p (rw (e, check_parent) at h), inr (s, refl, e))
    | inr e ↦ absurd (let h' = rw (e, check_parent) at h in ground arith)
  ]

  check_candidate-IsInside :
      (r path p : PathBuf) → check_candidate fs r (r ++ path) ≡ resolved p → IsInside r p
  unfolding check_candidate canonicalize
  check_candidate-IsInside r path p h = elim (Option-cases (canonicalize fs (r ++ path))) [
    | inr (q, e) ↦ elim (Bool-cases (is_within r q)) [
      | inl w ↦
          let same = resolved_injective q p (rw (e, w, check_candidate) at h) in
          subst (IsInside r) same (w, inl (resolve-IsFixed 40 [] (r ++ path) q (λ m rest. refl) e))
      | inr w ↦ absurd (let h' = rw (e, w, check_candidate) at h in ground arith)
    ]
    | inl e ↦
        let (same, parents) =
          check_parent-within r (r ++ path) p (canonicalize fs (parent (r ++ path)))
            (rw (e, check_candidate) at h) in
        subst (IsInside r) same (within_append r path, inr (e, parents))
  ]

  resolve_below-IsInside :
      (r p : PathBuf) (rel_path : Text) → resolve_below fs r rel_path ≡ resolved p → IsInside r p
  unfolding resolve_below
  resolve_below-IsInside r p rel_path h = elim (Bool-cases (has_drive (cleaned rel_path))) [
    | inl d ↦ absurd (let h' = rw (d, resolve_below) at h in ground arith)
    | inr d ↦ elim (Bool-cases (any is_parent_dir (components (split_slash (cleaned rel_path))))) [
      | inl u ↦ absurd (let h' = rw (d, u, resolve_below) at h in ground arith)
      | inr u ↦
          check_candidate-IsInside r (components (split_slash (cleaned rel_path))) p
            (rw (d, u, resolve_below) at h)
    ]
  ]

  -- What `safe_resolve` accepts. Where it answers a path, the root resolves to a path without links that
  -- the answer is within; and the answer stands without links too, or it does not exist, and its
  -- parent, if that exists, resolves to a path within the root.
  pub safe_resolve_lem :
      (root p : PathBuf) (rel_path : Text)
      → safe_resolve fs root rel_path ≡ resolved p
      → (r : PathBuf) × (canonicalize fs root ≡ some r) × IsFixed r × IsInside r p
  unfolding safe_resolve canonicalize
  safe_resolve_lem root p rel_path h = elim (Option-cases (canonicalize fs root)) [
    | inl e ↦ absurd (let h' = rw (e, safe_resolve) at h in ground arith)
    | inr (r, e) ↦ (
      r,
      e,
      resolve-IsFixed 40 [] root r (λ m rest. refl) e,
      resolve_below-IsInside r p rel_path (rw (e, safe_resolve) at h),
    )
  ]
