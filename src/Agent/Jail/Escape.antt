-- ===== src/Agent/Jail/Escape.antt =====
-- A link that leads out of the root.
use pcos.Prelude.{◌≡◌, refl, ap, ◌∙◌, [], ◌∷◌, ◌++◌, none, some, false, any, Text}
use pcos.Agent.Jail.{
  PathBuf, link, Fs, canonicalize, is_within, parent, split_slash, components, cleaned, has_drive,
  is_parent_dir, resolved, check_parent, check_candidate, resolve_below, safe_resolve,
}
use pcos.Agent.Jail.Canonical.{IsWalked, step_none, step_link, resolve_self}

parent-append : (r : PathBuf) (a b c : Text) → parent (r ++ a ∷ b ∷ c ∷ []) ≡ r ++ a ∷ b ∷ []
parent-append [] a b c = refl
parent-append (d ∷ []) a b c = refl
parent-append (d ∷ e ∷ r) a b c = ap (λ p. d ∷ p) (parent-append (e ∷ r) a b c)

module _ (fs : Fs) where
  -- Through a link to a folder outside, to a name that is not there, nothing resolves.
  dangling :
      (r t : PathBuf) (a b : Text) (rest : PathBuf)
      → IsWalked fs r
      → IsWalked fs t
      → fs (r ++ a ∷ []) ≡ some (link t)
      → fs (t ++ b ∷ []) ≡ none
      → canonicalize fs (r ++ a ∷ b ∷ rest) ≡ none
  unfolding canonicalize
  dangling r t a b rest wr wt leads gone =
      wr 40 (a ∷ b ∷ rest)
      ∙ (step_link fs 39 r a (b ∷ rest) t leads).0
      ∙ wt 39 (b ∷ rest)
      ∙ step_none fs 39 t b rest gone

  -- The jail has a gap. Where the root has a link to a folder outside it, and the first of two names of
  -- a path below the link is not there, `safe_resolve` answers the path, although it goes through the
  -- link, which resolves to a folder that is not within the root.
  pub missing_levels_escape :
      (root r t : PathBuf) (a b c rel_path : Text)
      → canonicalize fs root ≡ some r
      → IsWalked fs r
      → IsWalked fs t
      → fs (r ++ a ∷ []) ≡ some (link t)
      → fs (t ++ b ∷ []) ≡ none
      → is_within r t ≡ false
      → has_drive (cleaned rel_path) ≡ false
      → components (split_slash (cleaned rel_path)) ≡ a ∷ b ∷ c ∷ []
      → any is_parent_dir (a ∷ b ∷ c ∷ []) ≡ false
      → (safe_resolve fs root rel_path ≡ resolved (r ++ a ∷ b ∷ c ∷ []))
        × (canonicalize fs (r ++ a ∷ []) ≡ some t)
        × (is_within r t ≡ false)
  unfolding canonicalize safe_resolve resolve_below check_candidate check_parent
  missing_levels_escape root r t a b c rel_path e wr wt leads gone out drive comps dots =
      let candidate = r ++ a ∷ b ∷ c ∷ [] in
      let missing = dangling r t a b (c ∷ []) wr wt leads gone in
      let parent_missing : canonicalize fs (parent candidate) ≡ none =
        ap (canonicalize fs) (parent-append r a b c) ∙ dangling r t a b [] wr wt leads gone in
      let below : resolve_below fs r rel_path ≡ check_candidate fs r candidate =
        rw (drive, resolve_below, comps, dots) refl in
      let last : check_candidate fs r candidate ≡ resolved candidate =
        rw (missing, check_candidate, parent_missing, check_parent) refl in
      (
        rw (e, safe_resolve) (below ∙ last),
        wr 40 (a ∷ []) ∙ (step_link fs 39 r a [] t leads).0 ∙ wt 39 [] ∙ resolve_self fs 39 t,
        out,
      )
