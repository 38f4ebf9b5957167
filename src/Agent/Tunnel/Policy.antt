-- ===== src/Agent/Tunnel/Policy.antt =====
-- Roots that the policy lets in.
use mathlib.Core.List.{Memᴰ}
use pcos.Prelude.{
  ◌≡◌, ◌≢◌, refl, ◌∙◌, List, [], ◌∷◌, ◌++◌, Bool, true, false, not, ◌||◌, any, any_skip, All, Text,
  text_eq, starts_with, starts_with-append,
}
use pcos.Prelude.Members.{any_of_mem}
use pcos.Agent.Tunnel.{clean, matches_allowed, matches_excluded, is_default, is_forbidden}

module _ (to_lowercase : Text → Text) where
  or_true : (b : Bool) → (b || true) ≡ true
  or_true true = refl
  or_true false = refl

  or_true2 : (a b : Bool) → (a || b || true) ≡ true
  or_true2 true b = refl
  or_true2 false b = or_true b

  or_true_left : (a b : Bool) → (a || true || b) ≡ true
  or_true_left true b = refl
  or_true_left false b = refl

  lets_in :
      (default_root root al : Text) (allowed excluded : List Text)
      → any (matches_allowed to_lowercase (clean to_lowercase root)) (al ∷ allowed) ≡ true
      → any (matches_excluded to_lowercase (clean to_lowercase root)) excluded ≡ false
      → is_forbidden to_lowercase default_root root (al ∷ allowed) excluded ≡ false
  unfolding is_forbidden
  lets_in default_root root al allowed excluded p q =
      λ i. not (p i || is_default to_lowercase (clean to_lowercase root) default_root) || q i

  starts_with_nil : (s : Text) → starts_with s [] ≡ true
  starts_with_nil [] = refl
  starts_with_nil (c ∷ s) = refl

  blank_excludes_none :
      (excluded : List Text)
      → All (λ (ex : Text). clean to_lowercase ex ≢ []) excluded
      → any (matches_excluded to_lowercase []) excluded ≡ false
  blank_excludes_none [] h = refl
  blank_excludes_none (ex ∷ excluded) h =
      any_skip (matches_excluded to_lowercase []) ex excluded
        (not_blank (clean to_lowercase ex) h.0)
      ∙ blank_excludes_none excluded h.1
    where
      not_blank : (t : Text) → t ≢ [] → (text_eq [] t || starts_with [] t) ≡ false
      not_blank [] h = absurd (h refl)
      not_blank (c ∷ t) h = refl

  -- The root of the file system is let in. Where the allowlist is not empty, a root that cleaning makes
  -- empty, as it does `/`, is not forbidden, unless cleaning makes an excluded entry empty too.
  pub slash_allowed :
      (default_root root al : Text) (allowed excluded : List Text)
      → clean to_lowercase root ≡ []
      → All (λ (ex : Text). clean to_lowercase ex ≢ []) excluded
      → is_forbidden to_lowercase default_root root (al ∷ allowed) excluded ≡ false
  unfolding is_forbidden
  slash_allowed default_root root al allowed excluded empty ex =
      lets_in default_root root al allowed excluded
        (any_of_mem (matches_allowed to_lowercase (clean to_lowercase root)) (Memᴰ.head refl) (
          rw (empty, starts_with_nil (clean to_lowercase al))
            (or_true2 (text_eq [] (clean to_lowercase al))
              (starts_with [] (clean to_lowercase al)))))
        (rw empty (blank_excludes_none excluded ex))

  -- A neighbour of an allowed root is let in. A root whose cleaned text goes on from that of an entry of
  -- the allowlist, with a separator or without, is not forbidden, unless it matches an exclusion.
  pub neighbour_allowed :
      (default_root root al rest : Text) (allowed excluded : List Text)
      → Memᴰ al allowed
      → clean to_lowercase root ≡ clean to_lowercase al ++ rest
      → any (matches_excluded to_lowercase (clean to_lowercase root)) excluded ≡ false
      → is_forbidden to_lowercase default_root root allowed excluded ≡ false
  unfolding is_forbidden
  neighbour_allowed default_root root al rest [] excluded m e free = elim m [ ]
  neighbour_allowed default_root root al rest (head ∷ allowed) excluded m e free =
      lets_in default_root root head allowed excluded
        (any_of_mem (matches_allowed to_lowercase (clean to_lowercase root)) m
          (rw (e, starts_with-append (clean to_lowercase al) rest) (or_true_left _ _)))
        free
