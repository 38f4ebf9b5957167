-- ===== src/Agent/Jail/Examples.antt =====
-- The jail of a root `/r` with a file, and with a link to the folder `/o`.
use pcos.Prelude.{
  ◌≡◌, refl, List, [], ◌∷◌, none, some, Bool, true, false, codes, text_eq, trim, trim_start_by,
  trim_end_by, is_whitespace, if◌then◌else◌,
}
use pcos.Agent.Jail.{
  PathBuf, Node, file, folder, link, Fs, resolve, canonicalize, is_within, split_slash, components,
  replace_backslash, cleaned, resolved, refused, path_traversal, check_candidate, resolve_below,
  safe_resolve,
}
use pcos.Agent.Jail.Canonical.{IsWalked, IsWalked-folder, IsFixed, IsInside, safe_resolve_lem}
use pcos.Agent.Jail.Escape.{missing_levels_escape}

abbrev path_eq : PathBuf → PathBuf → Bool
path_eq [] [] = true
path_eq [] (d ∷ q) = false
path_eq (c ∷ p) [] = false
path_eq (c ∷ p) (d ∷ q) = if text_eq c d then path_eq p q else false

abbrev at : List (PathBuf × Node) → Fs
at [] p = none
at ((q, n) ∷ entries) p = if path_eq q p then some n else at entries p

abbrev fs : Fs
fs = at (
    (codes "r" ∷ [], folder)
    ∷ (codes "o" ∷ [], folder)
    ∷ (codes "r" ∷ codes "f" ∷ [], file)
    ∷ (codes "r" ∷ codes "a" ∷ [], link (codes "o" ∷ []))
    ∷ [])

finds : safe_resolve fs (codes "r" ∷ []) (codes "/./f") ≡ resolved (codes "r" ∷ codes "f" ∷ [])
unfolding safe_resolve resolve_below check_candidate canonicalize resolve cleaned replace_backslash
    split_slash components trim trim_start_by trim_end_by is_whitespace
finds = refl

refuses_link : safe_resolve fs (codes "r" ∷ []) (codes "a") ≡ refused path_traversal
unfolding safe_resolve resolve_below check_candidate canonicalize resolve cleaned replace_backslash
    split_slash components trim trim_start_by trim_end_by is_whitespace
refuses_link = refl

safe_resolve_lem_example :
    (r : PathBuf) × (canonicalize fs (codes "r" ∷ []) ≡ some r)
    × IsFixed fs r
    × IsInside fs r (codes "r" ∷ codes "f" ∷ [])
safe_resolve_lem_example =
    safe_resolve_lem fs (codes "r" ∷ []) (codes "r" ∷ codes "f" ∷ []) (codes "/./f") finds

root_is_real : IsWalked fs (codes "r" ∷ [])
root_is_real = IsWalked-folder fs [] (codes "r") (λ m rest. refl) refl

outside_is_real : IsWalked fs (codes "o" ∷ [])
outside_is_real = IsWalked-folder fs [] (codes "o") (λ m rest. refl) refl

missing_levels_escape_example :
    (safe_resolve fs (codes "r" ∷ []) (codes "a/b/c")
      ≡ resolved (codes "r" ∷ codes "a" ∷ codes "b" ∷ codes "c" ∷ []))
    × (canonicalize fs (codes "r" ∷ codes "a" ∷ []) ≡ some (codes "o" ∷ []))
    × (is_within (codes "r" ∷ []) (codes "o" ∷ []) ≡ false)
unfolding canonicalize resolve cleaned replace_backslash split_slash components trim trim_start_by
    trim_end_by is_whitespace
missing_levels_escape_example =
    missing_levels_escape fs (codes "r" ∷ []) (codes "r" ∷ []) (codes "o" ∷ []) (codes "a")
      (codes "b") (codes "c") (codes "a/b/c") refl root_is_real outside_is_real refl refl refl refl
      refl refl
