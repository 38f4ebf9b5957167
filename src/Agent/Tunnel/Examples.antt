-- ===== src/Agent/Tunnel/Examples.antt =====
-- The policy on concrete paths.
use pcos.Prelude.{
  ◌≡◌, ◌≢◌, ◌↔◌, ◌⊎◌, false, refl, List, [], ◌∷◌, true, Text, codes, text_ne, trim, trim_start_by,
  trim_end_by, is_whitespace,
}
use pcos.Agent.Tunnel.{clean, is_forbidden}
use pcos.Agent.Tunnel.Exact.{GoesOn, IsAllowed, IsExcluded, is_forbidden_lem}

abbrev to_lowercase : Text → Text
to_lowercase t = t

abbrev allowed : List Text
allowed = codes "/data" ∷ []

abbrev excluded : List Text
excluded = codes "/etc" ∷ []

not_blank : clean to_lowercase (codes "/etc") ≢ []
unfolding clean trim trim_start_by trim_end_by is_whitespace
not_blank = text_ne (codes "/etc") [] refl

is_forbidden_lem_example :
    (is_forbidden to_lowercase (codes "/home") (codes "/data/a") allowed excluded ≡ false) ↔ (
      (GoesOn (clean to_lowercase (codes "/data/a")) (clean to_lowercase (codes "/home"))
        ⊎ IsAllowed to_lowercase (clean to_lowercase (codes "/data/a")) allowed)
      × ¬ IsExcluded to_lowercase (clean to_lowercase (codes "/data/a")) excluded)
is_forbidden_lem_example =
    is_forbidden_lem to_lowercase (codes "/home") (codes "/data/a") allowed excluded

-- Without an allowlist a folder above the default root is forbidden.
above_default : is_forbidden to_lowercase (codes "/home/u") (codes "/home") [] excluded ≡ true
unfolding is_forbidden clean trim trim_start_by trim_end_by is_whitespace
above_default = refl
