-- ===== src/Agent/Tunnel.antt =====
-- Which storage roots a remote client may name: the policy of `handle_fs_command` of
-- agent/src/connection_manager.rs. Paths
-- are texts; `str::to_lowercase` is an argument.
pub mod Policy
pub mod Exact
pub mod Commands
mod Examples
mod CommandExamples
use pcos.Prelude.{
  ℕ, List, [], ◌∷◌, Option, none, some, Bool, true, false, not, ◌||◌, ◌==◌, if◌then◌else◌, any,
  Text, text_eq, is_empty, trim, trim_end_by, starts_with,
}

abbrev pub is_separator : ℕ → Bool
is_separator c = (c == 92) || (c == b'/')

-- `storage_path` of the request, unless it is blank.
unfoldable pub target_root : Text → Option Text → Text
target_root default_root none = default_root
target_root default_root (some custom) = if is_empty (trim custom) then default_root else custom

module _ (to_lowercase : Text → Text) where
  unfoldable pub clean : Text → Text
  clean path = to_lowercase (trim_end_by is_separator (trim path))

  -- `clean_root` against an entry of the allowlist, an entry of the exclusions, and the default.
  abbrev pub matches_allowed : Text → Text → Bool
  matches_allowed root al =
      text_eq root (clean al) || starts_with root (clean al) || starts_with (clean al) root

  abbrev pub matches_excluded : Text → Text → Bool
  matches_excluded root ex = text_eq root (clean ex) || starts_with root (clean ex)

  abbrev pub is_default : Text → Text → Bool
  is_default root default_root =
      text_eq root (clean default_root) || starts_with root (clean default_root)

  unfoldable pub is_forbidden : Text → Text → List Text → List Text → Bool
  is_forbidden default_root root [] excluded =
      if not (is_default (clean root) default_root)
      then true
      else any (matches_excluded (clean root)) excluded
  is_forbidden default_root root (al ∷ allowed) excluded =
      not
        (any (matches_allowed (clean root)) (al ∷ allowed) || is_default (clean root) default_root)
      || any (matches_excluded (clean root)) excluded
