-- ===== src/Files/Placement.antt =====
-- Where a file is to be placed: `evaluate_placement` and `evaluate_storage` of
-- backend/crates/file_metadata/src/policy.rs. The category and the type of storage are their names in the
-- answer. Rows with equally many free bytes come in the order of the table; `str::to_lowercase` is an
-- argument.
pub mod Node
pub mod Policies
mod Examples
use pcos.Prelude.{
  ℕ, List, [], ◌∷◌, Option, none, some, Bool, true, false, ◌&&◌, ◌||◌, ltb, ◌==◌, if◌then◌else◌,
  any, Text, codes, starts_with, ends_with,
}

pub data StorageCategory : Type 0 where
  photos videos audio documents backups important : StorageCategory
  custom : Text → StorageCategory

pub data StorageType : Type 0 where
  ssd hdd usb nas anywhere : StorageType

pub record PlacementEvaluation : Type 0 where
  pub category : StorageCategory
  pub target_storage_type : StorageType
  pub replica_count : ℕ
  pub availability_tier : Text
  pub rule_name : Text

abbrev pub has_kind : Text → Text → Text → List Text → Bool
has_kind mime name prefix suffixes = starts_with mime prefix || any (λ s. ends_with name s) suffixes

abbrev pub photo_suffixes : List Text
photo_suffixes =
    codes ".jpg" ∷ codes ".jpeg" ∷ codes ".png" ∷ codes ".webp" ∷ codes ".heic" ∷ codes ".raw" ∷ []

abbrev pub video_suffixes : List Text
video_suffixes = codes ".mp4" ∷ codes ".mkv" ∷ codes ".mov" ∷ codes ".avi" ∷ codes ".webm" ∷ []

abbrev pub audio_suffixes : List Text
audio_suffixes = codes ".mp3" ∷ codes ".flac" ∷ codes ".wav" ∷ codes ".ogg" ∷ codes ".m4a" ∷ []

abbrev pub backup_suffixes : List Text
backup_suffixes = codes ".tar" ∷ codes ".zip" ∷ codes ".bak" ∷ codes ".dump" ∷ codes ".gz" ∷ []

abbrev pub rule : StorageCategory → StorageType → ℕ → Text → Text → PlacementEvaluation
rule category target replicas tier name = record {
  category = category;
  target_storage_type = target;
  replica_count = replicas;
  availability_tier = tier;
  rule_name = name;
}

abbrev pub unwrap_or_default : Option Text → Text
unwrap_or_default none = []
unwrap_or_default (some t) = t

pub record StorageNode : Type 0 where
  pub id : Text
  pub user_id : ℕ
  pub name : Text
  pub is_online : Bool
  pub free_bytes : ℕ

-- `WHERE user_id = $1 AND is_online = true ORDER BY free_bytes DESC LIMIT 1`.
abbrev pub is_candidate : ℕ → StorageNode → Bool
is_candidate user n = n.user_id == user && n.is_online

abbrev pub freer : StorageNode → Option StorageNode → StorageNode
freer n none = n
freer n (some m) = if ltb n.free_bytes m.free_bytes then m else n

unfoldable pub freest_node : ℕ → List StorageNode → Option StorageNode
freest_node user [] = none
freest_node user (n ∷ ns) =
    let rest = freest_node user ns in if is_candidate user n then some (freer n rest) else rest

module _ (to_lowercase : Text → Text) where
  unfoldable pub evaluate_placement : Text → Option Text → PlacementEvaluation
  evaluate_placement file_name mime_type =
      let name = to_lowercase file_name in
      let mime = to_lowercase (unwrap_or_default mime_type) in
      if has_kind mime name (codes "image/") photo_suffixes
      then rule photos ssd 1 (codes "local_only")
          (codes "Default Photos -> High-Speed SSD Pool Policy")
      else if has_kind mime name (codes "video/") video_suffixes
      then rule videos hdd 1 (codes "local_only")
          (codes "Default Videos -> Massive Capacity HDD Pool Policy")
      else if has_kind mime name (codes "audio/") audio_suffixes
      then rule audio anywhere 1 (codes "local_only")
          (codes "Default Audio -> Music Library Policy")
      else if any (λ s. ends_with name s) backup_suffixes
      then rule backups usb 2 (codes "always_available")
          (codes "Default System Backups & Archives Policy")
      else rule documents ssd 1 (codes "any_device")
          (codes "Default Documents -> Fast SSD / NAS Policy")

  pub record Recommendation : Type 0 where
    pub evaluation : PlacementEvaluation
    pub node : Option StorageNode

  unfoldable pub evaluate_storage :
      ℕ → Option Text → Option Text → List StorageNode → Recommendation
  evaluate_storage user name mime_type nodes = record {
    evaluation = evaluate_placement (unwrap_or_default name) mime_type;
    node = freest_node user nodes;
  }
