-- ===== src/Gateway/Cluster.antt =====
-- The protection of a user's cluster: get_cluster_status, update_cluster_mode and rebalance_cluster of
-- backend/crates/gateway/src/cluster.rs, with the tables of
-- backend/migrations/20240101000012_family_policies_and_cluster.sql. The measured times of the
-- status, which are floating-point numbers, are not modelled. The printing of a device's identifier and the
-- random identifiers of replicas are arguments.
pub mod Counts
pub mod Rebalance
mod Examples
use pcos.Prelude.{
  ℕ, ◌+◌, List, [], ◌∷◌, ◌++◌, Option, none, some, Bool, true, false, not, ◌&&◌, ◌||◌, ltb, ◌==◌,
  if◌then◌else◌, any, length, Text, codes, text_eq,
}
use pcos.Common.Error.{database}
use pcos.Common.Result.{AppResult, ok, err}
use pcos.Files.Table.{Row, select}

pub record Device : Type 0 where
  pub id : ℕ
  pub user_id : ℕ
  pub is_online : Bool

pub record Replica : Type 0 where
  pub id : Text
  pub file_id : ℕ
  pub storage_node_id : Text
  pub device_id : ℕ
  pub status : Text
  pub checksum : Text
  pub verified_at : ℕ

pub record Protection : Type 0 where
  pub user_id : ℕ
  pub protection_mode : Text
  pub rpo_target_minutes : ℕ
  pub rto_target_minutes : ℕ
  pub auto_rebalance : Bool
  pub last_health_check : Option ℕ
  pub health_status : Text

pub record Cluster : Type 0 where
  pub files : List Row
  pub devices : List Device
  pub replicas : List Replica
  pub protections : List Protection

abbrev pub find_protection : ℕ → List Protection → Option Protection
find_protection user [] = none
find_protection user (p ∷ ps) = if p.user_id == user then some p else find_protection user ps

abbrev pub single_device : Text
single_device = codes "single_device"

abbrev pub two_node : Text
two_node = codes "two_node_protection"

abbrev pub nas : Text
nas = codes "always_on_nas"

abbrev pub mesh : Text
mesh = codes "multi_node_mesh"

abbrev pub online_devices : ℕ → List Device → List Device
online_devices user [] = []
online_devices user (d ∷ ds) =
    if (d.user_id == user) && d.is_online
    then d ∷ online_devices user ds
    else online_devices user ds

-- `match mode.as_str()` of `update_cluster_mode`.
abbrev pub targets_of : Text → ℕ × ℕ
targets_of mode =
    if text_eq mode two_node
    then (15, 5)
    else if text_eq mode nas
    then (5, 1)
    else if text_eq mode mesh
    then (1, 1)
    else (1440, 120)

abbrev pub new_protection : ℕ → Text → ℕ → Protection
new_protection user mode now = record {
  user_id = user;
  protection_mode = mode;
  rpo_target_minutes = (targets_of mode).0;
  rto_target_minutes = (targets_of mode).1;
  auto_rebalance = true;
  last_health_check = some now;
  health_status = codes "healthy";
}

abbrev pub with_mode : Text → Protection → Protection
with_mode mode p = record p {
  protection_mode = mode;
  rpo_target_minutes = (targets_of mode).0;
  rto_target_minutes = (targets_of mode).1;
}

-- `INSERT … ON CONFLICT(user_id) DO UPDATE`.
abbrev pub upsert : ℕ → Text → ℕ → List Protection → List Protection
upsert user mode now [] = new_protection user mode now ∷ []
upsert user mode now (p ∷ ps) =
    if p.user_id == user then with_mode mode p ∷ ps else p ∷ upsert user mode now ps

abbrev pub or_single : Option Text → Text
or_single none = single_device
or_single (some mode) = mode

-- The column takes 32 characters.
unfoldable pub update_cluster_mode :
    ℕ → Option Text → ℕ → Cluster → AppResult (Text × ℕ × ℕ) × Cluster
update_cluster_mode user protection_mode now c =
    let mode = or_single protection_mode in
    if ltb 32 (length mode) then (err (database "constraint"), c) else (
      ok (mode, (targets_of mode).0, (targets_of mode).1),
      record c { protections = upsert user mode now c.protections },
    )

abbrev pub mode_of : Option Protection → Text
mode_of none = single_device
mode_of (some p) = p.protection_mode

abbrev pub health_of : Option Protection → Text
health_of none = codes "healthy"
health_of (some p) = p.health_status

-- The health by the mode, the number of devices online and what is stored.
abbrev pub health : Text → ℕ → Text → Text
health mode online stored =
    if online == 0
    then codes "offline"
    else if text_eq mode two_node && ltb online 2
    then codes "degraded"
    else if text_eq mode mesh && ltb online 3
    then codes "at_risk"
    else stored

abbrev pub is_of : ℕ → List Row → Replica → Bool
is_of user files r = any (λ (f : Row). (f.id == r.file_id) && (f.user_id == user)) files

abbrev pub count_replicas : (Replica → Bool) → List Replica → ℕ
count_replicas test [] = 0
count_replicas test (r ∷ rs) = (if test r then 1 else 0) + count_replicas test rs

pub record ClusterStatus : Type 0 where
  pub protection_mode : Text
  pub health_status : Text
  pub online_nodes : ℕ
  pub total_replicas : ℕ

unfoldable pub get_cluster_status : ℕ → Cluster → ClusterStatus
get_cluster_status user c =
    let p = find_protection user c.protections in
    let online = length (online_devices user c.devices) in
    record {
      protection_mode = mode_of p;
      health_status = health (mode_of p) online (health_of p);
      online_nodes = online;
      total_replicas = count_replicas (is_of user c.files) c.replicas;
    }

abbrev pub target_replicas : Text → ℕ
target_replicas mode =
    if text_eq mode two_node || text_eq mode nas then 2 else if text_eq mode mesh then 3 else 1

abbrev pub is_active : ℕ → Row → Bool
is_active user f = (f.user_id == user) && not f.is_trashed

abbrev pub replica_count : ℕ → List Replica → ℕ
replica_count file replicas = count_replicas (λ r. r.file_id == file) replicas

abbrev pub checked_hash : Option Text → Text
checked_hash none = codes "verified"
checked_hash (some hash) = hash

module _ (show : ℕ → Text) (rep_id : ℕ → ℕ → Text) (now : ℕ) where
  abbrev pub node_id : ℕ → Text
  node_id device = codes "node_" ++ show device

  -- `UNIQUE(file_id, storage_node_id)`.
  abbrev pub is_on : ℕ → ℕ → Replica → Bool
  is_on file device r = (r.file_id == file) && text_eq r.storage_node_id (node_id device)

  abbrev pub new_replica : Row → ℕ → Replica
  new_replica f device = record {
    id = rep_id f.id device;
    file_id = f.id;
    storage_node_id = node_id device;
    device_id = device;
    status = codes "synced";
    checksum = checked_hash f.sha256_hash;
    verified_at = now;
  }

  -- `for dev in &devices`: the first that has no replica of the file gets one.
  unfoldable pub place : Row → List Device → List Replica → ℕ × List Replica
  place f [] replicas = (0, replicas)
  place f (d ∷ devices) replicas =
      if any (is_on f.id d.id) replicas
      then place f devices replicas
      else (1, replicas ++ new_replica f d.id ∷ [])

  abbrev pub rebalance_file : ℕ → List Device → Row → List Replica → ℕ × List Replica
  rebalance_file target devices f replicas =
      if ltb 1 target && ltb 1 (length devices) && ltb (replica_count f.id replicas) target
      then place f devices replicas
      else (0, replicas)

  -- `for … in &files`.
  unfoldable pub rebalance_files : ℕ → List Device → List Row → List Replica → ℕ × List Replica
  rebalance_files target devices [] replicas = (0, replicas)
  rebalance_files target devices (f ∷ files) replicas =
      let (added, more) = rebalance_file target devices f replicas in
      let (rest, all_) = rebalance_files target devices files more in (added + rest, all_)

  abbrev pub check_health : ℕ → List Protection → List Protection
  check_health user [] = []
  check_health user (p ∷ ps) =
      (if p.user_id == user
        then record p { last_health_check = some now; health_status = codes "healthy" }
        else p)
      ∷ check_health user ps

  -- The answer is how many replicas were scheduled and how many files there are.
  unfoldable pub rebalance_cluster : ℕ → Cluster → (ℕ × ℕ) × Cluster
  rebalance_cluster user c =
      let files = select (is_active user) c.files in
      let target = target_replicas (mode_of (find_protection user c.protections)) in
      let (added, replicas) =
        rebalance_files target (online_devices user c.devices) files c.replicas in
      (
        (added, length files),
        record c { replicas = replicas; protections = check_health user c.protections },
      )
