-- ===== src/SyncEngine/Conflicts.antt =====
-- What a resolution does to the counts of a device: `resolve_conflict` and `sync_status` of
-- backend/crates/sync_engine/src/service.rs.
use pcos.Prelude.{
  ℕ, ◌+◌, ◌≡◌, inl, inr, refl, arith, List, [], ◌∷◌, Bool, true, false, ◌&&◌, ◌||◌, not, ◌==◌,
  if◌then◌else◌, Bool-cases,
}
use pcos.Common.Result.{ok}
use pcos.SyncEngine.{
  SyncStatus, synced, pending, conflict, SyncState, status_eq, is_of_device, is_of_file,
  is_resolved, count_status, last_sync_of, mark_synced, all_read, sync_status,
  ResolveConflictRequest, keeps_one, keeps_both, resolve_conflict,
}

-- The copies of a file on a device that have a status.
abbrev pub count_file : ℕ → ℕ → ℕ → SyncStatus → List SyncState → ℕ
count_file user device file status [] = 0
count_file user device file status (s ∷ states) =
    (if is_of_file user file s && (s.device_id == device) && status_eq s.status status
      then 1
      else 0)
    + count_file user device file status states

abbrev one_if : Bool → ℕ
one_if b = if b then 1 else 0

abbrev status_after : Bool → Bool → SyncStatus → SyncStatus
status_after both here status =
    if here && (both || status_eq status conflict) then synced else status

-- A row by what the queries ask of it: whose it is, of which file and device, and its status.
row_conflict :
    (both u f d : Bool) (st : SyncStatus)
    → one_if ((u && d) && status_eq (status_after both (u && f) st) conflict)
        + one_if ((u && f) && d && status_eq st conflict)
      ≡ one_if ((u && d) && status_eq st conflict)
row_conflict both u f d synced = ground arith
row_conflict both u f d pending = ground arith
row_conflict both u f d conflict = ground arith

row_pending :
    (both u f d : Bool) (st : SyncStatus)
    → one_if ((u && d) && status_eq (status_after both (u && f) st) pending)
        + (if both then one_if ((u && f) && d && status_eq st pending) else 0)
      ≡ one_if ((u && d) && status_eq st pending)
row_pending both u f d synced = ground arith
row_pending both u f d pending = ground arith
row_pending both u f d conflict = ground arith

row_synced :
    (both u f d : Bool) (st : SyncStatus)
    → one_if ((u && d) && status_eq (status_after both (u && f) st) synced)
      ≡ one_if ((u && d) && status_eq st synced)
        + one_if ((u && f) && d && status_eq st conflict)
        + (if both then one_if ((u && f) && d && status_eq st pending) else 0)
row_synced both u f d synced = ground arith
row_synced both u f d pending = ground arith
row_synced both u f d conflict = ground arith

module _ (both : Bool) (user now file device : ℕ) where
  abbrev marked : List SyncState → List SyncState
  marked states = mark_synced (is_resolved both user file) now states

  abbrev freed : List SyncState → ℕ
  freed states = if both then count_file user device file pending states else 0

  mark_row :
      (want : SyncStatus) (s : SyncState) (states : List SyncState)
      → count_status user device want (marked (s ∷ states))
        ≡ one_if (
            is_of_device user device s
            && status_eq (status_after both (is_of_file user file s) s.status) want)
          + count_status user device want (marked states)
  unfolding mark_synced
  mark_row want s states = elim (Bool-cases (is_resolved both user file s)) [
    | inl e ↦ rw e refl
    | inr e ↦ rw e refl
  ]

  freed_row :
      (s : SyncState) (states : List SyncState)
      → freed (s ∷ states)
        ≡ (if both
            then one_if
                (is_of_file user file s && (s.device_id == device) && status_eq s.status pending)
            else 0)
          + freed states
  freed_row s states = elim (Bool-cases both) [ inl e ↦ rw e refl | inr e ↦ rw e refl ]

  conflicts_marked :
      (states : List SyncState)
      → count_status user device conflict (marked states)
          + count_file user device file conflict states
        ≡ count_status user device conflict states
  unfolding mark_synced
  conflicts_marked [] = refl
  conflicts_marked (s ∷ states) = omega (
    arith,
    mark_row conflict s states,
    row_conflict both (s.user_id == user) (s.file_entry_id == file) (s.device_id == device)
        s.status,
    conflicts_marked states,
  )

  pending_marked :
      (states : List SyncState)
      → count_status user device pending (marked states) + freed states
        ≡ count_status user device pending states
  unfolding mark_synced
  pending_marked [] = elim (Bool-cases both) [ inl e ↦ rw e refl | inr e ↦ rw e refl ]
  pending_marked (s ∷ states) = omega (
    arith,
    mark_row pending s states,
    freed_row s states,
    row_pending both (s.user_id == user) (s.file_entry_id == file) (s.device_id == device) s.status,
    pending_marked states,
  )

  synced_marked :
      (states : List SyncState)
      → count_status user device synced (marked states)
        ≡ count_status user device synced states
          + count_file user device file conflict states
          + freed states
  unfolding mark_synced
  synced_marked [] = elim (Bool-cases both) [ inl e ↦ rw e refl | inr e ↦ rw e refl ]
  synced_marked (s ∷ states) = omega (
    arith,
    mark_row synced s states,
    freed_row s states,
    row_synced both (s.user_id == user) (s.file_entry_id == file) (s.device_id == device) s.status,
    synced_marked states,
  )

  times_marked :
      (states : List SyncState)
      → last_sync_of user device (marked states) ≡ last_sync_of user device states
  unfolding mark_synced
  times_marked [] = refl
  times_marked (s ∷ states) = elim (Bool-cases (is_resolved both user file s)) [
    | inl e ↦ rw (e, times_marked states) refl
    | inr e ↦ rw (e, times_marked states) refl
  ]

  -- The counts of a device before and after.
  abbrev pub IsMoved : List SyncState → List SyncState → Type 0
  IsMoved before after =
      let old = sync_status all_read user device before in
      let new = sync_status all_read user device after in
      let solved = count_file user device file conflict before in
      (new.conflicts + solved ≡ old.conflicts)
      × (new.total_pending + freed before ≡ old.total_pending)
      × (new.total_synced ≡ old.total_synced + solved + freed before)
      × (new.last_sync ≡ old.last_sync)

  marked-IsMoved : (states : List SyncState) → IsMoved states (marked states)
  unfolding sync_status
  marked-IsMoved states =
      (conflicts_marked states, pending_marked states, synced_marked states, times_marked states)

-- Where the resolution is one of the three words: it is accepted, and on each device of the user the conflicts of the
-- file turn from conflicts into synced copies, with keep_both the pending copies of the file as well; no
-- other copy is counted anew, and the time of the last
-- synchronisation stays, as `sync_status` answers them where its queries succeed.
pub resolve_conflict_lem :
    (user now device : ℕ) (req : ResolveConflictRequest) (states : List SyncState)
    → (keeps_one req.resolution || keeps_both req.resolution) ≡ true
    → let (answer, after) = resolve_conflict user now req states in
      (answer ≡ ok tt)
      × IsMoved (not (keeps_one req.resolution)) user now req.file_entry_id device states after
unfolding resolve_conflict
resolve_conflict_lem user now device req states h = elim (Bool-cases (keeps_one req.resolution)) [
  | inl e ↦ rw e (refl, marked-IsMoved false user now req.file_entry_id device states)
  | inr e ↦
      let both : keeps_both req.resolution ≡ true = ground arith in
      rw (e, both) (refl, marked-IsMoved true user now req.file_entry_id device states)
]
