-- ===== src/Wal/Log.antt =====
-- WriteAheadLog. The directory is the list of its segments in the order of their file names,
-- which is that of their numbers up to 10^8; the newest, which is written to, stands apart with
-- the count of its bytes that are known to be on disk. Times are in microseconds.
pub mod Append
pub mod Durable
pub mod Numbers
pub mod TornTail
pub mod Segments
mod Examples
use zenith_db.Prelude.{
  ℕ, ◌+◌, ◌-◌, Bool, true, false, not, ◌&&◌, Option, none, some, List, [], ◌∷◌, ◌++◌, ltb, leb,
  ◌==◌, if◌then◌else◌, length, take,
}
use zenith_db.Bytes.{Bytes}
use zenith_db.Wal.Frame.{WalOpType, WalFrame, encode, read_frames}

pub record Segment : Type 0 where
  pub seq : ℕ
  pub content : Bytes

pub data SyncMode : Type 0 where
  always every_sec never : SyncMode

pub record WriteAheadLog : Type 0 where
  pub max_file_size : ℕ
  pub sync_mode : SyncMode
  pub older : List Segment
  pub current_seq : ℕ
  pub current : Bytes
  pub synced : ℕ
  pub next_lsn : ℕ
  pub last_sync_time : ℕ
  pub is_open : Bool

-- The latest segment, `existing_logs[-1]`, and those before it.
pub split_last : List Segment → Option (List Segment × Segment)
split_last [] = none
split_last (s ∷ dir) = elim (split_last dir) [
  | none ↦ some ([], s)
  | some (before, last) ↦ some (s ∷ before, last)
]

-- `__init__` on a directory: the latest segment is reopened, or a first one is made.
pub open_log : ℕ → SyncMode → List Segment → ℕ → WriteAheadLog
unfolding split_last
open_log max_file_size mode dir now = elim (split_last dir) [
  | none ↦ record {
    max_file_size = max_file_size;
    sync_mode = mode;
    older = [];
    current_seq = 1;
    current = [];
    synced = 0;
    next_lsn = 1;
    last_sync_time = now;
    is_open = true;
  }
  | some (before, last) ↦ record {
    max_file_size = max_file_size;
    sync_mode = mode;
    older = before;
    current_seq = last.seq;
    current = last.content;
    synced = length last.content;
    next_lsn = 1;
    last_sync_time = now;
    is_open = true;
  }
]

unfoldable pub sync : WriteAheadLog → WriteAheadLog
sync log = if log.is_open then record log { synced = length log.current } else log

unfoldable pub rotate : WriteAheadLog → WriteAheadLog
unfolding sync
rotate log =
    let log = sync log in
    record log {
      older = log.older ++ record { seq = log.current_seq; content = log.current } ∷ [];
      current_seq = log.current_seq + 1;
      current = [];
      synced = 0;
      is_open = true;
    }

pub close : WriteAheadLog → WriteAheadLog
unfolding sync
close log = record (sync log) { is_open = false }

abbrev pub one_second : ℕ
one_second = 1000000

-- The durability rule of `append`.
unfoldable pub sync_by_mode : SyncMode → WriteAheadLog → ℕ → WriteAheadLog
unfolding sync
sync_by_mode SyncMode.always log now = sync log
sync_by_mode SyncMode.every_sec log now =
    if leb one_second (now - log.last_sync_time)
    then record (sync log) { last_sync_time = now }
    else log
sync_by_mode SyncMode.never log now = log

-- The segments on disk.
pub directory : WriteAheadLog → List Segment
directory log = log.older ++ record { seq = log.current_seq; content = log.current } ∷ []

-- What a crash may leave: the newest segment keeps at least what was synced.
pub crash_at : ℕ → WriteAheadLog → List Segment
crash_at n log = log.older ++ record { seq = log.current_seq; content = take n log.current } ∷ []

pub max_lsn : ℕ → List WalFrame → ℕ
max_lsn m [] = m
max_lsn m (f ∷ fs) = max_lsn (if ltb m f.lsn then f.lsn else m) fs

-- `purge_before`, on the segments other than the current one: what is kept, and the count deleted.
pub purge_older : ℕ → ℕ → List Segment → List Segment × ℕ
purge_older limit current [] = ([], 0)
purge_older limit current (s ∷ dir) =
    let (kept, deleted) = purge_older limit current dir in
    if ltb s.seq limit && not (s.seq == current) then (kept, deleted + 1) else (s ∷ kept, deleted)

unfoldable pub purge_before : WriteAheadLog → ℕ → WriteAheadLog × ℕ
unfolding purge_older
purge_before log limit =
    let (kept, deleted) = purge_older limit log.current_seq log.older in
    (record log { older = kept }, deleted)

module _ (crc32 : Bytes → ℕ) where
  -- The frames of the segments, in order.
  pub read_directory : List Segment → List WalFrame
  read_directory [] = []
  read_directory (s ∷ dir) = read_frames crc32 s.content ++ read_directory dir

  pub recover : WriteAheadLog → WriteAheadLog × List WalFrame
  recover log =
      let log = sync log in
      let frames = read_directory (directory log) in
      (record log { next_lsn = max_lsn 0 frames + 1 }, frames)

  -- The frame is written, then the log syncs by its mode, and then rotates if the segment is full.
  unfoldable pub write_payload : WriteAheadLog → Bytes → ℕ → WriteAheadLog
  write_payload log payload now =
      let log = record log { current = log.current ++ payload } in
      let log = sync_by_mode log.sync_mode log now in
      if leb log.max_file_size (length log.current) then rotate log else log

  -- `none` is the struct.error of a field that does not fit: the number is used up all the same.
  -- `ts` is the time stamp of the frame, `now` the clock when the sync is considered.
  unfoldable pub append :
      WriteAheadLog → WalOpType → Bytes → Bytes → ℕ → ℕ → WriteAheadLog × Option ℕ
  append log op key value ts now =
      let lsn = log.next_lsn in
      let log = record log { next_lsn = lsn + 1; is_open = true } in
      elim (encode crc32 lsn ts op key value) [
        | none ↦ (log, none)
        | some payload ↦ (write_payload log payload now, some lsn)
      ]
