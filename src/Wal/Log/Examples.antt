-- ===== src/Wal/Log/Examples.antt =====
-- The theorems on the log at a new log, and at one reopened behind a torn frame.
use zenith_db.Prelude.{ℕ, true, ◌≤◌, ◌≡◌, refl, some, List, [], ◌∷◌, ◌++◌, arith, length}
use zenith_db.Bytes.{Bytes, codes}
use zenith_db.Bytes.Pack.{pack}
use zenith_db.Wal.Frame.{WalOpType, WalFrame, checksum, encode, op_code}
use zenith_db.Wal.Frame.Crash.{segment_bytes}
use zenith_db.Wal.Log.{
  WriteAheadLog, SyncMode, sync, rotate, sync_by_mode, crash_at, read_directory, recover,
  write_payload, append,
}
use zenith_db.Wal.Log.Append.{Holds, IsClean, frame_for, recover-append}
use zenith_db.Wal.Log.Durable.{Request, run, crash-sync, crash-append}
use zenith_db.Wal.Log.TornTail.{recover-append_torn}

abbrev crc : Bytes → ℕ
crc s = length s

abbrev log : WriteAheadLog
log = record {
  max_file_size = 60;
  sync_mode = SyncMode.always;
  older = [];
  current_seq = 1;
  current = [];
  synced = 0;
  next_lsn = 1;
  last_sync_time = 0;
  is_open = true;
}

log-Holds : Holds crc log [] []
unfolding read_directory segment_bytes
log-Holds = record { reads = refl; holds = refl; frames = tt }

log-IsClean : IsClean crc log
unfolding IsClean
log-IsClean = ([], [], log-Holds)

append_returns : (append crc log WalOpType.set (codes "k") (codes "v") 5 7).1 ≡ some 1
unfolding append encode checksum op_code pack
append_returns = refl

recover-append_example :
    IsClean crc (append crc log WalOpType.set (codes "k") (codes "v") 5 7).0
    × ((c : ℕ) × (1 ≡ log.next_lsn)
        × ((recover crc (append crc log WalOpType.set (codes "k") (codes "v") 5 7).0).1
            ≡ (recover crc log).1 ++ frame_for 1 5 WalOpType.set (codes "k") (codes "v") c ∷ []))
recover-append_example =
    recover-append crc log WalOpType.set (codes "k") (codes "v") 5 7 log-IsClean append_returns

synced_all : (append crc log WalOpType.set (codes "k") (codes "v") 5 7).0.synced ≤ 36
unfolding append encode checksum op_code pack write_payload sync_by_mode sync rotate
synced_all = omega arith

crash-append_example :
    (c : ℕ) × (read_directory crc
        (crash_at 36 (append crc log WalOpType.set (codes "k") (codes "v") 5 7).0)
      ≡ (recover crc log).1 ++ frame_for 1 5 WalOpType.set (codes "k") (codes "v") c ∷ [])
crash-append_example =
    crash-append crc log WalOpType.set (codes "k") (codes "v") 5 7 36 log-IsClean refl
      append_returns synced_all

abbrev requests : List Request
requests = record { op = WalOpType.set; key = codes "k"; value = codes "v"; ts = 5; now = 7 } ∷ []

run_synced : (run crc (sync log) requests).synced ≤ 36
unfolding run append encode checksum op_code pack write_payload sync_by_mode sync rotate
run_synced = omega arith

crash-sync_example :
    (after : List WalFrame) × (read_directory crc (crash_at 36 (run crc (sync log) requests))
      ≡ (recover crc log).1 ++ after)
crash-sync_example = crash-sync crc log requests 36 log-IsClean refl run_synced

-- Two bytes of a torn frame in the newest segment.
abbrev torn_log : WriteAheadLog
torn_log = record log { current = codes "ZW"; synced = 2 }

torn_append_returns : (append crc torn_log WalOpType.set (codes "k") (codes "v") 5 7).1 ≡ some 1
unfolding append encode checksum op_code pack
torn_append_returns = refl

recover-append_torn_example :
    (recover crc (append crc torn_log WalOpType.set (codes "k") (codes "v") 5 7).0).1
    ≡ (recover crc torn_log).1
unfolding segment_bytes
recover-append_torn_example =
    recover-append_torn crc torn_log [] 2 WalOpType.set (codes "k") (codes "v") 5 7 tt refl
      (omega arith) (omega arith) torn_append_returns
