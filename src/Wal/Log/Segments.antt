-- ===== src/Wal/Log/Segments.antt =====
-- The numbers of a log's segments, and the directory that a log is reopened on.
use zenith_db.Prelude.{
  ℕ, ◌+◌, ◌<◌, ◌≡◌, refl, sym, ap, ◌∙◌, some, List, [], ◌∷◌, ◌++◌, arith, inl, inr, Bool-cases, leb,
  length, All, All-append,
}
use zenith_db.Bytes.{Bytes}
use zenith_db.Wal.Frame.{WalOpType}
use zenith_db.Wal.Log.{
  Segment, SyncMode, WriteAheadLog, split_last, open_log, sync, rotate, sync_by_mode, directory,
  purge_older, purge_before, write_payload, append, recover, read_directory,
}
use zenith_db.Wal.Frame.Crash.{segment_bytes}
use zenith_db.Wal.Log.Append.{directory-sync, Holds, older-sync_by_mode, append_cases, numbered}

-- The older segments have numbers below the newest one's.
abbrev pub IsOrdered : WriteAheadLog → Type 0
IsOrdered log = All (λ (s : Segment). s.seq < log.current_seq) log.older

seqs_rise :
    (m n : ℕ) (dir : List Segment) → m < n → All (λ s. s.seq < m) dir → All (λ s. s.seq < n) dir
seqs_rise m n [] h w = tt
seqs_rise m n (s ∷ dir) h (p, w) = (omega arith, seqs_rise m n dir h w)

pub rotate-IsOrdered : (log : WriteAheadLog) → IsOrdered log → IsOrdered (rotate log)
unfolding rotate sync
rotate-IsOrdered log w = elim (Bool-cases log.is_open) [
  | inl e ↦ rw e (
      All-append (λ (s : Segment). s.seq < log.current_seq + 1) log.older _
        (seqs_rise log.current_seq (log.current_seq + 1) log.older (omega arith) w)
        (omega arith, tt))
  | inr e ↦ rw e (
      All-append (λ (s : Segment). s.seq < log.current_seq + 1) log.older _
        (seqs_rise log.current_seq (log.current_seq + 1) log.older (omega arith) w)
        (omega arith, tt))
]

current_seq-sync_by_mode :
    (mode : SyncMode) (log : WriteAheadLog) (now : ℕ)
    → (sync_by_mode mode log now).current_seq ≡ log.current_seq
unfolding sync_by_mode sync
current_seq-sync_by_mode mode log now = ground arith

sync_by_mode-IsOrdered :
    (mode : SyncMode) (log : WriteAheadLog) (now : ℕ)
    → IsOrdered log
    → IsOrdered (sync_by_mode mode log now)
sync_by_mode-IsOrdered mode log now w =
    rw (older-sync_by_mode mode log now, current_seq-sync_by_mode mode log now) w

module _ (crc32 : Bytes → ℕ) where
  write_payload-IsOrdered :
      (log : WriteAheadLog) (payload : Bytes) (now : ℕ)
      → IsOrdered log
      → IsOrdered (write_payload crc32 log payload now)
  unfolding write_payload
  write_payload-IsOrdered log payload now w =
      let log1 : WriteAheadLog = record log { current = log.current ++ payload } in
      let log2 = sync_by_mode log.sync_mode log1 now in
      let w2 : IsOrdered log2 = sync_by_mode-IsOrdered log.sync_mode log1 now w in
      elim (Bool-cases (leb log2.max_file_size (length log2.current))) [
        | inl full ↦ rw full (rotate-IsOrdered log2 w2)
        | inr room ↦ rw room w2
      ]

  pub append-IsOrdered :
      (log : WriteAheadLog) (op : WalOpType) (key value : Bytes) (ts now : ℕ)
      → IsOrdered log
      → IsOrdered (append crc32 log op key value ts now).0
  append-IsOrdered log op key value ts now w = elim (append_cases crc32 log op key value ts now) [
    | inl e ↦ rw e w
    | inr (crc, _, e) ↦ rw e (write_payload-IsOrdered (numbered crc32 log) _ now w)
  ]

purge_older-all :
    (n : ℕ) (dir : List Segment) → All (λ s. s.seq < n) dir → (purge_older n n dir).0 ≡ []
unfolding purge_older
purge_older-all n [] w = refl
purge_older-all n (s ∷ dir) (p, w) = ground (arith, purge_older-all n dir w)

-- A purge up to the newest segment leaves no other.
pub older-purge_before :
    (log : WriteAheadLog) → IsOrdered log → (purge_before log log.current_seq).0.older ≡ []
unfolding purge_before
older-purge_before log w = purge_older-all log.current_seq log.older w

split_last-append : (dir : List Segment) (s : Segment) → split_last (dir ++ s ∷ []) ≡ some (dir, s)
unfolding split_last
split_last-append [] s = refl
split_last-append (d ∷ dir) s = rw (split_last-append dir s) refl

-- Reopening a log's directory gives the same segments.
pub directory-open_log :
    (max_file_size : ℕ) (mode : SyncMode) (log : WriteAheadLog) (now : ℕ)
    → directory (open_log max_file_size mode (directory log) now) ≡ directory log
unfolding directory open_log
directory-open_log max_file_size mode log now =
    let e : split_last (directory log)
        ≡ some (log.older, record { seq = log.current_seq; content = log.current }) =
      split_last-append log.older _ in
    rw (e, open_log)

-- Equal directories are recovered alike.
pub recover-directory :
    (crc32 : Bytes → ℕ) (log log' : WriteAheadLog)
    → directory log ≡ directory log'
    → (recover crc32 log).1 ≡ (recover crc32 log').1
unfolding recover
recover-directory crc32 log log' e =
    ap (read_directory crc32) (directory-sync log ∙ e ∙ sym (directory-sync log'))

-- A purge up to a newest segment that is empty leaves no frame.
pub purged-Holds :
    (crc32 : Bytes → ℕ) (log : WriteAheadLog)
    → IsOrdered log
    → log.current ≡ []
    → Holds crc32 (purge_before log log.current_seq).0 [] []
unfolding segment_bytes read_directory purge_before
purged-Holds crc32 log w e = record {
  reads = ap (read_directory crc32) (older-purge_before log w);
  holds = e;
  frames = tt;
}

pub purged-IsOrdered :
    (log : WriteAheadLog) → IsOrdered log → IsOrdered (purge_before log log.current_seq).0
purged-IsOrdered log w = rw (older-purge_before log w) tt

pub current-rotated : (log : WriteAheadLog) → (rotate log).current ≡ []
unfolding rotate
current-rotated log = refl
