-- ===== src/Wal/Log/TornTail.antt =====
-- A log that was reopened on a segment with a torn tail: `_init_or_rotate` opens the latest segment
-- for appending and does not cut the tail off.
use zenith_db.Prelude.{
  ℕ, ◌<◌, ◌≡◌, refl, sym, ap, ◌∙◌, Option, none, some, List, ◌++◌, leb, length, take, All, inl, inr,
  Bool-cases,
}
use zenith_db.Bytes.{Bytes}
use zenith_db.Wal.Frame.{WalOpType, WalFrame, magic, read_frames}
use zenith_db.Wal.Frame.RoundTrip.{IsFrame, frame_bytes}
use zenith_db.Wal.Frame.Crash.{segment_bytes}
use zenith_db.Wal.Frame.TornTail.{read_frames-torn, read_frames-torn_end}
use zenith_db.Wal.Log.{
  WriteAheadLog, sync, sync_by_mode, directory, read_directory, recover, write_payload, append,
}
use zenith_db.Wal.Log.Append.{
  frame_for, append_cases, numbered, older-sync_by_mode, current-sync_by_mode, directory-sync,
  read_directory-directory, read_directory-rotate,
}

module _ (crc32 : Bytes → ℕ) where
  -- What is read of a log after a write, rotated or not.
  read-write_payload :
      (log : WriteAheadLog) (payload : Bytes) (now : ℕ)
      → read_directory crc32 (directory (write_payload crc32 log payload now))
        ≡ read_directory crc32 log.older ++ read_frames crc32 (log.current ++ payload)
  unfolding write_payload
  read-write_payload log payload now =
      let written : WriteAheadLog = record log { current = log.current ++ payload } in
      let log' = sync_by_mode log.sync_mode written now in
      let synced : read_directory crc32 (directory log')
          ≡ read_directory crc32 log.older ++ read_frames crc32 (log.current ++ payload) =
        read_directory-directory crc32 log' log.older (log.current ++ payload)
          (older-sync_by_mode log.sync_mode written now)
          (current-sync_by_mode log.sync_mode written now) in
      elim (Bool-cases (leb log'.max_file_size (length log'.current))) [
        | inl full ↦ rw full (read_directory-rotate crc32 log' ∙ synced)
        | inr room ↦ rw room synced
      ]

  -- On a log whose newest segment ends in the first one, two or three bytes of a torn frame, an
  -- append that returns adds nothing to what a recovery finds.
  pub recover-append_torn :
      (log : WriteAheadLog) (fs : List WalFrame) (n : ℕ) (op : WalOpType) (key value : Bytes)
      (ts now : ℕ) {lsn : ℕ}
      → All (IsFrame crc32) fs
      → log.current ≡ segment_bytes fs ++ take n magic
      → 0 < n
      → n < 4
      → (append crc32 log op key value ts now).1 ≡ some lsn
      → (recover crc32 (append crc32 log op key value ts now).0).1 ≡ (recover crc32 log).1
  unfolding recover
  recover-append_torn log fs n op key value ts now {lsn} ws e h k done =
      let before : read_directory crc32 (directory (sync log))
          ≡ read_directory crc32 log.older ++ fs =
        ap (read_directory crc32) (directory-sync log)
        ∙ read_directory-directory crc32 log log.older _ refl e
        ∙ ap (λ (l : List WalFrame). read_directory crc32 log.older ++ l)
            (read_frames-torn_end crc32 fs n ws k) in
      elim (append_cases crc32 log op key value ts now) [
        | inl bad ↦ let q : ◌≡◌ {A = Option ℕ} none (some lsn) = rw bad at done in cc
        | inr (crc, ok, q) ↦
            let f = frame_for log.next_lsn ts op key value crc in
            rw q (
              ap (read_directory crc32) (directory-sync _)
              ∙ read-write_payload (numbered crc32 log) _ now
              ∙ ap
                  (λ (c : Bytes).
                    read_directory crc32 log.older ++ read_frames crc32 (c ++ frame_bytes f))
                  e
              ∙ ap (λ (l : List WalFrame). read_directory crc32 log.older ++ l)
                  (read_frames-torn crc32 fs f n ws h k)
              ∙ sym before)
      ]
