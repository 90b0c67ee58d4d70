-- ===== src/Wal/Log/Append.antt =====
-- What a recovery finds after an append: the frames before, and the new one.
use zenith_db.Prelude.{
  ◌⊎◌, ℕ, ◌+◌, ◌≡◌, refl, sym, ap, ◌∙◌, true, Option, none, some, List, [], ◌∷◌, ◌++◌, leb, length,
  All, All-append, append_assoc, append-nil, arith, inl, inr, Bool-cases, Option-cases,
}
use zenith_db.Bytes.{Bytes}
use zenith_db.Wal.Frame.{WalOpType, WalFrame, encode, read_frames}
use zenith_db.Wal.Frame.RoundTrip.{IsFrame, frame_bytes, encode_inv}
use zenith_db.Wal.Frame.Crash.{segment_bytes, segment_bytes-append, read_frames-segment_bytes}
use zenith_db.Wal.Log.{
  WriteAheadLog, Segment, SyncMode, sync, rotate, sync_by_mode, directory, read_directory, recover,
  write_payload, append,
}

segment_bytes_one : (f : WalFrame) → segment_bytes (f ∷ []) ≡ frame_bytes f
unfolding segment_bytes
segment_bytes_one f = append-nil (frame_bytes f)

pub older-rotate : (log : WriteAheadLog) → (rotate log).older ≡ directory log
unfolding rotate directory
older-rotate log = ground arith

current-rotate : (log : WriteAheadLog) → (rotate log).current ≡ []
unfolding rotate
current-rotate log = refl

pub older-sync_by_mode :
    (mode : SyncMode) (log : WriteAheadLog) (now : ℕ)
    → (sync_by_mode mode log now).older ≡ log.older
unfolding sync_by_mode
older-sync_by_mode mode log now = ground arith

pub current-sync_by_mode :
    (mode : SyncMode) (log : WriteAheadLog) (now : ℕ)
    → (sync_by_mode mode log now).current ≡ log.current
unfolding sync_by_mode
current-sync_by_mode mode log now = ground arith

pub directory-sync : (log : WriteAheadLog) → directory (sync log) ≡ directory log
unfolding sync directory
directory-sync log = ground arith

-- The frame that an append writes, but for its checksum.
abbrev pub frame_for : ℕ → ℕ → WalOpType → Bytes → Bytes → ℕ → WalFrame
frame_for lsn ts op key value crc = record {
  lsn = lsn;
  timestamp = ts;
  op_type = op;
  key = key;
  value = value;
  crc = crc;
}

module _ (crc32 : Bytes → ℕ) where
  -- The older segments read as `old`, and the newest holds the frames `new` and nothing else.
  pub record Holds (log : WriteAheadLog) (old new : List WalFrame) : Type 0 where
    pub reads : read_directory crc32 log.older ≡ old
    pub holds : log.current ≡ segment_bytes new
    pub frames : All (IsFrame crc32) new

  unfoldable pub IsClean : WriteAheadLog → Type 0
  IsClean log = (old : List WalFrame) × (new : List WalFrame) × Holds log old new

  read_directory-append :
      (xs ys : List Segment)
      → read_directory crc32 (xs ++ ys) ≡ read_directory crc32 xs ++ read_directory crc32 ys
  unfolding read_directory
  read_directory-append [] ys = refl
  read_directory-append (x ∷ xs) ys = simp (read_directory-append xs ys, append_assoc)

  -- The frames of a newest segment behind the older ones.
  pub read_directory-newest :
      (log : WriteAheadLog) (old : List WalFrame) (s : Segment)
      → read_directory crc32 log.older ≡ old
      → read_directory crc32 (log.older ++ s ∷ []) ≡ old ++ read_frames crc32 s.content
  unfolding read_directory
  read_directory-newest log old s h =
      simp (read_directory-append, append-nil)
        (ap (λ (l : List WalFrame). l ++ read_frames crc32 s.content) h)

  -- What is read of the directory: the older segments, and then the newest.
  pub read_directory-directory :
      (log : WriteAheadLog) (older : List Segment) (current : Bytes)
      → log.older ≡ older
      → log.current ≡ current
      → read_directory crc32 (directory log)
        ≡ read_directory crc32 older ++ read_frames crc32 current
  unfolding directory
  read_directory-directory log older current p q =
      read_directory-newest log (read_directory crc32 older)
        (record { seq = log.current_seq; content = log.current }) (ap (read_directory crc32) p)
      ∙ ap (λ (c : Bytes). read_directory crc32 older ++ read_frames crc32 c) q

  pub read_directory-rotate :
      (log : WriteAheadLog)
      → read_directory crc32 (directory (rotate log)) ≡ read_directory crc32 (directory log)
  unfolding segment_bytes
  read_directory-rotate log =
      read_directory-directory (rotate log) (directory log) [] (older-rotate log)
        (current-rotate log)
      ∙ ap (λ (l : List WalFrame). read_directory crc32 (directory log) ++ l)
          (read_frames-segment_bytes crc32 [] tt)
      ∙ append-nil (read_directory crc32 (directory log))

  pub read_directory-Holds :
      {log : WriteAheadLog} {old new : List WalFrame}
      → Holds log old new
      → read_directory crc32 (directory log) ≡ old ++ new
  unfolding directory
  read_directory-Holds {log} {old} {new} w =
      read_directory-newest log old (record { seq = log.current_seq; content = log.current })
        w.reads
      ∙ ap (λ (l : List WalFrame). old ++ l)
          (ap (read_frames crc32) w.holds ∙ read_frames-segment_bytes crc32 new w.frames)

  pub recover-Holds :
      {log : WriteAheadLog} {old new : List WalFrame}
      → Holds log old new
      → (recover crc32 log).1 ≡ old ++ new
  unfolding recover
  recover-Holds {log} w = ap (read_directory crc32) (directory-sync log) ∙ read_directory-Holds w

  pub rotate-Holds :
      {log : WriteAheadLog} {old new : List WalFrame}
      → Holds log old new
      → Holds (rotate log) (old ++ new) []
  unfolding segment_bytes rotate
  rotate-Holds {log} w = record {
    reads = ap (read_directory crc32) (older-rotate log) ∙ read_directory-Holds w;
    holds = refl;
    frames = tt;
  }

  -- A step that writes neither to the older segments nor to the newest keeps what they hold.
  pub keep-Holds :
      (log log' : WriteAheadLog) {old new : List WalFrame}
      → log'.older ≡ log.older
      → log'.current ≡ log.current
      → Holds log old new
      → Holds log' old new
  keep-Holds log log' p q w = record {
    reads = ap (read_directory crc32) p ∙ w.reads;
    holds = q ∙ w.holds;
    frames = w.frames;
  }

  -- The newest segment after a write and the sync by mode.
  pub extend :
      (log : WriteAheadLog) (old new : List WalFrame) (f : WalFrame) (now : ℕ)
      → IsFrame crc32 f
      → Holds log old new
      → Holds
          (sync_by_mode log.sync_mode (record log { current = log.current ++ frame_bytes f }) now)
          old
          (new ++ f ∷ [])
  extend log old new f now ok w =
      let written : WriteAheadLog = record log { current = log.current ++ frame_bytes f } in
      keep-Holds written (sync_by_mode log.sync_mode written now)
        (older-sync_by_mode log.sync_mode written now)
        (current-sync_by_mode log.sync_mode written now)
        (record {
          reads = w.reads;
          holds =
              ap (λ (s : Bytes). s ++ frame_bytes f) w.holds
              ∙ (rw (segment_bytes-append new (f ∷ []), segment_bytes_one f));
          frames = All-append _ new (f ∷ []) w.frames (ok, tt);
        })

  write_payload-Holds :
      {log : WriteAheadLog} {old new : List WalFrame} (f : WalFrame) (now : ℕ)
      → Holds log old new
      → IsFrame crc32 f
      → (old' : List WalFrame) × (new' : List WalFrame) × Holds
          (write_payload crc32 log (frame_bytes f) now)
          old'
          new'
        × (old' ++ new' ≡ (old ++ new) ++ f ∷ [])
  unfolding write_payload
  write_payload-Holds {log} {old} {new} f now w ok =
      let written : WriteAheadLog = record log { current = log.current ++ frame_bytes f } in
      let log' = sync_by_mode log.sync_mode written now in
      let done = extend log old new f now ok w in
      let all = sym (append_assoc old new (f ∷ [])) in
      elim (Bool-cases (leb log'.max_file_size (length log'.current))) [
        | inl full ↦ rw full (old ++ (new ++ f ∷ []), [], rotate-Holds done, append-nil _ ∙ all)
        | inr room ↦ rw room (old, new ++ f ∷ [], done, all)
      ]

  -- The log with its next number taken, as `append` leaves it before the write.
  abbrev pub numbered : WriteAheadLog → WriteAheadLog
  numbered log = record log { next_lsn = log.next_lsn + 1; is_open = true }

  -- The two ways through `append`.
  pub append_cases :
      (log : WriteAheadLog) (op : WalOpType) (key value : Bytes) (ts now : ℕ)
      → (append crc32 log op key value ts now ≡ (numbered log, none))
        ⊎ ((crc : ℕ) × IsFrame crc32 (frame_for log.next_lsn ts op key value crc)
            × (append crc32 log op key value ts now ≡ (
              write_payload crc32
                  (numbered log)
                  (frame_bytes (frame_for log.next_lsn ts op key value crc))
                  now,
              some log.next_lsn,
            )))
  unfolding append
  append_cases log op key value ts now =
      elim (Option-cases (encode crc32 log.next_lsn ts op key value)) [
        | inl bad ↦ inl (rw (bad, append))
        | inr (s, e) ↦
            let (crc, (ok, bytes)) = encode_inv crc32 log.next_lsn ts op key value e in
            inr (crc, ok, rw (e, append, bytes))
      ]

  pub append-Holds :
      {log : WriteAheadLog} {old new : List WalFrame} (op : WalOpType) (key value : Bytes)
      (ts now : ℕ) {lsn : ℕ}
      → Holds log old new
      → (append crc32 log op key value ts now).1 ≡ some lsn
      → (crc : ℕ) × (old' : List WalFrame) × (new' : List WalFrame) × Holds
          (append crc32 log op key value ts now).0
          old'
          new'
        × (old' ++ new' ≡ (old ++ new) ++ frame_for lsn ts op key value crc ∷ [])
        × (lsn ≡ log.next_lsn)
  append-Holds {log} op key value ts now {lsn} w h = elim (append_cases log op key value ts now) [
    | inl e ↦ let k : ◌≡◌ {A = Option ℕ} none (some lsn) = rw e at h in cc
    | inr (crc, ok, e) ↦
        let k : some log.next_lsn ≡ some lsn = rw e at h in
        let n : log.next_lsn ≡ lsn = cc in
        let (old', new', w', all) =
          write_payload-Holds (frame_for log.next_lsn ts op key value crc) now
            (keep-Holds log (numbered log) refl refl w) ok in
        rw (e, ← n) (crc, old', new', w', all, refl)
  ]

  -- On a log whose segments are whole frames and nothing else, after an append that returns, a
  -- recovery finds the frames that it found before and then the new frame, with the log's next
  -- number, whether or not the append synced or rotated the log, and the segments are whole frames
  -- again.
  pub recover-append :
      (log : WriteAheadLog) (op : WalOpType) (key value : Bytes) (ts now : ℕ) {lsn : ℕ}
      → IsClean log
      → (append crc32 log op key value ts now).1 ≡ some lsn
      → IsClean (append crc32 log op key value ts now).0
        × ((crc : ℕ) × (lsn ≡ log.next_lsn)
            × ((recover crc32 (append crc32 log op key value ts now).0).1
                ≡ (recover crc32 log).1 ++ frame_for lsn ts op key value crc ∷ []))
  unfolding IsClean
  recover-append log op key value ts now {lsn} (old, new, w) h =
      let (crc, old', new', w', all, n) = append-Holds op key value ts now w h in
      (
        (old', new', w'),
        (
          crc,
          n,
          recover-Holds w'
              ∙ all
              ∙ ap (λ (l : List WalFrame). l ++ frame_for lsn ts op key value crc ∷ [])
                  (sym (recover-Holds w)),
        ),
      )
