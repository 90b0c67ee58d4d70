-- ===== src/Wal/Log/Durable.antt =====
-- What a crash leaves of the log.
use zenith_db.Prelude.{
  ℕ, ◌-◌, ◌≤◌, ◌≡◌, refl, sym, ap, ◌∙◌, true, Option, none, some, List, [], ◌∷◌, ◌++◌, leb, length,
  take, All, append_assoc, append-nil, arith, inl, inr, Bool-cases, le→leb, take_all, length-append,
}
use zenith_db.Bytes.{Bytes}
use zenith_db.Wal.Frame.{WalOpType, WalFrame, read_frames}
use zenith_db.Wal.Frame.RoundTrip.{IsFrame, frame_bytes, frame_size, length-frame_bytes}
use zenith_db.Wal.Frame.Crash.{segment_bytes, segment_bytes-append, fitting, read_frames-take}
use zenith_db.Wal.Log.{
  WriteAheadLog, SyncMode, sync, rotate, sync_by_mode, directory, crash_at, read_directory, recover,
  write_payload, append,
}
use zenith_db.Wal.Log.Append.{
  Holds, IsClean, frame_for, append_cases, read_directory-newest, recover-append, recover-Holds,
  numbered, extend, rotate-Holds, keep-Holds, directory-sync,
}

-- Under the mode `always` nothing written is unsynced.
abbrev pub IsSynced : WriteAheadLog → Type 0
IsSynced log = length log.current ≤ log.synced

-- What a caller asks of the log.
pub record Request : Type 0 where
  pub op : WalOpType
  pub key : Bytes
  pub value : Bytes
  pub ts : ℕ
  pub now : ℕ

synced-sync_by_mode :
    (mode : SyncMode) (log : WriteAheadLog) (now x : ℕ)
    → x ≤ log.synced
    → x ≤ length log.current
    → x ≤ (sync_by_mode mode log now).synced
unfolding sync_by_mode
synced-sync_by_mode mode log now x h k = ground arith

fitting-append :
    (crc32 : Bytes → ℕ) (xs ys : List WalFrame) (n : ℕ)
    → All (IsFrame crc32) xs
    → length (segment_bytes xs) ≤ n
    → fitting n (xs ++ ys) ≡ xs ++ fitting (n - length (segment_bytes xs)) ys
unfolding fitting segment_bytes
fitting-append crc32 [] ys n ws h = ap (λ (k : ℕ). fitting k ys) (omega arith)
fitting-append crc32 (f ∷ xs) ys n (w, ws) h =
    let size = length-frame_bytes crc32 w in
    let both = length-append (frame_bytes f) (segment_bytes xs) in
    let e : n - frame_size f - length (segment_bytes xs)
        ≡ n - length (frame_bytes f ++ segment_bytes xs) =
      omega (arith, size, both) in
    rw (le→leb (frame_size f) n (omega (arith, size, both))) (
      ap (λ (l : List WalFrame). f ∷ l)
        (fitting-append crc32 xs ys (n - frame_size f) ws (omega (arith, size, both))
          ∙ ap (λ (k : ℕ). xs ++ fitting k ys) e))

All-front :
    (crc32 : Bytes → ℕ) (xs ys : List WalFrame)
    → All (IsFrame crc32) (xs ++ ys)
    → All (IsFrame crc32) xs
All-front crc32 [] ys h = tt
All-front crc32 (x ∷ xs) ys (p, h) = (p, All-front crc32 xs ys h)

module _ (crc32 : Bytes → ℕ) where
  unfoldable pub run : WriteAheadLog → List Request → WriteAheadLog
  run log [] = log
  run log (r ∷ rs) = run (append crc32 log r.op r.key r.value r.ts r.now).0 rs

  -- The frames `kept` come first in the log, and their bytes are on disk.
  record Persists (log : WriteAheadLog) (kept : List WalFrame) : Type 0 where
    old : List WalFrame
    safe : List WalFrame
    loose : List WalFrame
    more : List WalFrame
    holds : Holds crc32 log old (safe ++ loose)
    first : old ++ safe ≡ kept ++ more
    on_disk : length (segment_bytes safe) ≤ log.synced

  length-current :
      (log : WriteAheadLog) (old safe loose : List WalFrame)
      → Holds crc32 log old (safe ++ loose)
      → length (segment_bytes safe) ≤ length log.current
  length-current log old safe loose w =
      rw (w.holds, segment_bytes-append safe loose)
        (omega (arith, length-append (segment_bytes safe) (segment_bytes loose)))

  write_payload-Persists :
      (log : WriteAheadLog) (kept : List WalFrame) (f : WalFrame) (now : ℕ)
      → IsFrame crc32 f
      → Persists log kept
      → Persists (write_payload crc32 log (frame_bytes f) now) kept
  unfolding write_payload segment_bytes
  write_payload-Persists log kept f now ok p =
      let new = p.loose ++ f ∷ [] in
      let written : WriteAheadLog = record log { current = log.current ++ frame_bytes f } in
      let log' = sync_by_mode log.sync_mode written now in
      let all : p.safe ++ new ≡ (p.safe ++ p.loose) ++ f ∷ [] =
        sym (append_assoc p.safe p.loose (f ∷ [])) in
      let done : Holds crc32 log' p.old (p.safe ++ new) =
        rw all (extend crc32 log p.old (p.safe ++ p.loose) f now ok p.holds) in
      elim (Bool-cases (leb log'.max_file_size (length log'.current))) [
        | inl full ↦ rw full (record {
          old = p.old ++ (p.safe ++ new);
          safe = [];
          loose = [];
          more = p.more ++ new;
          holds = rotate-Holds crc32 done;
          first =
              append-nil _
              ∙ sym (append_assoc p.old p.safe new)
              ∙ ap (λ (l : List WalFrame). l ++ new) p.first
              ∙ append_assoc kept p.more new;
          on_disk = omega arith;
        })
        | inr room ↦ rw room (record {
          old = p.old;
          safe = p.safe;
          loose = new;
          more = p.more;
          holds = done;
          first = p.first;
          on_disk =
              synced-sync_by_mode log.sync_mode written now (length (segment_bytes p.safe))
                p.on_disk
                (omega (
                  arith,
                  length-append log.current (frame_bytes f),
                  length-current log p.old p.safe p.loose p.holds,
                ));
        })
      ]

  append-Persists :
      (log : WriteAheadLog) (kept : List WalFrame) (r : Request)
      → Persists log kept
      → Persists (append crc32 log r.op r.key r.value r.ts r.now).0 kept
  append-Persists log kept r p =
      let next : Persists (numbered crc32 log) kept = record {
        old = p.old;
        safe = p.safe;
        loose = p.loose;
        more = p.more;
        holds = keep-Holds crc32 log (numbered crc32 log) refl refl p.holds;
        first = p.first;
        on_disk = p.on_disk;
      } in
      elim (append_cases crc32 log r.op r.key r.value r.ts r.now) [
        | inl e ↦ rw e next
        | inr (crc, ok, e) ↦ rw e (write_payload-Persists (numbered crc32 log) kept _ r.now ok next)
      ]

  run-Persists :
      (log : WriteAheadLog) (kept : List WalFrame) (rs : List Request)
      → Persists log kept
      → Persists (run log rs) kept
  unfolding run
  run-Persists log kept [] p = p
  run-Persists log kept (r ∷ rs) p =
      run-Persists (append crc32 log r.op r.key r.value r.ts r.now).0 kept rs
        (append-Persists log kept r p)

  sync-Persists :
      (log : WriteAheadLog) (old new : List WalFrame)
      → log.is_open ≡ true
      → Holds crc32 log old new
      → Persists (sync log) (old ++ new)
  unfolding sync
  sync-Persists log old new o w = rw o (record {
    old = old;
    safe = new;
    loose = [];
    more = [];
    holds = record {
      reads = w.reads;
      holds = w.holds ∙ ap segment_bytes (sym (append-nil new));
      frames = rw (append-nil new) w.frames;
    };
    first = sym (append-nil (old ++ new));
    on_disk = rw w.holds (omega arith);
  })

  crash-Persists :
      (log : WriteAheadLog) (kept : List WalFrame) (n : ℕ)
      → log.synced ≤ n
      → Persists log kept
      → (after : List WalFrame) × (read_directory crc32 (crash_at n log) ≡ kept ++ after)
  unfolding crash_at
  crash-Persists log kept n h p =
      let rest = fitting (n - length (segment_bytes p.safe)) p.loose in
      let d : p.safe ++ p.loose ≡ p.safe ++ p.loose = refl in
      let found : read_frames crc32 (take n log.current) ≡ p.safe ++ rest = rw p.holds.holds (
        read_frames-take crc32 (p.safe ++ p.loose) n p.holds.frames
        ∙ fitting-append crc32 p.safe p.loose n (All-front crc32 p.safe p.loose p.holds.frames)
            (omega (arith, p.on_disk))) in
      (
        p.more ++ rest,
        read_directory-newest crc32 log p.old
              (record { seq = log.current_seq; content = take n log.current }) p.holds.reads
            ∙ ap (λ (l : List WalFrame). p.old ++ l) found
            ∙ sym (append_assoc p.old p.safe rest)
            ∙ ap (λ (l : List WalFrame). l ++ rest) p.first
            ∙ append_assoc kept p.more rest,
      )

  -- After a sync of an open log, whose segments are whole frames and nothing else, and any further appends, returning or refused, a crash that keeps
  -- the synced bytes, wherever it cuts the newest segment, leaves every frame that the log held at
  -- the sync, first and in order.
  pub crash-sync :
      (log : WriteAheadLog) (rs : List Request) (n : ℕ)
      → IsClean crc32 log
      → log.is_open ≡ true
      → (run (sync log) rs).synced ≤ n
      → (after : List WalFrame) × (read_directory crc32 (crash_at n (run (sync log) rs))
          ≡ (recover crc32 log).1 ++ after)
  unfolding IsClean
  crash-sync log rs n (old, new, w) o h =
      let (after, e) =
        crash-Persists (run (sync log) rs) (old ++ new) n h
          (run-Persists (sync log) (old ++ new) rs (sync-Persists log old new o w)) in
      (after, e ∙ ap (λ (l : List WalFrame). l ++ after) (sym (recover-Holds crc32 w)))

  -- Where the mode is `always`, an append that returned is on disk.
  write_payload-IsSynced :
      (log : WriteAheadLog) (payload : Bytes) (now : ℕ)
      → log.sync_mode ≡ SyncMode.always
      → log.is_open ≡ true
      → IsSynced (write_payload crc32 log payload now)
  unfolding write_payload sync_by_mode sync rotate
  write_payload-IsSynced log payload now m o = rw (m, o) (ground arith)

  append-IsSynced :
      (log : WriteAheadLog) (op : WalOpType) (key value : Bytes) (ts now : ℕ) {lsn : ℕ}
      → log.sync_mode ≡ SyncMode.always
      → (append crc32 log op key value ts now).1 ≡ some lsn
      → IsSynced (append crc32 log op key value ts now).0
  append-IsSynced log op key value ts now {lsn} m h =
      elim (append_cases crc32 log op key value ts now) [
        | inl e ↦ let k : ◌≡◌ {A = Option ℕ} none (some lsn) = rw e at h in cc
        | inr (crc, ok, e) ↦ rw e (write_payload-IsSynced (numbered crc32 log) _ now m refl)
      ]

  crash_at-IsSynced :
      (log : WriteAheadLog) (n : ℕ)
      → IsSynced log
      → log.synced ≤ n
      → read_directory crc32 (crash_at n log) ≡ (recover crc32 log).1
  unfolding crash_at recover directory
  crash_at-IsSynced log n full h =
      rw (take_all n log.current (omega arith))
        (ap (read_directory crc32) (sym (unfold directory in directory-sync log)))

  -- In the mode `always`, on a log whose segments are whole frames and nothing else, after an append
  -- that returns, a crash that keeps the synced bytes loses nothing: the frames found before, and the
  -- new one, are all on disk.
  pub crash-append :
      (log : WriteAheadLog) (op : WalOpType) (key value : Bytes) (ts now n : ℕ) {lsn : ℕ}
      → IsClean crc32 log
      → log.sync_mode ≡ SyncMode.always
      → (append crc32 log op key value ts now).1 ≡ some lsn
      → (append crc32 log op key value ts now).0.synced ≤ n
      → (crc : ℕ) × (read_directory crc32 (crash_at n (append crc32 log op key value ts now).0)
          ≡ (recover crc32 log).1 ++ frame_for lsn ts op key value crc ∷ [])
  crash-append log op key value ts now n {lsn} w m h k =
      let (_, (crc, _, e)) = recover-append crc32 log op key value ts now w h in
      (
        crc,
        crash_at-IsSynced (append crc32 log op key value ts now).0 n
              (append-IsSynced log op key value ts now m h) k
            ∙ e,
      )
