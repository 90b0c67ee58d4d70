-- ===== src/Wal/Frame/Crash.antt =====
-- A segment that was cut at any byte: what `read_frames` recovers from it.
use zenith_db.Prelude.{
  ℕ, zero, suc, ◌-◌, ◌≤◌, ◌≡◌, refl, sym, ap, ◌∙◌, none, List, [], ◌∷◌, ◌++◌, leb, if◌then◌else◌,
  length, take, arith, inl, inr, Bool-cases, append_assoc, append-nil, All, length-append,
  take-append_short, take-append_long, take_all, leb→le, leb→lt,
}
use zenith_db.Bytes.{Bytes}
use zenith_db.Wal.Frame.{WalFrame, read_frame, read_loop, read_frames}
use zenith_db.Wal.Frame.RoundTrip.{
  frame_bytes, frame_size, IsFrame, length-frame_bytes, read_frame-frame, read_frame-short,
  read_frame-torn,
}

-- The bytes of a segment that holds the frames.
unfoldable pub segment_bytes : List WalFrame → Bytes
segment_bytes [] = []
segment_bytes (f ∷ fs) = frame_bytes f ++ segment_bytes fs

-- The frames whose bytes lie wholly within the first `n` bytes of their segment.
unfoldable pub fitting : ℕ → List WalFrame → List WalFrame
fitting n [] = []
fitting n (f ∷ fs) =
    let rest = fitting (n - frame_size f) fs in if leb (frame_size f) n then f ∷ rest else []

module _ (crc32 : Bytes → ℕ) where
  -- More rounds than frames change nothing.
  read_loop-frames :
      (fs : List WalFrame) (tail : Bytes) (fuel : ℕ)
      → All (IsFrame crc32) fs
      → read_frame crc32 tail ≡ none
      → length fs ≤ fuel
      → read_loop crc32 fuel (segment_bytes fs ++ tail) ≡ fs
  unfolding read_loop segment_bytes
  read_loop-frames [] tail zero ws stop enough = refl
  read_loop-frames [] tail (suc fuel) ws stop enough = rw (stop, read_loop)
  read_loop-frames (f ∷ fs) tail zero ws stop enough = absurd (omega arith)
  read_loop-frames (f ∷ fs) tail (suc fuel) (w, ws) stop enough =
      rw
        (
          append_assoc (frame_bytes f) (segment_bytes fs) tail,
          read_frame-frame crc32 (segment_bytes fs ++ tail) w,
          read_loop,
        )
        (ap (λ (l : List WalFrame). f ∷ l) (read_loop-frames fs tail fuel ws stop (omega arith)))

  length-segment_bytes :
      (fs : List WalFrame) → All (IsFrame crc32) fs → length fs ≤ length (segment_bytes fs)
  unfolding segment_bytes
  length-segment_bytes [] ws = omega arith
  length-segment_bytes (f ∷ fs) (w, ws) = omega (
    arith,
    length-append (frame_bytes f) (segment_bytes fs),
    length-frame_bytes crc32 w,
    length-segment_bytes fs ws,
  )

  -- A segment with something behind it that is no frame is read back whole.
  pub read_frames-append :
      (fs : List WalFrame) (tail : Bytes)
      → All (IsFrame crc32) fs
      → read_frame crc32 tail ≡ none
      → read_frames crc32 (segment_bytes fs ++ tail) ≡ fs
  unfolding read_frames
  read_frames-append fs tail ws stop =
      read_loop-frames fs tail (length (segment_bytes fs ++ tail)) ws stop
        (omega (arith, length-append (segment_bytes fs) tail, length-segment_bytes fs ws))

  -- Where a cut leaves the segment: whole frames, and a rest that holds none.
  take-segment_bytes :
      (fs : List WalFrame) (n : ℕ)
      → All (IsFrame crc32) fs
      → (tail : Bytes) × (take n (segment_bytes fs) ≡ segment_bytes (fitting n fs) ++ tail)
        × (read_frame crc32 tail ≡ none)
        × All (IsFrame crc32) (fitting n fs)
  unfolding segment_bytes fitting
  take-segment_bytes [] n ws =
      ([], take_all n [] (omega arith), read_frame-short crc32 [] (omega arith), tt)
  take-segment_bytes (f ∷ fs) n (w, ws) = elim (Bool-cases (leb (frame_size f) n)) [
    | inl whole ↦
        let (tail, cut, stop, ok) = take-segment_bytes fs (n - frame_size f) ws in
        let size = length-frame_bytes crc32 w in
        let at =
          take-append_long n (frame_bytes f) (segment_bytes fs)
            (omega (arith, size, leb→le (frame_size f) n whole)) in
        rw whole (
          tail,
          at
              ∙ (rw size (
                  ap (λ (s : Bytes). frame_bytes f ++ s) cut
                  ∙ sym (
                      append_assoc (frame_bytes f) (segment_bytes (fitting (n - frame_size f) fs))
                        tail))),
          stop,
          (w, ok),
        )
    | inr torn ↦
        let small = leb→lt (frame_size f) n torn in
        let size = length-frame_bytes crc32 w in
        rw torn (
          take n (frame_bytes f),
          take-append_short n (frame_bytes f) (segment_bytes fs) (omega (arith, size)),
          read_frame-torn crc32 n w small,
          tt,
        )
  ]

  -- Reading a segment that was cut after any number of bytes gives exactly the frames that had
  -- been written whole, in order, whatever the cut leaves of the next one.
  pub read_frames-take :
      (fs : List WalFrame) (n : ℕ)
      → All (IsFrame crc32) fs
      → read_frames crc32 (take n (segment_bytes fs)) ≡ fitting n fs
  read_frames-take fs n ws =
      let (tail, cut, stop, ok) = take-segment_bytes fs n ws in
      rw cut (read_frames-append (fitting n fs) tail ok stop)

pub segment_bytes-append :
    (fs gs : List WalFrame) → segment_bytes (fs ++ gs) ≡ segment_bytes fs ++ segment_bytes gs
unfolding segment_bytes
segment_bytes-append [] gs = refl
segment_bytes-append (f ∷ fs) gs =
    ap (λ (s : Bytes). frame_bytes f ++ s) (segment_bytes-append fs gs)
    ∙ sym (append_assoc (frame_bytes f) (segment_bytes fs) (segment_bytes gs))

-- Reading back a segment that was written whole.
pub read_frames-segment_bytes :
    (crc32 : Bytes → ℕ) (fs : List WalFrame)
    → All (IsFrame crc32) fs
    → read_frames crc32 (segment_bytes fs) ≡ fs
read_frames-segment_bytes crc32 fs ws =
    ap (read_frames crc32) (sym (append-nil (segment_bytes fs)))
    ∙ read_frames-append crc32 fs [] ws (read_frame-short crc32 [] (omega arith))
