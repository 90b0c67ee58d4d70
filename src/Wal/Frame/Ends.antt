-- ===== src/Wal/Frame/Ends.antt =====
-- The reading loop ends by a break, on any file.
use zenith_db.Prelude.{
  ℕ, zero, suc, ◌+◌, ◌≤◌, ◌<◌, ◌≡◌, refl, sym, ap, ◌∙◌, Option, none, some, List, [], ◌∷◌, ltb,
  length, drop, take, arith, inl, inr, Bool-cases, Option-cases, length-take, length-drop,
}
use mathlib.Core.Path.{subst}
use zenith_db.Prelude.{append_assoc, ◌++◌, All}
use zenith_db.Bytes.{Bytes, IsBytes}
use zenith_db.Wal.Frame.{WalFrame, header_size, check_frame, read_frame, read_loop, read_frames}
use zenith_db.Wal.Frame.Sound.{
  check_frame_inv, read_frame-unpack, read_frame_sound, read_frames_sound, All_behind,
}
use zenith_db.Wal.Frame.RoundTrip.{frame_bytes, IsFrame}
use zenith_db.Wal.Frame.Crash.{segment_bytes}

module _ (crc32 : Bytes → ℕ) where
  check_frame-shorter :
      (mark : Bytes) (fields : List ℕ) (body : Bytes) (f : WalFrame) (rest : Bytes)
      → check_frame crc32 mark fields body ≡ some (f, rest)
      → length rest ≤ length body
  check_frame-shorter mark (ver ∷ lsn ∷ ts ∷ op_val ∷ klen ∷ vlen ∷ crc ∷ []) body f rest h =
      let (_, _, _, _, _, _, _, _, _, _, r) =
        check_frame_inv crc32 mark ver lsn ts op_val klen vlen crc body f rest h in
      rw r (omega (arith, length-drop (klen + vlen) body))
  check_frame-shorter mark _ body f rest h = unfold check_frame in cc

  -- What stands behind a frame is shorter than the file.
  read_frame-shorter :
      (file : Bytes) (f : WalFrame) (rest : Bytes)
      → read_frame crc32 file ≡ some (f, rest)
      → length rest < length file
  unfolding read_frame
  read_frame-shorter file f rest h =
      elim (Bool-cases (ltb (length (take header_size file)) header_size)) [
        | inl short ↦
            let k : ◌≡◌ {A = Option (WalFrame × Bytes)} none (some (f, rest)) = rw short at h in cc
        | inr long ↦
            let (fields, _, c) = read_frame-unpack crc32 file f rest h in
            let le = check_frame-shorter _ fields (drop header_size file) f rest c in
            ground (arith, long, le, length-take header_size file, length-drop header_size file)
      ]

  read_frame-empty : (file : Bytes) → length file ≤ 0 → read_frame crc32 file ≡ none
  read_frame-empty file h = elim (Option-cases (read_frame crc32 file)) [
    | inl stop ↦ stop
    | inr ((f, rest), e) ↦ absurd (omega (arith, read_frame-shorter file f rest e))
  ]

  read_loop-stop :
      (fuel : ℕ) (file : Bytes) → read_frame crc32 file ≡ none → read_loop crc32 fuel file ≡ []
  unfolding read_loop
  read_loop-stop zero file h = refl
  read_loop-stop (suc fuel) file h = rw (h, read_loop) refl

  -- The frames do not depend on the fuel once it covers the file.
  read_loop-enough :
      (fuel more : ℕ) (file : Bytes)
      → length file ≤ fuel
      → length file ≤ more
      → read_loop crc32 fuel file ≡ read_loop crc32 more file
  unfolding read_loop
  read_loop-enough zero more file h k = sym (read_loop-stop more file (read_frame-empty file h))
  read_loop-enough (suc fuel) zero file h k =
      read_loop-stop (suc fuel) file (read_frame-empty file k)
  read_loop-enough (suc fuel) (suc more) file h k = elim (Option-cases (read_frame crc32 file)) [
    | inl stop ↦ rw (stop, read_loop) refl
    | inr ((f, rest), e) ↦
        let less = read_frame-shorter file f rest e in
        rw (e, read_loop)
          (ap (λ (l : List WalFrame). f ∷ l)
            (read_loop-enough fuel more rest (omega (arith, less)) (omega (arith, less))))
  ]

  read_loop-ends :
      (fuel : ℕ) (file : Bytes)
      → IsBytes file
      → length file ≤ fuel
      → (rest : Bytes) × (file ≡ segment_bytes (read_loop crc32 fuel file) ++ rest)
        × (read_frame crc32 rest ≡ none)
  unfolding read_loop segment_bytes
  read_loop-ends zero file hb h = (file, refl, read_frame-empty file h)
  read_loop-ends (suc fuel) file hb h = elim (Option-cases (read_frame crc32 file)) [
    | inl stop ↦ rw (stop, read_loop) (file, refl, stop)
    | inr ((f, rest), e) ↦
        let (_, front) = read_frame_sound crc32 file f rest hb e in
        let less = read_frame-shorter file f rest e in
        let (tail, more, stop) =
          read_loop-ends fuel rest (All_behind (frame_bytes f) rest (subst IsBytes front hb))
            (omega (arith, less)) in
        rw (e, read_loop)
          (
            tail,
            front
                ∙ ap (λ (t : Bytes). frame_bytes f ++ t) more
                ∙ sym
                    (append_assoc (frame_bytes f) (segment_bytes (read_loop crc32 fuel rest)) tail),
            stop,
          )
  ]

  -- On any file of bytes the reading loop ends by a break, where the file ends or what stands there
  -- is no frame: any fuel from the file's length on gives the same frames, they are well formed with
  -- valid checksums, and their bytes and a rest that gives no frame are the file.
  pub read_frames_ends :
      (file : Bytes) (fuel : ℕ)
      → IsBytes file
      → length file ≤ fuel
      → (read_loop crc32 fuel file ≡ read_frames crc32 file)
        × All (IsFrame crc32) (read_frames crc32 file)
        × ((rest : Bytes) × (file ≡ segment_bytes (read_frames crc32 file) ++ rest)
            × (read_frame crc32 rest ≡ none))
  unfolding read_frames
  read_frames_ends file fuel hb h = (
    read_loop-enough fuel (length file) file h (omega arith),
    (read_frames_sound crc32 file hb).0,
    read_loop-ends (length file) file hb (omega arith),
  )
