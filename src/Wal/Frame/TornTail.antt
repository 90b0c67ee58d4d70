-- ===== src/Wal/Frame/TornTail.antt =====
-- A segment with bytes of a torn frame between whole frames.
use mathlib.Core.Path.{subst}
use zenith_db.Prelude.{
  ℕ, zero, suc, ◌<◌, ◌≡◌, refl, ap, ◌∙◌, false, none, List, [], ◌∷◌, ◌++◌, ltb, length, take, drop,
  All, append_assoc, append-nil, arith, inl, inr, Bool-cases, Option-cases, length-take,
}
use zenith_db.Bytes.{Bytes, bytes_eq}
use zenith_db.Bytes.Pack.{unpack}
use zenith_db.Wal.Frame.{
  WalFrame, header_size, header_format, magic, check_frame, read_frame, read_frames,
}
use zenith_db.Wal.Frame.RoundTrip.{IsFrame, frame_bytes, read_frame-short}
use zenith_db.Wal.Frame.Crash.{segment_bytes, read_frames-append}

check_frame-mark :
    (crc32 : Bytes → ℕ) (mark : Bytes) (fields : List ℕ) (body : Bytes)
    → bytes_eq mark magic ≡ false
    → check_frame crc32 mark fields body ≡ none
unfolding check_frame
check_frame-mark crc32 mark (a ∷ b ∷ c ∷ d ∷ e ∷ f ∷ g ∷ []) body h = rw h
check_frame-mark crc32 mark _ body h = refl

-- No frame is read where the first four bytes are not the magic.
read_frame-mark :
    (crc32 : Bytes → ℕ) (file : Bytes)
    → bytes_eq (take 4 (take 34 file)) magic ≡ false
    → read_frame crc32 file ≡ none
unfolding read_frame
read_frame-mark crc32 file h =
    elim (Bool-cases (ltb (length (take header_size file)) header_size)) [
      | inl short ↦ rw short
      | inr long ↦ elim (Option-cases (unpack header_format (drop 4 (take header_size file)))) [
        | inl bad ↦ rw (long, bad)
        | inr (fields, e) ↦ rw (long, e) (check_frame-mark crc32 _ fields (drop header_size file) h)
      ]
    ]

torn_start :
    (crc32 : Bytes → ℕ) (f : WalFrame) (rest : Bytes) (n : ℕ)
    → 0 < n
    → n < 4
    → read_frame crc32 (take n magic ++ (frame_bytes f ++ rest)) ≡ none
torn_start crc32 f rest zero h k = absurd (omega arith)
torn_start crc32 f rest (suc zero) h k = unfold frame_bytes bytes_eq in read_frame-mark crc32 _ refl
torn_start crc32 f rest (suc (suc zero)) h k =
    unfold frame_bytes bytes_eq in read_frame-mark crc32 _ refl
torn_start crc32 f rest (suc (suc (suc zero))) h k =
    unfold frame_bytes bytes_eq in read_frame-mark crc32 _ refl
torn_start crc32 f rest (suc (suc (suc (suc n)))) h k = absurd (omega arith)

-- Behind the first one, two or three bytes of a torn frame, no later frame is read.
pub read_frames-torn :
    (crc32 : Bytes → ℕ) (fs : List WalFrame) (f : WalFrame) (n : ℕ)
    → All (IsFrame crc32) fs
    → 0 < n
    → n < 4
    → read_frames crc32 ((segment_bytes fs ++ take n magic) ++ frame_bytes f) ≡ fs
read_frames-torn crc32 fs f n ws h k =
    let e : frame_bytes f ++ [] ≡ frame_bytes f = append-nil (frame_bytes f) in
    ap (read_frames crc32) (append_assoc (segment_bytes fs) (take n magic) (frame_bytes f))
    ∙ read_frames-append crc32 fs (take n magic ++ frame_bytes f) ws (
        subst (λ (s : Bytes). read_frame crc32 (take n magic ++ s) ≡ none) e
          (torn_start crc32 f [] n h k))

-- The torn bytes themselves are no frame.
pub read_frames-torn_end :
    (crc32 : Bytes → ℕ) (fs : List WalFrame) (n : ℕ)
    → All (IsFrame crc32) fs
    → n < 4
    → read_frames crc32 (segment_bytes fs ++ take n magic) ≡ fs
read_frames-torn_end crc32 fs n ws k =
    read_frames-append crc32 fs (take n magic) ws
      (read_frame-short crc32 (take n magic) (omega (arith, length-take n magic)))
