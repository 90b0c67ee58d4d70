-- ===== src/Wal/Frame/Sound.antt =====
-- What `read_frames` returns was written: on any file of bytes, its frames are well formed and
-- their bytes are the file's front.
use mathlib.Core.Path.{subst, ap₂}
use zenith_db.Prelude.{
  ℕ, zero, suc, ◌+◌, ◌≤◌, ◌≡◌, refl, sym, ap, ◌∙◌, true, Option, none, some, List, [], ◌∷◌, ◌++◌,
  ltb, length, take, drop, arith, inl, inr, Bool-cases, Option-cases, append_assoc, All,
  length-take, length-drop, take_all, take-append-drop, All-take, All-drop,
}
use zenith_db.Bytes.{Bytes, IsBytes, bytes_eq}
use zenith_db.Bytes.Order.{bytes_eq→eq}
use zenith_db.Bytes.Pack.{unpack, layout, Fits, layout-unpack}
use zenith_db.Wal.Frame.{
  WalOpType, WalFrame, op_code, op_of_code, magic, version, header_format, header_size, checksum,
  check_frame, read_frame, read_loop, read_frames,
}
use zenith_db.Wal.Frame.RoundTrip.{fields_of, header_of, frame_bytes, IsFrame}
use zenith_db.Wal.Frame.Crash.{segment_bytes}

op_code-op_of_code : (n : ℕ) {op : WalOpType} → op_of_code n ≡ some op → op_code op ≡ n
unfolding op_of_code op_code
op_code-op_of_code n h = ground arith

pub All_behind : (xs ys : Bytes) → IsBytes (xs ++ ys) → IsBytes ys
All_behind [] ys h = h
All_behind (x ∷ xs) ys (_, h) = All_behind xs ys h

module _ (crc32 : Bytes → ℕ) where
  -- What an accepted frame says of the header's fields and of the bytes behind the header.
  record Accepted (mark : Bytes) (fields : List ℕ) (body : Bytes) (f : WalFrame) (rest : Bytes)
      : Type 0 where
    marked : mark ≡ magic
    same : fields ≡ fields_of f
    split : body ≡ (f.key ++ f.value) ++ rest
    sealed : checksum crc32 (op_code f.op_type) f.lsn f.key f.value ≡ some f.crc

  pub check_frame_inv :
      (mark : Bytes) (ver lsn ts op_val klen vlen crc : ℕ) (body : Bytes) (f : WalFrame)
      (rest : Bytes)
      → check_frame crc32 mark (ver ∷ lsn ∷ ts ∷ op_val ∷ klen ∷ vlen ∷ crc ∷ []) body
        ≡ some (f, rest)
      → (bytes_eq mark magic ≡ true)
        × (ver ≡ version)
        × (lsn ≡ f.lsn)
        × (ts ≡ f.timestamp)
        × (op_of_code op_val ≡ some f.op_type)
        × (klen + vlen ≤ length (take (klen + vlen) body))
        × (f.key ≡ take klen (take (klen + vlen) body))
        × (f.value ≡ take vlen (drop klen (take (klen + vlen) body)))
        × (crc ≡ f.crc)
        × (checksum crc32 op_val lsn f.key f.value ≡ some crc)
        × (rest ≡ drop (klen + vlen) body)
  unfolding check_frame
  check_frame_inv mark ver lsn ts op_val klen vlen crc body f rest h = ground arith

  -- The payload is the key and the value.
  payload_split :
      (k v : ℕ) (body : Bytes)
      → k + v ≤ length (take (k + v) body)
      → body
        ≡ (take k (take (k + v) body) ++ take v (drop k (take (k + v) body))) ++ drop (k + v) body
  payload_split k v body h =
      let payload = take (k + v) body in
      let whole : take v (drop k payload) ≡ drop k payload =
        take_all v (drop k payload)
          (omega (arith, length-drop k payload, length-take (k + v) body)) in
      rw (whole, take-append-drop k payload) (sym (take-append-drop (k + v) body))

  payload_lengths :
      (k v : ℕ) (body : Bytes)
      → k + v ≤ length (take (k + v) body)
      → (length (take k (take (k + v) body)) ≡ k)
        × (length (take v (drop k (take (k + v) body))) ≡ v)
  payload_lengths k v body h =
      let payload = take (k + v) body in
      (
        omega (arith, length-take k payload),
        omega (
          arith,
          length-take v (drop k payload),
          length-drop k payload,
          length-take (k + v) body,
        ),
      )

  check_frame-Accepted :
      (mark : Bytes) (fields : List ℕ) (body : Bytes) (f : WalFrame) (rest : Bytes)
      → check_frame crc32 mark fields body ≡ some (f, rest)
      → Accepted mark fields body f rest
  check_frame-Accepted mark (ver ∷ lsn ∷ ts ∷ op_val ∷ klen ∷ vlen ∷ crc ∷ []) body f rest h =
      let (m, a, b, c, d, n, k, v, e, s, r) =
        check_frame_inv mark ver lsn ts op_val klen vlen crc body f rest h in
      let (kn, vn) = payload_lengths klen vlen body n in
      let o = op_code-op_of_code op_val d in
      record {
        marked = bytes_eq→eq mark magic m;
        same = cc (a, b, c, o, e, ap length k ∙ kn, ap length v ∙ vn);
        split = rw (k, v, r) (payload_split klen vlen body n);
        sealed = rw (o, ← e, ← b) s;
      }
  check_frame-Accepted mark _ body f rest h = unfold check_frame in cc

  pub read_frame-unpack :
      (file : Bytes) (f : WalFrame) (rest : Bytes)
      → read_frame crc32 file ≡ some (f, rest)
      → (fields : List ℕ) × (unpack header_format (drop 4 (take header_size file)) ≡ some fields)
        × (check_frame crc32 (take 4 (take header_size file)) fields (drop header_size file)
            ≡ some (f, rest))
  unfolding read_frame
  read_frame-unpack file f rest h =
      elim (Bool-cases (ltb (length (take header_size file)) header_size)) [
        | inl short ↦
            let k : ◌≡◌ {A = Option (WalFrame × Bytes)} none (some (f, rest)) = rw short at h in cc
        | inr long ↦ elim (Option-cases (unpack header_format (drop 4 (take header_size file)))) [
          | inl bad ↦
              let k : ◌≡◌ {A = Option (WalFrame × Bytes)} none (some (f, rest)) =
                rw (long, bad) at h in
              cc
          | inr (fields, e) ↦ (fields, e, rw (long, e) at h)
        ]
      ]

  -- An accepted frame is well formed, and its bytes stand at the front of the file.
  pub read_frame_sound :
      (file : Bytes) (f : WalFrame) (rest : Bytes)
      → IsBytes file
      → read_frame crc32 file ≡ some (f, rest)
      → IsFrame crc32 f × (file ≡ frame_bytes f ++ rest)
  unfolding frame_bytes header_of
  read_frame_sound file f rest hb h =
      let (fields, u, c) = read_frame-unpack file f rest h in
      let a = check_frame-Accepted _ fields (drop header_size file) f rest c in
      let head = take header_size file in
      let (fits, lay) =
        layout-unpack header_format (drop 4 head)
          (All-drop _ 4 head (All-take _ header_size file hb)) u in
      let lay' : layout header_format (fields_of f) ≡ drop 4 head = rw (← a.same) lay in
      let front : take 4 head ++ drop 4 head ≡ magic ++ header_of f =
        ap₂ (λ (a b : Bytes). a ++ b) a.marked (sym lay') in
      (
        record { fits = subst (Fits header_format) a.same fits; sealed = a.sealed },
        sym (take-append-drop header_size file)
            ∙ ap (λ (t : Bytes). t ++ drop header_size file) (sym (take-append-drop 4 head) ∙ front)
            ∙ rw a.split (simp append_assoc),
      )

  read_loop_sound :
      (fuel : ℕ) (file : Bytes)
      → IsBytes file
      → All (IsFrame crc32) (read_loop crc32 fuel file)
        × ((rest : Bytes) × (file ≡ segment_bytes (read_loop crc32 fuel file) ++ rest))
  unfolding read_loop segment_bytes
  read_loop_sound zero file hb = (tt, (file, refl))
  read_loop_sound (suc fuel) file hb = elim (Option-cases (read_frame crc32 file)) [
    | inl stop ↦ rw (stop, read_loop) (tt, (file, refl))
    | inr ((f, rest), e) ↦
        let (w, front) = read_frame_sound file f rest hb e in
        let (ws, (tail, more)) = read_loop_sound fuel rest (All-tail f rest hb front) in
        rw (e, read_loop)
          (
            (w, ws),
            (
              tail,
              front
                  ∙ ap (λ (t : Bytes). frame_bytes f ++ t) more
                  ∙ sym (
                      append_assoc (frame_bytes f) (segment_bytes (read_loop crc32 fuel rest))
                        tail),
            ),
          )
  ]
    where
      All-tail :
          (f : WalFrame) (rest : Bytes) → IsBytes file → file ≡ frame_bytes f ++ rest → IsBytes rest
      All-tail f rest h e = All_behind (frame_bytes f) rest (subst IsBytes e h)

  -- Whatever bytes a segment holds, the frames that are read from it are well formed, with valid
  -- checksums, and their bytes, one after the other, are the front of the segment.
  pub read_frames_sound :
      (file : Bytes)
      → IsBytes file
      → All (IsFrame crc32) (read_frames crc32 file)
        × ((rest : Bytes) × (file ≡ segment_bytes (read_frames crc32 file) ++ rest))
  unfolding read_frames
  read_frames_sound file hb = read_loop_sound (length file) file hb
