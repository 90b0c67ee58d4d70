-- ===== src/Wal/Frame/RoundTrip.antt =====
-- Reading back what was written: a frame, a whole segment, and a segment cut at any byte.
use zenith_db.Prelude.{
  ℕ, ◌+◌, ◌-◌, ◌≤◌, ◌<◌, ◌≡◌, refl, sym, ap, ◌∙◌, Option, none, some, List, [], ◌∷◌, ◌++◌, ltb,
  length, take, arith, inl, inr, Bool-cases, Option-cases, append_assoc, length-append, length-take,
  take-append, drop-append, le→ltb, take_all, ltb→le, ltb→lt, lt→ltb, ==_refl, take-append_long,
}
use zenith_db.Bytes.{Bytes}
use zenith_db.Bytes.Order.{bytes_eq_refl}
use zenith_db.Bytes.Pack.{
  pack, unpack, layout, Fits, pack-layout, pack-Fits, length-layout, unpack-layout,
}
use zenith_db.Wal.Frame.{
  WalOpType, WalFrame, op_code, op_of_code, magic, version, header_format, header_size, checksum,
  encode, check_frame, read_frame,
}

op_of_code-op_code : (op : WalOpType) → op_of_code (op_code op) ≡ some op
unfolding op_of_code op_code
op_of_code-op_code WalOpType.set = refl
op_of_code-op_code WalOpType.del = refl
op_of_code-op_code WalOpType.expire = refl
op_of_code-op_code WalOpType.txn_begin = refl
op_of_code-op_code WalOpType.txn_commit = refl
op_of_code-op_code WalOpType.txn_rollback = refl
op_of_code-op_code WalOpType.flush = refl

-- The header's fields behind the magic.
abbrev pub fields_of : WalFrame → List ℕ
fields_of f =
    version ∷ f.lsn ∷ f.timestamp ∷ op_code f.op_type ∷ length f.key ∷ length f.value ∷ f.crc ∷ []

unfoldable pub header_of : WalFrame → Bytes
header_of f = layout header_format (fields_of f)

-- The bytes of a frame.
unfoldable pub frame_bytes : WalFrame → Bytes
frame_bytes f = magic ++ (header_of f ++ (f.key ++ f.value))

abbrev pub frame_size : WalFrame → ℕ
frame_size f = header_size + (length f.key + length f.value)

module _ (crc32 : Bytes → ℕ) where
  -- Every field fits, and the checksum is that of the contents.
  pub record IsFrame (f : WalFrame) : Type 0 where
    pub fits : Fits header_format (fields_of f)
    pub sealed : checksum crc32 (op_code f.op_type) f.lsn f.key f.value ≡ some f.crc

  length-header_of : {f : WalFrame} → IsFrame f → length (header_of f) ≡ 30
  unfolding header_of
  length-header_of {f} w = length-layout header_format (fields_of f) w.fits

  pub length-frame_bytes : {f : WalFrame} → IsFrame f → length (frame_bytes f) ≡ frame_size f
  unfolding frame_bytes
  length-frame_bytes {f} w = omega (
    arith,
    length-append (header_of f) (f.key ++ f.value),
    length-append f.key f.value,
    length-header_of w,
  )

  -- The bytes that `append` writes are those of the frame.
  pub encode-frame :
      {f : WalFrame}
      → IsFrame f
      → encode crc32 f.lsn f.timestamp f.op_type f.key f.value ≡ some (frame_bytes f)
  unfolding encode frame_bytes header_of
  encode-frame {f} w = rw (w.sealed, pack-layout header_format (fields_of f) w.fits)

  header_step :
      {f : WalFrame} (body : Bytes)
      → IsFrame f
      → read_frame crc32 (magic ++ (header_of f ++ body))
        ≡ check_frame crc32 magic (fields_of f) body
  unfolding read_frame
  header_step {f} body w =
      let n = length-header_of w in
      rw
        (take-append 30 (header_of f) body n, n, drop-append 30 (header_of f) body n, unpack_header)
    where
      unpack_header : unpack header_format (header_of f) ≡ some (fields_of f)
      unpack_header = unfold header_of in unpack-layout header_format (fields_of f) w.fits

  check_frame-frame :
      {f : WalFrame} (rest : Bytes)
      → IsFrame f
      → check_frame crc32 magic (fields_of f) ((f.key ++ f.value) ++ rest) ≡ some (f, rest)
  unfolding check_frame
  check_frame-frame {f} rest w =
      let n = length-append f.key f.value in
      rw (
        bytes_eq_refl magic,
        take-append (length f.key + length f.value) (f.key ++ f.value) rest n,
        drop-append (length f.key + length f.value) (f.key ++ f.value) rest n,
        le→ltb (length (f.key ++ f.value)) (length f.key + length f.value) (omega (arith, n)),
        take-append (length f.key) f.key f.value refl,
        drop-append (length f.key) f.key f.value refl,
        take_value,
        w.sealed,
        ==_refl f.crc,
        op_of_code-op_code f.op_type,
      )
    where
      take_value : take (length f.value) f.value ≡ f.value
      take_value = take_all (length f.value) f.value (omega arith)

  -- A frame at the front of a file is read back, and the rest of the file is left.
  pub read_frame-frame :
      {f : WalFrame} (rest : Bytes)
      → IsFrame f
      → read_frame crc32 (frame_bytes f ++ rest) ≡ some (f, rest)
  unfolding frame_bytes
  read_frame-frame {f} rest w =
      rw (append_assoc (header_of f) (f.key ++ f.value) rest)
        (header_step ((f.key ++ f.value) ++ rest) w ∙ check_frame-frame rest w)

  -- A file shorter than a header holds no frame.
  pub read_frame-short : (file : Bytes) → length file < header_size → read_frame crc32 file ≡ none
  unfolding read_frame
  read_frame-short file h = rw (
      lt→ltb (length (take header_size file)) header_size
        (omega (arith, length-take header_size file)))

  check_frame-short :
      (f : WalFrame) (body : Bytes)
      → length body < length f.key + length f.value
      → check_frame crc32 magic (fields_of f) body ≡ none
  unfolding check_frame
  check_frame-short f body h =
      let n = length f.key + length f.value in
      rw (bytes_eq_refl magic, lt→ltb (length (take n body)) n (omega (arith, length-take n body)))

  cut_in_payload :
      {f : WalFrame} (n : ℕ)
      → IsFrame f
      → header_size ≤ n
      → take n (frame_bytes f) ≡ magic ++ (header_of f ++ take (n - header_size) (f.key ++ f.value))
  unfolding frame_bytes
  cut_in_payload {f} n w h =
      let e =
        take-append_long (n - 4) (header_of f) (f.key ++ f.value)
          (omega (arith, length-header_of w)) in
      let k : n - 4 - length (header_of f) ≡ n - header_size = omega (arith, length-header_of w) in
      take-append_long n magic (header_of f ++ (f.key ++ f.value)) (omega arith)
      ∙ ap (λ (s : Bytes). magic ++ s)
          (e ∙ ap (λ (m : ℕ). header_of f ++ take m (f.key ++ f.value)) k)

  -- A frame that is cut short is not read.
  pub read_frame-torn :
      {f : WalFrame} (n : ℕ)
      → IsFrame f
      → n < frame_size f
      → read_frame crc32 (take n (frame_bytes f)) ≡ none
  read_frame-torn {f} n w h = elim (Bool-cases (ltb n header_size)) [
    | inl low ↦
        read_frame-short (take n (frame_bytes f))
          (omega (arith, length-take n (frame_bytes f), ltb→lt n header_size low))
    | inr high ↦
        let body = take (n - header_size) (f.key ++ f.value) in
        rw (cut_in_payload n w (ltb→le n header_size high)) (
          header_step body w
          ∙ check_frame-short f body (
              omega (
                arith,
                length-take (n - header_size) (f.key ++ f.value),
                ltb→le n header_size high,
              )))
  ]

  -- What `encode` writes are the bytes of a well-formed frame of its arguments.
  pub encode_inv :
      (lsn ts : ℕ) (op : WalOpType) (key value : Bytes) {s : Bytes}
      → encode crc32 lsn ts op key value ≡ some s
      → (crc : ℕ) × (let f : WalFrame = record {
        lsn = lsn;
        timestamp = ts;
        op_type = op;
        key = key;
        value = value;
        crc = crc;
      } in
          IsFrame f × (s ≡ frame_bytes f))
  unfolding encode frame_bytes header_of
  encode_inv lsn ts op key value {s} h =
      elim (Option-cases (checksum crc32 (op_code op) lsn key value)) [
        | inl bad ↦ let k : ◌≡◌ {A = Option Bytes} none (some s) = rw bad at h in cc
        | inr (crc, sealed) ↦
            let fields = version ∷ lsn ∷ ts ∷ op_code op ∷ length key ∷ length value ∷ crc ∷ [] in
            elim (Option-cases (pack header_format fields)) [
              | inl bad ↦ let k : ◌≡◌ {A = Option Bytes} none (some s) = rw (sealed, bad) at h in cc
              | inr (header, e) ↦
                  let fits = pack-Fits header_format fields e in
                  let k : some (magic ++ (header ++ (key ++ value))) ≡ some s =
                    rw (sealed, e) at h in
                  let l : some (layout header_format fields) ≡ some header =
                    sym (pack-layout header_format fields fits) ∙ e in
                  (crc, (record { fits = fits; sealed = sealed }, cc))
            ]
      ]
