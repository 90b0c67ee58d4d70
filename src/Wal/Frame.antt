-- ===== src/Wal/Frame.antt =====
-- WALOpType, WALFrame, the bytes that `append` writes for a frame, and `read_frames`.
pub mod RoundTrip
pub mod Crash
pub mod Sound
pub mod Ends
pub mod TornTail
mod Examples
use zenith_db.Prelude.{
  ℕ, zero, suc, ◌+◌, ◌^◌, ◌%◌, Bool, true, false, not, ◌||◌, Option, none, some, List, [], ◌∷◌,
  ◌++◌, ltb, ◌==◌, if◌then◌else◌, ◌>>=◌, length, take, drop,
}
use zenith_db.Bytes.{Bytes, bytes_eq, codes}
use zenith_db.Bytes.Pack.{pack, unpack}

pub data WalOpType : Type 0 where
  set del expire txn_begin txn_commit txn_rollback flush : WalOpType

-- `int(op_type)`
unfoldable pub op_code : WalOpType → ℕ
op_code WalOpType.set = 1
op_code WalOpType.del = 2
op_code WalOpType.expire = 3
op_code WalOpType.txn_begin = 4
op_code WalOpType.txn_commit = 5
op_code WalOpType.txn_rollback = 6
op_code WalOpType.flush = 7

-- `WALOpType(op_val)`; `none` is its ValueError
pub op_of_code : ℕ → Option WalOpType
op_of_code n =
    if n == 1
    then some WalOpType.set
    else if n == 2
    then some WalOpType.del
    else if n == 3
    then some WalOpType.expire
    else if n == 4
    then some WalOpType.txn_begin
    else if n == 5
    then some WalOpType.txn_commit
    else if n == 6
    then some WalOpType.txn_rollback
    else if n == 7
    then some WalOpType.flush
    else none

pub record WalFrame : Type 0 where
  pub lsn : ℕ
  pub timestamp : ℕ
  pub op_type : WalOpType
  pub key : Bytes
  pub value : Bytes
  pub crc : ℕ

abbrev pub magic : Bytes
magic = codes "ZWAL"

abbrev pub version : ℕ
version = 1

-- HEADER_FORMAT behind the magic: version, LSN, time stamp, type, key length, value length, CRC.
abbrev pub header_format : List ℕ
header_format = 1 ∷ 8 ∷ 8 ∷ 1 ∷ 4 ∷ 4 ∷ 4 ∷ []

abbrev pub header_size : ℕ
header_size = 34

module _ (crc32 : Bytes → ℕ) where
  -- `zlib.crc32(struct.pack(">BQ", op, lsn) + key + value) & 0xFFFFFFFF`
  unfoldable pub checksum : ℕ → ℕ → Bytes → Bytes → Option ℕ
  checksum op lsn key value = do
    crc_data ← pack (1 ∷ 8 ∷ []) (op ∷ lsn ∷ [])
    some (crc32 (crc_data ++ (key ++ value)) % 2 ^ 32)

  -- The record that `append` writes; `none` is the struct.error of a field that does not fit.
  unfoldable pub encode : ℕ → ℕ → WalOpType → Bytes → Bytes → Option Bytes
  encode lsn ts op key value = do
    crc ← checksum (op_code op) lsn key value
    header ←
        pack header_format (version ∷ lsn ∷ ts ∷ op_code op ∷ length key ∷ length value ∷ crc ∷ [])
    some (magic ++ (header ++ (key ++ value)))

  -- From the unpacked header on; `none` is a `break` of the reading loop.
  pub check_frame : Bytes → List ℕ → Bytes → Option (WalFrame × Bytes)
  check_frame mark (ver ∷ lsn ∷ ts ∷ op_val ∷ klen ∷ vlen ∷ crc ∷ []) rest =
      if not (bytes_eq mark magic) || not (ver == version)
      then none
      else let payload = take (klen + vlen) rest in
        if ltb (length payload) (klen + vlen)
        then none
        else let key = take klen payload in
          let value = take vlen (drop klen payload) in
          (do
            computed_crc ← checksum op_val lsn key value
            op_type ← (if computed_crc == crc then op_of_code op_val else none)
            some (
              record {
                lsn = lsn;
                timestamp = ts;
                op_type = op_type;
                key = key;
                value = value;
                crc = crc;
              },
              drop (klen + vlen) rest,
            ))
  check_frame mark fields rest = none

  -- One round of the reading loop: the frame, and what stands behind it in the file.
  pub read_frame : Bytes → Option (WalFrame × Bytes)
  read_frame file =
      let header_bytes = take header_size file in
      if ltb (length header_bytes) header_size then none else (do
        fields ← unpack header_format (drop 4 header_bytes)
        check_frame (take 4 header_bytes) fields (drop header_size file))

  pub read_loop : ℕ → Bytes → List WalFrame
  read_loop zero file = []
  read_loop (suc fuel) file = elim (read_frame file) [
    | none ↦ []
    | some (frame, rest) ↦ frame ∷ read_loop fuel rest
  ]

  -- A frame is longer than its header, so a file has fewer frames than bytes.
  pub read_frames : Bytes → List WalFrame
  unfolding read_loop
  read_frames file = read_loop (length file) file
