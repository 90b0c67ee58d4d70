-- ===== src/Wal/Frame/Examples.antt =====
-- The theorems on frames at two frames, with the length of the contents for the checksum.
use zenith_db.Prelude.{ℕ, ◌≡◌, refl, List, [], ◌∷◌, ◌++◌, All, arith, length, take}
use zenith_db.Bytes.{Bytes, codes}
use zenith_db.Bytes.Pack.{pack}
use zenith_db.Wal.Frame.{WalOpType, WalFrame, checksum, op_code, read_frames}
use zenith_db.Wal.Frame.RoundTrip.{IsFrame}
use zenith_db.Wal.Frame.Crash.{segment_bytes, fitting, read_frames-take}
use zenith_db.Wal.Frame.Ends.{read_frames_ends}
use zenith_db.Wal.Frame.{read_loop, read_frame}
use zenith_db.Prelude.{none}

abbrev crc : Bytes → ℕ
crc s = length s

abbrev first_frame : WalFrame
first_frame = record {
  lsn = 1;
  timestamp = 7;
  op_type = WalOpType.set;
  key = codes "k";
  value = codes "v";
  crc = 11;
}

abbrev second_frame : WalFrame
second_frame = record {
  lsn = 2;
  timestamp = 8;
  op_type = WalOpType.del;
  key = codes "k";
  value = [];
  crc = 10;
}

abbrev frames : List WalFrame
frames = first_frame ∷ second_frame ∷ []

frames-IsFrame : All (IsFrame crc) frames
unfolding checksum op_code pack
frames-IsFrame = (
  record { fits = omega arith; sealed = refl },
  (record { fits = omega arith; sealed = refl }, tt),
)

-- A cut inside the second frame.
read_frames-take_example : read_frames crc (take 50 (segment_bytes frames)) ≡ fitting 50 frames
read_frames-take_example = read_frames-take crc frames 50 frames-IsFrame

one_left : fitting 50 frames ≡ first_frame ∷ []
unfolding fitting
one_left = refl

abbrev file : Bytes
file = codes "not a log, but forty bytes of other text"

read_frames_ends_example :
    (read_loop crc 100 file ≡ read_frames crc file)
    × All (IsFrame crc) (read_frames crc file)
    × ((rest : Bytes) × (file ≡ segment_bytes (read_frames crc file) ++ rest)
        × (read_frame crc rest ≡ none))
read_frames_ends_example = read_frames_ends crc file 100 (omega arith) (omega arith)
