-- ===== src/Tape/ReadBack.antt =====
-- Files through the tape layer: the raw file operations over a documented drive.
use native.Mathlib.Nat.{mul-le-mul_right}
use ltfs.Prelude.{ℕ, ◌+◌, ◌*◌, ◌^◌, ◌≤◌, ◌<◌, ◌≡◌, ◌⊎◌, Bool, true, List, length, Option, arith}
use ltfs.Label.{Label}
use ltfs.Extent.{Dentry}
use ltfs.Raw.Device.{Status, good}
use ltfs.Write.Append.{Medium, Keeps}
use ltfs.Write.{Store, fsraw_write}
use ltfs.Write.File.{IsOnTape, IsCached}
use ltfs.Write.ReadBack.{ReadsBack, fsraw_read-write}
use ltfs.Tape.Ops.{Backend, Documented}
use ltfs.Tape.Device.{Device, layer, next, next_bound, device_medium}

module _ (b : Backend) (doc : Documented b) (kmi : Option (List ℕ → Option (List ℕ)))
    (write_index : ℕ → Device b doc kmi → Bool × Bool → Status × Device b doc kmi × (Bool × Bool))
    (write_index_lem : (id : ℕ) (s : Device b doc kmi) (flags : Bool × Bool)
      → (write_index id s flags).0 ≡ good
      → Keeps (layer b doc kmi) (next b doc kmi) s (write_index id s flags).1)
    (label : Label) (positive : 0 < label.blocksize) (small : label.blocksize ≤ 2 ^ 32)
    (room : b.limit * label.blocksize < 2 ^ 64) where
  pub next_capacity : (s : Device b doc kmi) (p : ℕ) → next b doc kmi s p * label.blocksize < 2 ^ 64
  next_capacity s p =
      omega (arith, room, mul-le-mul_right label.blocksize (next_bound b doc kmi s p))

  abbrev pub deck : Medium
  deck = device_medium b doc kmi write_index write_index_lem

  -- Reading, through the tape layer, the range of a file that a write has written through it gives the
  -- bytes of the buffer and their number, or fails with a fault of the tape layer or a block that is
  -- short; a write that does not succeed has a fault of the tape layer behind it. The buffer is not empty,
  -- the partition is one of the label's two, and every allocation succeeds. The drive does what is
  -- documented, and stays where it is when a read lacks a key; in every state the position recorded for
  -- the head is the one where it is, and the append positions are within the cartridge. The index writes
  -- keep what is on the tape. A block has 1 to 2^32 bytes, and the bytes of a cartridge have 64-bit
  -- numbers; the number of bytes that the file takes on tape stays below 2^64, and its size and the range
  -- written are below 2^63. The block cache holds a block of the tape, and the extents of the file are in
  -- order and on the tape, in front of the append positions.
  pub tape_read-write :
      (now later : ℕ) (d : Dentry) (buf : List ℕ) (some_bytes : 0 < length buf)
      (offset partition : ℕ) (known : (partition ≡ label.partid_dp) ⊎ (partition ≡ label.partid_ip))
      (update_time : Bool) (limit : d.realsize + length buf < 2 ^ 64)
      (far : offset + length buf < 2 ^ 63) (word : d.size < 2 ^ 63) (st : Store deck label)
      → IsCached deck label st
      → IsOnTape deck label st.volume.device d
      → ReadsBack deck label positive small next_capacity now later d buf some_bytes offset
          partition known update_time limit far word
          (fsraw_write deck label true true now d buf (length buf) offset partition update_time st)
  tape_read-write now later d buf some_bytes offset partition known update_time limit far word =
      fsraw_read-write deck label positive small next_capacity now later d buf some_bytes offset
        partition known update_time limit far word
