-- ===== src/Raw.antt =====
-- libltfs/ltfs_fsops_raw.c: reading a file's bytes from tape, under the locks of `ltfs_fsraw_read`.
pub mod Device
pub mod Window
pub mod Block
pub mod Copy
pub mod Bytes
pub mod Rounds
pub mod Start
pub mod Parts
pub mod Extents
pub mod Read
pub mod Inside
mod Tests
use ltfs.Prelude.{
  ℕ, zero, suc, ◌+◌, ◌-◌, ◌*◌, ◌/◌, ◌%◌, ◌^◌, Bool, true, false, not, ◌&&◌, Option, none, some,
  List, [], ◌∷◌, ◌++◌, length, take, drop, replicate, ltb, leb, ◌==◌, if◌then◌else◌, add64, sub64,
  min,
}
use ltfs.Extent.{TapeOffset, ExtentInfo, Dentry, fileoffset_end}
use Device.{Tape, Status, good, bad}

-- -LTFS_SMALL_BLOCK
abbrev pub small_block : ℕ
small_block = 1032

-- -LTFS_NO_MEMORY
abbrev pub no_memory : ℕ
no_memory = 1001

unfoldable pub mul64 : ℕ → ℕ → ℕ
mul64 a b = a * b % 2 ^ 64

module _ (tape : Tape) (part_num : ℕ → ℕ) (blocksize : ℕ) where
  open tape use {State, get_position, seek, read}

  -- the tape, and the block that was read last: `last_block`, `last_pos`, `last_size`
  pub record Volume : Type 0 where
    pub device : State
    pub last_block : List ℕ
    pub last_pos : TapeOffset
    pub last_size : ℕ

  -- the result of a part of the call: it goes on, it has failed, or the fuel ran out
  pub data Result (A : Type 0) : Type 0 where
    ok : A → Volume → Result A
    failed : ℕ → Volume → Result A
    out_of_fuel : Result A

  unfoldable pub bind : {A B : Type 0} → Result A → (A → Volume → Result B) → Result B
  bind (ok a vol) k = k a vol
  bind (failed code vol) k = failed code vol
  bind out_of_fuel k = out_of_fuel

  -- whether the block at `target` is the one that was read last, and the tape stands behind it
  unfoldable pub is_cached : ExtentInfo → ℕ × ℕ → ℕ × ℕ → Volume → Bool
  is_cached e (target_partition, target_block) (cur_partition, cur_block) vol =
      e.start.partition == vol.last_pos.partition
      && (target_block == vol.last_pos.block
          && (target_partition == cur_partition && add64 target_block 1 == cur_block))

  unfoldable pub moved : Volume → Status × State → Result (Unit {0})
  moved vol (good, s) = ok tt (record vol { device = s })
  moved vol (bad code, s) = failed code (record vol { device = s })

  -- "Seek if required"
  unfoldable pub seek_if_required : ExtentInfo → ℕ × ℕ → ℕ × ℕ → Volume → Result (Unit {0})
  seek_if_required e target cur vol =
      if target.0 == cur.0 && target.1 == cur.1
      then ok tt vol
      else if is_cached e target cur vol
      then ok tt vol
      else moved vol (seek target vol.device)

  -- what follows `tape_read`
  unfoldable pub got :
      ExtentInfo → ℕ × ℕ → ℕ × ℕ → ℕ → Volume → Status × List ℕ × State → Result (ℕ × ℕ)
  got e target cur blockbytes vol (bad code, bytes, s) =
      failed code (record vol { device = s; last_block = bytes })
  got e target cur blockbytes vol (good, bytes, s) =
      if ltb (length bytes) blockbytes
      then failed small_block (record vol { device = s; last_block = bytes })
      else ok (cur.0, add64 cur.1 1)
          (record {
            device = s;
            last_block = bytes;
            last_pos = record { block = target.1; partition = e.start.partition };
            last_size = length bytes;
          })

  -- "Read this block into a temp buffer or return the existing contents"; the result is `curpos`
  unfoldable pub read_block : ExtentInfo → ℕ × ℕ → ℕ × ℕ → ℕ → Volume → Result (ℕ × ℕ)
  read_block e target cur blockbytes vol =
      if is_cached e target cur vol
      then (if ltb vol.last_size blockbytes then failed small_block vol else ok cur vol)
      else got e target cur blockbytes vol
          (read blocksize (not (blocksize == blockbytes)) vol.device)

  -- what a part of the call has read: the bytes, `next_off` and `read_count` after it
  pub record Progress : Type 0 where
    pub bytes : List ℕ
    pub next_off : ℕ
    pub read_count : ℕ

  unfoldable pub prepend : List ℕ → Result Progress → Result Progress
  prepend bytes (ok p vol) = ok (record p { bytes = bytes ++ p.bytes }) vol
  prepend bytes (failed code vol) = failed code vol
  prepend bytes out_of_fuel = out_of_fuel

  module _ (count last_off : ℕ) (e : ExtentInfo) where
    -- `lastbyte` in a round
    unfoldable pub block_end : ℕ → ℕ
    block_end lastbyte =
        if ltb (fileoffset_end e) (add64 lastbyte blocksize)
        then fileoffset_end e
        else add64 lastbyte blocksize

    -- `ncopy`
    unfoldable pub to_copy : ℕ → ℕ → ℕ
    to_copy lastbyte next_off =
        sub64 (if ltb last_off lastbyte then last_off else lastbyte) next_off

    -- the loop "Read from the extent until end of extent or output buffer full"
    unfoldable pub blocks : ℕ → ℕ × ℕ → ℕ × ℕ → ℕ → ℕ → ℕ → ℕ → Volume → Result Progress
    blocks zero target cur firstbyte lastbyte next_off read_count vol = out_of_fuel
    blocks (suc fuel) target cur firstbyte lastbyte next_off read_count vol =
        elim (ltb next_off (fileoffset_end e) && ltb read_count count) [
          | false ↦ ok (record { bytes = []; next_off = next_off; read_count = read_count }) vol
          | true ↦
              let last = block_end lastbyte in
              bind (read_block e target cur (sub64 last firstbyte) vol) (λ cur' vol'.
                let ncopy = to_copy last next_off in
                prepend (take ncopy (drop (sub64 next_off firstbyte) vol'.last_block)) (
                  blocks fuel (target.0, add64 target.1 1) cur' (add64 firstbyte blocksize) last
                    (add64 next_off ncopy) (add64 read_count ncopy) vol'))
        ]

    -- `seekpos.block`: the block of the byte at `next_off`
    unfoldable pub target_block : ℕ → ℕ
    target_block next_off =
        add64 e.start.block (add64 (sub64 next_off e.fileoffset) e.byteoffset / blocksize)

    -- "Read any needed data from this extent", once the position of the tape is known
    unfoldable pub read_extent : ℕ × ℕ → ℕ → ℕ → Volume → Result Progress
    read_extent cur next_off read_count vol =
        let target : ℕ × ℕ = (part_num e.start.partition, target_block next_off) in
        let first =
          add64 (sub64 e.fileoffset e.byteoffset)
            (mul64 (sub64 target.1 e.start.block) blocksize) in
        bind (seek_if_required e target cur vol)
          (λ _ vol'. blocks (suc count) target cur first first next_off read_count vol')

    -- with what `tape_get_position` has returned
    unfoldable pub located : ℕ → ℕ → Volume → Status × (ℕ × ℕ) → Result Progress
    located next_off read_count vol (bad code, cur) = failed code vol
    located next_off read_count vol (good, cur) = read_extent cur next_off read_count vol

    unfoldable pub from_extent : ℕ → ℕ → Volume → Result Progress
    from_extent next_off read_count vol =
        if ltb next_off (fileoffset_end e)
        then located next_off read_count vol (get_position vol.device)
        else ok (record { bytes = []; next_off = next_off; read_count = read_count }) vol

  -- what follows a part of the call that has succeeded
  unfoldable pub after : Result Progress → (ℕ → ℕ → Volume → Result Progress) → Result Progress
  after r rest = bind r (λ p vol. prepend p.bytes (rest p.next_off p.read_count vol))

  module _ (count last_off : ℕ) where
    -- one round of the loop over the extents, with the later rounds as `rest`
    unfoldable pub extent_round :
        ExtentInfo → (ℕ → ℕ → Volume → Result Progress) → ℕ → ℕ → Volume → Result Progress
    extent_round e rest next_off read_count vol =
        if read_count == count
        then ok (record { bytes = []; next_off = next_off; read_count = read_count }) vol
        else if ltb next_off e.fileoffset
        then (if ltb last_off e.fileoffset
            then ok
                (record {
                  bytes = replicate (sub64 last_off next_off) 0;
                  next_off = next_off;
                  read_count = count;
                })
                vol
            else prepend (replicate (sub64 e.fileoffset next_off) 0) (
                after
                  (from_extent count last_off e e.fileoffset
                    (add64 read_count (sub64 e.fileoffset next_off)) vol)
                  rest))
        else after (from_extent count last_off e next_off read_count vol) rest

    unfoldable pub extents : List ExtentInfo → ℕ → ℕ → Volume → Result Progress
    extents [] next_off read_count vol =
        ok (record { bytes = []; next_off = next_off; read_count = read_count }) vol
    extents (e ∷ es) next_off read_count vol = extent_round e (extents es) next_off read_count vol

    -- "Handle sparse end-of-file"
    unfoldable pub fill_end : ℕ → Progress → Progress
    fill_end size p =
        if ltb p.read_count count && ltb p.next_off size
        then (let ncopy = sub64 (if ltb last_off size then last_off else size) p.next_off in
            record {
              bytes = p.bytes ++ replicate ncopy 0;
              next_off = p.next_off;
              read_count = add64 p.read_count ncopy;
            })
        else p

  -- `ltfs_fsraw_read` under its locks: what is in the buffer, the result `read_count`, and the new
  -- access time, none if it stays. A read of no bytes returns at once; any other access marks the index dirty. `cache` says whether the block cache is there.
  pub record Reading : Type 0 where
    pub buf : List ℕ
    pub read_count : ℕ
    pub access_time : Option ℕ

  unfoldable pub complete : ℕ → ℕ → ℕ → ℕ → Result Progress → Result Reading
  complete now count last_off size out_of_fuel = out_of_fuel
  complete now count last_off size (failed code vol) = failed code vol
  complete now count last_off size (ok p vol) =
      let q = fill_end count last_off size p in
      ok (record { buf = q.bytes; read_count = q.read_count; access_time = some now }) vol

  unfoldable pub fsraw_read : Bool → ℕ → Dentry → ℕ → ℕ → Volume → Result Reading
  fsraw_read cache now d count offset vol =
      if count == 0
      then ok (record { buf = []; read_count = 0; access_time = none }) vol
      else if not cache
      then failed no_memory vol
      else complete now count (add64 offset count) d.size
          (extents count (add64 offset count) d.extentlist offset 0 vol)
