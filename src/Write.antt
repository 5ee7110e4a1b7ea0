-- ===== src/Write.antt =====
-- libltfs/ltfs_fsops_raw.c: writing bytes behind what is on the tape, and recording them as an
-- extent of a file.
pub mod Append
pub mod Blocks
pub mod Data
pub mod File
pub mod ReadBack
mod Tests
use ltfs.Prelude.{
  ℕ, zero, suc, ◌+◌, ◌-◌, ◌%◌, ◌^◌, Bool, true, false, not, ◌&&◌, ◌||◌, Option, none, some, List,
  length, take, drop, ltb, ◌==◌, if◌then◌else◌,
}
use ltfs.Extent.{
  TapeOffset, ExtentInfo, Dentry, AddResult, added, out_of_memory, add_extent_unlocked,
}
use ltfs.Label.{Label, part_id2num}
use ltfs.Raw.{Volume, no_memory}
use ltfs.Raw.Device.{Status, good, bad}
use Append.{Medium}

-- -LTFS_BAD_PARTNUM, -LTFS_BAD_ARG, -LTFS_NO_SPACE
abbrev pub bad_partnum : ℕ
bad_partnum = 1005

abbrev pub bad_arg : ℕ
bad_arg = 1022

abbrev pub no_space : ℕ
no_space = 1051

-- -LTFS_DEVICE_FENCED
abbrev pub device_fenced : ℕ
device_fenced = 1066

-- NEED_REVAL and IS_UNEXPECTED_MOVE
unfoldable pub need_reval : ℕ → Bool
need_reval code = code == 20603 || code == 20601

unfoldable pub is_unexpected_move : ℕ → Bool
is_unexpected_move code = code == 20606

-- `ltfs_part_id2num`, with `(tape_partition_t) -1` for a name that no partition has
unfoldable pub part_num : Label → ℕ → ℕ
part_num label id = elim (part_id2num id label) [ none ↦ 2 ^ 32 - 1 | some n ↦ n ]

module _ (medium : Medium) (label : Label) where
  open medium use {tape, lock, read_only, write_index, seek_append, write}

  -- the volume, whether the last thing in each partition is an index, and how a device that was
  -- reset or has lost its cartridge is marked
  pub record Store : Type 0 where
    pub volume : Volume tape (part_num label) label.blocksize
    pub ip_index_file_end : Bool
    pub dp_index_file_end : Bool
    pub fenced : Bool
    pub reval_failed : Bool

  unfoldable pub with_device : tape.State → Store → Store
  with_device s st = record st { volume = record st.volume { device = s } }

  -- the result of a call: a value, or the code of an error
  pub data Outcome (A : Type 0) : Type 0 where
    ok : A → Store → Outcome A
    failed : ℕ → Store → Outcome A

  -- "out_unlock" with an error
  unfoldable pub release : {A : Type 0} → ℕ → Store → Outcome A
  release code st =
      if need_reval code
      then failed code (record st { fenced = true })
      else if is_unexpected_move code
      then failed code (record st { reval_failed = true })
      else failed code st

  unfoldable pub and_then :
      Option (Status × tape.State)
      → (tape.State → Option (Status × tape.State))
      → Option (Status × tape.State)
  and_then none k = none
  and_then (some (bad code, s)) k = some (bad code, s)
  and_then (some (good, s)) k = k s

  module _ (buf : List ℕ) (count : ℕ) where
    -- `to_write`
    unfoldable pub to_write : ℕ → ℕ
    to_write write_count =
        if ltb label.blocksize (count - write_count) then label.blocksize else count - write_count

    -- the loop over the blocks of the buffer, on fuel; none is out of fuel
    unfoldable pub write_blocks : ℕ → ℕ → tape.State → Option (Status × tape.State)
    write_blocks zero write_count s = none
    write_blocks (suc fuel) write_count s = elim (ltb write_count count) [
      | false ↦ some (good, s)
      | true ↦
          let n = to_write write_count in
          let r = write (take n (drop write_count buf)) s in
          elim r.0 [ bad code ↦ some r | good ↦ write_blocks fuel (write_count + n) r.1 ]
    ]

    -- the loop over the repetitions
    unfoldable pub write_all : ℕ → tape.State → Option (Status × tape.State)
    write_all zero s = some (good, s)
    write_all (suc repetitions) s = and_then (write_blocks (suc count) 0 s) (write_all repetitions)

    -- what a call returns: the first block, unless there was nothing to write; none is out of fuel
    unfoldable pub conclude : ℕ → Option (Status × tape.State) → Store → Option (Outcome (Option ℕ))
    conclude start none st = none
    conclude start (some (good, s)) st = some (ok (some start) (with_device s st))
    conclude start (some (bad code, s)) st = some (release code (with_device s st))

    module _ (partition repetitions : ℕ) where
      -- `tape_get_position`, and "write blocks to tape"
      unfoldable pub write_from : Status × (ℕ × ℕ) → Store → Option (Outcome (Option ℕ))
      write_from (bad code, start) st = some (release code st)
      write_from (good, start) st = conclude start.1 (write_all repetitions st.volume.device) st

      unfoldable pub sought : Store → Status × tape.State → Option (Outcome (Option ℕ))
      sought st (bad code, s) = some (release code (with_device s st))
      sought st (good, s) = write_from (tape.get_position s) (with_device s st)

      -- "Let other users of the volume know the target partition does not end in an index", and
      -- "Seek to partition append position"
      unfoldable pub to_end : Store → Option (Outcome (Option ℕ))
      to_end st =
          let is_ip = partition == label.partid_ip in
          sought
            (record st {
              ip_index_file_end = not is_ip && st.ip_index_file_end;
              dp_index_file_end = is_ip && st.dp_index_file_end;
            })
            (seek_append (part_num label partition) is_ip st.volume.device)

      unfoldable pub indexed :
          Store → Status × tape.State × (Bool × Bool) → Option (Outcome (Option ℕ))
      indexed st (status, s, flags) =
          let st' : Store = record (with_device s st) {
            ip_index_file_end = flags.0;
            dp_index_file_end = flags.1;
          } in
          elim status [ bad code ↦ some (release code st') | good ↦ to_end st' ]

      -- "Write index to the other partition if necessary"
      unfoldable pub index_other : Store → Option (Outcome (Option ℕ))
      index_other st =
          let other = if partition == label.partid_ip then label.partid_dp else label.partid_ip in
          indexed st
            (write_index other st.volume.device (st.ip_index_file_end, st.dp_index_file_end))

      -- "Check read-only status of the medium": a full one is not refused
      unfoldable pub check_writable : Store → Status → Option (Outcome (Option ℕ))
      check_writable st good = index_other st
      check_writable st (bad code) =
          if code == no_space then index_other st else some (release code st)

      unfoldable pub locked : Store → Status × tape.State → Option (Outcome (Option ℕ))
      locked st (bad code, s) = some (failed code (with_device s st))
      locked st (good, s) =
          check_writable (with_device s st) (read_only (part_num label partition) s)

      -- `_ltfs_fsraw_write_data_unlocked`
      unfoldable pub write_data_unlocked : Store → Option (Outcome (Option ℕ))
      write_data_unlocked st =
          if not (partition == label.partid_dp) && not (partition == label.partid_ip)
          then some (failed bad_partnum st)
          else if count == 0 || repetitions == 0
          then some (ok none st)
          else if ltb 1 repetitions && not (count % label.blocksize == 0)
          then some (failed bad_arg st)
          else locked st (lock st.volume.device)

  -- the extent for `count` bytes at a file offset; the block is 0 if nothing was written
  unfoldable pub written_extent : ℕ → ℕ → ℕ → Option ℕ → ExtentInfo
  written_extent partition count offset start = record {
    start = record { block = elim start [ none ↦ 0 | some b ↦ b ]; partition = partition };
    byteoffset = 0;
    bytecount = count;
    fileoffset = offset;
  }

  -- How one attempt of `ltfs_fsraw_write` ends: with the file as it is then, or with an error; after
  -- `again` the code waits for a revalidation, or makes one, and starts once more if it succeeds.
  pub data Attempt : Type 0 where
    done : Dentry → Store → Attempt
    again : ℕ → Dentry → Store → Attempt
    refused : ℕ → Dentry → Store → Attempt

  unfoldable pub not_written : ℕ → Dentry → Store → Attempt
  not_written code d st =
      if code == device_fenced || need_reval code
      then again code d st
      else if is_unexpected_move code
      then refused code d (record st { reval_failed = true })
      else refused code d st

  -- "Save extent to the file"
  unfoldable pub saved : AddResult → Store → Attempt
  saved (added d') st = done d' st
  saved (out_of_memory d') st = refused no_memory d' st

  -- `copies` and `splits`: whether the allocations for the extent succeed
  module _ (copies splits : Bool) (now : ℕ) (d : Dentry) (buf : List ℕ) (count offset partition : ℕ)
      (update_time : Bool) where
    unfoldable pub save_extent : Option (Outcome (Option ℕ)) → Option Attempt
    save_extent none = none
    save_extent (some (failed code st)) = some (not_written code d st)
    save_extent (some (ok start st)) = some (
        saved
          (add_extent_unlocked copies splits label.blocksize update_time now d
            (written_extent partition count offset start))
          st)

    unfoldable pub fsraw_write : Store → Option Attempt
    fsraw_write st = save_extent (write_data_unlocked buf count partition 1 st)
