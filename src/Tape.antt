-- ===== src/Tape.antt =====
-- libltfs/tape.c: the device as libltfs keeps it over a drive, with its position, its append positions
-- and what it knows of the space that is left.
pub mod Ops
pub mod Position
pub mod Seeking
pub mod Writing
pub mod Admission
pub mod Outcomes
pub mod Reading
pub mod Encrypted
pub mod Calls
pub mod Lockout
pub mod Device
pub mod ReadBack
mod Tests
use ltfs.Prelude.{
  ℕ, ◌+◌, Bool, true, false, not, ◌&&◌, ◌||◌, Option, none, some, List, length, ltb, ◌==◌,
  if◌then◌else◌,
}
use ltfs.Raw.Device.{Status, good, bad}
use ltfs.Write.{bad_partnum, no_space, device_fenced, need_reval}
use Ops.{TcPosition, Backend, tape_block_max, crypto_error, key_required, place_of}

-- -LTFS_BAD_LOCATE, -LTFS_LARGE_BLOCKSIZE, -LTFS_LESS_SPACE, -LTFS_WRITE_PROTECT, -LTFS_WRITE_ERROR and
-- -LTFS_MUTEX_INVALID
abbrev pub bad_locate : ℕ
bad_locate = 1010

abbrev pub large_blocksize : ℕ
large_blocksize = 1009

abbrev pub less_space_code : ℕ
less_space_code = 1124

abbrev pub write_protect_code : ℕ
write_protect_code = 1125

abbrev pub write_error_code : ℕ
write_error_code = 1126

-- PART_WRITABLE, PART_LESS_SPACE and PART_NO_SPACE
pub data Space : Type 0 where
  writable : Space
  less_space : Space
  full : Space

-- `struct device_data`; an array with an entry for each partition is a function. A 0 in `append_pos`
-- stands for the end of the data.
pub record DeviceData : Type 0 where
  pub position : TcPosition
  pub append_pos : ℕ → ℕ
  pub max_block_size : ℕ
  pub partition_space : ℕ → Space
  pub write_protect : Bool
  pub write_error : Bool
  pub fence : Bool
  pub append_only_mode : Bool

unfoldable pub set_entry {ℓ} : {A : Type ℓ} → ℕ → A → (ℕ → A) → ℕ → A
set_entry p a f q = if q == p then a else f q

-- The space of a partition as a position reports it. Behind a locate a full partition stays full.
unfoldable pub is_full : Space → Bool
is_full full = true
is_full _ = false

unfoldable pub space_located : TcPosition → Space → Space
space_located h space =
    if h.early_warning
    then full
    else if not (is_full space) && h.programmable_early_warning
    then less_space
    else space

-- `tape_get_append_position` and `tape_set_append_position`
unfoldable pub get_append_position : ℕ → DeviceData → Status × ℕ
get_append_position prt dev = if ltb 1 prt then (bad bad_partnum, 0) else (good, dev.append_pos prt)

unfoldable pub set_append_position : ℕ → ℕ → DeviceData → Status × DeviceData
set_append_position prt n dev =
    if ltb 1 prt
    then (bad bad_partnum, dev)
    else (good, record dev { append_pos = set_entry prt n dev.append_pos })

-- `tape_read_only`
unfoldable pub tape_read_only : ℕ → DeviceData → Status
tape_read_only partition dev =
    if dev.write_protect
    then bad write_protect_code
    else if dev.write_error
    then bad write_error_code
    else (elim (dev.partition_space partition) [
      | writable ↦ good
      | less_space ↦ bad less_space_code
      | full ↦ bad no_space
    ])

-- the checks in front of a write, but for the one of the block's size
unfoldable pub refusal : Bool → Bool → DeviceData → Status
refusal ignore_less ignore_nospc dev =
    if dev.write_protect
    then bad write_protect_code
    else if dev.write_error
    then bad write_error_code
    else (elim (dev.partition_space dev.position.partition) [
      | writable ↦ good
      | less_space ↦ if ignore_less then good else bad less_space_code
      | full ↦ if ignore_nospc then good else bad no_space
    ])

-- what a position behind a write says of the space, and the status for it
unfoldable pub space_written : TcPosition → Space → Space
space_written h space =
    if h.early_warning then full else if h.programmable_early_warning then less_space else space

unfoldable pub status_written : Bool → Bool → TcPosition → Status
status_written ignore_less ignore_nospc h =
    if h.early_warning
    then (if ignore_nospc then good else bad no_space)
    else if h.programmable_early_warning
    then (if ignore_less then good else bad less_space_code)
    else good

-- a read that lacks a key
unfoldable pub lacks_key : Status → Bool
lacks_key good = false
lacks_key (bad code) = code == crypto_error || code == key_required

-- where `tape_seek_append_position` seeks
unfoldable pub append_target : ℕ → ℕ
append_target recorded = if recorded == 0 then tape_block_max else recorded

module _ (b : Backend) where
  -- the device and its drive
  pub record Handle : Type 0 where
    pub dev : DeviceData
    pub drive : b.Drive

  -- a call of the drive, which stores the position
  unfoldable pub positioned : TcPosition → b.Drive → Handle → Handle
  positioned h d st = record { dev = record st.dev { position = h }; drive = d }

  -- `tape_device_lock`, but for the mutex, with `tape_start_fence` and `tape_release_fence`
  unfoldable pub tape_device_lock : Handle → Status × Handle
  tape_device_lock st = (if st.dev.fence then bad device_fenced else good, st)

  unfoldable pub set_fence : Bool → Handle → Handle
  set_fence on st = record st { dev = record st.dev { fence = on } }

  -- the check behind a locate
  unfoldable pub check_place : ℕ × ℕ → Status × Handle → Status × Handle
  check_place pos (bad code, st) = (bad code, st)
  check_place pos (good, st) = (
    if not (st.dev.position.partition == pos.0)
          || (not (pos.1 == tape_block_max) && not (pos.1 == st.dev.position.block))
        then bad bad_locate
        else good,
    st,
  )

  -- the space of the partition that a locate has come to
  unfoldable pub note_space : Handle → Handle
  note_space st =
      let h = st.dev.position in
      record st {
        dev = record st.dev {
          partition_space =
              set_entry h.partition (space_located h (st.dev.partition_space h.partition))
                st.dev.partition_space;
        };
      }

  unfoldable pub relocated : Status × TcPosition × b.Drive → Handle → Status × Handle
  relocated (bad code, h, d) st = (bad code, positioned h d st)
  relocated (good, h, d) st = (good, note_space (positioned h d st))

  -- `tape_seek`
  unfoldable pub tape_seek : ℕ × ℕ → Handle → Status × Handle
  tape_seek pos st =
      if pos.0 == st.dev.position.partition && pos.1 == st.dev.position.block
      then check_place pos (good, st)
      else check_place pos (relocated (b.locate pos st.drive) st)

  -- the record of an append position
  unfoldable pub note_append : ℕ → ℕ → Handle → Handle
  note_append prt n st = record st {
    dev = record st.dev { append_pos = set_entry prt n st.dev.append_pos };
  }

  -- `tape_seek_eod`
  unfoldable pub seek_eod_end : ℕ → Status × TcPosition × b.Drive → Handle → Status × Handle
  seek_eod_end partition (bad code, h, d) st = (bad code, positioned h d st)
  seek_eod_end partition (good, h, d) st =
      if not (partition == h.partition)
      then (bad bad_locate, positioned h d st)
      else (good, note_append partition h.block (note_space (positioned h d st)))

  unfoldable pub tape_seek_eod : ℕ → Handle → Status × Handle
  tape_seek_eod partition st =
      if ltb 1 partition
      then (bad bad_partnum, st)
      else seek_eod_end partition (b.locate (partition, tape_block_max) st.drive) st

  -- `tape_seek_append_position`
  unfoldable pub allow : Bool → ℕ → Handle → Status × Handle
  allow unlock_write target st =
      if unlock_write && (st.dev.append_only_mode && not (target == tape_block_max))
      then (let r = b.allow_overwrite st.dev.position st.drive in (r.0, record st { drive = r.1 }))
      else (good, st)

  unfoldable pub record_append : ℕ → Status × Handle → Status × Handle
  record_append prt (status, st) =
      (status, if st.dev.append_pos prt == 0 then note_append prt st.dev.position.block st else st)

  unfoldable pub append_sought : ℕ → Bool → ℕ → Status × Handle → Status × Handle
  append_sought prt unlock_write target (bad code, st) = (bad code, st)
  append_sought prt unlock_write target (good, st) =
      record_append prt (allow unlock_write target st)

  unfoldable pub tape_seek_append_position : ℕ → Bool → Handle → Status × Handle
  tape_seek_append_position prt unlock_write st =
      let target = append_target (st.dev.append_pos prt) in
      append_sought prt unlock_write target (tape_seek (prt, target) st)

  -- `tape_write` and `tape_write_filemark` behind the call of the drive
  unfoldable pub note_written : Handle → Handle
  note_written st =
      let h = st.dev.position in
      note_append h.partition h.block (record st {
        dev = record st.dev {
          partition_space =
              set_entry h.partition (space_written h (st.dev.partition_space h.partition))
                st.dev.partition_space;
        };
      })

  -- A write that fails lets no other follow, unless the drive was reset.
  unfoldable pub note_error : ℕ → Handle → Handle
  note_error code st =
      if need_reval code then st else record st { dev = record st.dev { write_error = true } }

  -- the attribute that the early warning has been passed; `tape_write` alone writes it
  unfoldable pub note_warning : Handle → Handle
  note_warning st =
      if st.dev.position.early_warning then record st { drive = b.write_attribute st.drive } else st

  unfoldable pub block_written :
      Bool → Bool → Status × TcPosition × b.Drive → Handle → Status × Handle
  block_written ignore_less ignore_nospc (bad code, h, d) st =
      (bad code, note_error code (positioned h d st))
  block_written ignore_less ignore_nospc (good, h, d) st =
      (status_written ignore_less ignore_nospc h, note_written (note_warning (positioned h d st)))

  unfoldable pub write_admitted : List ℕ → Bool → Bool → Handle → Status → Status × Handle
  write_admitted buf ignore_less ignore_nospc st (bad code) = (bad code, st)
  write_admitted buf ignore_less ignore_nospc st good =
      if ltb st.dev.max_block_size (length buf)
      then (bad large_blocksize, st)
      else block_written ignore_less ignore_nospc (b.write buf st.drive) st

  unfoldable pub tape_write : List ℕ → Bool → Bool → Handle → Status × Handle
  tape_write buf ignore_less ignore_nospc st =
      write_admitted buf ignore_less ignore_nospc st (refusal ignore_less ignore_nospc st.dev)

  unfoldable pub filemark_written :
      Bool → Bool → Status × TcPosition × b.Drive → Handle → Status × Handle
  filemark_written ignore_less ignore_nospc (bad code, h, d) st =
      (bad code, note_error code (positioned h d st))
  filemark_written ignore_less ignore_nospc (good, h, d) st =
      (status_written ignore_less ignore_nospc h, note_written (positioned h d st))

  unfoldable pub filemark_admitted : ℕ → Bool → Bool → Bool → Handle → Status → Status × Handle
  filemark_admitted count ignore_less ignore_nospc immed st (bad code) = (bad code, st)
  filemark_admitted count ignore_less ignore_nospc immed st good =
      filemark_written ignore_less ignore_nospc (b.writefm count immed st.drive) st

  unfoldable pub tape_write_filemark : ℕ → Bool → Bool → Bool → Handle → Status × Handle
  tape_write_filemark count ignore_less ignore_nospc immed st =
      filemark_admitted count ignore_less ignore_nospc immed st
        (refusal ignore_less ignore_nospc st.dev)

  -- `tape_set_key` with a key: with tape in front of the head it forces the device to read only
  unfoldable pub forced : Status × b.Drive → TcPosition → Handle → Status × Handle
  forced (bad code, d) h st = (bad code, record st { drive = d })
  forced (good, d) h st = (
    good,
    record {
      dev = if h.block == 0 then st.dev else record st.dev { write_protect = true };
      drive = d;
    },
  )

  unfoldable pub key_at : List ℕ → List ℕ → Status × TcPosition → Handle → Status × Handle
  key_at keyalias key (bad code, h) st = (bad code, st)
  key_at keyalias key (good, h) st = forced (b.set_key keyalias key st.drive) h st

  unfoldable pub tape_set_key : List ℕ → List ℕ → Handle → Status × Handle
  tape_set_key keyalias key st = key_at keyalias key (b.readpos st.drive) st

  -- `tape_read`, first without the keys
  unfoldable pub read_once : ℕ → Bool → Handle → Status × List ℕ × Handle
  read_once count unusual_size st =
      let r = b.read count unusual_size st.drive in (r.0, r.1, positioned r.2 r.3 st)

  -- the read with the key of the next block, if it is set; else the result of the first read stays
  unfoldable pub read_again :
      ℕ → Bool → Status × List ℕ × Handle → Status × Handle → Status × List ℕ × Handle
  read_again count unusual_size first (bad code, st) = (first.0, first.1, st)
  read_again count unusual_size first (good, st) = read_once count unusual_size st

  -- `kmi_get_key`: the key of an alias, if the key manager has one
  unfoldable pub with_key :
      ℕ → Bool → Status × List ℕ × Handle → List ℕ → Option (List ℕ) → Status × List ℕ × Handle
  with_key count unusual_size first keyalias none = first
  with_key count unusual_size first keyalias (some key) =
      read_again count unusual_size first (tape_set_key keyalias key first.2)

  unfoldable pub retried :
      ℕ
      → Bool
      → (List ℕ → Option (List ℕ))
      → Status × List ℕ × Handle
      → Status × List ℕ
      → Status × List ℕ × Handle
  retried count unusual_size kmi first (bad code, keyalias) = first
  retried count unusual_size kmi first (good, keyalias) =
      with_key count unusual_size first keyalias (kmi keyalias)

  unfoldable pub tape_read :
      ℕ → Bool → Option (List ℕ → Option (List ℕ)) → Handle → Status × List ℕ × Handle
  tape_read count unusual_size none st = read_once count unusual_size st
  tape_read count unusual_size (some kmi) st =
      let first = read_once count unusual_size st in
      if lacks_key first.0
      then retried count unusual_size kmi first (b.get_keyalias first.2.drive)
      else first
