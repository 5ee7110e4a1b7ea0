-- ===== src/Extent.antt =====
-- libltfs/ltfs.h and libltfs/ltfs_fsops_raw.c: the extents of a file and what changes them. A file
-- is a list of extents, each a run of bytes on tape with the file offset that they stand at.
pub mod Content
pub mod Trim
pub mod Body
pub mod Outcome
pub mod Round
pub mod AddLoop
pub mod Add
pub mod Truncate
mod Tests
use ltfs.Prelude.{
  ℕ, ◌/◌, ◌%◌, ◌^◌, Bool, true, false, ◌&&◌, ◌||◌, Option, none, some, List, [], ◌∷◌, ltb, leb,
  ◌==◌, if◌then◌else◌, add64, sub64,
}

-- `struct tape_offset`; a partition is the character that names it
pub record TapeOffset : Type 0 where
  pub block : ℕ
  pub partition : ℕ

-- `struct extent_info`, without the list links
pub record ExtentInfo : Type 0 where
  pub start : TapeOffset
  pub byteoffset : ℕ
  pub bytecount : ℕ
  pub fileoffset : ℕ

-- the fields of `struct dentry` that the raw file operations read or write; a time is opaque
pub record Dentry : Type 0 where
  pub extentlist : List ExtentInfo
  pub realsize : ℕ
  pub size : ℕ
  pub extents_dirty : Bool
  pub modify_time : ℕ
  pub change_time : ℕ

-- `entry_fileoffset_end` and `entry_byteoffset_end`
abbrev pub fileoffset_end : ExtentInfo → ℕ
fileoffset_end e = add64 e.fileoffset e.bytecount

abbrev pub byteoffset_end : ExtentInfo → ℕ
byteoffset_end e = add64 e.byteoffset e.bytecount

-- the entry without its first `diff` bytes
pub cut_front : ℕ → ℕ → ExtentInfo → ExtentInfo
cut_front blocksize diff e =
    let skipped = add64 diff e.byteoffset in
    record {
      start = record {
        block = add64 e.start.block (skipped / blocksize);
        partition = e.start.partition;
      };
      byteoffset = skipped % blocksize % 2 ^ 32;
      bytecount = sub64 e.bytecount diff;
      fileoffset = add64 e.fileoffset diff;
    }

-- the entry up to the file offset `stop`
pub cut_back : ℕ → ExtentInfo → ExtentInfo
cut_back stop e = record e { bytecount = sub64 stop e.fileoffset }

-- What the first half of the loop body leaves of an entry: the entry unless it was deleted, the
-- new entry behind it if it was split, and `realsize_new`; or a failed allocation.
pub data Trimmed : Type 0 where
  deleted : ℕ → Trimmed
  kept : ExtentInfo → Option ExtentInfo → ℕ → Trimmed
  no_memory : Trimmed

-- "Update existing entry by truncating, deleting, or splitting it"; `splits` says whether the
-- allocation of the split entry succeeds
pub trim : Bool → ℕ → ExtentInfo → ExtentInfo → ℕ → Trimmed
trim splits blocksize ext e realsize =
    if leb ext.fileoffset e.fileoffset && ltb e.fileoffset ext_end
    then (if leb e_end ext_end
        then deleted (sub64 realsize e.bytecount)
        else kept (cut_front blocksize diff e) none (sub64 realsize diff))
    else if ltb e.fileoffset ext.fileoffset && ltb ext.fileoffset e_end
    then (if leb e_end ext_end
        then kept (cut_back ext.fileoffset e) none (sub64 realsize (sub64 e_end ext.fileoffset))
        else if splits
        then kept (cut_back ext.fileoffset e)
            (some (record (cut_front blocksize diff e) { fileoffset = ext_end }))
            (sub64 realsize ext.bytecount)
        else no_memory)
    else kept e none realsize
  where
    ext_end : ℕ
    ext_end = fileoffset_end ext

    e_end : ℕ
    e_end = fileoffset_end e

    diff : ℕ
    diff = sub64 ext_end e.fileoffset

-- whether `ext` continues `e`, in the file and on tape
pub continues : ℕ → ExtentInfo → ExtentInfo → Bool
continues blocksize ext e =
    ext.fileoffset == fileoffset_end e
    && e.start.partition == ext.start.partition
    && byteoffset_end e % blocksize == 0
    && add64 e.start.block (byteoffset_end e / blocksize) == ext.start.block
    && ext.byteoffset == 0

-- the loop of `_ltfs_fsraw_add_extent_unlocked`: it goes on, has used `ext` and left, or failed
pub data Progress : Type 0 where
  going used failed : Progress

pub record Loop : Type 0 where
  pub entries : List ExtentInfo
  pub realsize : ℕ
  pub progress : Progress

-- the second half of the loop body: `ext` is joined to the entry, put behind it, or neither;
-- `behind` is the part of the list behind the entry
pub place : ℕ → ExtentInfo → ExtentInfo → List ExtentInfo → ℕ → Loop
place blocksize ext e behind realsize =
    if continues blocksize ext e
    then record {
      entries = record e { bytecount = add64 e.bytecount ext.bytecount } ∷ behind;
      realsize = add64 realsize ext.bytecount;
      progress = used;
    }
    else if leb (fileoffset_end e) ext.fileoffset
    then record {
      entries = e ∷ ext ∷ behind;
      realsize = add64 realsize ext.bytecount;
      progress = used;
    }
    else record { entries = e ∷ behind; realsize = realsize; progress = going }

pub insert_split : Option ExtentInfo → List ExtentInfo → List ExtentInfo
insert_split none behind = behind
insert_split (some e) behind = e ∷ behind

module _ (splits : Bool) (blocksize : ℕ) (ext : ExtentInfo) where
  pub body : ExtentInfo → List ExtentInfo → ℕ → Loop
  body e behind realsize = elim (trim splits blocksize ext e realsize) [
    | deleted r ↦ record { entries = behind; realsize = r; progress = going }
    | kept e' split r ↦ place blocksize ext e' (insert_split split behind) r
    | no_memory ↦ record { entries = e ∷ behind; realsize = realsize; progress = failed }
  ]

  -- a round at `e` after the rounds behind it; a `break` or a `return` leaves the head as it is
  pub resume : ExtentInfo → Loop → Loop
  resume e rest = elim rest.progress [
    | going ↦ body e rest.entries rest.realsize
    | used ↦ record rest { entries = e ∷ rest.entries }
    | failed ↦ record rest { entries = e ∷ rest.entries }
  ]

  -- TAILQ_FOREACH_REVERSE_SAFE: the last entry first, so the tail of the list is done when its
  -- head is reached
  pub add_loop : List ExtentInfo → ℕ → Loop
  add_loop [] realsize = record { entries = []; realsize = realsize; progress = going }
  add_loop (e ∷ es) realsize = resume e (add_loop es realsize)

-- "Update file size and times"
pub finish : ExtentInfo → Bool → ℕ → Dentry → List ExtentInfo → ℕ → Dentry
finish ext update_time now d extents realsize_new = record {
  extentlist = extents;
  realsize = realsize_new;
  size = if ltb d.size (fileoffset_end ext) then fileoffset_end ext else d.size;
  extents_dirty = true;
  modify_time = if update_time then now else d.modify_time;
  change_time = if update_time then now else d.change_time;
}

-- What a call returns: 0, or -LTFS_NO_MEMORY with the dentry as the failure left it. On success
-- the caller's index is marked dirty.
pub data AddResult : Type 0 where
  added : Dentry → AddResult
  out_of_memory : Dentry → AddResult

-- what follows the loop: an `ext` that no entry took goes to the head of the list
pub conclude : Bool → ℕ → Dentry → ExtentInfo → Loop → AddResult
unfolding finish
conclude update_time now d ext loop = elim loop.progress [
  | going ↦
      added (finish ext update_time now d (ext ∷ loop.entries) (add64 loop.realsize ext.bytecount))
  | used ↦ added (finish ext update_time now d loop.entries loop.realsize)
  | failed ↦ out_of_memory (record d { extentlist = loop.entries })
]

-- `copies` and `splits`: whether the two allocations succeed
pub add_extent_unlocked : Bool → Bool → ℕ → Bool → ℕ → Dentry → ExtentInfo → AddResult
unfolding conclude
add_extent_unlocked copies splits blocksize update_time now d ext =
    if copies
    then conclude update_time now d ext (add_loop splits blocksize ext d.extentlist d.realsize)
    else out_of_memory d

-- the loop of `ltfs_fsraw_truncate`, from the last entry to the first: the entries that are left,
-- `new_realsize`, and whether the loop has ended by its `break`
pub record Cut : Type 0 where
  pub entries : List ExtentInfo
  pub realsize : ℕ
  pub stopped : Bool

pub truncate_body : ℕ → ExtentInfo → List ExtentInfo → ℕ → Cut
truncate_body length e behind realsize =
    if leb length e.fileoffset || length == 0
    then record { entries = behind; realsize = sub64 realsize e.bytecount; stopped = false }
    else if ltb length (fileoffset_end e)
    then record {
      entries = cut_back length e ∷ behind;
      realsize = sub64 realsize (sub64 (fileoffset_end e) length);
      stopped = false;
    }
    else record { entries = e ∷ behind; realsize = realsize; stopped = true }

-- a round at `e` after the rounds behind it; a `break` leaves the head as it is
pub truncate_resume : ℕ → ExtentInfo → Cut → Cut
truncate_resume length e rest =
    if rest.stopped
    then record { entries = e ∷ rest.entries; realsize = rest.realsize; stopped = true }
    else truncate_body length e rest.entries rest.realsize

pub truncate_loop : ℕ → List ExtentInfo → ℕ → Cut
truncate_loop length [] realsize = record { entries = []; realsize = realsize; stopped = false }
truncate_loop length (e ∷ es) realsize = truncate_resume length e (truncate_loop length es realsize)

-- "Update size, realsize and times"
pub settle : ℕ → ℕ → Dentry → Cut → Dentry
settle now length d cut = record d {
  extentlist = cut.entries;
  realsize = cut.realsize;
  size = length;
  modify_time = now;
  change_time = now;
}

-- `ltfs_fsraw_truncate` on a dentry, under its locks
pub truncate : ℕ → ℕ → Dentry → Dentry
unfolding settle
truncate now length d =
    if ltb length d.size
    then settle now length d (truncate_loop length d.extentlist d.realsize)
    else record d { size = length; modify_time = now; change_time = now }
