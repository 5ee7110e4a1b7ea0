-- ===== src/Extent/Tests.antt =====
-- The raw file operations on a small file: tests, and the theorems at it.
use ltfs.Prelude.{
  ℕ, ◌≡◌, ◌⊎◌, refl, Bool, true, false, none, some, [], ◌∷◌, arith, add64, sub64, max, ltb,
  if◌then◌else◌,
}
use ltfs.Extent.{
  ExtentInfo, Dentry, added, cut_front, cut_back, trim, continues, place, insert_split, body,
  resume, add_loop, finish, conclude, add_extent_unlocked, truncate_body, truncate_resume,
  truncate_loop, settle, truncate,
}
use ltfs.Extent.Content.{content, covers, address, total}
use ltfs.Extent.Add.{IsFile, add_extent-content, add_extent-out_of_memory}
use ltfs.Extent.Truncate.{truncate-content}

program : Unit {0}
unfolding cut_front cut_back trim continues place insert_split body resume add_loop finish conclude
    add_extent_unlocked truncate_body truncate_resume truncate_loop settle truncate add64 sub64
program = tt

abbrev extent : ℕ → ℕ → ℕ → ℕ → ExtentInfo
extent block byteoffset bytecount fileoffset = record {
  start = record { block = block; partition = b'b' };
  byteoffset = byteoffset;
  bytecount = bytecount;
  fileoffset = fileoffset;
}

-- blocks of 100 bytes: 250 bytes from block 10, a hole, and 50 bytes from block 20
abbrev file : Dentry
file = record {
  extentlist = extent 10 0 250 0 ∷ extent 20 0 50 300 ∷ [];
  realsize = 300;
  size = 350;
  extents_dirty = false;
  modify_time = 1;
  change_time = 1;
}

abbrev inside : ExtentInfo
inside = extent 30 0 20 120

-- an extent inside another splits it
splits :
    add_extent_unlocked true true 100 true 7 file inside
    ≡ added (record {
      extentlist =
          extent 10 0 120 0 ∷ extent 30 0 20 120 ∷ extent 11 40 110 140 ∷ extent 20 0 50 300 ∷ [];
      realsize = 300;
      size = 350;
      extents_dirty = true;
      modify_time = 7;
      change_time = 7;
    })
unfolding program
splits = refl

-- an extent that follows the last one in the file and on tape is joined to it, if that one ends
-- with a whole block
joins :
    add_extent_unlocked true true 50 false 7 file (extent 21 0 10 350)
    ≡ added (record file {
      extentlist = extent 10 0 250 0 ∷ extent 20 0 60 300 ∷ [];
      realsize = 310;
      size = 360;
      extents_dirty = true;
    })
unfolding program
joins = refl

shortens : truncate 9 200 file ≡ record file {
  extentlist = extent 10 0 200 0 ∷ [];
  realsize = 200;
  size = 200;
  modify_time = 9;
  change_time = 9;
}
unfolding program
shortens = refl

file-IsFile : IsFile 100 file
unfolding total content
file-IsFile = record { ordered = omega arith; counted = refl; sized = λ x h. ground arith }

add_extent-content_example :
    (d' : Dentry) × (add_extent_unlocked true true 100 true 7 file inside ≡ added d')
    × IsFile 100 d'
    × ((x : ℕ)
        → content 100 d'.extentlist x ≡ (
            if covers inside x then some (address 100 inside x) else content 100 file.extentlist x))
    × (d'.size ≡ max 350 140)
    × (d'.extents_dirty ≡ true)
    × (d'.modify_time ≡ 7)
    × (d'.change_time ≡ 7)
add_extent-content_example =
    add_extent-content 100 (omega arith) (omega arith) inside (omega arith) true 7 file file-IsFile
      (omega arith)

add_extent-out_of_memory_example :
    (file ≡ file) × ((◌≡◌ {A = Bool} true false) ⊎ (◌≡◌ {A = Bool} false false))
unfolding program
add_extent-out_of_memory_example =
    add_extent-out_of_memory 100 (omega arith) (omega arith) inside (omega arith) true 7 file
      file-IsFile (omega arith) true false refl

truncate-content_example :
    IsFile 100 (truncate 9 200 file)
    × ((truncate 9 200 file).size ≡ 200)
    × ((x : ℕ)
        → content 100 (truncate 9 200 file).extentlist x
          ≡ (if ltb x 200 then content 100 file.extentlist x else none))
truncate-content_example =
    truncate-content 100 (omega arith) (omega arith) 200 9 (omega arith) file file-IsFile
      (omega arith)
