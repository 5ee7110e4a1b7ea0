-- ===== src/Raw/Tests.antt =====
-- Reading a small file from a tape that is a function: a test, and the theorem at it.
use ltfs.Prelude.{
  some, ℕ, ◌+◌, ◌*◌, ◌≡◌, refl, true, false, List, [], ◌∷◌, arith, add64, sub64, ◌==◌,
  if◌then◌else◌,
}
use ltfs.Extent.{Dentry}
use ltfs.Raw.Device.{Tape, good}
use ltfs.Raw.{
  Volume, ok, mul64, bind, is_cached, moved, seek_if_required, got, read_block, prepend, block_end,
  to_copy, blocks, target_block, read_extent, located, from_extent, after, extent_round, extents,
  fill_end, complete, fsraw_read,
}
use ltfs.Raw.Block.{Holds, Sound}
use ltfs.Raw.Read.{IsRead, fsraw_read-file}

program : Unit {0}
unfolding add64 sub64 mul64 bind is_cached moved seek_if_required got read_block prepend block_end
    to_copy blocks target_block read_extent located from_extent after extent_round extents fill_end
    complete fsraw_read
program = tt

-- blocks of four bytes; byte `i` of block `b` is 16 * b + i
abbrev image : ℕ × ℕ → List ℕ
image (p, b) = let base = 16 * b in base ∷ (base + 1) ∷ (base + 2) ∷ (base + 3) ∷ []

-- a tape that is its position, and never fails
abbrev reel : Tape
reel = record {
  State = ℕ × ℕ;
  position = λ s. s;
  block = λ s. image;
  get_position = λ s. (good, s);
  seek = λ p s. (good, p);
  read = λ n unusual s. (good, image s, (s.0, s.1 + 1));
  get_position_lem = λ s h. refl;
  seek_lem = λ p s w h. (refl, λ q. refl);
  read_lem = λ n unusual s h. (refl, refl, λ q. refl);
}

abbrev part_num : ℕ → ℕ
part_num id = if id == b'b' then 1 else 0

-- the tape stands behind block 5, which was read last
abbrev volume : Volume reel part_num 4
volume = record {
  device = (1, 6);
  last_block = image (1, 5);
  last_pos = record { block = 5; partition = b'b' };
  last_size = 4;
}

-- six bytes from the second byte of block 5 on, with holes in front of them and behind
abbrev file : Dentry
file = record {
  extentlist =
      record {
        start = record { block = 5; partition = b'b' };
        byteoffset = 1;
        bytecount = 6;
        fileoffset = 2;
      }
      ∷ [];
  realsize = 6;
  size = 10;
  extents_dirty = false;
  modify_time = 1;
  change_time = 1;
}

reads_file :
    fsraw_read reel part_num 4 true 7 file 20 1 volume
    ≡ ok
        (record {
          buf = 0 ∷ 81 ∷ 82 ∷ 83 ∷ 96 ∷ 97 ∷ 98 ∷ 0 ∷ 0 ∷ [];
          read_count = 9;
          access_time = some 7;
        })
        (record {
          device = (1, 7);
          last_block = image (1, 6);
          last_pos = record { block = 6; partition = b'b' };
          last_size = 4;
        })
unfolding program
reads_file = refl

volume-Holds : Holds reel part_num 4 image volume
volume-Holds = record { same = λ q. refl; cached = refl; sized = refl }

fsraw_read-file_example :
    Sound reel part_num 4 image
      (IsRead reel part_num 4
        (omega arith)
        (omega arith)
        image
        20
        1
        7
        (omega arith)
        file
        (omega arith))
      (fsraw_read reel part_num 4 true 7 file 20 1 volume)
fsraw_read-file_example =
    fsraw_read-file reel part_num 4 (omega arith) (omega arith) image 20 1 7 (omega arith) file
      (omega arith) volume volume-Holds (omega arith) (omega arith)
