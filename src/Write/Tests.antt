-- ===== src/Write/Tests.antt =====
-- A tape of 1000 blocks to a partition: a test of a write, and the theorems at it.
use ltfs.Prelude.{
  ℕ, ◌+◌, ◌*◌, ◌^◌, ◌<◌, ◌≡◌, inl, inr, refl, true, false, ◌&&◌, List, [], ◌∷◌, arith, min, ltb,
  ◌==◌, if◌then◌else◌, Bool-cases, ap, ◌∙◌, sym,
}
use ltfs.Label.{Label}
use ltfs.Extent.{Dentry}
use ltfs.Extent.Content.{content, total}
use ltfs.Raw.Device.{Tape, Status, good, bad}
use ltfs.Write.Append.{Medium, Keeps}
use ltfs.Write.{Store, fsraw_write, part_num}
use ltfs.Write.File.{IsOnTape, IsCached, Changed, fsraw_write-file}
use ltfs.Write.ReadBack.{ReadsBack, fsraw_read-write}

-- where the head is, where the partitions end, and the blocks
record Reel : Type 0 where
  at : ℕ × ℕ
  end : ℕ → ℕ
  cells : ℕ × ℕ → List ℕ

abbrev blank : ℕ
blank = 1000

abbrev reel_end : Reel → ℕ → ℕ
reel_end s p = min (s.end p) blank

abbrev reel : Tape
reel = record {
  State = Reel;
  position = λ s. s.at;
  block = λ s. s.cells;
  get_position = λ s. (good, s.at);
  seek = λ p s. (good, record s { at = p });
  read = λ n unusual s. (good, s.cells s.at, record s { at = (s.at.0, s.at.1 + 1) });
  get_position_lem = λ s h. refl;
  seek_lem = λ p s w h. (refl, λ q. refl);
  read_lem = λ n unusual s h. (refl, refl, λ q. refl);
}

abbrev written_reel : List ℕ → Reel → Reel
written_reel bytes s = record {
  at = (s.at.0, s.at.1 + 1);
  end = λ q. if q == s.at.0 then s.at.1 + 1 else s.end q;
  cells = λ q. if q.0 == s.at.0 && q.1 == s.at.1 then bytes else s.cells q;
}

-- a write behind the last block fails
abbrev write_reel : List ℕ → Reel → Status × Reel
write_reel bytes s =
    if s.end s.at.0 == s.at.1 && ltb s.at.1 blank then (good, written_reel bytes s) else (bad 5, s)

write_reel_lem :
    (bytes : List ℕ) (p : ℕ) (s : Reel)
    → s.at ≡ (p, reel_end s p)
    → (write_reel bytes s).0 ≡ good
    → let r = write_reel bytes s in
      Keeps reel reel_end s r.1
      × (r.1.cells (p, reel_end s p) ≡ bytes)
      × (reel_end r.1 p ≡ reel_end s p + 1)
      × (r.1.at ≡ (p, reel_end s p + 1))
write_reel_lem bytes p s e g = elim (Bool-cases (s.end s.at.0 == s.at.1 && ltb s.at.1 blank)) [
  | inr t ↦ absurd (ground (arith, t))
  | inl t ↦
      let part : s.at.0 ≡ p = ap (λ q. q.0) e in
      let place : s.at.1 ≡ reel_end s p = ap (λ q. q.1) e in
      let here : s.end p ≡ s.at.1 =
        let at_end : s.end s.at.0 ≡ s.at.1 = ground (arith, t) in ap s.end (sym part) ∙ at_end in
      let room : s.at.1 < blank = ground (arith, t) in
      rw t (
        record { end = λ q. ground arith; same = λ q b h. ground arith },
        ground arith,
        ground arith,
        ground arith,
      )
]

abbrev deck : Medium
deck = record {
  tape = reel;
  append = reel_end;
  lock = λ s. (good, s);
  read_only = λ p s. good;
  write_index = λ id s flags. (good, s, flags);
  seek_append = λ p u s. (good, record s { at = (p, reel_end s p) });
  write = write_reel;
  lock_lem = λ s h. record { end = λ p. omega arith; same = λ p b k. refl };
  write_index_lem = λ id s flags h. record { end = λ p. omega arith; same = λ p b k. refl };
  seek_append_lem = λ p u s h. (record { end = λ q. omega arith; same = λ q b k. refl }, refl);
  write_lem = write_reel_lem;
}

abbrev label : Label
label = record {
  version = 20200;
  barcode = [];
  vol_uuid = [];
  tv_sec = 1;
  tv_nsec = 2;
  blocksize = 4;
  enable_compression = true;
  this_partition = b'a';
  partid_dp = b'b';
  partid_ip = b'a';
  part_num2id = (b'a', b'b');
}

-- the data partition holds two blocks, the second one just read
abbrev store : Store deck label
store = record {
  volume = record {
    device = record { at = (1, 2); end = λ p. 2; cells = λ q. 1 ∷ 2 ∷ 3 ∷ 4 ∷ [] };
    last_block = 1 ∷ 2 ∷ 3 ∷ 4 ∷ [];
    last_pos = record { block = 1; partition = b'b' };
    last_size = 4;
  };
  ip_index_file_end = true;
  dp_index_file_end = true;
  fenced = false;
  reval_failed = false;
}

abbrev file : Dentry
file = record {
  extentlist =
      record {
        start = record { block = 0; partition = b'b' };
        byteoffset = 0;
        bytecount = 8;
        fileoffset = 0;
      }
      ∷ [];
  realsize = 8;
  size = 8;
  extents_dirty = false;
  modify_time = 1;
  change_time = 1;
}

abbrev buffer : List ℕ
buffer = 11 ∷ 12 ∷ 13 ∷ 14 ∷ 15 ∷ []

file-IsOnTape : IsOnTape deck label store.volume.device file
unfolding content total part_num
file-IsOnTape = record {
  file = record { ordered = omega arith; counted = refl; sized = λ x h. ground arith };
  in_front = λ x a e. ground (arith, e);
}

capacity : (s : Reel) (p : ℕ) → reel_end s p * 4 < 2 ^ 64
capacity s p = omega arith

fsraw_write-file_example :
    Changed deck label
      (omega arith)
      (omega arith)
      capacity
      7
      file
      buffer
      (omega arith)
      3
      b'b'
      (inl refl)
      true
      (omega arith)
      (omega arith)
      store
      (fsraw_write deck label true true 7 file buffer 5 3 b'b' true store)
fsraw_write-file_example =
    fsraw_write-file deck label (omega arith) (omega arith) capacity 7 file buffer (omega arith) 3
      b'b' (inl refl) true (omega arith) (omega arith) store file-IsOnTape

store-IsCached : IsCached deck label store
unfolding part_num
store-IsCached = record { cached = refl; sized = refl; in_front = omega arith }

fsraw_read-write_example :
    ReadsBack deck label
      (omega arith)
      (omega arith)
      capacity
      7
      8
      file
      buffer
      (omega arith)
      3
      b'b'
      (inl refl)
      true
      (omega arith)
      (omega arith)
      (omega arith)
      (fsraw_write deck label true true 7 file buffer 5 3 b'b' true store)
fsraw_read-write_example =
    fsraw_read-write deck label (omega arith) (omega arith) capacity 7 8 file buffer (omega arith) 3
      b'b' (inl refl) true (omega arith) (omega arith) (omega arith) store store-IsCached
      file-IsOnTape
