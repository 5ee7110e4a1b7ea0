-- ===== src/Label.antt =====
-- libltfs/label.c, and of libltfs/ltfs_internal.c and libltfs/ltfs.c the parts that store a pair of
-- labels and use the partition map that they give.
pub mod Compare
pub mod Ansi
mod Tests
use ltfs.Prelude.{
  ℕ, zero, suc, ◌+◌, ◌-◌, Bool, true, false, not, ◌&&◌, ◌||◌, Option, none, some, List, [], ◌∷◌,
  ◌++◌, length, get_or, take, drop, replicate, codes, leb, ltb, ◌==◌, if◌then◌else◌,
}

-- `struct ltfs_label`; a time is its seconds and nanoseconds, `part_num2id` the two partitions'
-- names, and a text is its bytes without the NUL
pub record Label : Type 0 where
  pub version : ℕ
  pub barcode : List ℕ
  pub vol_uuid : List ℕ
  pub tv_sec : ℕ
  pub tv_nsec : ℕ
  pub blocksize : ℕ
  pub enable_compression : Bool
  pub this_partition : ℕ
  pub partid_dp : ℕ
  pub partid_ip : ℕ
  pub part_num2id : ℕ × ℕ

-- whether `strncmp` of two texts is 0
unfoldable pub strncmp : ℕ → List ℕ → List ℕ → Bool
strncmp zero s t = true
strncmp (suc n) [] [] = true
strncmp (suc n) (a ∷ s) (b ∷ t) = a == b && strncmp n s t
strncmp (suc n) _ _ = false

-- `ltfs_is_valid_partid`
unfoldable pub is_valid_partid : ℕ → Bool
is_valid_partid id = leb b'a' id && leb id b'z'

unfoldable pub bool_eq : Bool → Bool → Bool
bool_eq true b = b
bool_eq false true = false
bool_eq false false = true

-- a digit or a capital letter
unfoldable pub is_barcode_char : ℕ → Bool
is_barcode_char c = (leb b'0' c && leb c b'9') || (leb b'A' c && leb c b'Z')

-- "check for valid barcode number"
unfoldable pub is_barcode : List ℕ → Bool
is_barcode [] = true
is_barcode (c ∷ s) = is_barcode_char c && is_barcode s

-- a barcode of blanks is one that is not set
unfoldable pub valid_barcode : List ℕ → Bool
valid_barcode s = if get_or s 0 0 == b' ' then true else is_barcode s

-- the result of `label_compare`: 0 or -LTFS_LABEL_MISMATCH
pub data Comparison : Type 0 where
  labels_match mismatch : Comparison

-- `label_compare`
unfoldable pub label_compare : Label → Label → Comparison
unfolding bool_eq
label_compare a b =
    if not_equal (strncmp 6 a.barcode b.barcode)
    then mismatch
    else if not_equal (strncmp 36 a.vol_uuid b.vol_uuid)
    then mismatch
    else if not_equal (a.tv_sec == b.tv_sec) || not_equal (a.tv_nsec == b.tv_nsec)
    then mismatch
    else if not_equal (a.blocksize == b.blocksize)
    then mismatch
    else if not_equal (bool_eq a.enable_compression b.enable_compression)
    then mismatch
    else if not_equal (is_valid_partid a.partid_dp) || not_equal (is_valid_partid a.partid_ip)
    then mismatch
    else if a.partid_dp == a.partid_ip
    then mismatch
    else if not_equal (b.partid_dp == a.partid_dp) || not_equal (b.partid_ip == a.partid_ip)
    then mismatch
    else if (not_equal (a.this_partition == a.partid_dp)
          && not_equal (a.this_partition == a.partid_ip))
        || (not_equal (b.this_partition == a.partid_dp)
            && not_equal (b.this_partition == a.partid_ip))
    then mismatch
    else if a.this_partition == b.this_partition
    then mismatch
    else if not_equal (a.version == b.version)
    then mismatch
    else if valid_barcode a.barcode
    then labels_match
    else mismatch
  where
    not_equal : Bool → Bool
    not_equal true = false
    not_equal false = true

-- The end of `ltfs_read_labels`: what a volume's label takes from the labels of its partitions.
unfoldable pub store_labels : Label → Label → Label → Label
store_labels vol label0 label1 = record {
  version = label0.version;
  barcode = take 6 label0.barcode;
  vol_uuid = take 36 label0.vol_uuid;
  tv_sec = label0.tv_sec;
  tv_nsec = label0.tv_nsec;
  blocksize = label0.blocksize;
  enable_compression = label0.enable_compression;
  this_partition = vol.this_partition;
  partid_dp = label0.partid_dp;
  partid_ip = label0.partid_ip;
  part_num2id = (label0.this_partition, label1.this_partition);
}

-- `ltfs_read_labels` on the labels of the two partitions; none is -LTFS_LABEL_MISMATCH
unfoldable pub read_labels : Label → Label → Label → Option Label
unfolding store_labels
read_labels vol label0 label1 = elim (label_compare label0 label1) [
  | labels_match ↦ some (store_labels vol label0 label1)
  | mismatch ↦ none
]

-- `ltfs_part_id2num`; none is `(tape_partition_t) -1`
unfoldable pub part_id2num : ℕ → Label → Option ℕ
part_id2num id l =
    if l.part_num2id.0 == id then some 0 else if l.part_num2id.1 == id then some 1 else none

-- `memcpy` of bytes into a buffer at a place
unfoldable pub copy_at : ℕ → List ℕ → List ℕ → List ℕ
copy_at at src buf = take at buf ++ (src ++ drop (at + length src) buf)

-- `label_make_ansi_label`
unfoldable pub make_ansi_label : List ℕ → ℕ → List ℕ
unfolding copy_at
make_ansi_label barcode size = copy_at (size - 1) (b'4' ∷ []) (
    copy_at 24 (codes "LTFS") (
      copy_at 10 (b'L' ∷ [])
        (copy_at 4 (take 6 barcode) (copy_at 0 (codes "VOL1") (replicate size b' ')))))

-- What `ltfs_read_one_label` takes from a block read as the ANSI label: its barcode, or none for
-- -LTFS_LABEL_INVALID. `nread` is the number of bytes in the block.
unfoldable pub read_ansi_label : List ℕ → ℕ → Option (List ℕ)
unfolding strncmp
read_ansi_label buf nread =
    if nread == 80
    then (if strncmp 5 (take 4 (drop 24 buf)) (codes "LTFS")
        then some (take 6 (drop 4 buf))
        else none)
    else none
