-- ===== src/Label/Tests.antt =====
-- The labels of a tape, and the theorems at them.
use ltfs.Prelude.{
  ℕ, ◌≡◌, ◌≢◌, ◌↔◌, ◌⊎◌, refl, true, none, some, ◌++◌, codes, length, take, replicate,
}
use ltfs.Label.{
  Label, labels_match, mismatch, label_compare, read_labels, part_id2num, make_ansi_label,
  read_ansi_label, strncmp, is_valid_partid, valid_barcode, is_barcode, is_barcode_char,
  store_labels,
}
use ltfs.Label.Compare.{IsPair, label_compare_iff, part_id2num-read_labels}
use ltfs.Label.Ansi.{read_ansi_label-make}

abbrev on_index : Label
on_index = record {
  version = 20200;
  barcode = codes "ABC123";
  vol_uuid = codes "30a91a08-daae-48d1-ae75-69804e61d2ea";
  tv_sec = 1;
  tv_nsec = 2;
  blocksize = 524288;
  enable_compression = true;
  this_partition = b'a';
  partid_dp = b'b';
  partid_ip = b'a';
  part_num2id = (0, 0);
}

abbrev on_data : Label
on_data = record on_index { this_partition = b'b' }

both_read : read_labels on_index on_index on_data ≡ some (store_labels on_index on_index on_data)
unfolding read_labels label_compare strncmp is_valid_partid valid_barcode is_barcode is_barcode_char
both_read = refl

-- two labels of the same partition do not match
same_partition : label_compare on_data on_data ≡ mismatch
unfolding label_compare strncmp is_valid_partid valid_barcode is_barcode is_barcode_char
same_partition = refl

label_compare_iff_example :
    (label_compare on_index on_data ≡ labels_match) ↔ IsPair on_index on_data
label_compare_iff_example = label_compare_iff on_index on_data

part_id2num-read_labels_example :
    let l = store_labels on_index on_index on_data in
    ((part_id2num on_index.this_partition l ≡ some 0)
      × (part_id2num on_data.this_partition l ≡ some 1))
    × ((l.partid_dp ≡ on_index.partid_dp) × (l.partid_ip ≡ on_index.partid_ip))
    × (((part_id2num l.partid_dp l ≡ some 0) × (part_id2num l.partid_ip l ≡ some 1))
        ⊎ ((part_id2num l.partid_dp l ≡ some 1) × (part_id2num l.partid_ip l ≡ some 0)))
    × ((id : ℕ) → id ≢ l.partid_dp → id ≢ l.partid_ip → part_id2num id l ≡ none)
part_id2num-read_labels_example = part_id2num-read_labels on_index on_index on_data both_read

read_ansi_label-make_example :
    let label = make_ansi_label (codes "ABC1") 80 in
    (length label ≡ 80)
    × (read_ansi_label label (length label) ≡ some (take 6 (codes "ABC1" ++ replicate 6 b' ')))
read_ansi_label-make_example = read_ansi_label-make (codes "ABC1")
