-- ===== src/Label/Compare.antt =====
-- What `label_compare` demands of the labels of two partitions.
use ltfs.Prelude.{
  ℕ, zero, suc, ◌≤◌, ◌<◌, ◌≡◌, ◌≢◌, ◌↔◌, ◌⊎◌, inl, inr, refl, ap, true, none, some, arith, List, [],
  ◌∷◌, length, take, drop, get_or, ◌==◌, Bool-cases,
}
use ltfs.Label.{
  Label, strncmp, is_valid_partid, bool_eq, is_barcode, is_barcode_char, valid_barcode,
  labels_match, label_compare, read_labels, store_labels, part_id2num,
}

-- a lower-case letter
abbrev pub IsLetter : ℕ → Type 0
IsLetter id = (b'a' ≤ id) × (id ≤ b'z')

-- a digit or a capital letter
abbrev pub IsBarcodeChar : ℕ → Type 0
IsBarcodeChar c = ((b'0' ≤ c) × (c ≤ b'9')) ⊎ ((b'A' ≤ c) × (c ≤ b'Z'))

-- The labels of one volume: they agree on what describes the volume, and stand on its two
-- partitions, one on each.
pub record IsPair (a b : Label) : Type 0 where
  pub barcode : take 6 a.barcode ≡ take 6 b.barcode
  pub vol_uuid : take 36 a.vol_uuid ≡ take 36 b.vol_uuid
  pub tv_sec : a.tv_sec ≡ b.tv_sec
  pub tv_nsec : a.tv_nsec ≡ b.tv_nsec
  pub blocksize : a.blocksize ≡ b.blocksize
  pub compression : a.enable_compression ≡ b.enable_compression
  pub version : a.version ≡ b.version
  pub partid_dp : a.partid_dp ≡ b.partid_dp
  pub partid_ip : a.partid_ip ≡ b.partid_ip
  pub valid_dp : IsLetter a.partid_dp
  pub valid_ip : IsLetter a.partid_ip
  pub distinct : a.partid_dp ≢ a.partid_ip
  pub partitions :
      ((a.this_partition ≡ a.partid_dp) × (b.this_partition ≡ a.partid_ip))
      ⊎ ((a.this_partition ≡ a.partid_ip) × (b.this_partition ≡ a.partid_dp))
  pub printable :
      (get_or a.barcode 0 0 ≡ b' ')
      ⊎ ((i : ℕ) → i < length a.barcode → IsBarcodeChar (get_or a.barcode i 0))

strncmp-take : (n : ℕ) (s t : List ℕ) → strncmp n s t ≡ true → take n s ≡ take n t
unfolding strncmp
strncmp-take zero s t h = refl
strncmp-take (suc n) [] [] h = refl
strncmp-take (suc n) [] (b ∷ t) h = absurd (ground (arith, h))
strncmp-take (suc n) (a ∷ s) [] h = absurd (ground (arith, h))
strncmp-take (suc n) (a ∷ s) (b ∷ t) h =
    let e : a ≡ b = ground (arith, h) in rw (e, strncmp-take n s t (ground (arith, h))) refl

take-strncmp : (n : ℕ) (s t : List ℕ) → take n s ≡ take n t → strncmp n s t ≡ true
unfolding strncmp
take-strncmp zero s t h = refl
take-strncmp (suc n) [] [] h = refl
take-strncmp (suc n) [] (b ∷ t) h = absurd (ground (arith, h))
take-strncmp (suc n) (a ∷ s) [] h = absurd (ground (arith, h))
take-strncmp (suc n) (a ∷ s) (b ∷ t) h =
    let e : a ≡ b = ap (λ x. get_or x 0 0) h in
    let rest = take-strncmp n s t (ap (drop 1) h) in ground (arith, e, rest)

is_barcode-all :
    (s : List ℕ) → is_barcode s ≡ true → (i : ℕ) → i < length s → IsBarcodeChar (get_or s i 0)
unfolding is_barcode is_barcode_char
is_barcode-all [] h i k = absurd (omega (arith, k))
is_barcode-all (c ∷ s) h zero k = ground (arith, h)
is_barcode-all (c ∷ s) h (suc i) k = is_barcode-all s (ground (arith, h)) i (omega (arith, k))

all-is_barcode :
    (s : List ℕ) → ((i : ℕ) → i < length s → IsBarcodeChar (get_or s i 0)) → is_barcode s ≡ true
unfolding is_barcode is_barcode_char
all-is_barcode [] h = refl
all-is_barcode (c ∷ s) h =
    let rest = all-is_barcode s (λ i k. h (suc i) (omega (arith, k))) in
    let first = h 0 (omega arith) in ground (arith, rest, first)

printable_barcode :
    (s : List ℕ)
    → valid_barcode s ≡ true
    → (get_or s 0 0 ≡ b' ') ⊎ ((i : ℕ) → i < length s → IsBarcodeChar (get_or s i 0))
unfolding valid_barcode
printable_barcode s h = elim (Bool-cases (get_or s 0 0 == b' ')) [
  | inl t ↦ inl (ground (arith, t))
  | inr f ↦ inr (is_barcode-all s (rw f at h))
]

barcode_printable :
    (s : List ℕ)
    → (get_or s 0 0 ≡ b' ') ⊎ ((i : ℕ) → i < length s → IsBarcodeChar (get_or s i 0))
    → valid_barcode s ≡ true
unfolding valid_barcode
barcode_printable s (inl e) = ground (arith, e)
barcode_printable s (inr h) = let all = all-is_barcode s h in ground (arith, all)

match-IsPair : (a b : Label) → label_compare a b ≡ labels_match → IsPair a b
unfolding label_compare bool_eq is_valid_partid
match-IsPair a b h = record {
  barcode = strncmp-take 6 a.barcode b.barcode (ground arith);
  vol_uuid = strncmp-take 36 a.vol_uuid b.vol_uuid (ground arith);
  tv_sec = ground arith;
  tv_nsec = ground arith;
  blocksize = ground arith;
  compression = ground arith;
  version = ground arith;
  partid_dp = ground arith;
  partid_ip = ground arith;
  valid_dp = ground arith;
  valid_ip = ground arith;
  distinct = ground arith;
  partitions = ground arith;
  printable = printable_barcode a.barcode (ground arith);
}

IsPair-match : (a b : Label) → IsPair a b → label_compare a b ≡ labels_match
unfolding label_compare bool_eq is_valid_partid
IsPair-match a b h =
    let barcode = take-strncmp 6 a.barcode b.barcode h.barcode in
    let uuid = take-strncmp 36 a.vol_uuid b.vol_uuid h.vol_uuid in
    let valid = barcode_printable a.barcode h.printable in
    ground (
      arith, barcode, uuid, valid, h.tv_sec, h.tv_nsec, h.blocksize, h.compression, h.version,
      h.partid_dp, h.partid_ip, h.valid_dp, h.valid_ip, h.distinct, h.partitions,
    )

-- Two labels match exactly if they are a pair: they agree on the volume's description, of the barcode
-- on 6 bytes and of the identifier on 36, and on the names of the two partitions; these are distinct
-- lower-case letters; each label stands on another of them; and the barcode starts with a blank, or is
-- made of digits and capitals.
pub label_compare_iff : (a b : Label) → (label_compare a b ≡ labels_match) ↔ IsPair a b
label_compare_iff a b = (match-IsPair a b, IsPair-match a b)

read_labels-eq-some :
    (vol a b : Label) {l : Label}
    → read_labels vol a b ≡ some l
    → (label_compare a b ≡ labels_match) × (l ≡ store_labels vol a b)
unfolding read_labels
read_labels-eq-some vol a b h = ground arith

module _ (vol a b : Label) (p : IsPair a b) where
  abbrev stored : Label
  stored = store_labels vol a b

  map_ids :
      ((part_id2num stored.partid_dp stored ≡ some 0)
        × (part_id2num stored.partid_ip stored ≡ some 1))
      ⊎ ((part_id2num stored.partid_dp stored ≡ some 1)
          × (part_id2num stored.partid_ip stored ≡ some 0))
  unfolding part_id2num store_labels
  map_ids = ground arith

  map_positions :
      (part_id2num a.this_partition stored ≡ some 0)
      × (part_id2num b.this_partition stored ≡ some 1)
  unfolding part_id2num store_labels
  map_positions =
      let dp = p.partid_dp in
      let ip = p.partid_ip in
      let apart = p.distinct in let stand = p.partitions in ground (arith, dp, ip, apart, stand)

  map_names : (stored.partid_dp ≡ a.partid_dp) × (stored.partid_ip ≡ a.partid_ip)
  unfolding store_labels
  map_names = (refl, refl)

  map_other :
      (id : ℕ) → id ≢ stored.partid_dp → id ≢ stored.partid_ip → part_id2num id stored ≡ none
  unfolding part_id2num store_labels
  map_other id h k = ground arith

-- With the labels that `ltfs_read_labels` accepts, the name of the partition that stands in the label
-- of the tape's partition 0 is mapped to 0, the one in the label of partition 1 to 1; the data partition
-- and the index partition keep the names that the labels give them, and are mapped to one of the two
-- numbers each; and no other name is mapped to any.
pub part_id2num-read_labels :
    (vol a b : Label) {l : Label}
    → read_labels vol a b ≡ some l
    → ((part_id2num a.this_partition l ≡ some 0) × (part_id2num b.this_partition l ≡ some 1))
      × ((l.partid_dp ≡ a.partid_dp) × (l.partid_ip ≡ a.partid_ip))
      × (((part_id2num l.partid_dp l ≡ some 0) × (part_id2num l.partid_ip l ≡ some 1))
          ⊎ ((part_id2num l.partid_dp l ≡ some 1) × (part_id2num l.partid_ip l ≡ some 0)))
      × ((id : ℕ) → id ≢ l.partid_dp → id ≢ l.partid_ip → part_id2num id l ≡ none)
part_id2num-read_labels vol a b {l} h =
    let (m, e) = read_labels-eq-some vol a b h in
    let p = match-IsPair a b m in
    rw e (map_positions vol a b p, map_names vol a b p, map_ids vol a b p, map_other vol a b p)
