-- ===== src/Tape/Ops.antt =====
-- libltfs/tape_ops.h: what libltfs asks of a tape drive, with what the comments there say of it.
use ltfs.Prelude.{ℕ, ◌+◌, ◌-◌, ◌^◌, ◌≤◌, ◌<◌, ◌≡◌, ◌≢◌, ◌⊎◌, Bool, List}
use ltfs.Raw.Device.{Status, good, bad}

-- `struct tc_position`, without the number of filemarks
pub record TcPosition : Type 0 where
  pub partition : ℕ
  pub block : ℕ
  pub early_warning : Bool
  pub programmable_early_warning : Bool

-- TAPE_BLOCK_MAX, and -EDEV_CRYPTO_ERROR and -EDEV_KEY_REQUIRED
abbrev pub tape_block_max : ℕ
tape_block_max = 2 ^ 64 - 1

abbrev pub crypto_error : ℕ
crypto_error = 21600

abbrev pub key_required : ℕ
key_required = 21603

-- the place that a position names
abbrev pub place_of : TcPosition → ℕ × ℕ
place_of h = (h.partition, h.block)

-- Operations of a drive, each with the position that it reports and the drive behind it; a filemark is
-- a block with no bytes. Every call reports where the head is, "even on error".
pub record Backend : Type 1 where
  pub Drive : Type 0
  -- the greatest block number that its cartridges have
  pub limit : ℕ
  pub head : Drive → ℕ × ℕ
  pub block : Drive → ℕ × ℕ → List ℕ
  pub end_of_data : Drive → ℕ → ℕ
  pub locate : ℕ × ℕ → Drive → Status × TcPosition × Drive
  pub read : ℕ → Bool → Drive → Status × List ℕ × TcPosition × Drive
  pub write : List ℕ → Drive → Status × TcPosition × Drive
  pub writefm : ℕ → Bool → Drive → Status × TcPosition × Drive
  -- `readpos`, `allow_overwrite`, the attribute with the early warning, and the keys
  pub readpos : Drive → Status × TcPosition
  pub allow_overwrite : TcPosition → Drive → Status × Drive
  pub write_attribute : Drive → Drive
  pub get_keyalias : Drive → Status × List ℕ
  pub set_key : List ℕ → List ℕ → Drive → Status × Drive

-- two states of a drive with the same blocks and ends of data
pub record SameTape (b : Backend) (d d' : b.Drive) : Type 0 where
  pub blocks : (q : ℕ × ℕ) → b.block d' q ≡ b.block d q
  pub ends : (p : ℕ) → b.end_of_data d' p ≡ b.end_of_data d p

-- Up to a block of a partition, and in the other partitions, two states are the same; the data of the
-- partition then ends at a block.
pub record Overwrites (b : Backend) (d d' : b.Drive) (p from to : ℕ) : Type 0 where
  pub below : (n : ℕ) → n < from → b.block d' (p, n) ≡ b.block d (p, n)
  pub other : (q n : ℕ) → q ≢ p → b.block d' (q, n) ≡ b.block d (q, n)
  pub other_end : (q : ℕ) → q ≢ p → b.end_of_data d' q ≡ b.end_of_data d q
  pub end : b.end_of_data d' p ≡ to

module _ (b : Backend) where
  open b use {
    Drive, limit, head, block, end_of_data, locate, read, write, writefm, allow_overwrite,
    write_attribute, set_key,
  }

  -- What the comments of `struct tape_ops` say of the operations; and `read_refused`, which they do not
  -- say, but on which the second read of `tape_read` relies.
  pub record Documented : Type 0 where
    pub locate_reports : (p : ℕ × ℕ) (d : Drive) → place_of (locate p d).1 ≡ head (locate p d).2
    pub read_reports :
        (n : ℕ) (u : Bool) (d : Drive) → place_of (read n u d).2 ≡ head (read n u d).3
    pub write_reports : (s : List ℕ) (d : Drive) → place_of (write s d).1 ≡ head (write s d).2
    pub writefm_reports :
        (n : ℕ) (i : Bool) (d : Drive) → place_of (writefm n i d).1 ≡ head (writefm n i d).2
    -- "Seek to the specified position"; the greatest block stands for the end of the data
    pub locate_keeps : (p : ℕ × ℕ) (d : Drive) → (locate p d).0 ≡ good → SameTape b d (locate p d).2
    pub locate_end :
        (p : ℕ) (d : Drive)
        → (locate (p, tape_block_max) d).0 ≡ good
        → head (locate (p, tape_block_max) d).2 ≡ (p, end_of_data d p)
    -- a cartridge has fewer blocks than a position can name
    pub limit_bound : limit < tape_block_max
    pub head_bound : (d : Drive) → (head d).1 ≤ limit
    pub end_bound : (d : Drive) (p : ℕ) → end_of_data d p ≤ limit
    -- "Read exactly one block"
    pub read_lem :
        (n : ℕ) (u : Bool) (d : Drive)
        → (read n u d).0 ≡ good
        → ((read n u d).1 ≡ block d (head d))
          × (head (read n u d).3 ≡ ((head d).0, (head d).1 + 1))
          × SameTape b d (read n u d).3
    -- a read that lacks a key leaves the head and the tape
    pub read_refused :
        (n : ℕ) (u : Bool) (d : Drive) (code : ℕ)
        → (read n u d).0 ≡ bad code
        → (code ≡ crypto_error) ⊎ (code ≡ key_required)
        → (head (read n u d).3 ≡ head d) × SameTape b d (read n u d).3
    -- a write puts its block at the head, and the data end behind it
    pub write_lem :
        (s : List ℕ) (d : Drive)
        → (write s d).0 ≡ good
        → (head (write s d).2 ≡ ((head d).0, (head d).1 + 1))
          × (block (write s d).2 (head d) ≡ s)
          × Overwrites b d (write s d).2 (head d).0 (head d).1 ((head d).1 + 1)
    pub writefm_lem :
        (n : ℕ) (i : Bool) (d : Drive)
        → (writefm n i d).0 ≡ good
        → (head (writefm n i d).2 ≡ ((head d).0, (head d).1 + n))
          × Overwrites b d (writefm n i d).2 (head d).0 (head d).1 ((head d).1 + n)
    -- the other operations do not move the tape
    pub allow_keeps :
        (h : TcPosition) (d : Drive)
        → (head (allow_overwrite h d).1 ≡ head d) × SameTape b d (allow_overwrite h d).1
    pub attribute_keeps :
        (d : Drive) → (head (write_attribute d) ≡ head d) × SameTape b d (write_attribute d)
    pub key_keeps :
        (a k : List ℕ) (d : Drive)
        → (head (set_key a k d).1 ≡ head d) × SameTape b d (set_key a k d).1
