-- ===== src/Tape/Tests.antt =====
-- The theorems of the tape layer over a drive, and a file through it.
mod Drive
use ltfs.Prelude.{
  ℕ, ◌+◌, ◌-◌, ◌*◌, ◌^◌, ◌≤◌, ◌<◌, ◌≡◌, ◌≢◌, ◌⊎◌, inl, inr, refl, Bool, true, false, not, ◌&&◌,
  List, [], ◌∷◌, arith, min, ltb, ◌==◌, if◌then◌else◌, Bool-cases, ap, ◌∙◌, sym, Option, none, some,
}
use ltfs.Raw.Device.{Status, good, bad}
use ltfs.Tape.{
  Handle, DeviceData, Space, writable, tape_seek_append_position, append_sought, append_target,
  allow, record_append, tape_seek, check_place, relocated, positioned, note_space, tape_write,
  tape_read, retried, with_key, tape_set_key, key_at, forced, read_again, read_once, lacks_key,
  tape_write_filemark, write_error_code, write_protect_code,
}
use ltfs.Tape.Position.{IsSound}
use ltfs.Tape.Seeking.{AtEnd, tape_seek_append_position_lem}
use ltfs.Tape.Outcomes.{WriteResult, tape_write-WriteResult}
use ltfs.Tape.Reading.{Got}
use ltfs.Tape.Encrypted.{IsEncrypted, tape_read-IsEncrypted}
use ltfs.Tape.Ops.{crypto_error}
use ltfs.Tape.Calls.{Call, seek, seek_append, set_append, write, read, run, run-IsSound}
use ltfs.Tape.Lockout.{Refused, lockout}
use ltfs.Tape.Device.{Device, layer, next}
use ltfs.Tape.ReadBack.{deck, next_capacity, tape_read-write}
use ltfs.Write.Append.{Medium, Keeps}
use ltfs.Write.{Store, fsraw_write, part_num}
use ltfs.Write.File.{IsOnTape, IsCached}
use ltfs.Write.ReadBack.{ReadsBack}
use ltfs.Label.{Label}
use ltfs.Extent.{Dentry}
use ltfs.Extent.Content.{content, total}
use Drive.{drive, drive-Documented}

-- the data partition holds two blocks; its append position is not recorded yet, and a key is wanted
abbrev cold : Bool → ℕ → Handle drive
cold encrypted n = record {
  dev = record {
    position = record {
      partition = 1;
      block = n;
      early_warning = false;
      programmable_early_warning = false;
    };
    append_pos = λ p. 0;
    max_block_size = 6;
    partition_space = λ p. writable;
    write_protect = false;
    write_error = false;
    fence = false;
    append_only_mode = true;
  };
  drive = record {
    at = (1, n);
    end = λ p. 2;
    cells = λ q. 1 ∷ 2 ∷ 3 ∷ 4 ∷ [];
    encrypted = encrypted;
  };
}

cold-IsSound : (encrypted : Bool) (n : ℕ) → n ≤ 1000 → IsSound drive (cold encrypted n)
cold-IsSound encrypted n k = record {
  in_sync = ap (λ (m : ℕ). (1, m)) (omega (arith, k));
  recorded = λ p. omega arith;
}

tape_seek_append_position_example :
    AtEnd drive drive-Documented 1
      (cold false 0)
      (tape_seek_append_position drive 1 false (cold false 0)).1
unfolding tape_seek_append_position append_sought append_target allow record_append tape_seek
    check_place relocated positioned note_space
tape_seek_append_position_example =
    tape_seek_append_position_lem drive drive-Documented 1 false (cold false 0)
      (cold-IsSound false 0 (omega arith)) refl

tape_write_example :
    WriteResult drive drive-Documented
      (7 ∷ 8 ∷ 9 ∷ [])
      false
      true
      1
      (cold false 2)
      (tape_write drive (7 ∷ 8 ∷ 9 ∷ []) false true (cold false 2))
tape_write_example =
    tape_write-WriteResult drive drive-Documented (7 ∷ 8 ∷ 9 ∷ []) false true 1 (cold false 2) refl

abbrev keys : Option (List ℕ → Option (List ℕ))
keys = some (λ a. some (5 ∷ a))

-- the second block is encrypted
cold-IsEncrypted :
    IsEncrypted drive drive-Documented 6 true
      (λ a. some (5 ∷ a))
      (cold true 1).drive
      (cold true 1).dev.position
cold-IsEncrypted = record {
  keyalias = 1 ∷ [];
  key = 5 ∷ 1 ∷ [];
  opened = (cold false 1).drive;
  code = crypto_error;
  refused = refl;
  wanting = inl refl;
  named = refl;
  known = refl;
  here = refl;
  accepted = refl;
  readable = refl;
}

tape_read-IsEncrypted_example :
    let r = tape_read drive 6 true keys (cold true 1) in
    (r.0 ≡ good) × Got drive drive-Documented (cold true 1) r × (r.2.dev.write_protect ≡ true)
tape_read-IsEncrypted_example =
    tape_read-IsEncrypted drive drive-Documented 6 true (λ a. some (5 ∷ a)) (cold true 1)
      (cold true 1).dev.position cold-IsEncrypted

abbrev calls : List Call
calls =
    seek_append 1 false
    ∷ write (7 ∷ []) false true
    ∷ set_append 0 5
    ∷ seek (1, 2)
    ∷ read 6 true none
    ∷ []

run-IsSound_example : IsSound drive (run drive calls (cold false 0))
run-IsSound_example =
    run-IsSound drive drive-Documented calls (cold false 0) (omega arith, tt)
      (cold-IsSound false 0 (omega arith))

-- a device whose last write has failed
abbrev broken_device : Handle drive
broken_device = record (cold false 0) { dev = record (cold false 0).dev { write_error = true } }

lockout_example :
    let st = run drive calls broken_device in
    Refused drive drive-Documented st (tape_write drive (7 ∷ []) true true st)
    × Refused drive drive-Documented st (tape_write_filemark drive 1 true true false st)
lockout_example = lockout drive drive-Documented calls broken_device refl (7 ∷ []) 1 true true false

abbrev label : Label
label = record {
  version = 20400;
  barcode = [];
  vol_uuid = [];
  tv_sec = 1;
  tv_nsec = 2;
  blocksize = 4;
  enable_compression = false;
  this_partition = b'b';
  partid_dp = b'b';
  partid_ip = b'a';
  part_num2id = (b'a', b'b');
}

abbrev no_index :
    ℕ
    → Device drive drive-Documented keys
    → Bool × Bool
    → Status × Device drive drive-Documented keys × (Bool × Bool)
no_index id s flags = (good, s, flags)

no_index_keeps :
    (id : ℕ) (s : Device drive drive-Documented keys) (flags : Bool × Bool)
    → (no_index id s flags).0 ≡ good
    → Keeps
        (layer drive drive-Documented keys)
        (next drive drive-Documented keys)
        s
        (no_index id s flags).1
no_index_keeps id s flags g = record { end = λ p. omega arith; same = λ p n k. refl }

abbrev store :
    Store
      (deck drive drive-Documented keys no_index no_index_keeps label
        (omega arith)
        (omega arith)
        (omega arith))
      label
store = record {
  volume = record {
    device = (cold false 2, cold-IsSound false 2 (omega arith));
    last_block = 1 ∷ 2 ∷ 3 ∷ 4 ∷ [];
    last_pos = record { block = 1; partition = b'b' };
    last_size = 4;
  };
  ip_index_file_end = false;
  dp_index_file_end = false;
  fenced = false;
  reval_failed = false;
}

abbrev file : Dentry
file = record {
  extentlist =
      record {
        start = record { block = 0; partition = b'b' };
        byteoffset = 1;
        bytecount = 6;
        fileoffset = 0;
      }
      ∷ [];
  realsize = 6;
  size = 6;
  extents_dirty = false;
  modify_time = 1;
  change_time = 1;
}

abbrev medium : Medium
medium =
    deck drive drive-Documented keys no_index no_index_keeps label (omega arith) (omega arith)
      (omega arith)

abbrev buffer : List ℕ
buffer = 11 ∷ 12 ∷ 13 ∷ 14 ∷ 15 ∷ []

store-IsCached : IsCached medium label store
unfolding part_num
store-IsCached = record { cached = refl; sized = refl; in_front = omega arith }

file-IsOnTape : IsOnTape medium label store.volume.device file
unfolding content total part_num
file-IsOnTape = record {
  file = record { ordered = omega arith; counted = refl; sized = λ x h. ground arith };
  in_front = λ x a e. ground (arith, e);
}

tape_read-write_example :
    ReadsBack medium label
      (omega arith)
      (omega arith)
      (next_capacity drive drive-Documented keys no_index no_index_keeps label
        (omega arith)
        (omega arith)
        (omega arith))
      7
      8
      file
      buffer
      (omega arith)
      3
      b'b'
      (inl refl)
      true
      (omega arith)
      (omega arith)
      (omega arith)
      (fsraw_write medium label true true 7 file buffer 5 3 b'b' true store)
tape_read-write_example =
    tape_read-write drive drive-Documented keys no_index no_index_keeps label (omega arith)
      (omega arith) (omega arith) 7 8 file buffer (omega arith) 3 b'b' (inl refl) true (omega arith)
      (omega arith) (omega arith) store store-IsCached file-IsOnTape
