-- ===== src/Tape/Device.antt =====
-- The tape layer is the device under the raw file operations: over a drive that does what is documented
-- it has the properties that `Raw.Device` and `Write.Append` ask of one.
use ltfs.Prelude.{
  ℕ, ◌+◌, ◌≤◌, ◌≡◌, inl, inr, refl, ap, sym, ◌∙◌, Bool, true, false, List, Option, arith, ◌==◌,
  Bool-cases,
}
use ltfs.Raw.Device.{Tape, Status, good}
use ltfs.Write.Append.{Medium, Keeps}
use ltfs.Tape.Ops.{Backend, place_of, Documented}
use ltfs.Tape.{
  Handle, tape_seek, tape_read, tape_write, tape_seek_append_position, tape_device_lock,
  tape_read_only,
}
use ltfs.Tape.Position.{append, Untouched, IsSound, tape_seek-IsSound, tape_seek-Sought}
use ltfs.Tape.Seeking.{tape_seek_append_position-IsSound, tape_seek_append_position_lem}
use ltfs.Tape.Writing.{Appended, tape_write-IsSound}
use ltfs.Tape.Outcomes.{tape_write_good}
use ltfs.Tape.Reading.{tape_read-Got, tape_read-IsSound}

module _ (b : Backend) (doc : Documented b) (kmi : Option (List ℕ → Option (List ℕ))) where
  -- a device whose recorded position is right
  abbrev pub Device : Type 0
  Device = (st : Handle b) × IsSound b st

  abbrev pub layer : Tape
  layer = record {
    State = Device;
    position = λ s. b.head s.0.drive;
    block = λ s. b.block s.0.drive;
    get_position = λ s. (good, place_of s.0.dev.position);
    seek =
        λ p s. ((tape_seek b p s.0).0, ((tape_seek b p s.0).1, tape_seek-IsSound b doc p s.0 s.1));
    read = λ n unusual s.
        let r = tape_read b n unusual kmi s.0 in
        (r.0, r.1, (r.2, tape_read-IsSound b doc n unusual kmi s.0 s.1));
    get_position_lem = λ s h. s.1.in_sync;
    seek_lem = λ p s small h.
        let k = tape_seek-Sought b doc p s.0 s.1 h in
        (k.at (λ e. omega (arith, small, e)), k.untouched.tape.blocks);
    read_lem = λ n unusual s h.
        let k = tape_read-Got b doc n unusual kmi s.0 h in (k.bytes, k.at, k.untouched.tape.blocks);
  }

  abbrev pub next : Device → ℕ → ℕ
  next s = append b s.0

  pub Keeps_untouched : (s s' : Device) → Untouched b s.0 s'.0 → Keeps layer next s s'
  Keeps_untouched s s' u = record {
    end = λ p. omega (arith, u.appends p);
    same = λ p n k. u.tape.blocks (p, n);
  }

  Keeps_appended : (p : ℕ) (s s' : Device) → Appended b doc p 1 s.0 s'.0 → Keeps layer next s s'
  Keeps_appended p s s' a = record {
    end = λ q. elim (Bool-cases (q == p)) [
      | inl t ↦
          let e : q ≡ p = ground (arith, t) in rw e (let m = a.append_moved in omega (arith, m))
      | inr f ↦ let m = a.other_append q (ground (arith, f)) in omega (arith, m)
    ];
    same = λ q n. elim (Bool-cases (q == p)) [
      | inl t ↦ let e : q ≡ p = ground (arith, t) in rw e (a.below n)
      | inr f ↦ λ k. a.other q n (ground (arith, f))
    ];
  }

  pub nothing_done : (st : Handle b) → Untouched b st st
  nothing_done st = record {
    tape = record { blocks = λ q. refl; ends = λ p. refl };
    appends = λ p. refl;
  }

  -- `write_index` stands for `ltfs_write_index_conditional`, which keeps what is on the tape
  module _ (write_index : ℕ → Device → Bool × Bool → Status × Device × (Bool × Bool))
      (write_index_lem : (id : ℕ) (s : Device) (flags : Bool × Bool)
        → (write_index id s flags).0 ≡ good
        → Keeps layer next s (write_index id s flags).1) where
    abbrev pub sought_append : ℕ → Bool → Device → Status × Device
    sought_append p u s =
        let r = tape_seek_append_position b p u s.0 in
        (r.0, (r.1, tape_seek_append_position-IsSound b doc p u s.0 s.1))

    abbrev pub stored_block : List ℕ → Device → Status × Device
    stored_block buf s =
        let r = tape_write b buf false true s.0 in
        (r.0, (r.1, tape_write-IsSound b doc buf false true s.0 s.1))

    pub sought_append_lem :
        (p : ℕ) (u : Bool) (s : Device)
        → let r = sought_append p u s in
          r.0 ≡ good → Keeps layer next s r.1 × (layer.position r.1 ≡ (p, next r.1 p))
    sought_append_lem p u s g =
        let k = tape_seek_append_position_lem b doc p u s.0 s.1 g in
        let r = sought_append p u s in
        (
          Keeps_untouched s r.1 k.untouched,
          k.at ∙ ap (λ (n : ℕ). (p, n)) (sym (k.untouched.appends p)),
        )

    pub stored_block_lem :
        (buf : List ℕ) (p : ℕ) (s : Device)
        → layer.position s ≡ (p, next s p)
        → let r = stored_block buf s in
          r.0 ≡ good
          → Keeps layer next s r.1
            × (layer.block r.1 (p, next s p) ≡ buf)
            × (next r.1 p ≡ next s p + 1)
            × (layer.position r.1 ≡ (p, next s p + 1))
    stored_block_lem buf p s e g =
        let k = tape_write_good b doc buf false true p s.0 e g in
        let r = stored_block buf s in (Keeps_appended p s r.1 k.0, k.1, k.0.append_moved, k.0.at)

    abbrev pub device_medium : Medium
    device_medium = record {
      tape = layer;
      append = next;
      lock = λ s. ((tape_device_lock b s.0).0, s);
      read_only = λ p s. tape_read_only p s.0.dev;
      write_index = write_index;
      seek_append = sought_append;
      write = stored_block;
      lock_lem = λ s h. Keeps_untouched s s (nothing_done s.0);
      write_index_lem = write_index_lem;
      seek_append_lem = sought_append_lem;
      write_lem = stored_block_lem;
    }

  -- the appends stay within the cartridge
  pub next_bound : (s : Device) (p : ℕ) → next s p ≤ b.limit
  next_bound s p =
      let recorded = s.1.recorded p in
      let end = doc.end_bound s.0.drive p in ground (arith, recorded, end)
