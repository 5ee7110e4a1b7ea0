-- ===== src/Tape/Encrypted.antt =====
-- Reading an encrypted block, whose key the key manager has.
use ltfs.Prelude.{
  ℕ, ◌≡◌, ◌⊎◌, inl, inr, refl, ap, ◌∙◌, Bool, true, ◌==◌, if◌then◌else◌, arith, Bool-cases, List,
  Option, some,
}
use ltfs.Raw.Device.{Status, good, bad}
use ltfs.Tape.Ops.{TcPosition, Backend, Documented, crypto_error, key_required}
use ltfs.Tape.{
  Handle, positioned, forced, key_at, tape_set_key, read_once, lacks_key, read_again, with_key,
  retried, tape_read,
}
use ltfs.Tape.Reading.{Got, tape_read-Got}

module _ (b : Backend) (doc : Documented b) (count : ℕ) (u : Bool) where
  -- The drive refuses to read for want of a key; it names the key, and with the one that the key manager
  -- has for that name it reads. `opened` is the drive with the key set, `h` its position before.
  pub record IsEncrypted (kmi : List ℕ → Option (List ℕ)) (d : b.Drive) (h : TcPosition)
      : Type 0 where
    pub keyalias : List ℕ
    pub key : List ℕ
    pub opened : b.Drive
    pub code : ℕ
    pub refused : (b.read count u d).0 ≡ bad code
    pub wanting : (code ≡ crypto_error) ⊎ (code ≡ key_required)
    pub named : b.get_keyalias (b.read count u d).3 ≡ (good, keyalias)
    pub known : kmi keyalias ≡ some key
    pub here : b.readpos (b.read count u d).3 ≡ (good, h)
    pub accepted : b.set_key keyalias key (b.read count u d).3 ≡ (good, opened)
    pub readable : (b.read count u opened).0 ≡ good

  wanting-lacks_key :
      (code : ℕ) → (code ≡ crypto_error) ⊎ (code ≡ key_required) → lacks_key (bad code) ≡ true
  unfolding lacks_key
  wanting-lacks_key code k = ground (arith, k)

  module _ (kmi : List ℕ → Option (List ℕ)) (st : Handle b) (h : TcPosition)
      (e : IsEncrypted kmi st.drive h) where
    abbrev first : Status × List ℕ × Handle b
    first = read_once b count u st

    second_try :
        tape_read b count u (some kmi) st
        ≡ read_once b count u (forced b (good, e.opened) h first.2).1
    unfolding tape_read retried with_key read_again tape_set_key key_at read_once positioned forced
    second_try =
        rw (e.refused, wanting-lacks_key e.code e.wanting, e.named, e.known, e.here, e.accepted)
          refl

    protected :
        (read_once b count u (forced b (good, e.opened) h first.2).1).2.dev.write_protect
        ≡ (if h.block == 0 then st.dev.write_protect else true)
    unfolding read_once forced positioned
    protected = elim (Bool-cases (h.block == 0)) [ inl t ↦ simp t refl | inr f ↦ simp f refl ]

    -- When the drive refuses to read for want of a key, names the key, and reads once that key is set to
    -- the one that the key manager has for the name, the read succeeds with the block at the head, and
    -- goes behind it; the tape and the places of the next appends are as they were; and the device is
    -- write protected from then on, unless the drive says that it stands at block 0, where the write
    -- protection stays. The drive does what is documented, and stays where it is when it lacks a key.
    pub tape_read-IsEncrypted :
        let r = tape_read b count u (some kmi) st in
        (r.0 ≡ good)
        × Got b doc st r
        × (r.2.dev.write_protect ≡ (if h.block == 0 then st.dev.write_protect else true))
    unfolding read_once forced positioned
    tape_read-IsEncrypted =
        let g : (tape_read b count u (some kmi) st).0 ≡ good = rw second_try e.readable in
        (
          g,
          tape_read-Got b doc count u (some kmi) st g,
          ap (λ r. r.2.dev.write_protect) second_try ∙ protected,
        )
