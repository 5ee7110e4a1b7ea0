-- ===== src/Tape/Admission.antt =====
-- When a write is let through to the drive, and what the drive's early warnings mean.
use ltfs.Prelude.{ℕ, ◌<◌, ◌≡◌, ◌⊎◌, inl, inr, refl, Bool, true, false, Bool-cases}
use ltfs.Raw.Device.{Status, good, bad}
use ltfs.Write.{no_space}
use ltfs.Tape.Ops.{TcPosition}
use ltfs.Tape.{
  DeviceData, Space, writable, less_space, full, less_space_code, write_protect_code,
  write_error_code, large_blocksize, refusal, status_written, space_written,
}

-- the space of the partition that the head is in
abbrev pub space_here : DeviceData → Space
space_here dev = dev.partition_space dev.position.partition

-- Nothing of the device is in the way of a write: the flags `l` and `n` say whether little space, and
-- none, are to be ignored.
pub record IsFree (l n : Bool) (dev : DeviceData) : Type 0 where
  pub protect : dev.write_protect ≡ false
  pub error : dev.write_error ≡ false
  pub room : space_here dev ≡ full → n ≡ true
  pub much_room : space_here dev ≡ less_space → l ≡ true

-- why the device refuses a write, in the order of importance, with the code for it
pub data Blocked (l n : Bool) (dev : DeviceData) : ℕ → Type 0 where
  write_protected : dev.write_protect ≡ true → Blocked l n dev write_protect_code
  after_error :
      dev.write_protect ≡ false → dev.write_error ≡ true → Blocked l n dev write_error_code
  no_room :
      dev.write_protect ≡ false
      → dev.write_error ≡ false
      → space_here dev ≡ full
      → n ≡ false
      → Blocked l n dev no_space
  little_room :
      dev.write_protect ≡ false
      → dev.write_error ≡ false
      → space_here dev ≡ less_space
      → l ≡ false
      → Blocked l n dev less_space_code

-- how a refused write came to its code
pub data Refusal (l n : Bool) (dev : DeviceData) (size code : ℕ) : Type 0 where
  blocked : Blocked l n dev code → Refusal l n dev size code
  too_large :
      IsFree l n dev
      → dev.max_block_size < size
      → code ≡ large_blocksize
      → Refusal l n dev size code

-- The status of a write whose block is stored, and the space that is recorded for its partition, from
-- the warnings behind the block and the space in front of it.
pub data Told (l n : Bool) (old : Space) (h : TcPosition) : Status → Space → Type 0 where
  early : h.early_warning ≡ true → n ≡ false → Told l n old h (bad no_space) full
  early_ignored : h.early_warning ≡ true → n ≡ true → Told l n old h good full
  programmable :
      h.early_warning ≡ false
      → h.programmable_early_warning ≡ true
      → l ≡ false
      → Told l n old h (bad less_space_code) less_space
  programmable_ignored :
      h.early_warning ≡ false
      → h.programmable_early_warning ≡ true
      → l ≡ true
      → Told l n old h good less_space
  no_warning :
      h.early_warning ≡ false → h.programmable_early_warning ≡ false → Told l n old h good old

early-Told :
    (l n : Bool) (old : Space) (h : TcPosition)
    → h.early_warning ≡ true
    → Told l n old h (status_written l n h) (space_written h old)
unfolding status_written space_written
early-Told l true old h e = simp e (early_ignored e refl)
early-Told l false old h e = simp e (early e refl)

programmable-Told :
    (l n : Bool) (old : Space) (h : TcPosition)
    → h.early_warning ≡ false
    → h.programmable_early_warning ≡ true
    → Told l n old h (status_written l n h) (space_written h old)
unfolding status_written space_written
programmable-Told true n old h e p = simp (e, p) (programmable_ignored e p refl)
programmable-Told false n old h e p = simp (e, p) (programmable e p refl)

pub written-Told :
    (l n : Bool) (old : Space) (h : TcPosition)
    → Told l n old h (status_written l n h) (space_written h old)
unfolding status_written space_written
written-Told l n old h = elim (Bool-cases h.early_warning) [
  | inl e ↦ early-Told l n old h e
  | inr e ↦ elim (Bool-cases h.programmable_early_warning) [
    | inr p ↦ simp (e, p) (no_warning e p)
    | inl p ↦ programmable-Told l n old h e p
  ]
]

Space-cases : (s : Space) → (s ≡ writable) ⊎ ((s ≡ less_space) ⊎ (s ≡ full))
Space-cases writable = inl refl
Space-cases less_space = inr (inl refl)
Space-cases full = inr (inr refl)

-- a device lets a write through, or blocks it
pub refusal-cases :
    (l n : Bool) (dev : DeviceData)
    → ((refusal l n dev ≡ good) × IsFree l n dev)
      ⊎ ((code : ℕ) × (refusal l n dev ≡ bad code) × Blocked l n dev code)
unfolding refusal
refusal-cases l n dev = elim (Bool-cases dev.write_protect) [
  | inl p ↦ inr (write_protect_code, simp p refl, write_protected p)
  | inr p ↦ elim (Bool-cases dev.write_error) [
    | inl e ↦ inr (write_error_code, simp (p, e) refl, after_error p e)
    | inr e ↦ elim (Space-cases (space_here dev)) [
      | inl s ↦ inl (
        simp (p, e, s) refl,
        record { protect = p; error = e; room = λ f. cc; much_room = λ f. cc },
      )
      | inr (inl s) ↦ elim (Bool-cases l) [
        | inl i ↦ inl (
          simp (p, e, s, i) refl,
          record { protect = p; error = e; room = λ f. cc; much_room = λ f. i },
        )
        | inr i ↦ inr (less_space_code, simp (p, e, s, i) refl, little_room p e s i)
      ]
      | inr (inr s) ↦ elim (Bool-cases n) [
        | inl i ↦ inl (
          simp (p, e, s, i) refl,
          record { protect = p; error = e; room = λ f. i; much_room = λ f. cc },
        )
        | inr i ↦ inr (no_space, simp (p, e, s, i) refl, no_room p e s i)
      ]
    ]
  ]
]
