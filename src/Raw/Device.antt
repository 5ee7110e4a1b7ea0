-- ===== src/Raw/Device.antt =====
-- libltfs/tape.c as the raw file operations see it: a device with a position, and blocks on it.
use ltfs.Prelude.{ℕ, ◌+◌, ◌^◌, ◌<◌, ◌≡◌, ◌⊎◌, inl, inr, refl, Bool, List}

pub data Status : Type 0 where
  good : Status
  bad : ℕ → Status

pub Status-cases : (x : Status) → (x ≡ good) ⊎ ((code : ℕ) × (x ≡ bad code))
Status-cases good = inl refl
Status-cases (bad code) = inr (code, refl)

-- A position is the number of the partition and of the block; the greatest number of 64 bits is no
-- block, and a seek to it has another meaning. The laws say what a successful call
-- does; a call that fails may leave any state and any bytes in the buffer.
pub record Tape : Type 1 where
  pub State : Type 0
  pub position : State → ℕ × ℕ
  pub block : State → ℕ × ℕ → List ℕ
  -- `tape_get_position`, `tape_seek` and `tape_read`
  pub get_position : State → Status × (ℕ × ℕ)
  pub seek : ℕ × ℕ → State → Status × State
  pub read : ℕ → Bool → State → Status × List ℕ × State
  pub get_position_lem : (s : State) → (get_position s).0 ≡ good → (get_position s).1 ≡ position s
  pub seek_lem :
      (p : ℕ × ℕ) (s : State)
      → p.1 + 1 < 2 ^ 64
      → (seek p s).0 ≡ good
      → (position (seek p s).1 ≡ p) × ((q : ℕ × ℕ) → block (seek p s).1 q ≡ block s q)
  pub read_lem :
      (n : ℕ) (unusual : Bool) (s : State)
      → (read n unusual s).0 ≡ good
      → ((read n unusual s).1 ≡ block s (position s))
        × (position (read n unusual s).2 ≡ ((position s).0, (position s).1 + 1))
        × ((q : ℕ × ℕ) → block (read n unusual s).2 q ≡ block s q)
