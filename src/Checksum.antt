-- ===== src/Checksum.antt =====
-- tape_drivers/reed_solomon_crc.c: the checksum behind a block that goes to or comes from a drive.
mod Table
pub mod Words
pub mod Steps
pub mod Blocks
mod Tests
use ltfs.Prelude.{
  ltb, ◌-◌, ◌%◌, ℕ, zero, suc, ◌+◌, ◌*◌, ◌/◌, ◌^◌, Option, none, some, List, [], ◌∷◌, ◌++◌, take,
  drop, get_or, ◌==◌, if◌then◌else◌,
}
use Table.{rs_gf256_table}

-- `^` on words of `n` bits
unfoldable pub xor : ℕ → ℕ → ℕ → ℕ
xor zero a b = 0
xor (suc n) a b = (a + b) % 2 + 2 * xor n (a / 2) (b / 2)

unfoldable pub table_at : ℕ → ℕ
table_at i = get_or rs_gf256_table i 0

-- `enc4`, whose register is a word of 32 bits
unfoldable pub enc4 : ℕ → ℕ → ℕ
enc4 byte reg = xor 32 (reg * 256 % 2 ^ 32) (table_at (xor 8 byte (reg / 2 ^ 24)))

-- the loop over the bytes, with the register in front of them
unfoldable pub checksum : ℕ → List ℕ → ℕ
checksum reg [] = reg
checksum reg (byte ∷ bytes) = checksum (enc4 byte reg) bytes

-- `ltfs_u32tobe` and `ltfs_betou32`
unfoldable pub u32tobe : ℕ → List ℕ
u32tobe x = x / 2 ^ 24 ∷ x / 2 ^ 16 % 256 ∷ x / 2 ^ 8 % 256 ∷ x % 256 ∷ []

unfoldable pub betou32 : List ℕ → ℕ
betou32 buf =
    get_or buf 0 0 * 2 ^ 24 + get_or buf 1 0 * 2 ^ 16 + get_or buf 2 0 * 2 ^ 8 + get_or buf 3 0

-- `rs_gf256_enc`: the checksum of the first `n` bytes goes behind them
unfoldable pub rs_gf256_enc : List ℕ → ℕ → List ℕ
rs_gf256_enc buf n = take n buf ++ (u32tobe (checksum 0 (take n buf)) ++ drop (n + 4) buf)

-- the numbers below 0 are `negsuc n`, for -1 - n
pub data ℤ : Type 0 where
  pos : ℕ → ℤ
  negsuc : ℕ → ℤ

-- a `size_t` as an `int`
unfoldable pub to_int : ℕ → ℤ
to_int n =
    let word = n % 2 ^ 32 in if ltb word (2 ^ 31) then pos word else negsuc (2 ^ 32 - 1 - word)

abbrev pub minus_one : ℤ
minus_one = negsuc 0

-- `rs_gf256_check`
unfoldable pub rs_gf256_check : List ℕ → ℕ → ℤ
rs_gf256_check buf n =
    if betou32 (drop n buf) == checksum 0 (take n buf) then to_int n else minus_one

-- `memcpy_rs_gf256_enc` and `memcpy_rs_gf256_check`, with what they leave in `dest`
unfoldable pub memcpy_rs_gf256_enc : List ℕ → List ℕ → ℕ → List ℕ
memcpy_rs_gf256_enc dest src n =
    take n src ++ (u32tobe (checksum 0 (take n src)) ++ drop (n + 4) dest)

unfoldable pub memcpy_rs_gf256_check : List ℕ → List ℕ → ℕ → ℤ × List ℕ
memcpy_rs_gf256_check dest src n = (
  if betou32 (drop n src) == checksum 0 (take n src) then to_int n else minus_one,
  take n src ++ drop n dest,
)
