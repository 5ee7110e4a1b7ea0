-- ===== src/Checksum/Tests.antt =====
-- Short blocks: tests of the checksum, and the theorems at them.
use ltfs.Prelude.{◌≢◌, ℕ, ◌≡◌, refl, arith, List, [], ◌∷◌, ◌++◌}
use ltfs.Checksum.{
  pos, minus_one, to_int, xor, table_at, enc4, checksum, u32tobe, betou32, rs_gf256_enc,
  rs_gf256_check, memcpy_rs_gf256_enc, memcpy_rs_gf256_check,
}
use ltfs.Checksum.Blocks.{check-enc, check-detects}

abbrev block : List ℕ
block = 1 ∷ 2 ∷ 3 ∷ 5 ∷ []

block_checksum : checksum 0 block ≡ 1895514642
unfolding checksum enc4 xor table_at
block_checksum = refl

check-enc_example :
    (rs_gf256_check (rs_gf256_enc (1 ∷ 2 ∷ 3 ∷ 5 ∷ 0 ∷ 0 ∷ 0 ∷ 0 ∷ 9 ∷ []) 4) 4 ≡ pos 4)
    × (memcpy_rs_gf256_check (8 ∷ 8 ∷ 8 ∷ 8 ∷ 8 ∷ []) (memcpy_rs_gf256_enc [] block 4) 4
        ≡ (pos 4, 1 ∷ 2 ∷ 3 ∷ 5 ∷ 8 ∷ []))
check-enc_example =
    check-enc (1 ∷ 2 ∷ 3 ∷ 5 ∷ 0 ∷ 0 ∷ 0 ∷ 0 ∷ 9 ∷ []) block [] (8 ∷ 8 ∷ 8 ∷ 8 ∷ 8 ∷ []) 4
      (omega arith) (omega arith) (omega arith)

accepted_block : pos 4 ≢ minus_one
accepted_block e = cc

check-detects_example :
    rs_gf256_check (((1 ∷ 2 ∷ []) ++ (4 ∷ (5 ∷ []))) ++ u32tobe 1895514642) 4 ≡ minus_one
unfolding rs_gf256_check betou32 u32tobe checksum enc4 xor table_at to_int
check-detects_example =
    check-detects (1 ∷ 2 ∷ []) (5 ∷ []) (u32tobe 1895514642) 3 4 4 (omega arith) (omega arith)
      (omega arith) refl (λ e. accepted_block e)
