-- ===== src/Tape/Tests/Drive.antt =====
-- A drive with 1000 blocks to a partition, of which a key can be wanted, that does what is documented.
use ltfs.Prelude.{
  ℕ, ◌+◌, ◌≡◌, ◌⊎◌, inl, inr, refl, Bool, false, not, ◌&&◌, List, [], ◌∷◌, arith, min, ltb, ◌==◌,
  if◌then◌else◌, Bool-cases, ap, sym,
}
use ltfs.Raw.Device.{Status, good, bad}
use ltfs.Tape.Ops.{
  TcPosition, Backend, tape_block_max, crypto_error, key_required, SameTape, Overwrites, Documented,
}

-- where the head is, where the data ends, the blocks, and whether a key is wanted
pub record Reel : Type 0 where
  pub at : ℕ × ℕ
  pub end : ℕ → ℕ
  pub cells : ℕ × ℕ → List ℕ
  pub encrypted : Bool

abbrev pub last : ℕ
last = 1000

abbrev pub reel_head : Reel → ℕ × ℕ
reel_head s = (s.at.0, min s.at.1 last)

abbrev pub reel_end : Reel → ℕ → ℕ
reel_end s p = min (s.end p) last

-- the early warning comes at the last ten blocks
abbrev pub report : Reel → TcPosition
report s = record {
  partition = s.at.0;
  block = min s.at.1 last;
  early_warning = ltb 990 s.at.1;
  programmable_early_warning = ltb 980 s.at.1;
}

abbrev pub reported : Status × Reel → Status × TcPosition × Reel
reported r = (r.0, report r.1, r.1)

abbrev pub locate_reel : ℕ × ℕ → Reel → Status × Reel
locate_reel p s =
    if p.1 == tape_block_max
    then (good, record s { at = (p.0, reel_end s p.0) })
    else if ltb last p.1
    then (bad 7, s)
    else (good, record s { at = p })

abbrev pub read_reel : Reel → Status × List ℕ × Reel
read_reel s =
    if s.encrypted
    then (bad crypto_error, [], s)
    else if ltb s.at.1 last
    then (good, s.cells s.at, record s { at = (s.at.0, s.at.1 + 1) })
    else (bad 8, [], s)

abbrev pub put_reel : List ℕ → ℕ → Reel → Status × Reel
put_reel bytes count s = if ltb last (s.at.1 + count) then (bad 5, s) else (
  good,
  record s {
    at = (s.at.0, s.at.1 + count);
    end = λ q. if q == s.at.0 then s.at.1 + count else s.end q;
    cells = λ q. if q.0 == s.at.0 && not (ltb q.1 s.at.1) then bytes else s.cells q;
  },
)

abbrev pub drive : Backend
drive = record {
  Drive = Reel;
  limit = last;
  head = reel_head;
  block = λ s. s.cells;
  end_of_data = reel_end;
  locate = λ p s. reported (locate_reel p s);
  read = λ n u s. let r = read_reel s in (r.0, r.1, report r.2, r.2);
  write = λ bytes s. reported (put_reel bytes 1 s);
  writefm = λ count i s. reported (put_reel [] count s);
  readpos = λ s. (good, report s);
  allow_overwrite = λ h s. (good, s);
  write_attribute = λ s. s;
  get_keyalias = λ s. (good, 1 ∷ []);
  set_key = λ a k s. (good, record s { encrypted = false });
}

locate_reel_keeps : (p : ℕ × ℕ) (s : Reel) → SameTape drive s (locate_reel p s).1
locate_reel_keeps p s = elim (Bool-cases (p.1 == tape_block_max)) [
  | inl t ↦ rw t (record { blocks = λ q. refl; ends = λ q. refl })
  | inr f ↦ elim (Bool-cases (ltb last p.1)) [
    | inl t ↦ rw (f, t) (record { blocks = λ q. refl; ends = λ q. refl })
    | inr g ↦ rw (f, g) (record { blocks = λ q. refl; ends = λ q. refl })
  ]
]

read_reel_lem :
    (s : Reel)
    → (read_reel s).0 ≡ good
    → ((read_reel s).1 ≡ s.cells (reel_head s))
      × (reel_head (read_reel s).2 ≡ (s.at.0, min s.at.1 last + 1))
      × SameTape drive s (read_reel s).2
read_reel_lem s = elim (Bool-cases s.encrypted) [
  | inl t ↦ simp t (λ g. absurd (ground (arith, g)))
  | inr f ↦ elim (Bool-cases (ltb s.at.1 last)) [
    | inr n ↦ simp (f, n) (λ g. absurd (ground (arith, g)))
    | inl t ↦
        let small : min s.at.1 last ≡ s.at.1 = ground (arith, t) in
        simp (f, t)
          (λ g. (
            ap (λ (n : ℕ). s.cells (s.at.0, n)) (sym small),
            ap (λ (n : ℕ). (s.at.0, n)) (ground (arith, t)),
            record { blocks = λ q. refl; ends = λ q. refl },
          ))
  ]
]

put_reel_lem :
    (bytes : List ℕ) (count : ℕ) (s : Reel)
    → (put_reel bytes count s).0 ≡ good
    → (reel_head (put_reel bytes count s).1 ≡ (s.at.0, min s.at.1 last + count))
      × ((put_reel bytes count s).1.cells (reel_head s) ≡ bytes)
      × Overwrites drive s
          (put_reel bytes count s).1
          s.at.0
          (min s.at.1 last)
          (min s.at.1 last + count)
put_reel_lem bytes count s = elim (Bool-cases (ltb last (s.at.1 + count))) [
  | inl t ↦ rw t (λ g. absurd (ground (arith, g)))
  | inr f ↦ rw f (λ g. (
    ap (λ (n : ℕ). (s.at.0, n)) (ground (arith, f)),
    ground (arith, f),
    record {
      below = λ n k. ground (arith, f, k);
      other = λ q n k. ground (arith, k);
      other_end = λ q k. ground (arith, k);
      end = ground (arith, f);
    },
  ))
]

read_reel_refused :
    (s : Reel) (code : ℕ)
    → (read_reel s).0 ≡ bad code
    → (code ≡ crypto_error) ⊎ (code ≡ key_required)
    → (reel_head (read_reel s).2 ≡ reel_head s) × SameTape drive s (read_reel s).2
read_reel_refused s code = elim (Bool-cases s.encrypted) [
  | inl t ↦ simp t (λ g k. (refl, record { blocks = λ q. refl; ends = λ q. refl }))
  | inr f ↦ elim (Bool-cases (ltb s.at.1 last)) [
    | inl t ↦ simp (f, t) (λ g k. absurd (ground (arith, g)))
    | inr n ↦ simp (f, n) (λ g k. (refl, record { blocks = λ q. refl; ends = λ q. refl }))
  ]
]

pub drive-Documented : Documented drive
drive-Documented = record {
  locate_reports = λ p s. refl;
  read_reports = λ n u s. refl;
  write_reports = λ bytes s. refl;
  writefm_reports = λ n i s. refl;
  locate_keeps = λ p s g. locate_reel_keeps p s;
  locate_end = λ p s g. ap (λ (n : ℕ). (p, n)) (omega arith);
  limit_bound = omega arith;
  head_bound = λ s. omega arith;
  end_bound = λ s p. omega arith;
  read_lem = λ n u s. read_reel_lem s;
  read_refused = λ n u s. read_reel_refused s;
  write_lem = λ bytes s. put_reel_lem bytes 1 s;
  writefm_lem = λ n i s g. let r = put_reel_lem [] n s g in (r.0, r.2);
  allow_keeps = λ h s. (refl, record { blocks = λ q. refl; ends = λ q. refl });
  attribute_keeps = λ s. (refl, record { blocks = λ q. refl; ends = λ q. refl });
  key_keeps = λ a k s. (refl, record { blocks = λ q. refl; ends = λ q. refl });
}
