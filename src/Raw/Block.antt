-- ===== src/Raw/Block.antt =====
-- Getting one block: from the cache of the block read last, or from the tape.
use ltfs.Prelude.{
  ℕ, ◌+◌, ◌^◌, ◌≤◌, ◌<◌, ◌≡◌, refl, inl, inr, Bool, true, false, List, length, arith, ltb, ◌==◌,
  add64, not, Bool-cases, ◌&&◌, ap, sym, ◌∙◌, ltb→lt,
}
use ltfs.Extent.{ExtentInfo}
use ltfs.Raw.Device.{Tape, Status, good, bad}
use ltfs.Raw.{
  Volume, Result, ok, failed, out_of_fuel, bind, is_cached, moved, seek_if_required, got,
  small_block, read_block,
}

module _ (tape : Tape) (part_num : ℕ → ℕ) (blocksize : ℕ) (image : ℕ × ℕ → List ℕ) where
  open tape use {State, get_position, position, block, seek, read, seek_lem, read_lem}

  -- the tape has the blocks of `image`, and the block read last is one of them
  pub record Holds (vol : Volume tape part_num blocksize) : Type 0 where
    pub same : (q : ℕ × ℕ) → block vol.device q ≡ image q
    pub cached : image (part_num vol.last_pos.partition, vol.last_pos.block) ≡ vol.last_block
    pub sized : length vol.last_block ≡ vol.last_size

  -- why a read may fail with a code: the device has failed with it, or a block on the tape is
  -- shorter than a full one
  pub data Fault (code : ℕ) : Type 0 where
    position_failed : (s : State) → (get_position s).0 ≡ bad code → Fault code
    seek_failed : (p : ℕ × ℕ) (s : State) → (seek p s).0 ≡ bad code → Fault code
    read_failed :
        (n : ℕ) (unusual : Bool) (s : State) → (read n unusual s).0 ≡ bad code → Fault code
    block_short : (q : ℕ × ℕ) → length (image q) < blocksize → code ≡ small_block → Fault code

  -- a result that has not run out of fuel, with a property of what succeeds, and the fault behind
  -- a failure
  abbrev pub Sound :
      {A : Type 0}
      → (A → Volume tape part_num blocksize → Type 0)
      → Result tape part_num blocksize A
      → Type 0
  Sound P (ok a vol) = P a vol
  Sound P (failed code vol) = Fault code
  Sound P out_of_fuel = ⊥

  pub Sound-bind :
      {A B : Type 0} (P : A → Volume tape part_num blocksize → Type 0)
      (Q : B → Volume tape part_num blocksize → Type 0) (r : Result tape part_num blocksize A)
      (k : A → Volume tape part_num blocksize → Result tape part_num blocksize B)
      → Sound P r
      → ((a : A) (v : Volume tape part_num blocksize) → P a v → Sound Q (k a v))
      → Sound Q (bind tape part_num blocksize r k)
  unfolding bind
  Sound-bind P Q (ok a vol) k s h = h a vol s
  Sound-bind P Q (failed code vol) k s h = s
  Sound-bind P Q out_of_fuel k s h = s

  module _ (e : ExtentInfo) (t : ℕ) (cur : ℕ × ℕ) (vol : Volume tape part_num blocksize) where
    abbrev hit : Bool
    hit = is_cached tape part_num blocksize e (part_num e.start.partition, t) cur vol

    -- the tape is before the block wanted, or behind it and the block is the one read last
    pub record Ready : Type 0 where
      pub partition : (position vol.device).0 ≡ part_num e.start.partition
      pub behind : hit ≡ true → (position vol.device).1 ≡ t + 1
      pub before : hit ≡ false → (position vol.device).1 ≡ t

  module _ (e : ExtentInfo) (t : ℕ) (cur : ℕ × ℕ) (vol : Volume tape part_num blocksize)
      (h : Holds vol) where
    abbrev target : ℕ × ℕ
    target = (part_num e.start.partition, t)

    moved-Ready :
        (r : Status × State)
        → (r.0 ≡ good → (position r.1 ≡ target) × ((q : ℕ × ℕ) → block r.1 q ≡ block vol.device q))
        → ((code : ℕ) → r.0 ≡ bad code → Fault code)
        → hit e t cur vol ≡ false
        → Sound (λ _ v. Holds v × Ready e t cur v) (moved tape part_num blocksize vol r)
    unfolding moved is_cached
    moved-Ready (bad code, s) law fault miss = fault code refl
    moved-Ready (good, s) law fault miss = (
      record { same = λ q. (law refl).1 q ∙ h.same q; cached = h.cached; sized = h.sized },
      record {
        partition = ap (λ q. q.0) (law refl).0;
        behind = λ k. absurd (cc (k, miss));
        before = λ _. ap (λ q. q.1) (law refl).0;
      },
    )

    miss-at : t + 1 < 2 ^ 64 → (t == cur.1) ≡ true → hit e t cur vol ≡ false
    unfolding is_cached add64
    miss-at w k = ground arith

    hit-behind :
        t + 1 < 2 ^ 64
        → hit e t cur vol ≡ true
        → (part_num e.start.partition ≡ cur.0) × (t + 1 ≡ cur.1)
    unfolding is_cached add64
    hit-behind w k = ground arith

    pub seek-Ready :
        cur ≡ position vol.device
        → t + 1 < 2 ^ 64
        → Sound
            (λ _ v. Holds v × Ready e t cur v)
            (seek_if_required tape part_num blocksize e target cur vol)
    unfolding seek_if_required
    seek-Ready c w = elim (Bool-cases (part_num e.start.partition == cur.0 && t == cur.1)) [
      | inl k ↦ rw k (
        h,
        record {
          partition = ground (arith, ap (λ q. q.0) c);
          behind = λ l. absurd (ground (arith, miss-at w));
          before = λ l. ground (arith, ap (λ q. q.1) c);
        },
      )
      | inr k ↦ elim (Bool-cases (hit e t cur vol)) [
        | inl l ↦
            rw (k, l)
              (
                h,
                record {
                  partition = ground (arith, ap (λ q. q.0) c, hit-behind w l);
                  behind = λ _. ground (arith, ap (λ q. q.1) c, hit-behind w l);
                  before = λ m. absurd (cc (l, m));
                },
              )
        | inr l ↦
            rw (k, l)
              (moved-Ready (seek target vol.device) (seek_lem target vol.device w)
                (λ code b. seek_failed target vol.device b) l)
      ]
    ]

    -- what a block that was got gives the copy, and the next round
    pub record Got (blockbytes : ℕ) (cur' : ℕ × ℕ) (v : Volume tape part_num blocksize)
        : Type 0 where
      pub holds : Holds v
      pub wanted : v.last_block ≡ image target
      pub enough : blockbytes ≤ length v.last_block
      pub next : t + 2 < 2 ^ 64 → Ready e (t + 1) cur' v

    short-Fault :
        (n : ℕ) (bytes : List ℕ)
        → bytes ≡ image target
        → length bytes < n
        → n ≤ blocksize
        → Fault small_block
    short-Fault n bytes e k room = block_short target (omega (arith, ap length e, k, room)) refl

    got-Got :
        (n : ℕ) (r : Status × List ℕ × State)
        → (r.0 ≡ good
            → (r.1 ≡ image target)
              × (position r.2 ≡ (part_num e.start.partition, t + 1))
              × ((q : ℕ × ℕ) → block r.2 q ≡ block vol.device q))
        → ((code : ℕ) → r.0 ≡ bad code → Fault code)
        → n ≤ blocksize
        → Sound (Got n) (got tape part_num blocksize e target cur n vol r)
    unfolding got is_cached
    got-Got n (bad code, bytes, s) law fault room = fault code refl
    got-Got n (good, bytes, s) law fault room = elim (Bool-cases (ltb (length bytes) n)) [
      | inl k ↦ rw k (short-Fault n bytes (law refl).0 (ltb→lt (length bytes) n k) room)
      | inr k ↦ rw k (record {
        holds = record {
          same = λ q. (law refl).2 q ∙ h.same q;
          cached = sym ((law refl).0);
          sized = refl;
        };
        wanted = (law refl).0;
        enough = ground arith;
        next = λ w. record {
          partition = ap (λ q. q.0) (law refl).1;
          behind = λ l. absurd (ground arith);
          before = λ l. ap (λ q. q.1) (law refl).1;
        };
      })
    ]

    hit-last :
        hit e t cur vol ≡ true
        → (part_num e.start.partition ≡ part_num vol.last_pos.partition) × (t ≡ vol.last_pos.block)
    unfolding is_cached
    hit-last k =
        let same : e.start.partition ≡ vol.last_pos.partition = ground arith in
        (ap part_num same, ground arith)

    last-target :
        hit e t cur vol ≡ true → target ≡ (part_num vol.last_pos.partition, vol.last_pos.block)
    last-target k = let (p, b) = hit-last k in cc (p, b)

    miss-next : t + 2 < 2 ^ 64 → hit e t cur vol ≡ true → hit e (t + 1) cur vol ≡ false
    unfolding is_cached
    miss-next w k = ground arith

    module _ (ready : Ready e t cur vol) where
      read-law :
          (n : ℕ) (unusual : Bool)
          → hit e t cur vol ≡ false
          → let r = read n unusual vol.device in
            r.0 ≡ good
            → (r.1 ≡ image target)
              × (position r.2 ≡ (part_num e.start.partition, t + 1))
              × ((q : ℕ × ℕ) → block r.2 q ≡ block vol.device q)
      read-law n unusual miss g =
          let law = read_lem n unusual vol.device g in
          let at : position vol.device ≡ target = cc (ready.partition, ready.before miss) in
          (
            law.0 ∙ h.same (position vol.device) ∙ ap image at,
            law.1 ∙ ap (λ q. (q.0, q.1 + 1)) at,
            law.2,
          )

      pub read_block-Got :
          (n : ℕ)
          → n ≤ blocksize
          → Sound (Got n) (read_block tape part_num blocksize e target cur n vol)
      unfolding read_block
      read_block-Got n room = elim (Bool-cases (hit e t cur vol)) [
        | inr l ↦ rw l (
            got-Got n (read blocksize (not (blocksize == n)) vol.device)
              (read-law blocksize (not (blocksize == n)) l)
              (λ code b. read_failed blocksize (not (blocksize == n)) vol.device b) room)
        | inl l ↦ elim (Bool-cases (ltb vol.last_size n)) [
          | inl k ↦
              rw (l, k)
                (short-Fault n vol.last_block (sym (ap image (last-target l) ∙ h.cached))
                  (omega (arith, h.sized, ltb→lt vol.last_size n k)) room)
          | inr k ↦
              rw (l, k)
                (record {
                  holds = h;
                  wanted = sym (ap image (last-target l) ∙ h.cached);
                  enough = ground (arith, h.sized);
                  next = λ w. record {
                    partition = ready.partition;
                    behind = λ m. absurd (cc (m, miss-next w l));
                    before = λ _. ready.behind l;
                  };
                })
        ]
      ]
