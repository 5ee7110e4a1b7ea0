-- ===== src/Raw/Extents.antt =====
-- The loop over the extents of a file, with zeros for its holes.
use native.Mathlib.Decide.{dec_lt}
use ltfs.Prelude.{
  ℕ, ◌+◌, ◌-◌, ◌^◌, ◌≤◌, ◌<◌, ◌≡◌, refl, none, List, [], ◌∷◌, replicate, arith, ◌==◌, max, min, ap,
  sub64, add64, sub64_exact, Bool-cases, sym, some, inl, inr, lt→ltb, le→ltb_not,
}
use ltfs.Extent.{ExtentInfo}
use ltfs.Extent.Content.{Fits, Ordered, content, content-below, address}
use ltfs.Raw.Device.{Tape}
use ltfs.Raw.{Volume, Result, Progress, prepend, after, from_extent, extent_round, extents}
use ltfs.Raw.Window.{window, replicate-window}
use ltfs.Raw.Block.{Holds}
use ltfs.Raw.Bytes.{file_byte, byte_or_zero}
use ltfs.Raw.Start.{extent_byte, from_extent-Reads}
use ltfs.Raw.Parts.{Part, Parts, amount, prepend-Parts, Parts-ext, after-Parts}

-- no extent ends past the end of the file
abbrev pub Within : ℕ → List ExtentInfo → Type 0
Within size [] = Unit
Within size (e ∷ es) = (e.fileoffset + e.bytecount ≤ size) × Within size es

module _ (tape : Tape) (part_num : ℕ → ℕ) (blocksize : ℕ) (positive : 0 < blocksize)
    (small : blocksize ≤ 2 ^ 32) (image : ℕ × ℕ → List ℕ) (count last_off : ℕ)
    (far : last_off < 2 ^ 63) (short : count < 2 ^ 63) (size : ℕ) where
  abbrev bytes_of : List ExtentInfo → ℕ → ℕ
  bytes_of es = file_byte part_num blocksize image es

  abbrev pub ReadingOf :
      List ExtentInfo
      → ℕ
      → Result tape part_num blocksize (Progress tape part_num blocksize)
      → Type 0
  ReadingOf es x r =
      Parts tape part_num blocksize positive small image count last_off far short size (bytes_of es)
        x r

  -- nothing more is read: all that is wanted has been read, or only zeros follow
  stop-Part :
      (f : ℕ → ℕ) (x read_count : ℕ) (vol : Volume tape part_num blocksize)
      → Holds tape part_num blocksize image vol
      → x ≤ last_off
      → read_count + last_off ≡ count + x
      → (read_count < count → (y : ℕ) → x ≤ y → y < last_off → f y ≡ 0)
      → Part tape part_num blocksize positive small image count last_off far short size f x
          (record { bytes = []; next_off = x; read_count = read_count })
          vol
  stop-Part f x read_count vol h k c z =
      let nothing : amount tape part_num blocksize positive small image count last_off far short
            size x read_count
          ≡ 0 =
        omega arith in
      record {
        holds = h;
        enough = omega arith;
        started = omega arith;
        bytes = rw nothing refl;
        inside = omega arith;
        next = λ _. c;
        zeros = z;
      }

  module _ (e : ExtentInfo) (es : List ExtentInfo) (fits : Fits blocksize e)
      (ordered : Ordered blocksize (e.fileoffset + e.bytecount) es)
      (ends : e.fileoffset + e.bytecount ≤ size) where
    hole : (y : ℕ) → y < e.fileoffset → bytes_of (e ∷ es) y ≡ 0
    hole y h =
        let none_there : content blocksize (e ∷ es) y ≡ none =
          content-below blocksize e.fileoffset (e ∷ es) y (omega arith, fits, ordered) h in
        ap (byte_or_zero part_num blocksize image) none_there

    inner :
        (y : ℕ)
        → e.fileoffset ≤ y
        → y < e.fileoffset + e.bytecount
        → extent_byte tape part_num blocksize positive small image count last_off far short e fits y
          ≡ bytes_of (e ∷ es) y
    inner y h k =
        let there : content blocksize (e ∷ es) y ≡ some (address blocksize e y) =
          unfold content in ground arith in
        ap (byte_or_zero part_num blocksize image) (sym there)

    outer : (y : ℕ) → e.fileoffset + e.bytecount ≤ y → bytes_of (e ∷ es) y ≡ bytes_of es y
    outer y h =
        let same : content blocksize (e ∷ es) y ≡ content blocksize es y =
          unfold content in ground arith in
        ap (byte_or_zero part_num blocksize image) same

    module _
        (rest : ℕ
          → ℕ
          → Volume tape part_num blocksize
          → Result tape part_num blocksize (Progress tape part_num blocksize))
        (later : (x read_count : ℕ) (vol : Volume tape part_num blocksize)
          → Holds tape part_num blocksize image vol
          → x ≤ last_off
          → read_count + last_off ≡ count + x
          → ReadingOf es x (rest x read_count vol)) where
      on_tape :
          (x read_count : ℕ) (vol : Volume tape part_num blocksize)
          → Holds tape part_num blocksize image vol
          → e.fileoffset ≤ x
          → x ≤ last_off
          → read_count + last_off ≡ count + x
          → ReadingOf (e ∷ es) x (
              after tape part_num blocksize
                (from_extent tape part_num blocksize count last_off e x read_count vol)
                rest)
      on_tape x read_count vol h from k c =
          let stop : ℕ = max x (min (e.fileoffset + e.bytecount) last_off) in
          after-Parts tape part_num blocksize positive small image count last_off far short size
            (extent_byte tape part_num blocksize positive small image count last_off far short e
              fits)
            (bytes_of (e ∷ es)) stop x _ rest (omega arith) (omega arith) (omega arith)
            (λ y l m. inner y (omega arith) (omega arith))
            (from_extent-Reads tape part_num blocksize positive small image count last_off far short
              e fits x read_count vol h from k c)
            (λ read_count' v h' c'.
              Parts-ext tape part_num blocksize positive small image count last_off far short size
                (bytes_of es) (bytes_of (e ∷ es)) stop _ (omega arith)
                (λ y l m. outer y (omega arith)) (later stop read_count' v h' (omega arith) c'))

      zeros_lem :
          (x y : ℕ)
          → x ≤ y
          → y ≤ e.fileoffset
          → y < 2 ^ 64
          → replicate (sub64 y x) 0 ≡ window (bytes_of (e ∷ es)) x (y - x)
      zeros_lem x y h k w =
          rw (sub64_exact y x h w)
            (replicate-window (bytes_of (e ∷ es)) 0 x (y - x) (λ z l m. hole z (omega arith)))

      all_hole :
          (x : ℕ) (vol : Volume tape part_num blocksize)
          → Holds tape part_num blocksize image vol
          → x ≤ last_off
          → x < e.fileoffset
          → last_off < e.fileoffset
          → Part tape part_num blocksize positive small image count last_off far short size
              (bytes_of (e ∷ es))
              x
              (record { bytes = replicate (sub64 last_off x) 0; next_off = x; read_count = count })
              vol
      all_hole x vol h k before all =
          let amount_lem : count + (last_off - x) - count ≡ last_off - x = omega arith in
          record {
            holds = h;
            enough = omega arith;
            started = omega arith;
            bytes = rw amount_lem (zeros_lem x last_off k (omega arith) (omega arith));
            inside = omega arith;
            next = λ l. absurd (omega arith);
            zeros = λ l. absurd (omega arith);
          }

      after_hole :
          (x read_count : ℕ) (vol : Volume tape part_num blocksize)
          → Holds tape part_num blocksize image vol
          → read_count + last_off ≡ count + x
          → x < e.fileoffset
          → e.fileoffset ≤ last_off
          → ReadingOf (e ∷ es) x (
              prepend tape part_num blocksize (replicate (sub64 e.fileoffset x) 0) (
                after tape part_num blocksize
                  (from_extent tape part_num blocksize count last_off e e.fileoffset
                    (add64 read_count (sub64 e.fileoffset x))
                    vol)
                  rest))
      after_hole x read_count vol h c before part =
          let count_lem : add64 read_count (sub64 e.fileoffset x)
              ≡ read_count + (e.fileoffset - x) =
            unfold add64 sub64 in omega arith in
          prepend-Parts tape part_num blocksize positive small image count last_off far short size
            (bytes_of (e ∷ es)) x e.fileoffset (e.fileoffset - x) _ _
            (zeros_lem x e.fileoffset (omega arith) (omega arith) (omega arith)) (omega arith) part
            (omega arith)
            (on_tape e.fileoffset _ vol h (omega arith) part (omega (arith, count_lem)))

      round-Reading :
          (x read_count : ℕ) (vol : Volume tape part_num blocksize)
          → Holds tape part_num blocksize image vol
          → x ≤ last_off
          → read_count + last_off ≡ count + x
          → ReadingOf
              (e ∷ es)
              x
              (extent_round tape part_num blocksize count last_off e rest x read_count vol)
      unfolding extent_round
      round-Reading x read_count vol h k c = elim (Bool-cases (read_count == count)) [
        | inl full ↦
            rw full
              (stop-Part (bytes_of (e ∷ es)) x read_count vol h k c (λ l. absurd (ground arith)))
        | inr open_ ↦ elim (dec_lt x e.fileoffset) [
          | no from ↦
              rw (open_, le→ltb_not e.fileoffset x (omega arith))
                (on_tape x read_count vol h (omega arith) k c)
          | yes before ↦ elim (dec_lt last_off e.fileoffset) [
            | yes all ↦
                rw (open_, lt→ltb x e.fileoffset before, lt→ltb last_off e.fileoffset all)
                  (all_hole x vol h k before all)
            | no part ↦
                rw
                  (
                    open_,
                    lt→ltb x e.fileoffset before,
                    le→ltb_not e.fileoffset last_off (omega arith),
                  )
                  (after_hole x read_count vol h c before (omega arith))
          ]
        ]
      ]

  pub extents-Reading :
      (lo : ℕ) (es : List ExtentInfo)
      → Ordered blocksize lo es
      → Within size es
      → (x read_count : ℕ) (vol : Volume tape part_num blocksize)
      → Holds tape part_num blocksize image vol
      → x ≤ last_off
      → read_count + last_off ≡ count + x
      → ReadingOf es x (extents tape part_num blocksize count last_off es x read_count vol)
  unfolding extents content
  extents-Reading lo [] o w x read_count vol h k c =
      stop-Part (bytes_of []) x read_count vol h k c (λ l y m n. refl)
  extents-Reading lo (e ∷ es) o w x read_count vol h k c =
      round-Reading e es o.1 o.2 w.0 (extents tape part_num blocksize count last_off es)
        (extents-Reading (e.fileoffset + e.bytecount) es o.2 w.1) x read_count vol h k c
