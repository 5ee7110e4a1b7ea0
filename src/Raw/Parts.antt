-- ===== src/Raw/Parts.antt =====
-- What the loop over the extents has read, and how its parts are put together.
use ltfs.Prelude.{ℕ, ◌+◌, ◌-◌, ◌^◌, ◌≤◌, ◌<◌, ◌≡◌, List, arith, max, ◌∙◌, ap, sym}
use ltfs.Raw.Device.{Tape}
use ltfs.Raw.{Volume, Result, Progress, ok, failed, out_of_fuel, prepend, after}
use ltfs.Raw.Window.{window, window-add, window_ext}
use ltfs.Raw.Block.{Holds, Sound, Sound-bind}
use ltfs.Raw.Rounds.{Done, Reads}

module _ (tape : Tape) (part_num : ℕ → ℕ) (blocksize : ℕ) (positive : 0 < blocksize)
    (small : blocksize ≤ 2 ^ 32) (image : ℕ × ℕ → List ℕ) (count last_off : ℕ)
    (far : last_off < 2 ^ 63) (short : count < 2 ^ 63) (size : ℕ) where
  -- the number of bytes read from the file offset `x` on
  abbrev pub amount : ℕ → ℕ → ℕ
  amount x read_count = read_count + (last_off - x) - count

  -- A part that starts at `x` has read the bytes that `f` gives. Unless it has read all that is
  -- wanted, `f` has nothing but zeros behind it.
  pub record Part (f : ℕ → ℕ) (x : ℕ) (p : Progress tape part_num blocksize)
      (vol : Volume tape part_num blocksize) : Type 0 where
    pub holds : Holds tape part_num blocksize image vol
    pub enough : p.read_count ≤ count
    pub started : count ≤ p.read_count + (last_off - x)
    pub bytes : p.bytes ≡ window f x (amount x p.read_count)
    pub inside : p.read_count + last_off ≤ count + max x size
    pub next : p.read_count < count → p.read_count + last_off ≡ count + p.next_off
    pub zeros : p.read_count < count → (y : ℕ) → p.next_off ≤ y → y < last_off → f y ≡ 0

  abbrev pub Parts :
      (ℕ → ℕ) → ℕ → Result tape part_num blocksize (Progress tape part_num blocksize) → Type 0
  Parts f x r = Sound tape part_num blocksize image (Part f x) r

  pub prepend-Parts :
      (f : ℕ → ℕ) (x y m : ℕ) (bs : List ℕ)
      (r : Result tape part_num blocksize (Progress tape part_num blocksize))
      → bs ≡ window f x m
      → y ≡ x + m
      → y ≤ last_off
      → y ≤ max x size
      → Parts f y r
      → Parts f x (prepend tape part_num blocksize bs r)
  unfolding prepend
  prepend-Parts f x y m bs (ok p vol) b h k l d = record {
    holds = d.holds;
    enough = d.enough;
    started = omega (arith, d.started);
    bytes =
        rw (b, d.bytes)
          (window-add f x m y (amount y p.read_count) (amount x p.read_count) h
            (omega (arith, d.started, d.enough)));
    inside = omega (arith, d.inside);
    next = d.next;
    zeros = d.zeros;
  }
  prepend-Parts f x y m bs (failed code vol) b h k l d = d
  prepend-Parts f x y m bs out_of_fuel b h k l d = d

  -- only the values from `x` up to the end of what is wanted matter
  pub Parts-ext :
      (f g : ℕ → ℕ) (x : ℕ) (r : Result tape part_num blocksize (Progress tape part_num blocksize))
      → x ≤ last_off
      → ((y : ℕ) → x ≤ y → y < last_off → g y ≡ f y)
      → Parts f x r
      → Parts g x r
  Parts-ext f g x (ok p vol) k same d = record {
    holds = d.holds;
    enough = d.enough;
    started = d.started;
    bytes =
        d.bytes
        ∙ sym (
            window_ext g f x (amount x p.read_count) (λ y l m. same y l (omega (arith, d.enough))));
    inside = d.inside;
    next = d.next;
    zeros = λ l y m n. same y (omega (arith, d.next l, d.started)) n ∙ d.zeros l y m n;
  }
  Parts-ext f g x (failed code vol) k same d = d
  Parts-ext f g x out_of_fuel k same d = d

  pub after-Parts :
      (f g : ℕ → ℕ) (stop x : ℕ)
      (r : Result tape part_num blocksize (Progress tape part_num blocksize))
      (rest : ℕ
        → ℕ
        → Volume tape part_num blocksize
        → Result tape part_num blocksize (Progress tape part_num blocksize))
      → x ≤ stop
      → stop ≤ last_off
      → stop ≤ max x size
      → ((y : ℕ) → x ≤ y → y < stop → f y ≡ g y)
      → Reads tape part_num blocksize positive small image count last_off far short f stop x r
      → ((read_count : ℕ) (vol : Volume tape part_num blocksize)
          → Holds tape part_num blocksize image vol
          → read_count + last_off ≡ count + stop
          → Parts g stop (rest stop read_count vol))
      → Parts g x (after tape part_num blocksize r rest)
  unfolding after
  after-Parts f g stop x r rest h k l same d later =
      Sound-bind tape part_num blocksize image
        (Done tape part_num blocksize positive small image count last_off far short f stop x)
        (Part g x) r _ d
        (λ p vol dn. rw dn.stopped (
          prepend-Parts g x stop (stop - x) p.bytes (rest stop p.read_count vol)
            (dn.bytes
              ∙ ap (window f x) (ap (λ n. n - x) dn.stopped)
              ∙ window_ext f g x (stop - x) (λ y m n. same y m (omega arith)))
            (omega arith) k l
            (later p.read_count vol dn.holds (omega (arith, dn.counted, dn.stopped)))))
