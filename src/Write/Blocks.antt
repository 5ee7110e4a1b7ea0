-- ===== src/Write/Blocks.antt =====
-- The loop over the blocks of the buffer: every byte goes behind what is on the tape.
use native.Mathlib.Nat.{div-eq_of_lt, mod-eq_of_lt, add-mul-div_right, add-mul-mod_self_right}
use native.Mathlib.Decide.{dec_lt}
use ltfs.Prelude.{
  ℕ, zero, suc, ◌+◌, ◌-◌, ◌*◌, ◌/◌, ◌%◌, ◌≤◌, ◌<◌, ◌≡◌, refl, ◌∙◌, ap, sym, inl, inr, Bool, Option,
  none, some, List, [], ◌∷◌, length, get_or, take, drop, arith, min, lt→ltb, le→ltb_not,
}
use ltfs.Label.{Label}
use ltfs.Raw.Device.{Status, good, bad, Status-cases}
use ltfs.Write.Append.{Medium, Keeps}
use ltfs.Write.{to_write, write_blocks}

get_or-take-drop :
    (xs : List ℕ) (w n i j : ℕ)
    → j ≡ w + i
    → i < n
    → get_or (take n (drop w xs)) i 0 ≡ get_or xs j 0
get_or-take-drop [] zero zero i j e h = absurd (omega arith)
get_or-take-drop [] zero (suc n) i j e h = refl
get_or-take-drop [] (suc w) zero i j e h = absurd (omega arith)
get_or-take-drop [] (suc w) (suc n) i j e h = refl
get_or-take-drop (x ∷ xs) (suc w) n i zero e h = absurd (omega arith)
get_or-take-drop (x ∷ xs) (suc w) n i (suc j) e h = get_or-take-drop xs w n i j (omega arith) h
get_or-take-drop (x ∷ xs) zero zero i j e h = absurd (omega arith)
get_or-take-drop (x ∷ xs) zero (suc n) zero zero e h = refl
get_or-take-drop (x ∷ xs) zero (suc n) zero (suc j) e h = absurd (omega arith)
get_or-take-drop (x ∷ xs) zero (suc n) (suc i) zero e h = absurd (omega arith)
get_or-take-drop (x ∷ xs) zero (suc n) (suc i) (suc j) e h =
    get_or-take-drop xs zero n i j (omega arith) (omega arith)

module _ (medium : Medium) (label : Label) (positive : 0 < label.blocksize) where
  open medium use {tape, append, write, lock, read_only, write_index, seek_append, write_lem}

  -- what may have failed with a code
  pub data Fault (code : ℕ) : Type 0 where
    lock_failed : (s : tape.State) → (lock s).0 ≡ bad code → Fault code
    not_writable : (p : ℕ) (s : tape.State) → read_only p s ≡ bad code → Fault code
    index_failed :
        (id : ℕ) (s : tape.State) (flags : Bool × Bool)
        → (write_index id s flags).0 ≡ bad code
        → Fault code
    seek_failed :
        (p : ℕ) (u : Bool) (s : tape.State) → (seek_append p u s).0 ≡ bad code → Fault code
    position_failed : (s : tape.State) → (tape.get_position s).0 ≡ bad code → Fault code
    write_failed : (bytes : List ℕ) (s : tape.State) → (write bytes s).0 ≡ bad code → Fault code

  pub Keeps_refl : (s : tape.State) → Keeps tape append s s
  Keeps_refl s = record { end = λ p. omega arith; same = λ p b h. refl }

  pub Keeps_trans :
      (s t u : tape.State) → Keeps tape append s t → Keeps tape append t u → Keeps tape append s u
  Keeps_trans s t u k l = record {
    end = λ p. omega (arith, k.end p, l.end p);
    same = λ p b h. l.same p b (omega (arith, k.end p)) ∙ k.same p b h;
  }

  module _ (buf : List ℕ) (num : ℕ) where
    abbrev count : ℕ
    count = length buf

    -- The bytes of the buffer from `w` on stand behind what `s` has in the partition.
    pub record Holds (w : ℕ) (s s' : tape.State) : Type 0 where
      pub keeps : Keeps tape append s s'
      pub at_end : tape.position s' ≡ (num, append s' num)
      pub room : append s num * label.blocksize + (count - w) ≤ append s' num * label.blocksize
      pub bytes :
          (i : ℕ)
          → w ≤ i
          → i < count
          → get_or
              (tape.block s' (num, append s num + (i - w) / label.blocksize))
              ((i - w) % label.blocksize)
              0
            ≡ get_or buf i 0

    -- the loop ends, and if it fails, a write has failed with the code
    abbrev pub Ends : (tape.State → Type 0) → Option (Status × tape.State) → Type 0
    Ends P none = ⊥
    Ends P (some (good, s)) = P s
    Ends P (some (bad code, s)) = Fault code

    pub Ends-bad :
        (P : tape.State → Type 0) (r : Status × tape.State) (code : ℕ)
        → r.0 ≡ bad code
        → Fault code
        → Ends P (some r)
    Ends-bad P (good, s) code e f = absurd (cc e)
    Ends-bad P (bad c, s) code e f = let same : code ≡ c = ground arith in rw (← same) f

    pub Ends-map :
        (P Q : tape.State → Type 0) (r : Option (Status × tape.State))
        → ((s : tape.State) → P s → Q s)
        → Ends P r
        → Ends Q r
    Ends-map P Q none f e = e
    Ends-map P Q (some (good, s)) f e = f s e
    Ends-map P Q (some (bad code, s)) f e = e

    module _ (w : ℕ) (s : tape.State) (p : tape.position s ≡ (num, append s num))
        (h : w < count) where
      abbrev n : ℕ
      n = to_write medium label buf count w

      n_lem : n ≡ min label.blocksize (count - w)
      unfolding to_write
      n_lem = ground arith

      abbrev written : Status × tape.State
      written = write (take n (drop w buf)) s

      module _ (g : written.0 ≡ good) where
        abbrev law :
            Keeps tape append s written.1
            × (tape.block written.1 (num, append s num) ≡ take n (drop w buf))
            × (append written.1 num ≡ append s num + 1)
            × (tape.position written.1 ≡ (num, append s num + 1))
        law = write_lem (take n (drop w buf)) num s p g

        at_end_next : tape.position written.1 ≡ (num, append written.1 num)
        at_end_next = law.3 ∙ ap (λ b. (num, b)) (sym law.2)

        module _ (s' : tape.State) (later : Holds (w + n) written.1 s') where
          first_bytes :
              (i : ℕ)
              → w ≤ i
              → i < w + n
              → get_or
                  (tape.block s' (num, append s num + (i - w) / label.blocksize))
                  ((i - w) % label.blocksize)
                  0
                ≡ get_or buf i 0
          first_bytes i k l =
              let inside : i - w < label.blocksize = omega (arith, n_lem) in
              let there : append s num + (i - w) / label.blocksize ≡ append s num =
                omega (arith, div-eq_of_lt inside) in
              rw
                (
                  there,
                  mod-eq_of_lt inside,
                  later.keeps.same num (append s num) (omega (arith, law.2)),
                  law.1,
                )
                (get_or-take-drop buf w n (i - w) i (omega arith) (omega arith))

          later_bytes :
              (i : ℕ)
              → w + n ≤ i
              → i < count
              → get_or
                  (tape.block s' (num, append s num + (i - w) / label.blocksize))
                  ((i - w) % label.blocksize)
                  0
                ≡ get_or buf i 0
          later_bytes i k l =
              let full : n ≡ label.blocksize = omega (arith, n_lem) in
              let split : i - w ≡ i - (w + n) + 1 * label.blocksize = omega (arith, full) in
              let block : append s num + (i - (w + n) + 1 * label.blocksize) / label.blocksize
                  ≡ append written.1 num + (i - (w + n)) / label.blocksize =
                omega (arith, add-mul-div_right (i - (w + n)) 1 positive, law.2) in
              rw (split, block, add-mul-mod_self_right (i - (w + n)) 1 label.blocksize)
                (later.bytes i k l)

          step-Holds : Holds w s s'
          step-Holds = record {
            keeps = Keeps_trans s written.1 s' law.0 later.keeps;
            at_end = later.at_end;
            room = omega (arith, later.room, n_lem, ap (λ (t : ℕ). t * label.blocksize) law.2);
            bytes = λ i k l. elim (dec_lt i (w + n)) [
              | yes m ↦ first_bytes i k m
              | no m ↦ later_bytes i (omega arith) l
            ];
          }

    pub write_blocks-Holds :
        (fuel w : ℕ) (s : tape.State)
        → tape.position s ≡ (num, append s num)
        → w ≤ count
        → count < w + fuel
        → Ends (Holds w s) (write_blocks medium label buf count fuel w s)
    unfolding write_blocks
    write_blocks-Holds zero w s p h f = absurd (omega arith)
    write_blocks-Holds (suc fuel) w s p h f = elim (dec_lt w count) [
      | no k ↦
          rw (le→ltb_not count w (omega arith), write_blocks)
            (record {
              keeps = Keeps_refl s;
              at_end = p;
              room = omega arith;
              bytes = λ i l m. absurd (omega arith);
            })
      | yes k ↦ elim (Status-cases (written w s p k).0) [
        | inr (code, e) ↦
            rw (lt→ltb w count k, e, write_blocks)
              (Ends-bad (Holds w s) (written w s p k) code e (write_failed _ s e))
        | inl g ↦
            rw (lt→ltb w count k, g, write_blocks)
              (Ends-map _ _ _ (step-Holds w s p k g) (
                write_blocks-Holds fuel (w + n w s p k) (written w s p k).1 (at_end_next w s p k g)
                  (omega (arith, n_lem w s p k)) (omega (arith, n_lem w s p k, positive))))
      ]
    ]
