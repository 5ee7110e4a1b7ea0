-- ===== src/Label/Ansi.antt =====
-- The ANSI label, as it is written and as it is read back.
use ltfs.Prelude.{ℕ, ◌≡◌, refl, some, List, [], ◌∷◌, ◌++◌, length, take, replicate}
use ltfs.Label.{make_ansi_label, read_ansi_label}

-- Whatever the barcode, the label that is made for it has the 80 bytes that the reader wants, and
-- the reader finds in it the first six characters of the barcode, blanks making up a shorter one.
pub read_ansi_label-make :
    (barcode : List ℕ)
    → let label = make_ansi_label barcode 80 in
      (length label ≡ 80)
      × (read_ansi_label label (length label) ≡ some (take 6 (barcode ++ replicate 6 b' ')))
unfolding make_ansi_label read_ansi_label
read_ansi_label-make [] = (refl, refl)
read_ansi_label-make (a ∷ []) = (refl, refl)
read_ansi_label-make (a ∷ b ∷ []) = (refl, refl)
read_ansi_label-make (a ∷ b ∷ c ∷ []) = (refl, refl)
read_ansi_label-make (a ∷ b ∷ c ∷ d ∷ []) = (refl, refl)
read_ansi_label-make (a ∷ b ∷ c ∷ d ∷ e ∷ []) = (refl, refl)
read_ansi_label-make (a ∷ b ∷ c ∷ d ∷ e ∷ f ∷ rest) = (refl, refl)
