-- ===== src/KeyFormat/Tests.antt =====
-- A list of two keys: tests of the module, and the theorems at it.
use ltfs.Prelude.{◌≡◌, refl, true, none, some, [], ◌∷◌, ◌++◌, arith, replicate}
use ltfs.KeyFormat.Syntax.{is_print}
use ltfs.KeyFormat.State.{
  initialized, Key, Keys, find_key, same_bytes, accepts_list, key_format_ltfs_get_key,
}
use ltfs.KeyFormat.Print.{print_key, print_more, IsKey}
use ltfs.KeyFormat.Find.{plenty, left, Reported, get_key-print, get_key-leaves_nothing}

abbrev first : Key
first = record { dk = replicate 32 7; dki = b'a' ∷ b'b' ∷ b'c' ∷ replicate 9 1 }

abbrev second : Key
second = record { dk = replicate 32 200; dki = b'a' ∷ b'b' ∷ b'd' ∷ replicate 9 255 }

abbrev fresh : Keys
fresh = record { state = initialized; dk_list = [] }

first-IsKey : IsKey first
unfolding is_print
first-IsKey = record {
  size = refl;
  bytes = omega arith;
  dki = (refl, refl, refl, refl, omega arith);
}

second-IsKey : IsKey second
unfolding is_print
second-IsKey = record {
  size = refl;
  bytes = omega arith;
  dki = (refl, refl, refl, refl, omega arith);
}

find_second : find_key second.dki (first ∷ second ∷ []) ≡ some second.dk
unfolding find_key same_bytes
find_second = refl

get_key-print_example : Reported second.dki (first ∷ second ∷ []) (
    key_format_ltfs_get_key plenty 0 fresh
      (some second.dki)
      (some (print_key first ++ print_more (second ∷ [])))
      none)
unfolding accepts_list
get_key-print_example =
    get_key-print 0 fresh second.dki none first (second ∷ []) refl refl
      (first-IsKey, (second-IsKey, tt))

get_key-leaves_nothing_example :
    let after = left (key_format_ltfs_get_key plenty 0 fresh none none none) in
    (after.dk_list ≡ []) × (accepts_list after.state ≡ true)
unfolding accepts_list
get_key-leaves_nothing_example = get_key-leaves_nothing plenty fresh none none 0 none refl refl
