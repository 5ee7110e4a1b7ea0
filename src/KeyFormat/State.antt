-- ===== src/KeyFormat/State.antt =====
-- The states of the module, and the operations on the key list.
use ltfs.Prelude.{
  ℕ, zero, suc, ◌+◌, Bool, true, false, ◌&&◌, Option, none, some, List, [], ◌∷◌, drop, replicate,
  ◌==◌, if◌then◌else◌,
}
use ltfs.KeyFormat.Syntax.{
  dk_length, key_length, keyalias_length, get_num_of_keys, convert_key, convert_keyalias,
}

-- `enum kfl_state`
pub data KflState : Type 0 where
  uninitialized initialized set cleared destroyed : KflState

-- `struct key`
pub record Key : Type 0 where
  pub dk : List ℕ
  pub dki : List ℕ

-- The module's `state` and the `key_format_ltfs` behind a handle, whose `num_of_keys` is the
-- length of `dk_list`.
pub record Keys : Type 0 where
  pub state : KflState
  pub dk_list : List Key

-- the errors of the module
pub data Error : Type 0 where
  null_arg no_memory bad_arg invalid_sequence key_not_found : Error

-- which of the allocations of a call succeed
pub record Memory : Type 0 where
  pub for_list : Bool
  pub for_decode : Bool
  pub for_alias : Bool
  pub for_key : Bool

-- `key_format_ltfs_init`: the handle, unless the module was used before or memory is short
unfoldable pub init : Bool → Bool → KflState → KflState × Option Keys
init for_handle for_keys uninitialized =
    if for_handle && for_keys
    then (initialized, some (record { state = initialized; dk_list = [] }))
    else (uninitialized, none)
init for_handle for_keys state = (state, none)

-- `key_format_ltfs_destroy`
unfoldable pub destroy : Keys → KflState
destroy k = destroyed

-- The loop of `set_dk_list`. Before a text stands the byte that ends the text in front of it.
unfoldable pub convert_pairs : Bool → ℕ → ℕ → List ℕ → List Key
convert_pairs decodes zero before s = []
convert_pairs decodes (suc n) before s =
    record {
      dk = convert_key before decodes s (replicate dk_length 0);
      dki = convert_keyalias (drop (key_length + 1) s);
    }
    ∷ convert_pairs decodes n b'/' (drop (key_length + 1 + (keyalias_length + 1)) s)

-- the result of a call, with the state that it leaves
pub data Outcome (A : Type 0) : Type 0 where
  ok : A → Keys → Outcome A
  error : Error → Keys → Outcome A

unfoldable pub store_pairs : Memory → ℕ → Keys → List ℕ → ℕ → Outcome (Unit {0})
store_pairs m before k dk_list zero = ok tt (record k { state = set })
store_pairs m before k dk_list (suc n) =
    if m.for_list
    then ok tt (record { state = set; dk_list = convert_pairs m.for_decode (suc n) before dk_list })
    else error no_memory (record k { dk_list = [] })

unfoldable pub accepts_list : KflState → Bool
accepts_list initialized = true
accepts_list cleared = true
accepts_list _ = false

unfoldable pub read_list : Memory → ℕ → Keys → Option (List ℕ) → Outcome (Unit {0})
read_list m before k none = ok tt (record k { state = set })
read_list m before k (some text) = elim (get_num_of_keys text) [
  | none ↦ error bad_arg k
  | some n ↦ store_pairs m before k text n
]

-- `set_dk_list`, with none for the list that is NULL
unfoldable pub set_dk_list : Memory → ℕ → Keys → Option (List ℕ) → Outcome (Unit {0})
unfolding store_pairs read_list
set_dk_list m before k dk_list =
    if accepts_list k.state then read_list m before k dk_list else error invalid_sequence k

-- `memcmp` of two identifiers
unfoldable pub same_bytes : List ℕ → List ℕ → Bool
same_bytes [] [] = true
same_bytes (a ∷ as') (b ∷ bs) = a == b && same_bytes as' bs
same_bytes _ _ = false

-- the loop of `get_key`: the first key with the identifier
unfoldable pub find_key : List ℕ → List Key → Option (List ℕ)
find_key keyalias [] = none
find_key keyalias (k ∷ ks) =
    let rest = find_key keyalias ks in if same_bytes keyalias k.dki then some k.dk else rest

-- What `get_key` writes: the identifier, if it was asked to find it, and the key.
pub record Reply : Type 0 where
  pub keyalias : Option (List ℕ)
  pub key : Option (List ℕ)

unfoldable pub search_key : Memory → Keys → List ℕ → Outcome Reply
search_key m k keyalias = elim (find_key keyalias k.dk_list) [
  | none ↦ error key_not_found k
  | some dk ↦
      if m.for_key
      then ok (record { keyalias = some keyalias; key = some dk }) k
      else error no_memory k
]

-- `get_key`: the identifier comes from the caller or, if it has none, from `dki_for_format`;
-- without either no key is wanted
unfoldable pub get_key : Memory → Keys → Option (List ℕ) → Option (List ℕ) → Outcome Reply
unfolding search_key
get_key m k (some keyalias) dki_for_format = search_key m k keyalias
get_key m k none none = ok (record { keyalias = none; key = none }) k
get_key m k none (some dki) =
    if m.for_alias then search_key m k (convert_keyalias dki) else error no_memory k

-- `clear`
unfoldable pub clear_state : KflState → KflState
clear_state set = cleared
clear_state s = s

unfoldable pub clear : Keys → Keys
unfolding clear_state
clear k = record { state = clear_state k.state; dk_list = [] }

-- the list is cleared after the search, whatever it found
unfoldable pub cleared_after : {A : Type 0} → Outcome A → Outcome A
unfolding clear
cleared_after (error e k) = error e (clear k)
cleared_after (ok a k) = ok a (clear k)

unfoldable pub search_after :
    Memory → Option (List ℕ) → Option (List ℕ) → Outcome (Unit {0}) → Outcome Reply
unfolding get_key cleared_after
search_after m keyalias dki_for_format (error e k) = error e k
search_after m keyalias dki_for_format (ok _ k) =
    cleared_after (get_key m k keyalias dki_for_format)

-- `key_format_ltfs_get_key`
unfoldable pub key_format_ltfs_get_key :
    Memory → ℕ → Keys → Option (List ℕ) → Option (List ℕ) → Option (List ℕ) → Outcome Reply
unfolding set_dk_list search_after
key_format_ltfs_get_key m before k keyalias dk_list dki_for_format =
    search_after m keyalias dki_for_format (set_dk_list m before k dk_list)
