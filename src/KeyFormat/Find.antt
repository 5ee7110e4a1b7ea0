-- ===== src/KeyFormat/Find.antt =====
-- `key_format_ltfs_get_key` as a whole: the key that it finds, and what it leaves behind.
use ltfs.Prelude.{
  ℕ, ◌≡◌, ◌≢◌, sym, subst, inl, inr, refl, true, Option, none, some, List, [], ◌∷◌, ◌++◌, length,
  arith, Bool-cases, Option-cases, zero, suc, ap,
}
use ltfs.KeyFormat.Syntax.{get_num_of_keys, dki_length}
use ltfs.KeyFormat.State.{
  set, cleared, Key, Keys, key_not_found, Memory, Outcome, ok, error, find_key, same_bytes, Reply,
  accepts_list, store_pairs, read_list, set_dk_list, get_key, search_key, clear, clear_state,
  cleared_after, search_after, key_format_ltfs_get_key,
}
use ltfs.KeyFormat.Print.{print_key, print_more}
use ltfs.KeyFormat.Parse.{AllKeys, get_num_of_keys-print, convert_pairs-print}

abbrev pub plenty : Memory
plenty = record { for_list = true; for_decode = true; for_alias = true; for_key = true }

-- the state that a call leaves
abbrev pub left : {A : Type 0} → Outcome A → Keys
left (ok _ k) = k
left (error _ k) = k

abbrev pub emptied : Keys
emptied = record { state = cleared; dk_list = [] }

-- What reading the list leaves: the module's state is set; or it has not changed, and neither has
-- a list that was empty.
abbrev Read : Keys → Outcome (Unit {0}) → Type 0
Read s (ok _ k) = k.state ≡ set
Read s (error _ k) = (k.state ≡ s.state) × (s.dk_list ≡ [] → k.dk_list ≡ [])

store_pairs-Read :
    (m : Memory) (before : ℕ) (s : Keys) (text : List ℕ) (n : ℕ)
    → Read s (store_pairs m before s text n)
unfolding store_pairs
store_pairs-Read m before s text zero = refl
store_pairs-Read m before s text (suc n) = elim (Bool-cases m.for_list) [
  | inl e ↦ rw (e, store_pairs) refl
  | inr e ↦ rw (e, store_pairs) (refl, λ _. refl)
]

read_list-Read :
    (m : Memory) (before : ℕ) (s : Keys) (text : Option (List ℕ))
    → Read s (read_list m before s text)
unfolding read_list
read_list-Read m before s none = refl
read_list-Read m before s (some text) = elim (Option-cases (get_num_of_keys text)) [
  | inl e ↦ rw (e, read_list) (refl, λ h. h)
  | inr (n, e) ↦ rw (e, read_list) (store_pairs-Read m before s text n)
]

set_dk_list-Read :
    (m : Memory) (before : ℕ) (s : Keys) (text : Option (List ℕ))
    → Read s (set_dk_list m before s text)
unfolding set_dk_list
set_dk_list-Read m before s text = elim (Bool-cases (accepts_list s.state)) [
  | inl e ↦ rw (e, set_dk_list) (read_list-Read m before s text)
  | inr e ↦ rw (e, set_dk_list) (refl, λ h. h)
]

left-get_key :
    (m : Memory) (k : Keys) (alias dki : Option (List ℕ)) → left (get_key m k alias dki) ≡ k
unfolding get_key search_key
left-get_key m k (some a) dki = ground arith
left-get_key m k none none = refl
left-get_key m k none (some d) = ground arith

left-cleared_after : {A : Type 0} (o : Outcome A) → left (cleared_after o) ≡ clear (left o)
unfolding cleared_after
left-cleared_after (ok a k) = refl
left-cleared_after (error e k) = refl

set_dk_list-print :
    (before : ℕ) (s : Keys) (k : Key) (ks : List Key)
    → accepts_list s.state ≡ true
    → AllKeys (k ∷ ks)
    → set_dk_list plenty before s (some (print_key k ++ print_more ks))
      ≡ ok tt (record { state = set; dk_list = k ∷ ks })
unfolding set_dk_list read_list
set_dk_list-print before s k ks a h =
    rw (a, set_dk_list, get_num_of_keys-print k ks h, read_list) stored
  where
    stored :
        store_pairs plenty before s (print_key k ++ print_more ks) (length (k ∷ ks))
        ≡ ok tt (record { state = set; dk_list = k ∷ ks })
    stored =
        unfold store_pairs in
        ap (λ l. ok tt (record { state = set; dk_list = l })) (convert_pairs-print k ks before h)

-- no key of a list has the identifier
abbrev pub NoneHas : List ℕ → List Key → Type 0
NoneHas keyalias [] = Unit
NoneHas keyalias (k ∷ ks) = (k.dki ≢ keyalias) × NoneHas keyalias ks

-- what is right for a list: the data key of the first with the identifier, or none if no key has it
pub data Answer (keyalias : List ℕ) (keys : List Key) : Option (List ℕ) → Type 0 where
  first :
      (front back : List Key) (k : Key)
      → keys ≡ front ++ (k ∷ back)
      → k.dki ≡ keyalias
      → NoneHas keyalias front
      → Answer keyalias keys (some k.dk)
  nowhere : NoneHas keyalias keys → Answer keyalias keys none

-- how a call with an identifier may end
pub data Reported (keyalias : List ℕ) (keys : List Key) (r : Outcome Reply) : Type 0 where
  key_found :
      (dk : List ℕ)
      → Answer keyalias keys (some dk)
      → r ≡ ok (record { keyalias = some keyalias; key = some dk }) emptied
      → Reported keyalias keys r
  no_key : Answer keyalias keys none → r ≡ error key_not_found emptied → Reported keyalias keys r

same_bytes-eq : (a b : List ℕ) → same_bytes a b ≡ true → a ≡ b
unfolding same_bytes
same_bytes-eq [] [] h = refl
same_bytes-eq [] (y ∷ b) h = absurd (ground (arith, h))
same_bytes-eq (x ∷ a) [] h = absurd (ground (arith, h))
same_bytes-eq (x ∷ a) (y ∷ b) h =
    let e : x ≡ y = ground (arith, h) in rw (e, same_bytes-eq a b (ground (arith, h))) refl

same_bytes_refl : (a : List ℕ) → same_bytes a a ≡ true
unfolding same_bytes
same_bytes_refl [] = refl
same_bytes_refl (x ∷ a) = let rest = same_bytes_refl a in ground (arith, rest)

-- an answer for the rest of a list whose first key has another identifier
later :
    (keyalias : List ℕ) (k : Key) (ks : List Key) (o : Option (List ℕ))
    → k.dki ≢ keyalias
    → Answer keyalias ks o
    → Answer keyalias (k ∷ ks) o
later keyalias k ks o n (first front back found e f g) =
    first (k ∷ front) back found (ap (◌∷◌ k) e) f (n, g)
later keyalias k ks o n (nowhere g) = nowhere (n, g)

find_key-Answer : (keyalias : List ℕ) (ks : List Key) → Answer keyalias ks (find_key keyalias ks)
unfolding find_key
find_key-Answer keyalias [] = nowhere tt
find_key-Answer keyalias (k ∷ ks) = elim (Bool-cases (same_bytes keyalias k.dki)) [
  | inl t ↦ rw t (first [] ks k refl (sym (same_bytes-eq keyalias k.dki t)) tt)
  | inr f ↦
      let other : k.dki ≢ keyalias = λ e.
        let same = subst (λ x. same_bytes keyalias x ≡ true) (sym e) (same_bytes_refl keyalias) in
        absurd (ground (arith, f, same)) in
      rw f (later keyalias k ks (find_key keyalias ks) other (find_key-Answer keyalias ks))
]

-- In a state that accepts a list, with every allocation successful: given an identifier of 12 bytes and
-- the text of a list of keys, at least one and all well-formed, a call returns the identifier and the
-- data key of the first key in the list that has it, or reports that no key of the list has it; and it
-- leaves no key behind.
pub get_key-print :
    (before : ℕ) (s : Keys) (alias : List ℕ) (dki : Option (List ℕ)) (k : Key) (ks : List Key)
    → length alias ≡ dki_length
    → accepts_list s.state ≡ true
    → AllKeys (k ∷ ks)
    → Reported alias (k ∷ ks) (
        key_format_ltfs_get_key plenty before s
          (some alias)
          (some (print_key k ++ print_more ks))
          dki)
unfolding key_format_ltfs_get_key search_after get_key search_key
get_key-print before s alias dki k ks size a h =
    rw (set_dk_list-print before s k ks a h, search_after)
      (elim (Option-cases (find_key alias (k ∷ ks))) [
        | inl e ↦
            rw (e, search_key)
              (no_key (rw e at (find_key-Answer alias (k ∷ ks)))
                (unfold cleared_after clear clear_state in refl))
        | inr (dk, e) ↦
            rw (e, search_key)
              (key_found dk (rw e at (find_key-Answer alias (k ∷ ks)))
                (unfold cleared_after clear clear_state in refl))
      ])

module _ (m : Memory) (s : Keys) (alias dki : Option (List ℕ)) where
  search-empty :
      (r : Outcome (Unit {0}))
      → Read s r
      → s.dk_list ≡ []
      → (left (search_after m alias dki r)).dk_list ≡ []
  unfolding search_after clear
  search-empty (ok _ k) h e = rw (left-cleared_after (get_key m k alias dki)) refl
  search-empty (error x k) h e = h.1 e

  search-accepts :
      (r : Outcome (Unit {0}))
      → Read s r
      → accepts_list s.state ≡ true
      → accepts_list (left (search_after m alias dki r)).state ≡ true
  unfolding search_after clear clear_state accepts_list
  search-accepts (ok _ k) h e =
      rw (left-cleared_after (get_key m k alias dki), left-get_key m k alias dki, h)
  search-accepts (error x k) h e = rw (h.0) e

  -- On a module that holds no key, in a state that accepts a list, no call leaves a key behind,
  -- whether it succeeds or fails and whatever its text, its arguments and the allocations; and the
  -- state accepts the next list.
  pub get_key-leaves_nothing :
      (before : ℕ) (text : Option (List ℕ))
      → s.dk_list ≡ []
      → accepts_list s.state ≡ true
      → let after = left (key_format_ltfs_get_key m before s alias text dki) in
        (after.dk_list ≡ []) × (accepts_list after.state ≡ true)
  unfolding key_format_ltfs_get_key
  get_key-leaves_nothing before text h a =
      let r = set_dk_list-Read m before s text in (search-empty _ r h, search-accepts _ r a)
