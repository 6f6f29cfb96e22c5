-- ===== src/Collections/Maps.antt =====
-- collections/map.c: a hash table whose array of entries holds, at each index, a chain of entries. The entries
-- of a map are in no other chain, so that a chain is a list here and an array a function of the index.
mod Find
mod Rehash
mod Counted
mod Put
mod Grow
pub mod Correct
pub mod Clone
mod Tests
use ggggc.Base.{
  ℕ, zero, suc, ◌+◌, ◌*◌, ◌/◌, ◌%◌, Bool, true, false, not, ◌&&◌, Option, none, some, List, [], ◌∷◌,
  map, ltb, ◌==◌, if◌then◌else◌,
}
use ggggc.Base.{ℤ, pos}
use ggggc.Heap.{null}

-- GGC_MapEntry
pub record MapEntry : Type 0 where
  pub key : ℕ
  pub value : ℕ

abbrev pub Chain : Type 0
Chain = List MapEntry

-- GGC_MapEntryArray
abbrev pub Entries : Type 0
Entries = ℕ → Chain

-- GGC_NEW_PA: all NULL
abbrev pub new_entries : Entries
new_entries i = []

-- GGC_WAP
abbrev pub set_chain : Entries → ℕ → Chain → Entries
set_chain a i c j = if j == i then c else a j

-- GGC_Map
pub record Map : Type 0 where
  pub size : ℕ
  pub used : ℕ
  pub entries : Entries

abbrev pub is_zero : ℤ → Bool
is_zero (pos zero) = true
is_zero _ = false

module _ (hash : ℕ → ℕ) (cmp : ℕ → ℕ → ℤ) where
  -- `keyCmp && cmp(key, keyCmp) == 0`
  abbrev pub same : ℕ → MapEntry → Bool
  same key entry = not (entry.key == null) && is_zero (cmp key entry.key)

  -- the `while (entry)` loop of GGC_MapGet
  abbrev pub search : Chain → ℕ → Option ℕ
  search [] key = none
  search (entry ∷ next) key =
      let later = search next key in if same key entry then some entry.value else later

  -- GGC_MapGet, with `*value` when it returns 1
  pub map_get : Map → ℕ → Option ℕ
  map_get map key = if map.size == 0 then none else search (map.entries (hash key % map.size)) key

  -- the inner loop when the hash is getting full: each entry goes to the front of its new chain
  abbrev pub rehash_chain : (new_size : ℕ) → Chain → Entries → Entries
  rehash_chain new_size [] new_entries = new_entries
  rehash_chain new_size (entry ∷ next) new_entries =
      let hash_v = hash entry.key % new_size in
      rehash_chain new_size next (set_chain new_entries hash_v (entry ∷ new_entries hash_v))

  -- the outer loop, for the `n` chains from `i` on
  pub rehash : (new_size n i : ℕ) → Entries → Entries → Entries
  rehash new_size zero i old new_entries = new_entries
  rehash new_size (suc n) i old new_entries =
      rehash new_size n (i + 1) old (rehash_chain new_size (old i) new_entries)

  -- `start with something`
  abbrev pub start : Map → Map
  start map = if map.size == 0 then record map { size = 4; entries = new_entries } else map

  -- `Expand it`
  pub grow : Map → Map
  unfolding rehash
  grow map =
      let new_size = map.size * 2 in
      record map { size = new_size; entries = rehash new_size map.size 0 map.entries new_entries }

  abbrev pub make_room : Map → Map
  make_room map = if ltb (map.size / 2) map.used then grow map else map

  -- `look over current entries`: the chain with the value updated, if the key is there
  abbrev pub update : Chain → (key value : ℕ) → Option Chain
  update [] key value = none
  update (entry ∷ next) key value =
      let later = update next key value in
      if is_zero (cmp key entry.key)
      then some (record entry { value = value } ∷ next)
      else elim later [ none ↦ none | some chain ↦ some (entry ∷ chain) ]

  -- the update, or a new entry in front of its chain
  abbrev pub put_entry : Map → (key value : ℕ) → Map
  put_entry map key value =
      let hash_v = hash key % map.size in
      elim (update (map.entries hash_v) key value) [
        | some chain ↦ record map { entries = set_chain map.entries hash_v chain }
        | none ↦
            let entry : MapEntry = record { key = key; value = value } in
            record map {
              entries = set_chain map.entries hash_v (entry ∷ map.entries hash_v);
              used = map.used + 1;
            }
      ]

  -- GGC_MapPut
  pub map_put : Map → (key value : ℕ) → Map
  unfolding grow
  map_put map key value = put_entry (make_room (start map)) key value

-- the `while (oldEntry)` loop of GGC_MapClone: a new entry for each
abbrev pub clone_chain : Chain → Chain
clone_chain [] = []
clone_chain (old_entry ∷ next) =
    record { key = old_entry.key; value = old_entry.value } ∷ clone_chain next

-- `if (oldEntry)`: the chain at `i`
abbrev pub copy_chain : Chain → ℕ → Entries → Entries
copy_chain [] i new = new
copy_chain (old_entry ∷ next) i new = set_chain new i (clone_chain (old_entry ∷ next))

-- `copy all the entries`, for the `n` chains from `i` on
pub clone_entries : (n i : ℕ) → Entries → Entries → Entries
clone_entries zero i old new = new
clone_entries (suc n) i old new = clone_entries n (i + 1) old (copy_chain (old i) i new)

-- GGC_MapClone, whose new map starts empty
pub map_clone : Map → Map
unfolding clone_entries
map_clone map =
    if map.size == 0 then record { size = 0; used = 0; entries = new_entries } else record {
      size = map.size;
      used = map.used;
      entries = clone_entries map.size 0 map.entries new_entries;
    }
