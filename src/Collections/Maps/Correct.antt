-- ===== src/Collections/Maps/Correct.antt =====
-- GGC_MapPut and GGC_MapGet as insertion and lookup.
use ggggc.Base.{
  ℕ, ◌+◌, ◌/◌, ◌%◌, ◌≤◌, ◌≡◌, refl, sym, ap, ◌∙◌, ◌≢◌, inl, inr, Bool, true, false, Option, none,
  some, ◌∷◌, arith, ◌==◌, if◌then◌else◌, Bool-cases, Option-cases,
}
use ggggc.Base.{ℤ}
use ggggc.Collections.Maps.Grow.{
  Filled, IsMap, start-Filled, make_room-Filled, make_room-load, looked_up, make_room-search,
  get-search, start-search,
}
use mathlib.Core.Path.{subst}
use ggggc.Heap.{null}
use ggggc.Collections.Maps.{
  MapEntry, Chain, Entries, Map, set_chain, is_zero, search, map_get, start, make_room, update,
  put_entry, map_put,
}
use ggggc.Collections.Maps.Find.{IsMapKey, or_else, Placed, Unique, equal_of, equal_same, pushed}
use ggggc.Collections.Maps.Rehash.{InPlace}
use ggggc.Collections.Maps.Counted.{total-set}
use ggggc.Collections.Maps.Put.{Updated, Placed-Keyed, update-Updated}

module _ (hash : ℕ → ℕ) (cmp : ℕ → ℕ → ℤ) where
  or_if :
      (v : ℕ) (b : Bool) (o : Option ℕ)
      → or_else (if b then some v else none) o ≡ (if b then some v else o)
  or_if v true o = refl
  or_if v false o = refl

  module _ (laws : IsMapKey hash cmp) where
    set-InPlace :
        (size j : ℕ) (a : Entries) (c : Chain)
        → InPlace hash cmp size a
        → Placed hash cmp size j c
        → Unique hash cmp c
        → InPlace hash cmp size (set_chain a j c)
    set-InPlace size j a c h p u i lt = elim (Bool-cases (i == j)) [
      | inl here ↦ rw here (subst (λ x. Placed hash cmp size x c) (sym (equal_of i j here)) p, u)
      | inr there ↦ rw there (h i lt)
    ]

    -- What putting an entry into a map with room does.
    record IsPut (m m' : Map) (key value : ℕ) : Type 0 where
      filled : Filled hash cmp m'
      found :
          (k : ℕ)
          → looked_up hash cmp laws m' k
            ≡ (if is_zero (cmp k key) then some value else looked_up hash cmp laws m k)

    module _ (m : Map) (key value : ℕ) (f : Filled hash cmp m) (real : key ≢ null) where
      other_chain :
          (k : ℕ) → (hash k % m.size == hash key % m.size) ≡ false → is_zero (cmp k key) ≡ false
      other_chain k apart = elim (Bool-cases (is_zero (cmp k key))) [
        | inl eq ↦ absurd (ground (arith, apart, ap (λ h. h % m.size) (laws.hashed k key eq)))
        | inr ne ↦ ne
      ]

      IsPut-new :
          search hash cmp (m.entries (hash key % m.size)) key ≡ none
          → m.used ≤ m.size / 2
          → IsPut m
              (record m {
                entries =
                    set_chain m.entries
                      (hash key % m.size)
                      (record { key = key; value = value } ∷ m.entries (hash key % m.size));
                used = m.used + 1;
              })
              key
              value
      IsPut-new none_there room =
          let e : MapEntry = record { key = key; value = value } in
          let at = hash key % m.size in
          record {
            filled = record {
              in_place =
                  set-InPlace m.size at m.entries (e ∷ m.entries at) f.in_place
                    (refl, real, (f.in_place at (omega (arith, f.size))).0)
                    (none_there, (f.in_place at (omega (arith, f.size))).1);
              size = f.size;
              counted = omega (
                arith,
                f.counted,
                total-set m.size at 1 m.entries (e ∷ m.entries at) (omega (arith, f.size))
                    (omega arith),
              );
              load = omega (arith, room);
            };
            found = λ k.
                pushed hash cmp laws m.size m.entries e k
                ∙ rw (equal_same hash cmp laws k e real)
                    (or_if value (is_zero (cmp k key)) (looked_up hash cmp laws m k));
          }

      IsPut-update :
          (c : Chain)
          → Updated hash cmp (m.entries (hash key % m.size)) key value (some c)
          → IsPut m (record m { entries = set_chain m.entries (hash key % m.size) c }) key value
      IsPut-update c (found, len, place, uniq) =
          let at = hash key % m.size in
          record {
            filled = record {
              in_place =
                  set-InPlace m.size at m.entries c f.in_place
                    (place m.size at (f.in_place at (omega (arith, f.size))).0)
                    (uniq (f.in_place at (omega (arith, f.size))).1);
              size = f.size;
              counted = omega (
                arith,
                f.counted,
                total-set m.size at 0 m.entries c (omega (arith, f.size)) (omega (arith, len)),
              );
              load = f.load;
            };
            found = λ k. elim (Bool-cases (hash k % m.size == at)) [
              | inl here ↦ rw here (
                  found k
                  ∙ ap
                      (λ i.
                        if is_zero (cmp k key) then some value else search hash cmp (m.entries i) k)
                      (sym (equal_of (hash k % m.size) at here)))
              | inr there ↦ rw (there, other_chain k there) refl
            ];
          }

      put_entry-IsPut : m.used ≤ m.size / 2 → IsPut m (put_entry hash cmp m key value) key value
      put_entry-IsPut room =
          let at = hash key % m.size in
          let o = update hash cmp (m.entries at) key value in
          let done : Updated hash cmp (m.entries at) key value o =
            update-Updated hash cmp laws (m.entries at) key value (
              Placed-Keyed hash cmp m.size at (m.entries at)
                (f.in_place at (omega (arith, f.size))).0) in
          elim (Option-cases o) [
            | inl e ↦
                rw (e, put_entry)
                  (IsPut-new (subst (Updated hash cmp (m.entries at) key value) e done) room)
            | inr x ↦
                rw (x.1, put_entry)
                  (IsPut-update x.0 (subst (Updated hash cmp (m.entries at) key value) x.1 done))
          ]

    map_put-IsPut :
        (m : Map) (key value : ℕ)
        → IsMap hash cmp m
        → key ≢ null
        → IsPut (make_room hash cmp (start hash cmp m)) (map_put hash cmp m key value) key value
    unfolding map_put
    map_put-IsPut m key value is_map real =
        let f = start-Filled hash cmp m is_map in
        put_entry-IsPut (make_room hash cmp (start hash cmp m)) key value
          (make_room-Filled hash cmp laws (start hash cmp m) f) real
          (make_room-load hash cmp laws (start hash cmp m) f)

-- Let the comparison be an equivalence of keys, and equal keys have one hash. On a new map or one that GGC_MapPut
-- left, putting a value under a key that is not NULL gives a map where each entry is in the chain of
-- its hash, no key is there twice, `used` is the number of entries, and `used` is at most half the
-- size and one more.
pub map_put-Filled :
    (hash : ℕ → ℕ) (cmp : ℕ → ℕ → ℤ) (m : Map) (key value : ℕ)
    → IsMapKey hash cmp
    → IsMap hash cmp m
    → key ≢ null
    → Filled hash cmp (map_put hash cmp m key value)
map_put-Filled hash cmp m key value laws is_map real =
    (map_put-IsPut hash cmp laws m key value is_map real).filled

-- Let the comparison be an equivalence of keys, and equal keys have one hash. After GGC_MapPut of a value under a
-- key that is not NULL, on a new map or one that GGC_MapPut left, GGC_MapGet finds the value under
-- every key equal to that one, and under any other key what it found before, also when the map grew.
pub map_get-map_put :
    (hash : ℕ → ℕ) (cmp : ℕ → ℕ → ℤ) (m : Map) (key value k : ℕ)
    → IsMapKey hash cmp
    → IsMap hash cmp m
    → key ≢ null
    → map_get hash cmp (map_put hash cmp m key value) k
      ≡ (if is_zero (cmp k key) then some value else map_get hash cmp m k)
map_get-map_put hash cmp m key value k laws is_map real =
    let put = map_put-IsPut hash cmp laws m key value is_map real in
    let f = start-Filled hash cmp m is_map in
    get-search hash cmp laws (map_put hash cmp m key value) k put.filled
    ∙ put.found k
    ∙ ap (λ o. if is_zero (cmp k key) then some value else o)
        (make_room-search hash cmp laws (start hash cmp m) k f
          ∙ start-search hash cmp laws m k is_map)
