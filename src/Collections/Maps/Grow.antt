-- ===== src/Collections/Maps/Grow.antt =====
-- A map with room: the first entries, and the growth.
use ggggc.Base.{
  ℕ, zero, suc, ◌+◌, ◌*◌, ◌/◌, ◌%◌, ◌≤◌, ◌≡◌, refl, ◌∙◌, ◌⊎◌, inl, inr, true, false, Option, arith,
  ltb, ◌==◌, Bool-cases,
}
use ggggc.Base.{ℤ}
use ggggc.Collections.Maps.{Map, new_entries, search, map_get, start, grow, make_room}
use ggggc.Collections.Maps.Find.{IsMapKey, or_else-none}
use ggggc.Collections.Maps.Rehash.{InPlace, rehash-InPlace, rehash-search}
use ggggc.Collections.Maps.Counted.{total, rehash-total}

module _ (hash : ℕ → ℕ) (cmp : ℕ → ℕ → ℤ) where
  -- A map that has been written to: each entry is in the chain of its hash, no key is there twice, the entries are
  -- counted, and they are at most half the size and one more.
  pub record Filled (m : Map) : Type 0 where
    pub in_place : InPlace hash cmp m.size m.entries
    pub size : 4 ≤ m.size
    pub counted : total m.size m.entries ≡ m.used
    pub load : m.used ≤ m.size / 2 + 1

  -- A map: new, or filled.
  abbrev pub IsMap : Map → Type 0
  IsMap m = ((m.size ≡ 0) × (m.used ≡ 0)) ⊎ Filled m

  all_empty : (n : ℕ) → total n new_entries ≡ 0
  all_empty zero = refl
  all_empty (suc n) = omega (arith, all_empty n)

  pub start-Filled : (m : Map) → IsMap m → Filled (start hash cmp m)
  start-Filled m (inl (e, u)) =
      let new : (m.size == 0) ≡ true = ground (arith, e) in
      rw new (record {
        in_place = λ i lt. (tt, tt);
        size = omega arith;
        counted = omega (arith, u, all_empty 4);
        load = omega (arith, u);
      })
  start-Filled m (inr f) = let old : (m.size == 0) ≡ false = ground (arith, f.size) in rw old f

  module _ (laws : IsMapKey hash cmp) where
    grow-Filled : (m : Map) → Filled m → Filled (grow hash cmp m)
    unfolding grow
    grow-Filled m f =
        let filled =
          rehash-InPlace hash cmp laws (m.size * 2) m.size m.size 0 m.entries new_entries
            (omega arith) f.in_place (λ i. (tt, tt)) (λ k from. refl) in
        record {
          in_place = λ i lt. filled i;
          size = omega (arith, f.size);
          counted = omega (
            arith,
            rehash-total hash cmp (m.size * 2) m.size m.entries new_entries (omega (arith, f.size)),
            f.counted,
            all_empty (m.size * 2),
          );
          load = omega (arith, f.load, f.size);
        }

    grow-search :
        (m : Map) (k : ℕ)
        → Filled m
        → search hash cmp ((grow hash cmp m).entries (hash k % (grow hash cmp m).size)) k
          ≡ search hash cmp (m.entries (hash k % m.size)) k
    unfolding grow
    grow-search m k f =
        rehash-search hash cmp laws (m.size * 2) m.size m.size 0 m.entries new_entries k
          (omega arith) f.in_place (omega arith) (omega (arith, f.size))
        ∙ or_else-none (search hash cmp (m.entries (hash k % m.size)) k)

    pub make_room-Filled : (m : Map) → Filled m → Filled (make_room hash cmp m)
    make_room-Filled m f = elim (Bool-cases (ltb (m.size / 2) m.used)) [
      | inl full ↦ rw full (grow-Filled m f)
      | inr room ↦ rw room f
    ]

    pub make_room-load :
        (m : Map) → Filled m → (make_room hash cmp m).used ≤ (make_room hash cmp m).size / 2
    unfolding grow
    make_room-load m f = elim (Bool-cases (ltb (m.size / 2) m.used)) [
      | inl full ↦ rw full (omega (arith, f.load, f.size))
      | inr room ↦ rw room (ground (arith, room))
    ]

    -- what a lookup in a filled map searches
    abbrev pub looked_up : Map → ℕ → Option ℕ
    looked_up m k = search hash cmp (m.entries (hash k % m.size)) k

    pub make_room-search :
        (m : Map) (k : ℕ) → Filled m → looked_up (make_room hash cmp m) k ≡ looked_up m k
    make_room-search m k f = elim (Bool-cases (ltb (m.size / 2) m.used)) [
      | inl full ↦ rw full (grow-search m k f)
      | inr room ↦ rw room refl
    ]

    pub get-search : (m : Map) (k : ℕ) → Filled m → map_get hash cmp m k ≡ looked_up m k
    unfolding map_get
    get-search m k f = let old : (m.size == 0) ≡ false = ground (arith, f.size) in rw old refl

    pub start-search :
        (m : Map) (k : ℕ) → IsMap m → looked_up (start hash cmp m) k ≡ map_get hash cmp m k
    unfolding map_get
    start-search m k (inl (e, u)) =
        let new : (m.size == 0) ≡ true = ground (arith, e) in rw new refl
    start-search m k (inr f) =
        let old : (m.size == 0) ≡ false = ground (arith, f.size) in rw old refl
