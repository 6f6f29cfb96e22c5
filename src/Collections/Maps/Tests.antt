-- ===== src/Collections/Maps/Tests.antt =====
-- A map of numbers to numbers, through a growth.
use ggggc.Base.{
  ℕ, ◌/◌, ◌≡◌, refl, sym, ap, ◌∙◌, inl, inr, none, some, map, arith, ◌==◌, if◌then◌else◌,
  Bool-cases,
}
use ggggc.Base.{ℤ, pos}
use ggggc.Collections.Maps.{Map, new_entries, is_zero, map_get, map_put}
use ggggc.Collections.Maps.{map_clone}
use ggggc.Collections.Maps.Clone.{map_get-map_clone}
use ggggc.Collections.Maps.Find.{IsMapKey}
use ggggc.Collections.Maps.Grow.{Filled}
use ggggc.Collections.Maps.Correct.{map_put-Filled, map_get-map_put}

abbrev hash : ℕ → ℕ
hash k = k / 8

abbrev cmp : ℕ → ℕ → ℤ
cmp a b = if a == b then pos 0 else pos 1

abbrev empty : Map
empty = record { size = 0; used = 0; entries = new_entries }

abbrev with_entry : ℕ → ℕ → Map → Map
with_entry key value map = map_put hash cmp map key value

-- The fourth entry finds three in four chains, and the table grows.
abbrev four : Map
four = with_entry 48 4 (with_entry 16 3 (with_entry 80 2 (with_entry 8 1 empty)))

grows :
    (four.size ≡ 8)
    × (four.used ≡ 4)
    × (map_get hash cmp four 80 ≡ some 2)
    × (map_get hash cmp four 24 ≡ none)
unfolding map_put map_get
grows = (refl, refl, refl, refl)

equal_iff : (a b : ℕ) → is_zero (cmp a b) ≡ (a == b)
equal_iff a b = elim (Bool-cases (a == b)) [ inl e ↦ rw e refl | inr e ↦ rw e refl ]

cmp-IsMapKey : IsMapKey hash cmp
cmp-IsMapKey = record {
  reflexive = λ a. equal_iff a a ∙ ground arith;
  symmetric = λ a b e. equal_iff b a ∙ ground (arith, sym (equal_iff a b) ∙ e);
  transitive =
      λ a b c e f. equal_iff a c ∙ ground (arith, sym (equal_iff a b) ∙ e, sym (equal_iff b c) ∙ f);
  hashed = λ a b e. ap hash (ground (arith, sym (equal_iff a b) ∙ e));
}

map_put-Filled_example : Filled hash cmp (map_put hash cmp empty 8 1)
map_put-Filled_example =
    map_put-Filled hash cmp empty 8 1 cmp-IsMapKey (inl (refl, refl)) (λ e. omega arith)

map_get-map_put_example : map_get hash cmp (map_put hash cmp empty 8 1) 8 ≡ some 1
map_get-map_put_example =
    map_get-map_put hash cmp empty 8 1 8 cmp-IsMapKey (inl (refl, refl)) (λ e. omega arith)

map_get-map_clone_example : map_get hash cmp (map_clone four) 80 ≡ map_get hash cmp four 80
map_get-map_clone_example = map_get-map_clone hash cmp four 80
