-- ===== src/Gembc/Remember/Tests.antt =====
-- A write to an object of generation 1.
use ggggc.Base.{ℕ, ◌+◌, ◌<◌, ◌≡◌, refl, ◌⊎◌, ◌||◌, arith, ◌==◌, if◌then◌else◌}
use ggggc.Gembc.Remember.{Store, write_pointer}
use ggggc.Gembc.Remember.Kept.{Disjoint, Remembered, write_pointer-Remembered}

-- Two pools, of generation 1 at 16777216 and of generation 0 at 33554432, with one object each.
abbrev store : Store
store = record {
  memory = λ x. 0;
  pools = λ p. record {
    start = p + 4096;
    free = p + 4128;
    end = p + 16777216;
    gen = if p == 16777216 then 1 else 0;
    remember = λ c. 0;
    first_object = λ c. 0;
  };
}

abbrev sizes : ℕ → ℕ
sizes a = if (a == 16781312) || (a == 33558528) then 4 else 0

size_cases : (a i : ℕ) → i < sizes a → ((a ≡ 16781312) ⊎ (a ≡ 33558528)) × (i < 4)
size_cases a i lt = ground arith

apart : Disjoint sizes
apart a b i j ne lt lt' e =
    let (at, in_a) = size_cases a i lt in
    let (at', in_b) = size_cases b j lt' in ground (arith, at, at', ne, e)

write_pointer-Remembered_example : Remembered sizes (write_pointer 16781312 2 33558528 store)
write_pointer-Remembered_example =
    write_pointer-Remembered 16781312 2 33558528 store sizes apart (omega arith)
      (λ a i lt real younger. absurd (real refl))
