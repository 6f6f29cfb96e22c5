-- ===== src/BreakTable.antt =====
-- The break table of a compacted pool (collector/gembc.c): one entry for each chunk of objects
-- that moved, sorted by the chunk's old address.
pub mod Search
mod Tests
use ggggc.Base.{
  ℕ, zero, suc, ◌+◌, ◌-◌, ◌*◌, ◌/◌, Option, none, some, List, ltb, leb, ◌==◌, if◌then◌else◌, length,
  get_elem?,
}

-- `newL` is where the chunk at `orig` went.
pub record BreakTableEl : Type 0 where
  pub orig : ℕ
  pub new_l : ℕ

-- `found i` is `&breakTable[i]`, `absent` is NULL; the others are a read past the table and the end
-- of the fuel.
pub data Outcome : Type 0 where
  found : ℕ → Outcome
  absent out_of_bounds out_of_fuel : Outcome

-- `step /= 2; if (step == 0) step = 1;`
abbrev pub at_least_one : ℕ → ℕ
at_least_one step = if step == 0 then 1 else step

-- `cur += step; if (cur >= breakTableSize) cur = breakTableSize - 1;`
abbrev pub go_up : ℕ → ℕ → ℕ → ℕ
go_up size cur step = if leb size (cur + step) then size - 1 else cur + step

-- `if (step > cur) cur = 0; else cur -= step;`
abbrev pub go_down : ℕ → ℕ → ℕ
go_down cur step = if ltb cur step then 0 else cur - step

module _ (break_table : List BreakTableEl) (loc : ℕ) where
  -- the `while (1)` loop
  pub search_loop : ℕ → (cur step : ℕ) → Outcome
  search_loop zero cur step = out_of_fuel
  search_loop (suc fuel) cur step =
      let size = length break_table in
      let higher = search_loop fuel (go_up size cur step) (at_least_one (step / 2)) in
      let lower = search_loop fuel (go_down cur step) (at_least_one (step / 2)) in
      elim (get_elem? break_table cur) [
        | none ↦ out_of_bounds
        | some el ↦
            if leb el.orig loc
            then (if cur == size - 1 then found cur else elim (get_elem? break_table (cur + 1)) [
              | none ↦ out_of_bounds
              | some next ↦ if ltb loc next.orig then found cur else higher
            ])
            else (if cur == 0 then absent else lower)
      ]

  -- the whole function, with fuel for every table
  pub find_break_table_entry : Outcome
  unfolding search_loop
  find_break_table_entry =
      let size = length break_table in
      if size == 0
      then absent
      else search_loop (2 * size + 2) (size / 2) (at_least_one (size / 2 / 2))
