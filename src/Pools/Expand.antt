-- ===== src/Pools/Expand.antt =====
-- The growth of a list of pools after a collection (ggggc_expandPoolList of allocator.c).
pub mod Grown
pub mod Correct
mod Tests
use ggggc.Base.{
  ℕ, zero, suc, ◌+◌, ◌-◌, ◌*◌, ◌%◌, ◌^◌, Bool, Option, none, some, List, [], ◌∷◌, ltb, ◌==◌,
  if◌then◌else◌,
}
use ggggc.Base.{bind, Gives-bind}
use native.Mathlib.Nat.{one-le-pow, mul-le-mul_left}
use mathlib.Core.Path.{subst}
use ggggc.Heap.{null}
use ggggc.Pools.{set}
use ggggc.Pools.Queue.{
  Leads, last, Leads-set, has-last, Leads-link, last-append, has-append, Distinct-append, set_self,
}

-- `next`, `survivors` and the words `end - start` of the pool at each address
pub record PoolLists : Type 0 where
  pub next : ℕ → ℕ
  pub survivors : ℕ → ℕ
  pub words : ℕ → ℕ

-- `space`, `survivors` and `poolCt`
pub record Usage : Type 0 where
  pub space : ℕ
  pub survivors : ℕ
  pub pool_ct : ℕ

abbrev pub add_pool : (pool : ℕ) → PoolLists → Usage → Usage
add_pool pool s u = record {
  space = (u.space + s.words pool) % 2 ^ 64;
  survivors = (u.survivors + s.survivors pool) % 2 ^ 64;
  pool_ct = (u.pool_ct + 1) % 2 ^ 64;
}

-- `first figure out how much space was used`: the last pool, what is used, and the lists after it; `none` if the fuel
-- ran out
pub usage : (fuel pool : ℕ) → Usage → PoolLists → Option (ℕ × Usage × PoolLists)
usage zero pool u s = none
usage (suc fuel) pool u s =
    let u' = add_pool pool s u in
    let s' = record s { survivors = set s.survivors pool 0 } in
    let rest = usage fuel (s.next pool) u' s' in
    if s.next pool == null then some (pool, u', s') else rest

-- `allocate more`, where `given` is what the calls of newPool return, NULL when it is over. A new pool has no next.
pub add_pools : (n pool : ℕ) (given : List ℕ) → (ℕ → ℕ) → ℕ → ℕ
add_pools zero pool given next = next
add_pools (suc n) pool [] next = set next pool null
add_pools (suc n) pool (p ∷ given) next = add_pools n p given (set (set next p null) pool p)

-- `now decide if it's too much`
abbrev pub too_much : (ratio : ℕ) → Usage → Bool
too_much ratio u = ltb u.space ((u.survivors * 2 ^ ratio) % 2 ^ 64)

-- ggggc_expandPoolList
pub expand_pool_list : (fuel pool_list ratio : ℕ) (given : List ℕ) → PoolLists → Option PoolLists
unfolding usage
expand_pool_list fuel pool_list ratio given s =
    let grown =
      bind (usage fuel pool_list (record { space = 0; survivors = 0; pool_ct = 0 }) s) (λ r. some (
        if too_much ratio r.1
        then record r.2 { next = add_pools r.1.pool_ct r.0 given r.2.next }
        else r.2)) in
    if pool_list == null then some s else grown

pub take : ℕ → List ℕ → List ℕ
take zero xs = []
take (suc n) [] = []
take (suc n) (x ∷ xs) = x ∷ take n xs

pub sum : (ℕ → ℕ) → List ℕ → ℕ
sum f [] = 0
sum f (x ∷ xs) = f x + sum f xs
