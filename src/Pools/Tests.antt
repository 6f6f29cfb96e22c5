-- ===== src/Pools/Tests.antt =====
-- Two free pools, 8 and 16; a thread gives back 24 and 32.
use ggggc.Base.{refl, [], ◌∷◌, arith, ◌==◌, if◌then◌else◌}
use ggggc.Base.{Gives}
use ggggc.Pools.{Pools, new_pool, free_generation}
use ggggc.Pools.Queue.{
  IsQueue, IsGeneration, Freed, Reused, free_generation-IsQueue, new_pool-Reused,
}

abbrev pools : Pools
pools = record {
  next = λ a. if a == 8 then 16 else if a == 24 then 32 else 0;
  free = λ a. a;
  end = λ a. a;
  head = 8;
  tail = 16;
}

two_free : IsQueue pools (8 ∷ 16 ∷ [])
two_free = record {
  leads = (refl, (λ e. omega arith), (refl, (λ e. omega arith), refl));
  distinct = (refl, (refl, tt));
  tail = refl;
}

theirs : IsGeneration pools 24 (8 ∷ 16 ∷ []) (24 ∷ 32 ∷ [])
theirs = record {
  leads = (refl, (λ e. omega arith), (refl, (λ e. omega arith), refl));
  distinct = (refl, (refl, tt));
  apart = λ a h. ground arith;
}

free_generation-IsQueue_example :
    Gives (Freed (8 ∷ 16 ∷ []) (24 ∷ 32 ∷ []) pools) (free_generation 3 24 pools)
free_generation-IsQueue_example =
    free_generation-IsQueue pools (8 ∷ 16 ∷ []) (24 ∷ 32 ∷ []) 24 two_free theirs

new_pool-Reused_example : Reused 48 4096 40 (8 ∷ 16 ∷ []) pools (new_pool 48 4096 40 pools)
new_pool-Reused_example = new_pool-Reused 48 4096 40 pools (8 ∷ 16 ∷ []) two_free
