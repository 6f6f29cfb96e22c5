-- ===== src/Descriptors/Gen0.antt =====
-- The promises that descriptors need of an allocator, kept by ggggc_mallocRaw of collector/gembc.c in the current
-- pool of generation 0.
use ggggc.Gembc.Allocate.{GenPool, Generation, malloc_raw}
use ggggc.Gembc.Allocate.Current.{ended, pool_room, pool_used, IsCurrent, IsCurrent-gives}
use ggggc.Descriptors.{Allocator}

-- `fresh` is what ggggc_newPool would return.
abbrev pub gen0 : (fresh : GenPool) → Allocator Generation
gen0 fresh = record {
  allocate = λ size m g. ended (malloc_raw fresh size m g);
  room = λ g. pool_room g.pools;
  used = λ g. pool_used g.pools;
  IsHeap = λ g. IsCurrent g.pools;
  gives = λ size m g. IsCurrent-gives fresh size m g.passed g.pools;
}
