-- ===== src/Heap.antt =====
-- The words of memory, and the shapes that ggggc/gc.h gives them on a 64-bit machine: a pointer is
-- a byte address, a word is 8 bytes, and no debugging or extended-tag feature is on.
pub mod Walk
use ggggc.Base.{ℕ, ◌+◌, ◌-◌, ◌*◌, ◌/◌, ◌%◌, ◌^◌, Bool, not, ◌&&◌, ◌==◌, if◌then◌else◌}

-- the word at each address
abbrev pub Memory : Type 0
Memory = ℕ → ℕ

abbrev pub write : Memory → ℕ → ℕ → Memory
write m a v b = if b == a then v else m b

abbrev pub null : ℕ
null = 0

abbrev pub word_bytes : ℕ
word_bytes = 8

abbrev pub bits_per_word : ℕ
bits_per_word = 64

-- `&((void **) obj)[i]`
abbrev pub word_at : ℕ → ℕ → ℕ
word_at obj i = obj + word_bytes * i

-- `struct GGGGC_Descriptor`: header, size, user pointer, pointer bits
abbrev pub size_of : Memory → ℕ → ℕ
size_of m d = m (word_at d 1)

abbrev pub pointers_of : Memory → ℕ → ℕ → ℕ
pointers_of m d k = m (word_at d (3 + k))

-- `IS_TAGGED`, with and without GGGGC_FEATURE_TAGGING
abbrev pub is_tagged : Bool → ℕ → Bool
is_tagged tagging p = tagging && not (p % word_bytes == 0)
