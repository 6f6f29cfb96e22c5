-- ===== src/ToSearch/Stack.antt =====
-- The chained buffers are one stack.
use native.Mathlib.Numerals.{add-one}
use ggggc.Base.{
  ℕ, zero, suc, ◌-◌, ◌≤◌, ◌≡◌, refl, ◌↔◌, inl, inr, ap, ◌∙◌, List, [], ◌∷◌, ◌++◌, arith, leb, false,
  ◌==◌, if◌then◌else◌, Bool-cases,
}
use ggggc.WorkList.{WorkList}
use ggggc.ToSearch.{Chunk, ToSearch, tosearch_sz, rewind, init, next_chunk, put, add, pop}

-- the first `n` words of a buffer, the last of them first
unfoldable pub stacked : ℕ → (ℕ → ℕ) → List ℕ
stacked zero buf = []
stacked (suc n) buf = buf n ∷ stacked n buf

unfoldable pub stacked_all : List Chunk → List ℕ
unfolding stacked
stacked_all [] = []
stacked_all (c ∷ cs) = stacked c.used c.buf ++ stacked_all cs

unfoldable pub contents : ToSearch → List ℕ
unfolding stacked_all
contents t = stacked t.here.used t.here.buf ++ stacked_all t.prev

abbrev pub AllFull : List Chunk → Type 0
AllFull [] = Unit
AllFull (c ∷ cs) = (c.used ≡ tosearch_sz) × AllFull cs

-- Every buffer before the current one is full, and the current one is empty only if it is the first.
pub record IsValid (t : ToSearch) : Type 0 where
  pub full : AllFull t.prev
  pub fits : t.here.used ≤ tosearch_sz
  pub settled : t.here.used ≡ 0 → t.prev ≡ []

rewind-prev : (ps : List Chunk) (c : Chunk) (ns : List Chunk) → (rewind ps c ns).prev ≡ []
unfolding rewind
rewind-prev [] c ns = refl
rewind-prev (p ∷ ps) c ns = rewind-prev ps p (c ∷ ns)

pub init_stack : (t : ToSearch) → IsValid (init t) × (contents (init t) ≡ [])
unfolding init contents
init_stack t =
    let none_before = rewind-prev t.prev t.here t.next in
    (
      record { full = rw none_before tt; fits = omega arith; settled = λ _. none_before },
      rw none_before refl,
    )

stacked-above :
    (n i v : ℕ) (buf : ℕ → ℕ) → n ≤ i → stacked n (λ j. if j == i then v else buf j) ≡ stacked n buf
unfolding stacked
stacked-above zero i v buf h = refl
stacked-above (suc n) i v buf h = ground (arith, stacked-above n i v buf)

put_stack : (p : ℕ) (t : ToSearch) → contents (put p t) ≡ p ∷ contents t
unfolding put contents
put_stack p t =
    let n = t.here.used in
    rw (add-one n, stacked) (rw (stacked-above n n p t.here.buf (omega arith)) (ground arith))

module _ (malloc : ℕ → ℕ) where
  next_stack :
      (t : ToSearch)
      → IsValid t
      → t.here.used ≡ tosearch_sz
      → AllFull (next_chunk malloc t).prev
        × ((next_chunk malloc t).here.used ≡ 0)
        × (contents (next_chunk malloc t) ≡ contents t)
  unfolding next_chunk contents
  next_stack t v e = go t.next
    where
      go :
          (ns : List Chunk)
          → AllFull (next_chunk malloc (record t { next = ns })).prev
            × ((next_chunk malloc (record t { next = ns })).here.used ≡ 0)
            × (contents (next_chunk malloc (record t { next = ns })) ≡ contents t)
      go [] = ((e, v.full), refl, refl)
      go (n ∷ ns) = ((e, v.full), refl, refl)

  pub add_stack :
      (p : ℕ) (t : ToSearch)
      → IsValid t
      → IsValid (add malloc p t) × (contents (add malloc p t) ≡ p ∷ contents t)
  unfolding add
  add_stack p t v = elim (Bool-cases (leb tosearch_sz t.here.used)) [
    | inl over ↦
        let (full, zero_used, same) = next_stack t v (ground arith) in
        rw over (
          record { full = full; fits = omega arith; settled = λ z. absurd (omega arith) },
          put_stack p (next_chunk malloc t) ∙ ap (λ l. p ∷ l) same,
        )
    | inr room ↦ rw room (
      record { full = v.full; fits = ground arith; settled = λ z. absurd (omega arith) },
      put_stack p t,
    )
  ]

abbrev chunks : List Chunk → ℕ → (ℕ → ℕ) → List Chunk → ToSearch
chunks ps n buf ns = record { prev = ps; here = record { used = n; buf = buf }; next = ns }

abbrev Popped : ℕ → List ℕ → ℕ × ToSearch → Type 0
Popped p rest r = (r.0 ≡ p) × IsValid r.1 × (contents r.1 ≡ rest)

pop-Popped :
    (p : ℕ) (rest : List ℕ) (ps : List Chunk) (n : ℕ) (buf : ℕ → ℕ) (ns : List Chunk)
    → IsValid (chunks ps n buf ns)
    → contents (chunks ps n buf ns) ≡ p ∷ rest
    → Popped p rest (pop (chunks ps n buf ns))
unfolding pop contents
pop-Popped p rest [] zero buf ns v c = absurd (cc c)
pop-Popped p rest [] (suc n) buf ns v c =
    let less : suc n - 1 ≡ n = omega arith in
    rw less (cc, record { full = tt; fits = omega (arith, v.fits); settled = λ _. refl }, cc)
pop-Popped p rest (q ∷ qs) zero buf ns v c = absurd (cc (v.settled refl))
pop-Popped p rest (q ∷ qs) (suc zero) buf ns v c =
    (cc, record { full = v.full.1; fits = omega arith; settled = λ z. absurd (omega arith) }, cc)
pop-Popped p rest (q ∷ qs) (suc (suc n)) buf ns v c =
    let less : suc (suc n) - 1 ≡ suc n = omega arith in
    let more : (suc n == 0) ≡ false = ground arith in
    rw (less, more)
      (
        cc,
        record { full = v.full; fits = omega (arith, v.fits); settled = λ z. absurd (omega arith) },
        cc,
      )

pub pop_stack :
    (p : ℕ) (rest : List ℕ) (t : ToSearch)
    → IsValid t
    → contents t ≡ p ∷ rest
    → Popped p rest (pop t)
pop_stack p rest t v e = pop-Popped p rest t.prev t.here.used t.here.buf t.next v e

used-Empty :
    (ps : List Chunk) (n : ℕ) (buf : ℕ → ℕ) (ns : List Chunk)
    → IsValid (chunks ps n buf ns)
    → (n ≡ 0) ↔ (contents (chunks ps n buf ns) ≡ [])
unfolding contents
used-Empty [] zero buf ns v = (λ _. refl, λ _. refl)
used-Empty (q ∷ qs) zero buf ns v = absurd (cc (v.settled refl))
used-Empty ps (suc n) buf ns v = (λ e. absurd (omega arith), λ e. absurd (cc e))

pub used_stack : (t : ToSearch) → IsValid t → (t.here.used ≡ 0) ↔ (contents t ≡ [])
used_stack t v = used-Empty t.prev t.here.used t.here.buf t.next v

-- The buffers refine a stack: whatever state an earlier search left, TOSEARCH_INIT gives the empty
-- stack; TOSEARCH_ADD pushes, also where it moves to another buffer; TOSEARCH_POP takes the pointer
-- added last, also where it falls back to the buffer before; and the test `toSearch->used` of the
-- search loops is zero exactly when no pointer is left in any buffer.
pub to_search_refines :
    (malloc : ℕ → ℕ)
    → ((t : ToSearch) → IsValid (init t) × (contents (init t) ≡ []))
      × ((p : ℕ) (t : ToSearch)
          → IsValid t
          → IsValid (add malloc p t) × (contents (add malloc p t) ≡ p ∷ contents t))
      × ((p : ℕ) (rest : List ℕ) (t : ToSearch)
          → IsValid t
          → contents t ≡ p ∷ rest
          → ((pop t).0 ≡ p) × IsValid (pop t).1 × (contents (pop t).1 ≡ rest))
      × ((t : ToSearch) → IsValid t → (t.here.used ≡ 0) ↔ (contents t ≡ []))
to_search_refines malloc = (init_stack, add_stack malloc, pop_stack, used_stack)

abbrev pub to_search : (ℕ → ℕ) → WorkList
to_search malloc = record {
  State = ToSearch;
  init = init;
  add = add malloc;
  pop = pop;
  used = λ t. t.here.used;
  IsValid = IsValid;
  contents = contents;
  init_law = init_stack;
  add_law = add_stack malloc;
  pop_law = pop_stack;
  used_law = used_stack;
}
