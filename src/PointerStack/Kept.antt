-- ===== src/PointerStack/Kept.antt =====
-- Blocks leave the stack as they found it, but for the global references, which stay behind.
use ggggc.Base.{
  ℕ, suc, ◌+◌, ◌<◌, ◌≡◌, refl, sym, ap, ◌∙◌, ◌≢◌, Bool, true, false, not, ◌||◌, List, [], ◌∷◌, ◌++◌,
  map, arith, length, Gives, Gives-mono, has,
}
use ggggc.Base.{Gives-bind, apart}
use mathlib.Core.List.{append_assoc, append-nil}
use mathlib.Core.Path.{subst}
use ggggc.Heap.{null}
use ggggc.Pools.Queue.{Leads, Leads-set, has-append, set_self}
use ggggc.PointerStack.{
  Stacks, set_frame, push_frame, pop_frame, globalize, Code, done, global, block, run_code,
}
use ggggc.PointerStack.Global.{IsStack, globalize-IsStack}

-- the frames that GGC_GLOBALIZE makes, in order
abbrev pub copies : Code → List ℕ
copies done = []
copies (global copy rest) = copy ∷ copies rest
copies (block frame ptrs body rest) = copies body ++ copies rest

-- what they hold: the references of the block that asks for it, where `top` are those of the outermost
abbrev pub saved : (top : List ℕ) → Code → List (List ℕ)
saved top done = []
saved top (global copy rest) = top ∷ saved top rest
saved top (block frame ptrs body rest) = saved ptrs body ++ saved top rest

-- the frames that are pushed
abbrev pub frames : Code → ℕ
frames done = 0
frames (global copy rest) = frames rest
frames (block frame ptrs body rest) = suc (frames body + frames rest)

-- Each frame, when it is put on the stack, is at an address that is not that of a frame on it, `xs`.
abbrev pub Sound : Code → (ls gs : List ℕ) → Type 0
Sound done ls gs = Unit
Sound (global copy rest) ls gs =
    (copy ≢ null) × (has copy (ls ++ gs) ≡ false) × Sound rest ls (gs ++ copy ∷ [])
Sound (block frame ptrs body rest) ls gs =
    (frame ≢ null)
    × (has frame (ls ++ gs) ≡ false)
    × Sound body (frame ∷ ls) gs
    × Sound rest ls (gs ++ copies body)

-- After `code`: the frames `ls` are the stack again, the new global ones are behind the old ones, what was on the
-- stack holds what it held, and the new ones hold what they copied.
pub record Kept (code : Code) (l : ℕ) (ls gs : List ℕ) (s s' : Stacks) : Type 0 where
  pub stack : IsStack s' (l ∷ ls) (gs ++ copies code)
  pub held : (a : ℕ) → has a ((l ∷ ls) ++ gs) ≡ true → s'.pointers a ≡ s.pointers a
  pub new : map s'.pointers (copies code) ≡ saved (s.pointers l) code

set_frame_self : (f : ℕ → List ℕ) (a : ℕ) (v : List ℕ) → set_frame f a v a ≡ v
set_frame_self f a v = ground arith

set_frame_other : (f : ℕ → List ℕ) (a : ℕ) (v : List ℕ) (b : ℕ) → b ≢ a → set_frame f a v b ≡ f b
set_frame_other f a v b ne = ground arith

or_left : (b c : Bool) → b ≡ true → (b || c) ≡ true
or_left true c h = refl
or_left false c h = absurd (apart (λ b. not b) false true refl refl h)

has_first : (a : ℕ) (xs : List ℕ) → has a (a ∷ xs) ≡ true
has_first a xs = ground arith

has_front : (a : ℕ) (xs ys : List ℕ) → has a xs ≡ true → has a (xs ++ ys) ≡ true
has_front a xs ys h = has-append a xs ys ∙ or_left (has a xs) (has a ys) h

has_back : (a : ℕ) (xs ys : List ℕ) → has a ys ≡ true → has a (xs ++ ys) ≡ true
has_back a [] ys h = h
has_back a (x ∷ xs) ys h = let rest = has_back a xs ys h in ground (arith, rest)

-- a frame more at the end, or between
has_more : (a : ℕ) (ls gs hs : List ℕ) → has a (ls ++ gs) ≡ true → has a (ls ++ (gs ++ hs)) ≡ true
has_more a ls gs hs h = ap (has a) (sym (append_assoc ls gs hs)) ∙ has_front a (ls ++ gs) hs h

map-append : (f : ℕ → List ℕ) (xs ys : List ℕ) → map f (xs ++ ys) ≡ map f xs ++ map f ys
map-append f [] ys = refl
map-append f (x ∷ xs) ys = ap (λ l. f x ∷ l) (map-append f xs ys)

map_same :
    (f g : ℕ → List ℕ) (xs : List ℕ) → ((a : ℕ) → has a xs ≡ true → f a ≡ g a) → map f xs ≡ map g xs
map_same f g [] same = refl
map_same f g (x ∷ xs) same =
    rw (same x (has_first x xs))
      (ap (λ l. g x ∷ l) (map_same f g xs (λ a h. same a (has_back a (x ∷ []) xs h))))

push-IsStack :
    (frame : ℕ) (ptrs : List ℕ) (s : Stacks) (ls gs : List ℕ)
    → IsStack s ls gs
    → frame ≢ null
    → has frame (ls ++ gs) ≡ false
    → IsStack (push_frame frame ptrs s) (frame ∷ ls) gs
push-IsStack frame ptrs s ls gs is real out = record {
  leads = (
    refl,
    real,
    rw (set_self s.next frame s.top)
        (Leads-set s.next frame s.top s.top null (ls ++ gs) out is.leads),
  );
  distinct = (out, is.distinct);
  globals = is.globals;
}

pop-IsStack :
    (s : Stacks) (l : ℕ) (ls gs : List ℕ) → IsStack s (l ∷ ls) gs → IsStack (pop_frame s) ls gs
pop-IsStack s l ls gs is = record {
  leads = subst (λ p. Leads s.next (s.next p) (ls ++ gs) null) (sym is.leads.0) is.leads.2;
  distinct = is.distinct.1;
  globals = is.globals;
}

global-Kept :
    (copy : ℕ) (rest : Code) (l : ℕ) (ls gs : List ℕ) (s t s' : Stacks)
    → IsStack s (l ∷ ls) gs
    → has copy ((l ∷ ls) ++ gs) ≡ false
    → t.pointers ≡ set_frame s.pointers copy (s.pointers s.top)
    → Kept rest l ls (gs ++ copy ∷ []) t s'
    → Kept (global copy rest) l ls gs s s'
global-Kept copy rest l ls gs s t s' is out same k =
    let xs = (l ∷ ls) ++ gs in
    let old : (a : ℕ) → has a xs ≡ true → t.pointers a ≡ s.pointers a = λ a h.
      ap (λ f. f a) same
      ∙ set_frame_other s.pointers copy (s.pointers s.top) a (apart (λ b. has b xs) a copy h out) in
    let here : t.pointers copy ≡ s.pointers l =
      ap (λ f. f copy) same
      ∙ set_frame_self s.pointers copy (s.pointers s.top)
      ∙ ap s.pointers is.leads.0 in
    record {
      stack = subst (IsStack s' (l ∷ ls)) (append_assoc gs (copy ∷ []) (copies rest)) k.stack;
      held = λ a h. k.held a (has_more a (l ∷ ls) gs (copy ∷ []) h) ∙ old a h;
      new =
          rw
            (
              k.held copy (
                  has_back copy (l ∷ ls) (gs ++ copy ∷ [])
                    (has_back copy gs (copy ∷ []) (has_first copy []))),
              here,
            )
            (ap (λ f. s.pointers l ∷ f)
              (k.new ∙ ap (λ top. saved top rest) (old l (has_first l (ls ++ gs)))));
    }

block-Kept :
    (frame : ℕ) (ptrs : List ℕ) (body rest : Code) (l : ℕ) (ls gs : List ℕ) (s t s' : Stacks)
    → has frame ((l ∷ ls) ++ gs) ≡ false
    → Kept body frame (l ∷ ls) gs (push_frame frame ptrs s) t
    → Kept rest l ls (gs ++ copies body) (pop_frame t) s'
    → Kept (block frame ptrs body rest) l ls gs s s'
block-Kept frame ptrs body rest l ls gs s t s' out b k =
    let xs = (l ∷ ls) ++ gs in
    let old : (a : ℕ) → has a xs ≡ true → t.pointers a ≡ s.pointers a = λ a h.
      b.held a (has_back a (frame ∷ []) xs h)
      ∙ set_frame_other s.pointers frame ptrs a (apart (λ b. has b xs) a frame h out) in
    record {
      stack = subst (IsStack s' (l ∷ ls)) (append_assoc gs (copies body) (copies rest)) k.stack;
      held = λ a h. k.held a (has_more a (l ∷ ls) gs (copies body) h) ∙ old a h;
      new =
          map-append s'.pointers (copies body) (copies rest)
          ∙ rw
              (
                map_same s'.pointers t.pointers (copies body) (λ a h.
                    k.held a
                      (has_back a (l ∷ ls) (gs ++ copies body) (has_back a gs (copies body) h))),
                b.new,
                set_frame_self s.pointers frame ptrs,
                k.new,
                old l (has_first l (ls ++ gs)),
              )
              refl;
    }

-- Take a stack with a frame, and code whose frames are, when they are put on it, at addresses not on it. With fuel for the
-- frames of the functions, the code ends, and the stack is then the one before with the copies that GGC_GLOBALIZE made at
-- the end, in order: every block popped its own frame and no other, whether globals were added meanwhile or not. The
-- frames that were there hold what they held, and each copy holds the references of the block that asked for it.
pub run_code-Kept :
    (code : Code) (fuel l : ℕ) (ls gs : List ℕ) (s : Stacks)
    → IsStack s (l ∷ ls) gs
    → Sound code (l ∷ ls) gs
    → length ls + frames code < fuel
    → Gives (Kept code l ls gs s) (run_code fuel code s)
unfolding run_code
run_code-Kept done fuel l ls gs s is sound enough = record {
  stack = rw append-nil is;
  held = λ a h. refl;
  new = refl;
}
run_code-Kept (global copy rest) fuel l ls gs s is (real, out, sound) enough =
    Gives-bind (Kept (global copy rest) l ls gs s) (globalize fuel copy s) (run_code fuel rest)
      (λ t h.
        Gives-mono {Q = Kept (global copy rest) l ls gs s} (run_code fuel rest t)
          (λ s' k. global-Kept copy rest l ls gs s t s' is out h.1 k)
          (run_code-Kept rest fuel l ls (gs ++ copy ∷ []) t h.0 sound enough))
      (globalize-IsStack fuel copy s l ls gs is real out (omega (arith, enough)))
run_code-Kept (block frame ptrs body rest) fuel l ls gs s is (real, out, inner, sound) enough =
    Gives-bind (Kept (block frame ptrs body rest) l ls gs s)
      (run_code fuel body (push_frame frame ptrs s)) _
      (λ t b.
        Gives-mono {Q = Kept (block frame ptrs body rest) l ls gs s}
          (run_code fuel rest (pop_frame t))
          (λ s' k. block-Kept frame ptrs body rest l ls gs s t s' out b k)
          (run_code-Kept rest fuel l ls (gs ++ copies body) (pop_frame t)
            (pop-IsStack t frame (l ∷ ls) (gs ++ copies body) b.stack) sound
            (omega (arith, enough))))
      (run_code-Kept body fuel frame (l ∷ ls) gs (push_frame frame ptrs s)
        (push-IsStack frame ptrs s (l ∷ ls) gs is real out) inner (omega (arith, enough)))
