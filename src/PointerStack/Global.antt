-- ===== src/PointerStack/Global.antt =====
-- ggggc_globalize puts a copy of the current frame at the end of the pointer stack.
use ggggc.Base.{
  ℕ, zero, suc, ◌<◌, ◌≡◌, refl, sym, ap, ◌∙◌, ◌≢◌, true, false, some, List, [], ◌∷◌, ◌++◌, arith,
  ◌==◌, length, Gives, has, Distinct,
}
use mathlib.Core.List.{append_assoc, append-nil}
use mathlib.Core.Path.{subst}
use ggggc.Heap.{null}
use ggggc.Pools.{set}
use ggggc.Pools.Queue.{Leads, last, Leads-set, Leads-link, last-append, Distinct-append, set_self}
use ggggc.Pools.Expand.Grown.{only}
use ggggc.PointerStack.{Stacks, set_frame, find_globals, last_frame, globalize}

-- The stack has the frames `ls` of functions that run and, behind them, the frames `gs` of global references, which
-- ggggc_pointerStackGlobals names the last of.
pub record IsStack (s : Stacks) (ls gs : List ℕ) : Type 0 where
  pub leads : Leads s.next s.top (ls ++ gs) null
  pub distinct : Distinct (ls ++ gs)
  pub globals : s.globals ≡ last gs

find_globals-last :
    (next : ℕ → ℕ) (xs : List ℕ) (x p fuel : ℕ)
    → length xs < fuel
    → Leads next p (x ∷ xs) null
    → find_globals fuel p next ≡ some (last (x ∷ xs))
unfolding find_globals
find_globals-last next xs x p zero enough l = absurd (omega arith)
find_globals-last next [] x p (suc fuel) enough (at, real, l) =
    let end : (next p == null) ≡ true = rw (at, l) refl in rw (end, at) refl
find_globals-last next (y ∷ xs) x p (suc fuel) enough (at, real, l) =
    let more : (next p == null) ≡ false = rw (at, l.0) (ground (arith, l.1)) in
    rw (more, at) (find_globals-last next xs y (next x) fuel (omega (arith, enough)) l)

last-real :
    (next : ℕ → ℕ) (p q x : ℕ) (xs : List ℕ) → Leads next p (x ∷ xs) q → last (x ∷ xs) ≢ null
last-real next p q x [] (at, real, l) = real
last-real next p q x (y ∷ xs) (at, real, l) = last-real next (next x) q y xs l

-- The last frame is found, by a walk or by the pointer to it.
last_frame-last :
    (fuel : ℕ) (s : Stacks) (l : ℕ) (ls gs : List ℕ)
    → IsStack s (l ∷ ls) gs
    → length ls < fuel
    → last_frame fuel s ≡ some (last ((l ∷ ls) ++ gs))
unfolding last_frame
last_frame-last fuel s l ls [] is enough =
    let test : (s.globals == null) ≡ true = rw is.globals refl in
    rw test (
      find_globals-last s.next ls l s.top fuel enough
        (subst (λ xs. Leads s.next s.top xs null) (append-nil (l ∷ ls)) is.leads)
      ∙ ap (λ xs. some (last xs)) (sym (append-nil (l ∷ ls))))
last_frame-last fuel s l ls (g ∷ gs) is enough =
    let same = last-append (l ∷ ls) g gs in
    let real : last (g ∷ gs) ≢ null =
      λ e. last-real s.next s.top null l (ls ++ g ∷ gs) is.leads (same ∙ e) in
    let test : (s.globals == null) ≡ false = rw is.globals (ground (arith, real)) in
    rw test (ap some (is.globals ∙ sym same))

-- the stack when the copy is there but not linked
abbrev copied : (copy : ℕ) → Stacks → Stacks
copied copy s = record s {
  next = set s.next copy null;
  pointers = set_frame s.pointers copy (s.pointers s.top);
}

pub globalize-IsStack :
    (fuel copy : ℕ) (s : Stacks) (l : ℕ) (ls gs : List ℕ)
    → IsStack s (l ∷ ls) gs
    → copy ≢ null
    → has copy ((l ∷ ls) ++ gs) ≡ false
    → length ls < fuel
    → Gives
        (λ s'.
          IsStack s' (l ∷ ls) (gs ++ copy ∷ [])
          × (s'.pointers ≡ set_frame s.pointers copy (s.pointers s.top)))
        (globalize fuel copy s)
unfolding globalize
globalize-IsStack fuel copy s l ls gs is real out enough =
    let xs = (l ∷ ls) ++ gs in
    let led = Leads-set s.next copy null s.top null xs out is.leads in
    let found =
      last_frame-last fuel (copied copy s) l ls gs
        (record { leads = led; distinct = is.distinct; globals = is.globals }) enough in
    let linked =
      Leads-link (set s.next copy null) s.top copy xs (copy ∷ []) (λ e. cc e) is.distinct
        (only copy xs out) led (refl, real, set_self s.next copy null) in
    rw found (
      record {
        leads =
            subst (λ ys. Leads (set (set s.next copy null) (last xs) copy) s.top ys null)
              (append_assoc (l ∷ ls) gs (copy ∷ [])) linked;
        distinct =
            subst Distinct (append_assoc (l ∷ ls) gs (copy ∷ []))
              (Distinct-append xs (copy ∷ []) is.distinct (refl, tt) (only copy xs out));
        globals = sym (last-append gs copy []);
      },
      refl,
    )
