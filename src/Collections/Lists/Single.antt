-- ===== src/Collections/Lists/Single.antt =====
-- The functions that add or take off one node.
use ggggc.Base.{
  ℕ, suc, ◌+◌, ◌≡◌, refl, sym, ap, ◌∙◌, ◌≢◌, false, Option, none, some, [], ◌∷◌, ◌++◌, arith, ◌==◌,
  if◌then◌else◌, length, length-append,
}
use mathlib.Core.List.{append_assoc}
use ggggc.Collections.Store.{
  null, Node, Store, update, fetch-some, update_self, update_ne, update-update, Ends, Ends-mono,
}
use ggggc.Collections.Lists.{push, unshift, shift}
use ggggc.Collections.Lists.Content.{
  Cells, node, list_object, has, Chain, IsEmpty, EndsWith, IsList, empty, ends, Chain-frame,
  Chain-append, has-append, Distinct-append, not-has_of_none,
}

-- Nothing else changed: the lists but `l`, and the nodes but those of `cells`.
pub record Spares (l : ℕ) (cells : Cells) (s s' : Store) : Type 0 where
  pub lists : (k : ℕ) → k ≢ l → s'.lists k ≡ s.lists k
  pub nodes : (a : ℕ) → has a cells ≡ false → s'.nodes a ≡ s.nodes a

abbrev pub NullTest : (p : ℕ) → Type 0
NullTest p = (p == null) ≡ false

-- Three writes, the first two at one place.
written :
    {A : Type 0} (t p : ℕ) (f : ℕ → Option A) (n m k : A) (a : ℕ)
    → update (update (update f p n) p m) t k a
      ≡ (if a == t then some k else if a == p then some m else f a)
unfolding update
written t p f n m k a = ground arith

-- Three writes at one place.
three :
    {A : Type 0} (p : ℕ) (f : ℕ → Option A) (n m k : A) (a : ℕ)
    → update (update (update f p n) p m) p k a ≡ (if a == p then some k else f a)
unfolding update
three p f n m k a = ground arith

pub head_not_null :
    (nodes : ℕ → Option Node) (p q : ℕ) (xs : Cells) → Chain nodes p xs q → q ≢ null → p ≢ null
head_not_null nodes p q [] e real = λ h. real (sym e ∙ h)
head_not_null nodes p q (c ∷ xs) (e, ne, rest) real = λ h. ne (sym e ∙ h)

module _ (fresh l v : ℕ) (s : Store) (real : fresh ≢ null) (unused : s.nodes fresh ≡ none) where
  push-EndsWith :
      (xs : Cells) (t w : ℕ)
      → (is : EndsWith s l xs t w)
      → EndsWith
          (record {
            nodes =
                update
                  (update (update s.nodes fresh (node null null)) fresh (node null v))
                  t
                  (node fresh w);
            lists =
                update
                  (update s.lists l (list_object (suc (length xs)) is.head fresh))
                  l
                  (list_object (suc (length xs) + 1) is.head fresh);
          })
          l
          (xs ++ (t, w) ∷ [])
          fresh
          v
  push-EndsWith xs t w is =
      let ne : t ≢ fresh = λ e. cc (is.last, ap s.nodes e, unused) in
      let out : has fresh xs ≡ false = not-has_of_none s.nodes fresh is.head t xs is.front unused in
      let at = λ (a : ℕ). written t fresh s.nodes (node null null) (node null v) (node fresh w) a in
      record {
        head = is.head;
        object =
            update_self _ l _
            ∙ ap (λ n. some (list_object n is.head fresh))
                (omega (arith, length-append {0} xs ((t, w) ∷ [])));
        front =
            Chain-append _ is.head t fresh xs ((t, w) ∷ [])
              (Chain-frame is.head t xs (λ a h. ground (arith, at a, is.apart)) is.front)
              (refl, is.not_null, (fresh, update_self _ t _, refl));
        not_null = real;
        last = at fresh ∙ ground arith;
        distinct =
            Distinct-append xs ((t, w) ∷ []) is.distinct (refl, tt)
              (λ a h. ground (arith, is.apart));
        apart = has-append fresh xs ((t, w) ∷ []) ∙ ground arith;
      }

  push-Ends :
      (xs : Cells) (t w : ℕ)
      → EndsWith s l xs t w
      → Ends
          (λ _ s'.
            EndsWith s' l (xs ++ (t, w) ∷ []) fresh v
            × Spares l (xs ++ (t, w) ∷ (fresh, v) ∷ []) s s')
          (push fresh l v s)
  unfolding push
  push-Ends xs t w is =
      let ne : t ≢ fresh = λ e. cc (is.last, ap s.nodes e, unused) in
      let not_zero : NullTest t = ground (arith, is.not_null) in
      simp (fetch-some, update_self, update_ne ne, is.object, is.last, not_zero)
        (
          push-EndsWith xs t w is,
          record {
            lists = λ k other. update-update s.lists l _ _ k ∙ update_ne other s.lists _;
            nodes = λ a out. ground (
              arith,
              written t fresh s.nodes (node null null) (node null v) (node fresh w) a,
              has-append a xs ((t, w) ∷ (fresh, v) ∷ []),
            );
          },
        )

  push-empty :
      IsEmpty s l
      → Ends (λ _ s'. EndsWith s' l [] fresh v × Spares l ((fresh, v) ∷ []) s s') (push fresh l v s)
  unfolding push
  push-empty is =
      simp (fetch-some, update_self, is)
        (
          record {
            head = fresh;
            object = update_self _ l _;
            front = refl;
            not_null = real;
            last = update_self _ fresh _;
            distinct = tt;
            apart = refl;
          },
          record {
            lists = λ k other. at k other;
            nodes = λ a out.
                update-update s.nodes fresh _ _ a ∙ update_ne (λ e. ground arith) s.nodes _;
          },
        )
    where
      at :
          (k : ℕ)
          → k ≢ l
          → update
              (update (update s.lists l (list_object 0 fresh null)) l (list_object 0 fresh fresh))
              l
              (list_object 1 fresh fresh)
              k
            ≡ s.lists k
      at k other = update_ne other _ _ ∙ update_ne other _ _ ∙ update_ne other s.lists _

  -- GGC_ListPush at a new node puts the value behind the others, whether the list was empty or not;
  -- head, tail and length fit the new content, no other list and no node outside the list changes.
  pub push-IsList :
      (cells : Cells)
      → IsList s l cells
      → Ends
          (λ _ s'.
            IsList s' l (cells ++ (fresh, v) ∷ []) × Spares l (cells ++ (fresh, v) ∷ []) s s')
          (push fresh l v s)
  push-IsList cells (empty none_yet is) = rw none_yet (
      Ends-mono (push fresh l v s) (λ _ s' (made, spares). (ends [] fresh v refl made, spares))
        (push-empty is))
  push-IsList cells (ends xs t w e is) = rw e (
      Ends-mono (push fresh l v s)
        (λ _ s' (made, spares). (
          ends (xs ++ (t, w) ∷ []) fresh v refl made,
          rw (append_assoc xs ((t, w) ∷ []) ((fresh, v) ∷ [])) spares,
        ))
        (push-Ends xs t w is))

  unshift-Ends :
      (xs : Cells) (t w : ℕ)
      → EndsWith s l xs t w
      → Ends
          (λ _ s'. EndsWith s' l ((fresh, v) ∷ xs) t w × Spares l ((fresh, v) ∷ []) s s')
          (unshift fresh l v s)
  unfolding unshift
  unshift-Ends xs t w is =
      let ne : t ≢ fresh = λ e. cc (is.last, ap s.nodes e, unused) in
      let out : has fresh xs ≡ false = not-has_of_none s.nodes fresh is.head t xs is.front unused in
      let head_real : NullTest is.head =
        ground (arith, head_not_null s.nodes is.head t xs is.front is.not_null) in
      let at =
        λ (a : ℕ). three fresh s.nodes (node null null) (node is.head null) (node is.head v) a in
      simp (fetch-some, update_self, is.object, head_real)
        (
          record {
            head = fresh;
            object = update_self _ l _ ∙ ap (λ n. some (list_object n fresh t)) (omega arith);
            front = (
              refl,
              real,
              (
                is.head,
                update_self _ fresh _,
                Chain-frame is.head t xs (λ a h. ground (arith, at a)) is.front,
              ),
            );
            not_null = is.not_null;
            last = ground (arith, at t, is.last);
            distinct = (out, is.distinct);
            apart = ground (arith, is.apart);
          },
          record {
            lists = λ k other. update-update s.lists l _ _ k ∙ update_ne other s.lists _;
            nodes = λ a h. ground (arith, at a);
          },
        )

  unshift-empty :
      IsEmpty s l
      → Ends
          (λ _ s'. EndsWith s' l [] fresh v × Spares l ((fresh, v) ∷ []) s s')
          (unshift fresh l v s)
  unfolding unshift
  unshift-empty is =
      let at = λ (a : ℕ). three fresh s.nodes (node null null) (node null null) (node null v) a in
      simp (fetch-some, update_self, is)
        (
          record {
            head = fresh;
            object = update_self _ l _;
            front = refl;
            not_null = real;
            last = update_self _ fresh _;
            distinct = tt;
            apart = refl;
          },
          record {
            lists =
                λ k other. update_ne other _ _ ∙ update_ne other _ _ ∙ update_ne other s.lists _;
            nodes = λ a h. ground (arith, at a);
          },
        )

  -- GGC_ListUnshift at a new node puts the value in front of the others, whether the list was empty
  -- or not; head, tail and length fit the new content, no other list changes, and no node but the
  -- new one.
  pub unshift-IsList :
      (cells : Cells)
      → IsList s l cells
      → Ends
          (λ _ s'. IsList s' l ((fresh, v) ∷ cells) × Spares l ((fresh, v) ∷ []) s s')
          (unshift fresh l v s)
  unshift-IsList cells (empty none_yet is) = rw none_yet (
      Ends-mono (unshift fresh l v s) (λ _ s' (made, spares). (ends [] fresh v refl made, spares))
        (unshift-empty is))
  unshift-IsList cells (ends xs t w e is) = rw e (
      Ends-mono (unshift fresh l v s)
        (λ _ s' (made, spares). (ends ((fresh, v) ∷ xs) t w refl made, spares))
        (unshift-Ends xs t w is))

module _ (l : ℕ) (s : Store) where
  shift-only :
      (t w : ℕ)
      → EndsWith s l [] t w
      → Ends (λ r s'. (r ≡ t) × IsEmpty s' l × Spares l [] s s') (shift l s)
  unfolding shift
  shift-only t w is =
      let same : is.head ≡ t = is.front in
      let not_zero : NullTest t = ground (arith, is.not_null) in
      simp (fetch-some, update_self, is.object, same, not_zero, is.last)
        (
          refl,
          refl,
          record {
            lists =
                λ k other. update_ne other _ _ ∙ update_ne other _ _ ∙ update_ne other s.lists _;
            nodes = λ a h. refl;
          },
        )

  shift-more :
      (a v : ℕ) (xs : Cells) (t w : ℕ)
      → EndsWith s l ((a, v) ∷ xs) t w
      → Ends (λ r s'. (r ≡ a) × EndsWith s' l xs t w × Spares l [] s s') (shift l s)
  unfolding shift
  shift-more a v xs t w is =
      let (same, real, (r, at, rest)) = is.front in
      let not_zero : NullTest a = ground arith in
      let next_real : NullTest r = ground (arith, head_not_null s.nodes r t xs rest is.not_null) in
      let object : s.lists l ≡ some (list_object (suc (suc (length xs))) a t) =
        is.object ∙ ap (λ h. some (list_object _ h t)) same in
      simp (fetch-some, update_self, object, not_zero, at, next_real)
        (
          refl,
          record {
            head = r;
            object = update_self _ l _ ∙ ap (λ n. some (list_object n r t)) (ground arith);
            front = rest;
            not_null = is.not_null;
            last = is.last;
            distinct = is.distinct.1;
            apart = ground (arith, is.apart);
          },
          record {
            lists = λ k other. update-update s.lists l _ _ k ∙ update_ne other s.lists _;
            nodes = λ b h. refl;
          },
        )

  shift-empty : IsEmpty s l → Ends (λ r s'. (r ≡ null) × (s' ≡ s)) (shift l s)
  unfolding shift
  shift-empty is = simp (fetch-some, is) (refl, refl)

  -- What GGC_ListShift leaves, and returns, at a list with the content `cells`.
  abbrev pub Shifted : Cells → ℕ → Store → Type 0
  Shifted [] r s' = (r ≡ null) × (s' ≡ s)
  Shifted ((a, v) ∷ rest) r s' = (r ≡ a) × IsList s' l rest × Spares l [] s s'

  -- GGC_ListShift takes the first node off and returns that node, leaving the rest of the list well
  -- formed, no node changed and no other list; on an empty list it returns NULL and changes nothing.
  pub shift-Shifted : (cells : Cells) → IsList s l cells → Ends (Shifted cells) (shift l s)
  shift-Shifted cells (empty none_yet is) = rw none_yet (shift-empty is)
  shift-Shifted cells (ends [] t w e is) = rw e (
      Ends-mono (shift l s) (λ r s' (same, now, spares). (same, empty refl now, spares))
        (shift-only t w is))
  shift-Shifted cells (ends ((a, v) ∷ xs) t w e is) = rw e (
      Ends-mono (shift l s) (λ r s' (same, now, spares). (same, ends xs t w refl now, spares))
        (shift-more a v xs t w is))
