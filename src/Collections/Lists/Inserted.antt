-- ===== src/Collections/Lists/Inserted.antt =====
-- The functions that insert behind a node, and the array of a list.
use ggggc.Base.{
  ℕ, suc, ◌≡◌, refl, sym, ap, ◌∙◌, ◌≢◌, false, Option, none, some, List, [], ◌∷◌, ◌++◌, arith, ◌==◌,
  if◌then◌else◌, length, length-append,
}
use ggggc.Collections.Store.{
  null, Node, Store, ok, fetch-some, update, update_self, update_ne, Ends, ◌>>◌,
}
use ggggc.Collections.Lists.{push, insert_after, to_array, to_array_loop}
use ggggc.Collections.Lists.Content.{
  Cells, node, list_object, has, Distinct, Chain, EndsWith, IsList, empty, ends, Chain-frame,
  Chain-append, has-append, not-has_of_none,
}
use ggggc.Collections.Lists.Single.{NullTest, Spares}

Chain-split :
    (nodes : ℕ → Option Node) (p q : ℕ) (xs ys : Cells)
    → Chain nodes p (xs ++ ys) q
    → (r : ℕ) × Chain nodes p xs r × Chain nodes r ys q
Chain-split nodes p q [] ys c = (p, refl, c)
Chain-split nodes p q (x ∷ xs) ys (e, ne, (n, at, c)) =
    let (r, front, back) = Chain-split nodes n q xs ys c in (r, (e, ne, (n, at, front)), back)

-- The cells around one of a list without repetition.
around :
    (xs : Cells) (a u : ℕ) (ys : Cells)
    → Distinct (xs ++ (a, u) ∷ ys)
    → (has a xs ≡ false) × (has a ys ≡ false)
around [] a u ys d = (refl, d.0)
around (x ∷ xs) a u ys d =
    let (front, back) = around xs a u ys d.1 in
    (ground (arith, has-append x.0 xs ((a, u) ∷ ys)), back)

-- One more cell behind one of them.
Distinct-insert :
    (xs : Cells) (a u b v : ℕ) (ys : Cells)
    → Distinct (xs ++ (a, u) ∷ ys)
    → has b (xs ++ (a, u) ∷ ys) ≡ false
    → Distinct (xs ++ (a, u) ∷ (b, v) ∷ ys)
Distinct-insert [] a u b v ys d out = (ground arith, (ground arith, d.1))
Distinct-insert (x ∷ xs) a u b v ys d out = (
  ground (arith, has-append x.0 xs ((a, u) ∷ ys), has-append x.0 xs ((a, u) ∷ (b, v) ∷ ys)),
  Distinct-insert xs a u b v ys d.1 (ground arith),
)

-- Three writes at one place, one elsewhere.
three_and_one :
    {A : Type 0} (p q : ℕ) (f : ℕ → Option A) (a b c d : A) (k : ℕ)
    → update (update (update (update f p a) p b) p c) q d k
      ≡ (if k == q then some d else if k == p then some c else f k)
unfolding update
three_and_one p q f a b c d k = ground arith

module _ (fresh l v : ℕ) (s : Store) (real : fresh ≢ null) (unused : s.nodes fresh ≡ none) where
  -- GGC_ListInsertAfter behind any node but the last puts a new node with the value there; head, tail
  -- and length fit the new content, and no other list and no node but these two changes.
  pub insert_after-Ends :
      (front back : Cells) (after u t w : ℕ)
      → EndsWith s l (front ++ (after, u) ∷ back) t w
      → Ends
          (λ _ s'.
            EndsWith s' l (front ++ (after, u) ∷ (fresh, v) ∷ back) t w
            × Spares l ((after, u) ∷ (fresh, v) ∷ []) s s')
          (insert_after fresh l after v s)
  unfolding insert_after
  insert_after-Ends front back after u t w is =
      let (r, lead, (same, after_real, (n, at, rest))) =
        Chain-split s.nodes is.head t front ((after, u) ∷ back) is.front in
      let ne : after ≢ fresh = λ e. cc (at, ap s.nodes e, unused) in
      let out =
        not-has_of_none s.nodes fresh is.head t (front ++ (after, u) ∷ back) is.front unused in
      let apart_fresh = has-append fresh front ((after, u) ∷ back) in
      let apart_t = has-append t front ((after, u) ∷ back) in
      let lone = around front after u back is.distinct in
      let t_old : t ≢ fresh = λ e. cc (is.last, ap s.nodes e, unused) in
      let node_at = λ (k : ℕ).
        three_and_one fresh after s.nodes (node null null) (node null v) (node n v) (node fresh u)
          k in
      simp (fetch-some, update_self, update_ne ne, is.object, at)
        (
          record {
            head = is.head;
            object =
                update_self _ l _
                ∙ ap (λ k. some (list_object k is.head t))
                    (omega (
                      arith,
                      length-append {0} front ((after, u) ∷ back),
                      length-append {0} front ((after, u) ∷ (fresh, v) ∷ back),
                    ));
            front =
                Chain-append _ is.head r t front ((after, u) ∷ (fresh, v) ∷ back)
                  (Chain-frame is.head r front (λ a h. ground (arith, node_at a)) lead)
                  (
                    same,
                    after_real,
                    (
                      fresh,
                      ground (arith, node_at after),
                      (
                        refl,
                        real,
                        (
                          n,
                          ground (arith, node_at fresh),
                          Chain-frame n t back (λ a h. ground (arith, node_at a)) rest,
                        ),
                      ),
                    ),
                  );
            not_null = is.not_null;
            last = ground (arith, node_at t, is.last, is.apart);
            distinct = Distinct-insert front after u fresh v back is.distinct out;
            apart = has-append t front ((after, u) ∷ (fresh, v) ∷ back) ∙ ground (arith, is.apart);
          },
          record {
            lists = λ k other. update_ne other s.lists _;
            nodes = λ a h. ground (arith, node_at a);
          },
        )

  -- GGC_ListInsertAfter behind the last node leaves the list's tail at the old node, so that a
  -- GGC_ListPush after it unlinks the node just inserted: the last node leads to the pushed one, and
  -- the length counts one node too many.
  pub insert_after-loses :
      (xs : Cells) (t w other x : ℕ)
      → EndsWith s l xs t w
      → other ≢ fresh
      → s.nodes other ≡ none
      → Ends
          (λ _ s'.
            (s'.nodes t ≡ some (node other w))
            × (s'.nodes other ≡ some (node null x))
            × ((h : ℕ) × (s'.lists l ≡ some (list_object (suc (suc (suc (length xs)))) h other))))
          ((insert_after fresh l t v >> push other l x) s)
  unfolding insert_after push
  insert_after-loses xs t w other x is apart free =
      let ne : t ≢ fresh = λ e. cc (is.last, ap s.nodes e, unused) in
      let ne' : t ≢ other = λ e. cc (is.last, ap s.nodes e, free) in
      let not_zero : NullTest t = ground (arith, is.not_null) in
      simp
        (
          fetch-some,
          update_self,
          update_ne ne,
          update_ne ne',
          update_ne (λ (e : other ≡ t). ne' (sym e)),
          is.object,
          is.last,
          not_zero,
        )
        (refl, refl, (is.head, ap (λ n. some (list_object n is.head other)) (omega arith)))

-- the elements, in order
unfoldable pub elements : Cells → List ℕ
elements [] = []
elements (c ∷ xs) = c.1 ∷ elements xs

to_array_loop-elements :
    (s : Store) (p : ℕ) (cells : Cells)
    → Chain s.nodes p cells null
    → to_array_loop (length cells) p s ≡ ok (elements cells) s
unfolding to_array_loop elements
to_array_loop-elements s p [] c = refl
to_array_loop-elements s p ((a, v) ∷ cells) (e, real, (r, at, rest)) =
    let not_zero : NullTest a = ground arith in
    simp (e, not_zero, at, fetch-some, to_array_loop-elements s r cells rest)

-- GGC_ListToArray of a list returns an array of the list's elements in order, one slot for each, and
-- changes nothing.
pub to_array-elements :
    (s : Store) (l : ℕ) (cells : Cells) → IsList s l cells → to_array l s ≡ ok (elements cells) s
unfolding to_array
to_array-elements s l cells (empty e is) =
    rw e (simp (fetch-some, is) (to_array_loop-elements s null [] refl))
to_array-elements s l cells (ends xs t w e is) =
    let whole =
      Chain-append s.nodes is.head t null xs ((t, w) ∷ []) is.front
        (refl, is.not_null, (null, is.last, refl)) in
    let counted : suc (length xs) ≡ length (xs ++ (t, w) ∷ []) =
      omega (arith, length-append {0} xs ((t, w) ∷ [])) in
    rw e (
      simp (fetch-some, is.object, counted)
        (to_array_loop-elements s is.head (xs ++ (t, w) ∷ []) whole))
