-- ===== src/Collections/Lists/Joined.antt =====
-- The functions that move the nodes of one list into another, and the array of a list.
use ggggc.Base.{
  ℕ, suc, ◌+◌, ◌≡◌, refl, sym, ◌∙◌, ◌≢◌, ◌⊎◌, inl, inr, true, false, ◌||◌, Option, some, [], ◌∷◌,
  ◌++◌, arith, ◌==◌, if◌then◌else◌, length, length-append,
}
use mathlib.Core.List.{append_assoc, append-nil}
use ggggc.Collections.Store.{
  null, Store, ok, fetch-some, update, update_self, update_ne, Ends, Ends-mono,
}
use ggggc.Collections.Lists.{push_list, unshift_list, graft}
use ggggc.Collections.Lists.Content.{
  Cells, node, list_object, has, IsEmpty, EndsWith, IsList, empty, ends, Chain-frame, Chain-append,
  has-append, Distinct-append,
}
use ggggc.Collections.Lists.Single.{NullTest, head_not_null}

-- The lists but two, and the nodes of no list, are as before.
pub record SparesTwo (to from : ℕ) (written : Cells) (s s' : Store) : Type 0 where
  pub lists : (k : ℕ) → k ≢ to → k ≢ from → s'.lists k ≡ s.lists k
  pub nodes : (a : ℕ) → has a written ≡ false → s'.nodes a ≡ s.nodes a

-- Writes at one place, then at another.
two_and_three :
    {A : Type 0} (p q : ℕ) (f : ℕ → Option A) (a b c d e : A) (k : ℕ)
    → update (update (update (update (update f p a) p b) q c) q d) q e k
      ≡ (if k == q then some e else if k == p then some b else f k)
unfolding update
two_and_three p q f a b c d e k = ground arith

three_and_three :
    {A : Type 0} (p q : ℕ) (f : ℕ → Option A) (z a b c d e : A) (k : ℕ)
    → update (update (update (update (update (update f p z) p a) p b) q c) q d) q e k
      ≡ (if k == q then some e else if k == p then some b else f k)
unfolding update
three_and_three p q f z a b c d e k = ground arith

one_write :
    {A : Type 0} (p : ℕ) (f : ℕ → Option A) (a : A) (k : ℕ)
    → update f p a k ≡ (if k == p then some a else f k)
unfolding update
one_write p f a k = ground arith

-- A node of the first list's front is no node of the second list.
apart_front :
    (xs ys : Cells) (t w u z : ℕ)
    → ((a : ℕ) → has a (xs ++ (t, w) ∷ []) ≡ true → has a (ys ++ (u, z) ∷ []) ≡ false)
    → (a : ℕ) → has a xs ≡ true
    → (has a ys || (a == u)) ≡ false
apart_front xs ys t w u z apart a h =
    ground (arith, apart a, has-append a xs ((t, w) ∷ []), has-append a ys ((u, z) ∷ []))

not-nil : (xs : Cells) (c : ℕ × ℕ) → (xs ++ c ∷ []) ≢ []
not-nil [] c e = cc
not-nil (x ∷ xs) c e = cc

last_out :
    (xs : Cells) (t w a : ℕ) → has a (xs ++ (t, w) ∷ []) ≡ false → has a ((t, w) ∷ []) ≡ false
last_out xs t w a h = ground (arith, has-append a xs ((t, w) ∷ []))

module _ (to from : ℕ) (s : Store) (other : to ≢ from) where
  graft-Ends :
      (ys : Cells) (u z : ℕ)
      → IsEmpty s to
      → EndsWith s from ys u z
      → Ends
          (λ _ s'. EndsWith s' to ys u z × IsEmpty s' from × SparesTwo to from [] s s')
          (graft to from s)
  unfolding graft
  graft-Ends ys u z is_empty is =
      let head_real : NullTest is.head =
        ground (arith, head_not_null s.nodes is.head u ys is.front is.not_null) in
      let at = λ (k : ℕ).
        three_and_three to from s.lists (list_object (suc (length ys)) null null)
          (list_object (suc (length ys)) is.head null) (list_object (suc (length ys)) is.head u)
          (list_object 0 is.head u) (list_object 0 null u) (list_object 0 null null) k in
      simp
        (
          fetch-some,
          update_self,
          update_ne (λ (e : from ≡ to). other (sym e)),
          is_empty,
          is.object,
          head_real,
        )
        (
          record {
            head = is.head;
            object = at to ∙ ground arith;
            front = is.front;
            not_null = is.not_null;
            last = is.last;
            distinct = is.distinct;
            apart = is.apart;
          },
          refl,
          record { lists = λ k p q. at k ∙ ground arith; nodes = λ a h. refl },
        )

  push_list-Ends :
      (xs ys : Cells) (t w u z : ℕ)
      → EndsWith s to xs t w
      → EndsWith s from ys u z
      → ((a : ℕ) → has a (xs ++ (t, w) ∷ []) ≡ true → has a (ys ++ (u, z) ∷ []) ≡ false)
      → Ends
          (λ _ s'.
            EndsWith s' to (xs ++ (t, w) ∷ ys) u z
            × IsEmpty s' from
            × SparesTwo to from ((t, w) ∷ []) s s')
          (push_list to from s)
  unfolding push_list
  push_list-Ends xs ys t w u z is js apart =
      let head_real : NullTest is.head =
        ground (arith, head_not_null s.nodes is.head t xs is.front is.not_null) in
      let n = suc (length xs) in
      let m = suc (length ys) in
      let at = λ (k : ℕ).
        two_and_three to from s.lists (list_object n is.head u) (list_object (n + m) is.head u)
          (list_object 0 js.head u) (list_object 0 null u) (list_object 0 null null) k in
      let node_at = λ (k : ℕ). one_write t s.nodes (node js.head w) k in
      let t_out : has t ys || (t == u) ≡ false =
        ground (arith, apart t, has-append t xs ((t, w) ∷ []), has-append t ys ((u, z) ∷ [])) in
      let far = λ (a : ℕ). apart_front xs ys t w u z apart a in
      simp
        (
          fetch-some,
          update_self,
          update_ne (λ (e : from ≡ to). other (sym e)),
          is.object,
          js.object,
          head_real,
          is.last,
        )
        (
          record {
            head = is.head;
            object = at to ∙ ground (arith, length-append {0} xs ((t, w) ∷ ys));
            front =
                Chain-append _ is.head t u xs ((t, w) ∷ ys)
                  (Chain-frame is.head t xs (λ a h. ground (arith, node_at a, is.apart)) is.front)
                  (
                    refl,
                    is.not_null,
                    (
                      js.head,
                      ground (arith, node_at t),
                      Chain-frame js.head u ys (λ a h. ground (arith, node_at a)) js.front,
                    ),
                  );
            not_null = js.not_null;
            last = ground (arith, node_at u, js.last);
            distinct =
                Distinct-append xs ((t, w) ∷ ys) is.distinct (ground arith, js.distinct)
                  (λ a h. ground (arith, far a, is.apart));
            apart = ground (arith, has-append u xs ((t, w) ∷ ys), far u, js.apart);
          },
          refl,
          record { lists = λ k p q. at k ∙ ground arith; nodes = λ a h. ground (arith, node_at a) },
        )

  unshift_list-Ends :
      (xs ys : Cells) (t w u z : ℕ)
      → EndsWith s to xs t w
      → EndsWith s from ys u z
      → ((a : ℕ) → has a (ys ++ (u, z) ∷ []) ≡ true → has a (xs ++ (t, w) ∷ []) ≡ false)
      → Ends
          (λ _ s'.
            EndsWith s' to (ys ++ (u, z) ∷ xs) t w
            × IsEmpty s' from
            × SparesTwo to from ((u, z) ∷ []) s s')
          (unshift_list to from s)
  unfolding unshift_list
  unshift_list-Ends xs ys t w u z is js apart =
      let head_real : NullTest is.head =
        ground (arith, head_not_null s.nodes is.head t xs is.front is.not_null) in
      let n = suc (length xs) in
      let m = suc (length ys) in
      let at = λ (k : ℕ).
        two_and_three to from s.lists (list_object n js.head t) (list_object (n + m) js.head t)
          (list_object 0 js.head u) (list_object 0 null u) (list_object 0 null null) k in
      let node_at = λ (k : ℕ). one_write u s.nodes (node is.head z) k in
      let u_out : has u xs || (u == t) ≡ false =
        ground (arith, apart u, has-append u ys ((u, z) ∷ []), has-append u xs ((t, w) ∷ [])) in
      let far = λ (a : ℕ). apart_front ys xs u z t w apart a in
      simp
        (
          fetch-some,
          update_self,
          update_ne (λ (e : from ≡ to). other (sym e)),
          is.object,
          js.object,
          head_real,
          js.last,
        )
        (
          record {
            head = js.head;
            object = at to ∙ ground (arith, length-append {0} ys ((u, z) ∷ xs));
            front =
                Chain-append _ js.head u t ys ((u, z) ∷ xs)
                  (Chain-frame js.head u ys (λ a h. ground (arith, node_at a, js.apart)) js.front)
                  (
                    refl,
                    js.not_null,
                    (
                      is.head,
                      ground (arith, node_at u),
                      Chain-frame is.head t xs (λ a h. ground (arith, node_at a)) is.front,
                    ),
                  );
            not_null = is.not_null;
            last = ground (arith, node_at t, is.last);
            distinct =
                Distinct-append ys ((u, z) ∷ xs) js.distinct (ground arith, is.distinct)
                  (λ a h. ground (arith, far a, js.apart));
            apart = ground (arith, has-append t ys ((u, z) ∷ xs), far t, is.apart);
          },
          refl,
          record { lists = λ k p q. at k ∙ ground arith; nodes = λ a h. ground (arith, node_at a) },
        )

  push_list-graft : IsEmpty s to → push_list to from s ≡ graft to from s
  unfolding push_list
  push_list-graft is = simp (fetch-some, is)

  unshift_list-graft : IsEmpty s to → unshift_list to from s ≡ graft to from s
  unfolding unshift_list
  unshift_list-graft is = simp (fetch-some, is)

  graft-empty : IsEmpty s to → IsEmpty s from → graft to from s ≡ ok tt s
  unfolding graft
  graft-empty is js = simp (fetch-some, js)

  -- What a joined list must be: `cells` in the target, nothing in the source, the rest unchanged.
  abbrev pub Joined : (cells written : Cells) → Unit {0} → Store → Type 0
  Joined cells written _ s' = IsList s' to cells × IsEmpty s' from × SparesTwo to from written s s'

  graft-Joined :
      (written more : Cells)
      → IsEmpty s to
      → IsList s from more
      → Ends (Joined more written) (graft to from s)
  graft-Joined written more is (empty none_there js) =
      rw (none_there, graft-empty is js)
        (empty refl is, js, record { lists = λ k p q. refl; nodes = λ a h. refl })
  graft-Joined written more is (ends ys u z e js) = rw e (
      Ends-mono (graft to from s)
        (λ _ s' (made, gone, spares). (
          ends ys u z refl made,
          gone,
          record { lists = spares.lists; nodes = λ a h. spares.nodes a refl },
        ))
        (graft-Ends ys u z is js))

  module _ (cells more : Cells) (apart : (a : ℕ) → has a cells ≡ true → has a more ≡ false) where
    -- GGC_ListPushList, for two different lists with no node in common, where the source has a node
    -- or the target has none: the target holds its own nodes and then those of the source, the
    -- source is empty, both are well formed, and no other list and no node outside the target
    -- changes.
    pub push_list-Joined :
        IsList s to cells
        → IsList s from more
        → (cells ≡ []) ⊎ (more ≢ [])
        → Ends (Joined (cells ++ more) cells) (push_list to from s)
    push_list-Joined (empty none_yet is) js some_node =
        rw (none_yet, push_list-graft is) (graft-Joined [] more is js)
    push_list-Joined (ends xs t w e is) (empty none_there js) (inl none_yet) =
        absurd (not-nil xs (t, w) (sym e ∙ none_yet))
    push_list-Joined (ends xs t w e is) (empty none_there js) (inr some_node) =
        absurd (some_node none_there)
    push_list-Joined (ends xs t w e is) (ends ys u z e' js) some_node =
        Ends-mono (push_list to from s)
          (λ _ s' (made, gone, spares). (
            ends (xs ++ (t, w) ∷ ys) u z
                (rw (e, e')
                  (append_assoc xs ((t, w) ∷ []) (ys ++ (u, z) ∷ [])
                    ∙ sym (append_assoc xs ((t, w) ∷ ys) ((u, z) ∷ []))))
                made,
            gone,
            record {
              lists = spares.lists;
              nodes = λ a h. spares.nodes a (last_out xs t w a (rw e at h));
            },
          ))
          (push_list-Ends xs ys t w u z is js (λ a h. rw (← e') (apart a (rw e h))))

    -- GGC_ListUnshiftList, under the same conditions: the target holds the nodes of the source and
    -- then its own, the source is empty, both are well formed, and no other list and no node outside
    -- the source changes.
    pub unshift_list-Joined :
        IsList s to cells
        → IsList s from more
        → (cells ≡ []) ⊎ (more ≢ [])
        → Ends (Joined (more ++ cells) more) (unshift_list to from s)
    unshift_list-Joined (empty none_yet is) js some_node =
        rw (none_yet, append-nil, unshift_list-graft is) (graft-Joined more more is js)
    unshift_list-Joined (ends xs t w e is) (empty none_there js) (inl none_yet) =
        absurd (not-nil xs (t, w) (sym e ∙ none_yet))
    unshift_list-Joined (ends xs t w e is) (empty none_there js) (inr some_node) =
        absurd (some_node none_there)
    unshift_list-Joined (ends xs t w e is) (ends ys u z e' js) some_node =
        Ends-mono (unshift_list to from s)
          (λ _ s' (made, gone, spares). (
            ends (ys ++ (u, z) ∷ xs) t w
                (rw (e, e')
                  (append_assoc ys ((u, z) ∷ []) (xs ++ (t, w) ∷ [])
                    ∙ sym (append_assoc ys ((u, z) ∷ xs) ((t, w) ∷ []))))
                made,
            gone,
            record {
              lists = spares.lists;
              nodes = λ a h. spares.nodes a (last_out ys u z a (rw e' at h));
            },
          ))
          (unshift_list-Ends xs ys t w u z is js (λ a h. rw (← e) (swapped a (rw e' h))))
      where
        swapped : (a : ℕ) → has a more ≡ true → has a cells ≡ false
        swapped a h = ground (arith, apart a)
