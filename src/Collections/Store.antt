-- ===== src/Collections/Store.antt =====
-- The objects of GGC_LIST in memory, and commands over them. An address is the identity of an
-- object: the pointer stack keeps every reference up to date when the collector moves it.
pub use ggggc.Heap.{null}
use ggggc.Base.{ℕ, ◌≡◌, refl, ◌≢◌, Option, none, some, arith, ◌==◌, if◌then◌else◌}

-- GGC_ListNode
pub record Node : Type 0 where
  pub next : ℕ
  pub el : ℕ

-- GGC_List
pub record ListObject : Type 0 where
  pub length : ℕ
  pub head : ℕ
  pub tail : ℕ

pub record Store : Type 0 where
  pub nodes : ℕ → Option Node
  pub lists : ℕ → Option ListObject

-- `fault` is a read or write through NULL or through an address with no such object.
pub data Run (A : Type 0) : Type 0 where
  ok : A → Store → Run A
  fault : Run A

abbrev pub Cmd : Type 0 → Type 0
Cmd A = Store → Run A

abbrev pub pure : {A : Type 0} → A → Cmd A
pure = ok

abbrev pub and_then : {A B : Type 0} → Run A → (A → Cmd B) → Run B
and_then (ok a s) k = k a s
and_then fault k = fault

infixl 5 ◌>>=◌ ◌>>◌
abbrev pub ◌>>=◌ : {A B : Type 0} → Cmd A → (A → Cmd B) → Cmd B
m >>= k = λ s. and_then (m s) k

abbrev pub ◌>>◌ : {A B : Type 0} → Cmd A → Cmd B → Cmd B
m >> n = m >>= λ _. n

unfoldable pub update : {A : Type 0} → (ℕ → Option A) → ℕ → A → ℕ → Option A
update f p v a = if a == p then some v else f a

pub update_lem :
    {A : Type 0} (f : ℕ → Option A) (p : ℕ) (v : A) (a : ℕ)
    → update f p v a ≡ (if a == p then some v else f a)
unfolding update
update_lem f p v a = refl

pub update_self : {A : Type 0} (f : ℕ → Option A) (p : ℕ) (v : A) → update f p v p ≡ some v
unfolding update
update_self f p v = ground arith

pub update_ne : {A : Type 0} {p a : ℕ} → a ≢ p → (f : ℕ → Option A) (v : A) → update f p v a ≡ f a
unfolding update
update_ne ne f v = ground arith

pub update-update :
    {A : Type 0} (f : ℕ → Option A) (p : ℕ) (v w : A) (a : ℕ)
    → update (update f p v) p w a ≡ update f p w a
unfolding update
update-update f p v w a = ground arith

-- A run that succeeds, with a postcondition.
abbrev pub Ends : {A : Type 0} → (A → Store → Type 0) → Run A → Type 0
Ends P (ok a s) = P a s
Ends P fault = ⊥

-- GGC_NEW(GGC_ListNode) at the address that the allocator returns; the memory is zeroed.
abbrev pub new_node : ℕ → Cmd ℕ
new_node fresh s =
    ok fresh (record s { nodes = update s.nodes fresh (record { next = null; el = null }) })

-- Reading an object that is not there is a fault.
unfoldable pub fetch : {A : Type 0} → Option A → Cmd A
fetch none s = fault
fetch (some n) s = ok n s

pub fetch-some : {A : Type 0} (a : A) (s : Store) → fetch (some a) s ≡ ok a s
unfolding fetch
fetch-some a s = refl

pub fetch-none : {A : Type 0} (s : Store) → fetch {A = A} none s ≡ fault
unfolding fetch
fetch-none s = refl

abbrev pub node_at : ℕ → Cmd Node
node_at p s = fetch (s.nodes p) s

abbrev pub list_at : ℕ → Cmd ListObject
list_at p s = fetch (s.lists p) s

abbrev pub put_node : ℕ → Node → Cmd (Unit {0})
put_node p n s = ok tt (record s { nodes = update s.nodes p n })

abbrev pub put_list : ℕ → ListObject → Cmd (Unit {0})
put_list p l s = ok tt (record s { lists = update s.lists p l })

-- GGC_WP and GGC_WD at each member
abbrev pub set_next : ℕ → ℕ → Cmd (Unit {0})
set_next p q = do n ← node_at p; put_node p (record n { next = q })

abbrev pub set_el : ℕ → ℕ → Cmd (Unit {0})
set_el p v = do n ← node_at p; put_node p (record n { el = v })

abbrev pub set_length : ℕ → ℕ → Cmd (Unit {0})
set_length p k = do l ← list_at p; put_list p (record l { length = k })

abbrev pub set_head : ℕ → ℕ → Cmd (Unit {0})
set_head p q = do l ← list_at p; put_list p (record l { head = q })

abbrev pub set_tail : ℕ → ℕ → Cmd (Unit {0})
set_tail p q = do l ← list_at p; put_list p (record l { tail = q })

pub Ends-mono :
    {A : Type 0} {P Q : A → Store → Type 0} (r : Run A)
    → ((a : A) (s : Store) → P a s → Q a s)
    → Ends P r
    → Ends Q r
Ends-mono (ok a s) f h = f a s h
Ends-mono fault f h = h
