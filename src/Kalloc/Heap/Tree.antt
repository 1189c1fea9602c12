-- ===== src/Kalloc/Heap/Tree.antt =====
-- The blocks of a page as a tree, and the tree around one block.
use mathlib.Core.Path.{subst}
use native.Mathlib.Nat.{pow-suc, one-le-pow}
use native.Mathlib.Decide.{ℕ_discrete, dec_lt}
use ssos.Base.{ℕ, suc, ◌+◌, ◌^◌, ◌≤◌, ◌<◌, ◌≡◌, ◌⊎◌, inl, inr, refl, sym, ap, arith, ◌∙◌}
use ssos.Base.{
  Bool, true, false, Option, none, some, ◌==◌, if◌then◌else◌, ==_refl, ==_ne, Option-cases, if_true,
  if_false,
}

-- A block of a level: free, in use, or split in two of the level below.
pub data Tree : ℕ → Type 0 where
  free : {k : ℕ} → Tree k
  used : {k : ℕ} → Tree k
  node : {k : ℕ} → Tree k → Tree k → Tree (suc k)

-- What is around a block of a level in its page: it is the page, or the left or the right half of a block, with
-- the tree of the other half.
pub data Context : ℕ → Type 0 where
  page : {k : ℕ} → k ≡ 18 → Context k
  left : {k : ℕ} → Tree k → Context (suc k) → Context k
  right : {k : ℕ} → Tree k → Context (suc k) → Context k

-- The bytes of a block.
abbrev pub size : ℕ → ℕ
size k = 2 ^ (k + 3)

-- The level of a block and whether it is free.
abbrev pub Leaf : Type 0
Leaf = ℕ × Bool

abbrev pub or_else : Option Leaf → Option Leaf → Option Leaf
or_else none o = o
or_else (some x) o = some x

-- The block that starts at an address, in the tree of the block at `a`.
unfoldable pub look : (k : ℕ) → Tree k → ℕ → ℕ → Option Leaf
look k free a y = if y == a then some (k, true) else none
look k used a y = if y == a then some (k, false) else none
look (suc k) (node l r) a y = or_else (look k l a y) (look k r (a + size k) y)

module _ (base : ℕ) where
  -- The address of the block, and the blocks around it.
  unfoldable pub address : (k : ℕ) → Context k → ℕ
  address k (page e) = base
  address k (left t c) = address (suc k) c
  address k (right t c) = address (suc k) c + size k

  unfoldable pub around : (k : ℕ) → Context k → ℕ → Option Leaf
  unfolding look address
  around k (page e) y = none
  around k (left t c) y = or_else (look k t (address (suc k) c + size k) y) (around (suc k) c y)
  around k (right t c) y = or_else (look k t (address (suc k) c) y) (around (suc k) c y)

  -- The tree of the page.
  unfoldable pub plug : (k : ℕ) → Context k → Tree k → Tree 18
  plug k (page e) t = subst Tree e t
  plug k (left r c) t = plug (suc k) c (node t r)
  plug k (right l c) t = plug (suc k) c (node l t)

pub size_suc : (k : ℕ) → size (suc k) ≡ size k + size k
size_suc k =
    let e : suc k + 3 ≡ suc (k + 3) = omega arith in
    ap (λ (n : ℕ). 2 ^ n) e ∙ omega (arith, pow-suc 2 (k + 3))

pub size-pos : (k : ℕ) → 0 < size k
size-pos k = omega (arith, one-le-pow (k + 3) 2)

-- The blocks of a tree lie in it.
pub record Within (k a y : ℕ) (p : Leaf) : Type 0 where
  pub from : a ≤ y
  pub to : y + size p.0 ≤ a + size k
  pub level : p.0 ≤ k

abbrev value : Option Leaf → Leaf → Leaf
value none d = d
value (some p) d = p

pub some_eq : (p q : Leaf) → some p ≡ some q → p ≡ q
some_eq p q e = ap (λ (o : Option Leaf). value o p) e

pub leaf_cases :
    (k a y : ℕ) (f : Bool) (p : Leaf)
    → (if y == a then some (k, f) else none) ≡ some p
    → (y ≡ a) × ((k, f) ≡ p)
leaf_cases k a y f p e = elim (ℕ_discrete y a) [
  | yes same ↦
      (same, some_eq (k, f) p (sym (if_true (y == a) (some (k, f)) none (==_refl y a same)) ∙ e))
  | no ne ↦
      let nothing : none ≡ some p = sym (if_false (y == a) (some (k, f)) none (==_ne y a ne)) ∙ e in
      ground (arith, nothing)
]

-- One of two.
pub or_else_cases :
    (o o' : Option Leaf) (p : Leaf)
    → or_else o o' ≡ some p
    → (o ≡ some p) ⊎ ((o ≡ none) × (o' ≡ some p))
or_else_cases none o' p e = inr (refl, e)
or_else_cases (some q) o' p e = inl e

leaf-Within :
    (k a y : ℕ) (f : Bool) (p : Leaf)
    → (if y == a then some (k, f) else none) ≡ some p
    → Within k a y p
leaf-Within k a y f p e =
    let (same, is) = leaf_cases k a y f p e in
    let level : k ≡ p.0 = ap (λ (q : Leaf). q.0) is in
    record { from = omega arith; to = omega (arith, ap size level); level = omega arith }

pub look-Within : (k : ℕ) (t : Tree k) (a y : ℕ) (p : Leaf) → look k t a y ≡ some p → Within k a y p
unfolding look
look-Within k free a y p e = leaf-Within k a y true p e
look-Within k used a y p e = leaf-Within k a y false p e
look-Within (suc k) (node l r) a y p e =
    elim (or_else_cases (look k l a y) (look k r (a + size k) y) p e) [
      | inl e1 ↦
          let w = look-Within k l a y p e1 in
          record {
            from = w.from;
            to = omega (arith, w.to, size_suc k);
            level = omega (arith, w.level);
          }
      | inr (e1, e2) ↦
          let w = look-Within k r (a + size k) y p e2 in
          record {
            from = omega (arith, w.from);
            to = omega (arith, w.to, size_suc k);
            level = omega (arith, w.level);
          }
    ]

-- No block of a tree starts outside it.
pub look_outside : (k : ℕ) (t : Tree k) (a y : ℕ) → (y < a) ⊎ (a + size k ≤ y) → look k t a y ≡ none
look_outside k t a y out = elim (Option-cases (look k t a y)) [
  | inl e ↦ e
  | inr (p, e) ↦
      let w = look-Within k t a y p e in absurd (ground (arith, out, w.from, w.to, size-pos p.0))
]

pub or_else-none : (o : Option Leaf) → or_else o none ≡ o
or_else-none none = refl
or_else-none (some p) = refl

pub or_else_assoc :
    (o o' o'' : Option Leaf) → or_else (or_else o o') o'' ≡ or_else o (or_else o' o'')
or_else_assoc none o' o'' = refl
or_else_assoc (some p) o' o'' = refl

pub or_else_swap :
    (o o' o'' : Option Leaf)
    → (o ≡ none) ⊎ (o' ≡ none)
    → or_else o (or_else o' o'') ≡ or_else o' (or_else o o'')
or_else_swap none o' o'' apart = refl
or_else_swap (some p) none o'' apart = refl
or_else_swap (some p) (some q) o'' apart = ground (arith, apart)

-- The halves of a block have no block in common.
pub apart :
    (k : ℕ) (l r : Tree k) (a y : ℕ) → (look k l a y ≡ none) ⊎ (look k r (a + size k) y ≡ none)
apart k l r a y = elim (dec_lt y (a + size k)) [
  | yes lt ↦ inr (look_outside k r (a + size k) y (inl lt))
  | no ge ↦ inl (look_outside k l a y (inr (omega arith)))
]

module _ (base : ℕ) where
  -- No block around a block starts in it.
  pub around_inside :
      (k : ℕ) (c : Context k) (y : ℕ)
      → address base k c ≤ y
      → y < address base k c + size k
      → around base k c y ≡ none
  unfolding around address
  around_inside k (page e) y le lt = refl
  around_inside k (left t c) y le lt = cc (
    look_outside k t (address base (suc k) c + size k) y (inl lt),
    around_inside (suc k) c y le (omega (arith, size_suc k)),
  )
  around_inside k (right t c) y le lt = cc (
    look_outside k t (address base (suc k) c) y (inr le),
    around_inside (suc k) c y (omega arith) (omega (arith, size_suc k)),
  )

  same_page :
      (k : ℕ) (e : k ≡ 18) (t : Tree k) (y : ℕ) → look k t base y ≡ look 18 (subst Tree e t) base y
  same_page k e t y = λ i. look (e i) (coe 0 i (j. Tree (e j)) t) base y

  -- The tree of the page has the blocks of the one tree and those around it.
  pub look-plug :
      (k : ℕ) (c : Context k) (t : Tree k) (y : ℕ)
      → look 18 (plug base k c t) base y
        ≡ or_else (look k t (address base k c) y) (around base k c y)
  unfolding plug around address
  look-plug k (page e) t y = sym (same_page k e t y) ∙ sym (or_else-none (look k t base y))
  look-plug k (left r c) t y =
      let a = address base (suc k) c in
      look-plug (suc k) c (node t r) y
      ∙ or_else_assoc (look k t a y) (look k r (a + size k) y) (around base (suc k) c y)
  look-plug k (right l c) t y =
      let a = address base (suc k) c in
      look-plug (suc k) c (node l t) y
      ∙ or_else_assoc (look k l a y) (look k t (a + size k) y) (around base (suc k) c y)
      ∙ or_else_swap (look k l a y) (look k t (a + size k) y) (around base (suc k) c y)
          (apart k l t a y)
