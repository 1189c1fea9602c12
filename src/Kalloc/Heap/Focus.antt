-- ===== src/Kalloc/Heap/Focus.antt =====
-- A block of the page seen with what is around it, and its buddy.
use mathlib.Core.Path.{subst_refl}
use native.Mathlib.Nat.{suc-mul}
use native.Mathlib.Nat.{pow-suc}
use ssos.Base.{ℕ, suc, ◌+◌, ◌-◌, ◌*◌, ◌/◌, ◌%◌, ◌^◌, ◌≤◌, ◌≡◌, inl, inr, refl, sym, ap, arith, ◌∙◌}
use ssos.Base.{
  Bool, true, false, Option, none, some, ◌==◌, if◌then◌else◌, bit_xor, bit, bit_ext, bit-bit_xor,
  bit-lt,
}
use ssos.Kalloc.Undo.Buddy.{bit_xor-pow, bit_below}
use ssos.Kalloc.Heap.Tree.{
  Tree, free, used, node, Context, page, left, right, size, Leaf, or_else, look, address, around,
  plug,
}
use ssos.Kalloc.Heap.Tree.{
  size_suc, leaf_cases, or_else_cases, or_else_assoc, or_else_swap, or_else-none, apart,
}

abbrev pub only : ℕ → Leaf → ℕ → Option Leaf
only x p y = if y == x then some p else none

-- A block with no parts, free or in use.
abbrev pub whole_block : (k : ℕ) → Bool → Tree k
whole_block k true = free
whole_block k false = used

module _ (base : ℕ) where
  -- The block at `x` in a tree, and the others around it.
  pub record Focus (t : Tree 18) (view : ℕ → Option Leaf) (x : ℕ) (p : Leaf) : Type 0 where
    pub level : ℕ
    pub context : Context level
    pub here : address base level context ≡ x
    pub is_level : level ≡ p.0
    pub tree : plug base level context (whole_block level p.1) ≡ t
    pub others : (y : ℕ) → view y ≡ or_else (only x p y) (around base level context y)

  find_leaf :
      (k : ℕ) (c : Context k) (f : Bool) (x : ℕ) (p : Leaf) (whole : Tree 18)
      (view : ℕ → Option Leaf)
      → plug base k c (whole_block k f) ≡ whole
      → ((y : ℕ) → view y ≡ or_else (only (address base k c) (k, f) y) (around base k c y))
      → only (address base k c) (k, f) x ≡ some p
      → Focus whole view x p
  find_leaf k c f x p whole view plugged same e =
      let (at, is) = leaf_cases k (address base k c) x f p e in
      record {
        level = k;
        context = c;
        here = sym at;
        is_level = ap (λ (q : Leaf). q.0) is;
        tree = ap (λ (q : Leaf). plug base k c (whole_block k q.1)) (sym is) ∙ plugged;
        others = λ y. same y ∙ cc (at, is);
      }

  find :
      (k : ℕ) (c : Context k) (t : Tree k) (x : ℕ) (p : Leaf) (whole : Tree 18)
      (view : ℕ → Option Leaf)
      → plug base k c t ≡ whole
      → ((y : ℕ) → view y ≡ or_else (look k t (address base k c) y) (around base k c y))
      → look k t (address base k c) x ≡ some p
      → Focus whole view x p
  unfolding look address around plug
  find k c free x p whole view plugged same e = find_leaf k c true x p whole view plugged same e
  find k c used x p whole view plugged same e = find_leaf k c false x p whole view plugged same e
  find (suc k) c (node l r) x p whole view plugged same e =
      let a = address base (suc k) c in
      elim (or_else_cases (look k l a x) (look k r (a + size k) x) p e) [
        | inl e1 ↦
            find k (left r c) l x p whole view plugged
              (λ y.
                same y
                ∙ or_else_assoc (look k l a y) (look k r (a + size k) y) (around base (suc k) c y))
              e1
        | inr (e1, e2) ↦
            find k (right l c) r x p whole view plugged
              (λ y.
                same y
                ∙ or_else_assoc (look k l a y) (look k r (a + size k) y) (around base (suc k) c y)
                ∙ or_else_swap (look k l a y) (look k r (a + size k) y) (around base (suc k) c y)
                    (apart k l r a y))
              e2
      ]

  whole_page : (t : Tree 18) → plug base 18 (page refl) t ≡ t
  unfolding plug
  whole_page t = subst_refl Tree t

  -- Every block of the page can be looked at so.
  pub focus :
      (t : Tree 18) (view : ℕ → Option Leaf) (x : ℕ) (p : Leaf)
      → ((y : ℕ) → view y ≡ look 18 t base y)
      → view x ≡ some p
      → Focus t view x p
  unfolding address around plug
  focus t view x p same e =
      find 18 (page refl) t x p t view (whole_page t)
        (λ y. same y ∙ sym (or_else-none (look 18 t base y))) (sym (same x) ∙ e)

  pub level_le : (k : ℕ) → Context k → k ≤ 18
  level_le k (page e) = omega arith
  level_le k (left t c) = omega (arith, level_le (suc k) c)
  level_le k (right t c) = omega (arith, level_le (suc k) c)

-- The buddies of the halves of an aligned block.
bit_xor_twice : (a b : ℕ) → bit_xor (bit_xor a b) b ≡ a
bit_xor_twice a b =
    bit_ext (bit_xor (bit_xor a b) b) a
      (λ i. omega (arith, bit-bit_xor (bit_xor a b) b i, bit-bit_xor a b i, bit-lt a i))

upper_buddy : (q n : ℕ) → bit_xor (q * 2 ^ suc n + 2 ^ n) (2 ^ n) ≡ q * 2 ^ suc n
upper_buddy q n =
    let b = q * 2 ^ suc n + 2 ^ n in
    let above : b ≡ suc q * 2 ^ suc n - 2 ^ n = omega (arith, pow-suc 2 n, suc-mul q (2 ^ suc n)) in
    let digit : bit b n ≡ 1 = ap (λ (t : ℕ). bit t n) above ∙ bit_below n (suc q) (omega arith) in
    omega (arith, bit_xor-pow b n digit)

lower_buddy : (q n : ℕ) → bit_xor (q * 2 ^ suc n) (2 ^ n) ≡ q * 2 ^ suc n + 2 ^ n
lower_buddy q n =
    ap (λ (t : ℕ). bit_xor t (2 ^ n)) (sym (upper_buddy q n))
    ∙ bit_xor_twice (q * 2 ^ suc n + 2 ^ n) (2 ^ n)

halves : (q k : ℕ) → q * size (suc k) ≡ 2 * q * size k
halves q k = ap (λ (t : ℕ). q * t) (size_suc k) ∙ double q (size k)
  where
    double : (q s : ℕ) → q * (s + s) ≡ 2 * q * s
    double q s = grind arith

odd : (q s : ℕ) → (q + 1) * s ≡ q * s + s
odd q s = grind arith

next_power : (q k : ℕ) → q * size (suc k) ≡ q * 2 ^ suc (k + 3)
next_power q k = let e : suc k + 3 ≡ suc (k + 3) = omega arith in ap (λ (n : ℕ). q * 2 ^ n) e

module _ (base : ℕ) (aligned : base % 2 ^ 21 ≡ 0) where
  -- A block starts at a multiple of its size.
  multiple : (k : ℕ) (c : Context k) → (q : ℕ) × (address base k c ≡ q * size k)
  unfolding address
  multiple k (page e) = (base / 2 ^ 21, omega (arith, ap (λ (n : ℕ). base / 2 ^ 21 * size n) e))
  multiple k (left t c) = let (q, e) = multiple (suc k) c in (2 * q, e ∙ halves q k)
  multiple k (right t c) =
      let (q, e) = multiple (suc k) c in
      (2 * q + 1, ap (λ (t : ℕ). t + size k) (e ∙ halves q k) ∙ sym (odd (2 * q) (size k)))

  pub left_buddy :
      (k : ℕ) (t : Tree k) (c : Context (suc k))
      → bit_xor (address base k (left t c)) (size k) ≡ address base (suc k) c + size k
  unfolding address
  left_buddy k t c =
      let (q, e) = multiple (suc k) c in rw (e, next_power q k) (lower_buddy q (k + 3))

  pub right_buddy :
      (k : ℕ) (t : Tree k) (c : Context (suc k))
      → bit_xor (address base k (right t c)) (size k) ≡ address base (suc k) c
  unfolding address
  right_buddy k t c =
      let (q, e) = multiple (suc k) c in rw (e, next_power q k) (upper_buddy q (k + 3))
