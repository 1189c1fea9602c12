-- ===== src/Kalloc/Heap/Blocks.antt =====
-- The blocks of a tree do not overlap.
use ssos.Base.{ℕ, suc, ◌+◌, ◌≤◌, ◌≡◌, ◌≢◌, ◌⊎◌, inl, inr, sym, arith, ◌∙◌}
use ssos.Base.{true, false, some}
use ssos.Kalloc.Heap.Tree.{
  Tree, free, used, node, size, Leaf, look, look-Within, leaf_cases, or_else_cases,
}

pub blocks_apart :
    (k : ℕ) (t : Tree k) (a x y : ℕ) (p q : Leaf)
    → look k t a x ≡ some p
    → look k t a y ≡ some q
    → x ≢ y
    → (x + size p.0 ≤ y) ⊎ (y + size q.0 ≤ x)
unfolding look
blocks_apart k free a x y p q e e' ne =
    let (at, _) = leaf_cases k a x true p e in
    let (at', _) = leaf_cases k a y true q e' in absurd (ne (at ∙ sym at'))
blocks_apart k used a x y p q e e' ne =
    let (at, _) = leaf_cases k a x false p e in
    let (at', _) = leaf_cases k a y false q e' in absurd (ne (at ∙ sym at'))
blocks_apart (suc k) (node l r) a x y p q e e' ne =
    elim (or_else_cases (look k l a x) (look k r (a + size k) x) p e) [
      | inl e1 ↦ elim (or_else_cases (look k l a y) (look k r (a + size k) y) q e') [
        | inl e2 ↦ blocks_apart k l a x y p q e1 e2 ne
        | inr (_, e2) ↦
            let w = look-Within k l a x p e1 in
            let w' = look-Within k r (a + size k) y q e2 in inl (omega (arith, w.to, w'.from))
      ]
      | inr (_, e1) ↦ elim (or_else_cases (look k l a y) (look k r (a + size k) y) q e') [
        | inl e2 ↦
            let w = look-Within k l a y q e2 in
            let w' = look-Within k r (a + size k) x p e1 in inr (omega (arith, w.to, w'.from))
        | inr (_, e2) ↦ blocks_apart k r (a + size k) x y p q e1 e2 ne
      ]
    ]
