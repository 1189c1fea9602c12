-- ===== src/Kalloc/Heap/Merge.antt =====
-- The loop of `kfree` that merges a block with its buddies, on the tree of a page.
use ssos.Base.{ℕ, suc, ◌+◌, ◌^◌, ◌≤◌, ◌<◌, ◌≡◌, refl, ap, arith, ◌∙◌, bit_xor}
use ssos.Base.{
  true, false, ◌&&◌, Option, none, some, ltb, ◌==◌, if◌then◌else◌, ==_refl, if_true, ltb_lt,
}
use ssos.Paging.{Paging}
use ssos.Kalloc.{MemBlock, Kalloc, set_block, merge_loop}
use ssos.Kalloc.Undo.Lists.{set_block_self}
use ssos.Kalloc.Undo.Merge.{merge_round}
use ssos.Kalloc.Heap.Tree.{Tree, free, used, node, size, Leaf, or_else, look}
use ssos.Kalloc.Heap.Merged.{is_free_tree}
use ssos.Kalloc.Heap.Rep.{add, add_self, Rep, Rep-set_block}
use ssos.Kalloc.Heap.Remove.{remove_buddy-Rep}

-- A tree has a block that starts where it does.
look_first : (k : ℕ) (t : Tree k) (a : ℕ) → (p : Leaf) × (look k t a a ≡ some p) × (p.0 ≤ k)
unfolding look
look_first k free a = ((k, true), if_true (a == a) _ _ (==_refl a a refl), omega arith)
look_first k used a = ((k, false), if_true (a == a) _ _ (==_refl a a refl), omega arith)
look_first (suc k) (node l r) a =
    let (p, e, le) = look_first k l a in
    (p, ap (λ o. or_else o (look k r (a + size k) a)) e, omega arith)

merge_stop :
    (walk fuel block level buddy : ℕ) (s : Kalloc)
    → (s.block block).level ≡ level
    → bit_xor block (2 ^ (level + 3)) ≡ buddy
    → ltb level s.highest_level ≡ true
    → ((s.block buddy).is_free && (s.block buddy).level == level) ≡ false
    → merge_loop walk (suc fuel) block s ≡ some (block, s)
unfolding merge_loop
merge_stop walk fuel block level buddy s at e1 e2 e3 = rw (at, e1, e2, e3) refl

-- A block that has been given back, beside the others.
pub record Hidden (base : ℕ) (paging : Paging) (rest : ℕ → Option Leaf) (k a : ℕ) (s : Kalloc)
    : Type 0 where
  pub rep : Rep base paging rest s
  pub level : (s.block a).level ≡ k
  pub is_free : (s.block a).is_free ≡ true

busy :
    (base : ℕ) (paging : Paging) (k b : ℕ) (sib : Tree k) (rest : ℕ → Option Leaf) (s : Kalloc)
    → is_free_tree sib ≡ false
    → Rep base paging (λ y. or_else (look k sib b y) (rest y)) s
    → ((s.block b).is_free && (s.block b).level == k) ≡ false
unfolding look
busy base paging k b free rest s taken r = absurd (ground (arith, taken))
busy base paging k b used rest s taken r =
    let (l, f) =
      r.headers b (k, false)
        (ap (λ o. or_else o (rest b))
          (if_true (b == b) (some (k, false)) none (==_refl b b refl))) in
    ground (arith, f)
busy base paging (suc k) b (node l' r') rest s taken r =
    let (p, e, le) = look_first k l' b in
    let (l, f) =
      r.headers b p (ap (λ o. or_else (or_else o (look k r' (b + size k) b)) (rest b)) e) in
    ground (arith, l, le)

module _ (base : ℕ) (paging : Paging) (walk : ℕ) (enough : 2 ^ 21 < walk) (k : ℕ) (lt : k < 18)
    (a b : ℕ) (buddy : bit_xor a (size k) ≡ b) (rest : ℕ → Option Leaf) (s : Kalloc) where
  -- The buddy is in use or split.
  pub stop :
      (fuel : ℕ) (sib : Tree k)
      → is_free_tree sib ≡ false
      → Hidden base paging (λ y. or_else (look k sib b y) (rest y)) k a s
      → merge_loop walk (suc fuel) a s ≡ some (a, s)
  stop fuel sib taken h =
      merge_stop walk fuel a k b s h.level buddy
        (ltb_lt k s.highest_level (omega (arith, h.rep.common.level)))
        (busy base paging k b sib rest s taken h.rep)

  -- The buddy is free.
  pub merge :
      (fuel lower : ℕ)
      → (if ltb b a then b else a) ≡ lower
      → (b == 0) ≡ false
      → rest a ≡ none
      → rest b ≡ none
      → Hidden base paging (add b (k, true) rest) k a s
      → (s' : Kalloc) × (merge_loop walk (suc fuel) a s ≡ merge_loop walk fuel lower s')
        × Hidden base paging rest (suc k) lower s'
  unfolding set_block
  merge fuel lower is_lower real out_a out_b h =
      let (l, f) = h.rep.headers b (k, true) (add_self b b (k, true) rest refl) in
      let (s1, runs, rep, same) =
        remove_buddy-Rep base paging rest b k (omega arith) out_b walk s enough real h.rep in
      let out : rest lower ≡ none = ground (arith, is_lower, out_a, out_b) in
      let level : (s1.block lower).level ≡ k =
        same.levels lower ∙ ground (arith, is_lower, l, h.level) in
      let is_free : (s1.block lower).is_free ≡ true =
        same.frees lower ∙ ground (arith, is_lower, f, h.is_free) in
      let m : MemBlock = record (s1.block lower) { level = (s1.block lower).level + 1 } in
      let own = set_block_self lower m s1 in
      (
        set_block lower m s1,
        merge_round walk fuel a k s h.level b lower s1 buddy
            (ltb_lt k s.highest_level (omega (arith, h.rep.common.level))) (ground (arith, l, f))
            is_lower runs,
        record {
          rep = Rep-set_block base paging rest lower m s1 out rep;
          level = ap (λ (x : MemBlock). x.level) own ∙ omega arith;
          is_free = ap (λ (x : MemBlock). x.is_free) own ∙ is_free;
        },
      )
