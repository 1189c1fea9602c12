-- ===== src/Kalloc/Heap/Free.antt =====
-- How far the loop of `kfree` comes up in the tree of a page.
use ssos.Base.{ℕ, zero, suc, ◌+◌, ◌%◌, ◌^◌, ◌<◌, ◌≡◌, refl, sym, arith, ◌∙◌}
use ssos.Base.{Option, none, some, ltb, ==_ne, if_true, if_false, ltb_lt, ltb_ge}
use ssos.Paging.{Paging}
use ssos.Kalloc.{Kalloc, merge_loop}
use ssos.Kalloc.Undo.Merge.{merge_end}
use ssos.Kalloc.Heap.Tree.{
  free, used, node, Context, page, left, right, size, size_suc, size-pos, look, address, around,
  around_inside,
}
use ssos.Kalloc.Heap.Focus.{level_le, left_buddy, right_buddy}
use ssos.Kalloc.Heap.Merged.{MergedAround, Alone}
use ssos.Kalloc.Heap.Alloc.{in_use, in_use-free, address_bounds, own_none}
use ssos.Kalloc.Heap.Merge.{Hidden, stop, merge}

module _ (base : ℕ) (paging : Paging) (real : 0 < base) (fits : base + 2 ^ 21 < 2 ^ 64) where
  -- What the loop comes to: a block that contains the one given back, and has no free buddy.
  pub record Freed (k : ℕ) (c : Context k) (call : Option (ℕ × Kalloc)) : Type 0 where
    pub level : ℕ
    pub context : Context level
    pub state : Kalloc
    pub runs : call ≡ some (address base level context, state)
    pub hidden :
        Hidden base paging (around base level context) level (address base level context) state
    pub alone : Alone level context free
    pub merged : MergedAround k c → MergedAround level context
    pub same : (y : ℕ) → in_use (around base level context y) ≡ in_use (around base k c y)

  stopped :
      (k : ℕ) (c : Context k) (s : Kalloc) (call : Option (ℕ × Kalloc))
      → call ≡ some (address base k c, s)
      → Hidden base paging (around base k c) k (address base k c) s
      → Alone k c free
      → Freed k c call
  stopped k c s call runs h alone = record {
    level = k;
    context = c;
    state = s;
    runs = runs;
    hidden = h;
    alone = alone;
    merged = λ m. m;
    same = λ y. refl;
  }

  -- One round further.
  merged_round :
      (k k' : ℕ) (c : Context k) (c' : Context k') (call call' : Option (ℕ × Kalloc))
      → call ≡ call'
      → (MergedAround k c → MergedAround k' c')
      → ((y : ℕ) → in_use (around base k' c' y) ≡ in_use (around base k c y))
      → Freed k' c' call'
      → Freed k c call
  merged_round k k' c c' call call' e m same f = record {
    level = f.level;
    context = f.context;
    state = f.state;
    runs = e ∙ f.runs;
    hidden = f.hidden;
    alone = f.alone;
    merged = λ a. f.merged (m a);
    same = λ y. f.same y ∙ same y;
  }

  module _ (aligned : base % 2 ^ 21 ≡ 0) (walk : ℕ) (enough : 2 ^ 21 < walk) where
    pub merge_loop-Freed :
        (fuel k : ℕ) (c : Context k) (s : Kalloc)
        → 18 < k + fuel
        → Hidden base paging (around base k c) k (address base k c) s
        → Freed k c (merge_loop walk fuel (address base k c) s)
    unfolding address around look
    merge_loop-Freed zero k c s rounds h = absurd (omega (arith, level_le base k c))
    merge_loop-Freed (suc fuel) k (page e) s rounds h =
        stopped k (page e) s (merge_loop walk (suc fuel) base s)
          (merge_end walk fuel base k s h.level
            (ltb_ge k s.highest_level (omega (arith, h.rep.common.level, e))))
          h tt
    merge_loop-Freed (suc fuel) k (left free c) s rounds h =
        let a = address base (suc k) c in
        let b = a + size k in
        let (lo, hi) = address_bounds base paging real fits (suc k) c in
        let rest = around base (suc k) c in
        let out : rest b ≡ none =
          around_inside base (suc k) c b (omega arith) (omega (arith, size_suc k, size-pos k)) in
        let (s', e, h') =
          merge base paging walk enough k (level_le base (suc k) c) a b
            (left_buddy base aligned k free c) rest s fuel a
            (if_false (ltb b a) b a (ltb_ge b a (omega arith))) (==_ne b 0 (omega arith))
            (own_none base paging real fits (suc k) c) out h in
        merged_round k (suc k) (left free c) c (merge_loop walk (suc fuel) a s)
          (merge_loop walk fuel a s') e (λ m. m.1) (λ y. sym (in_use-free b y k rest out))
          (merge_loop-Freed fuel (suc k) c s' (omega arith) h')
    merge_loop-Freed (suc fuel) k (left used c) s rounds h =
        let a = address base (suc k) c in
        stopped k (left used c) s (merge_loop walk (suc fuel) a s)
          (stop base paging walk enough k (level_le base (suc k) c) a (a + size k)
            (left_buddy base aligned k used c) (around base (suc k) c) s fuel used refl h)
          h refl
    merge_loop-Freed (suc fuel) (suc k) (left (node l r) c) s rounds h =
        let a = address base (suc (suc k)) c in
        stopped (suc k) (left (node l r) c) s (merge_loop walk (suc fuel) a s)
          (stop base paging walk enough (suc k) (level_le base (suc (suc k)) c) a (a + size (suc k))
            (left_buddy base aligned (suc k) (node l r) c) (around base (suc (suc k)) c) s fuel
            (node l r) refl h)
          h refl
    merge_loop-Freed (suc fuel) k (right free c) s rounds h =
        let b = address base (suc k) c in
        let a = b + size k in
        let (lo, hi) = address_bounds base paging real fits (suc k) c in
        let rest = around base (suc k) c in
        let out = own_none base paging real fits (suc k) c in
        let (s', e, h') =
          merge base paging walk enough k (level_le base (suc k) c) a b
            (right_buddy base aligned k free c) rest s fuel b
            (if_true (ltb b a) b a (ltb_lt b a (omega (arith, size-pos k))))
            (==_ne b 0 (omega arith))
            (around_inside base (suc k) c a (omega arith) (omega (arith, size_suc k, size-pos k)))
            out h in
        merged_round k (suc k) (right free c) c (merge_loop walk (suc fuel) a s)
          (merge_loop walk fuel b s') e (λ m. m.1) (λ y. sym (in_use-free b y k rest out))
          (merge_loop-Freed fuel (suc k) c s' (omega arith) h')
    merge_loop-Freed (suc fuel) k (right used c) s rounds h =
        let b = address base (suc k) c in
        stopped k (right used c) s (merge_loop walk (suc fuel) (b + size k) s)
          (stop base paging walk enough k (level_le base (suc k) c) (b + size k) b
            (right_buddy base aligned k used c) (around base (suc k) c) s fuel used refl h)
          h refl
    merge_loop-Freed (suc fuel) (suc k) (right (node l r) c) s rounds h =
        let b = address base (suc (suc k)) c in
        stopped (suc k) (right (node l r) c) s (merge_loop walk (suc fuel) (b + size (suc k)) s)
          (stop base paging walk enough (suc k) (level_le base (suc (suc k)) c) (b + size (suc k)) b
            (right_buddy base aligned (suc k) (node l r) c) (around base (suc (suc k)) c) s fuel
            (node l r) refl h)
          h refl
