-- ===== src/Kalloc/Heap/Merged.antt =====
-- Trees in which every two free halves have been merged.
use ssos.Base.{ℕ, suc, ◌≡◌, refl, arith}
use ssos.Base.{Bool, true, false, ◌&&◌}
use ssos.Kalloc.Heap.Tree.{Tree, free, used, node, Context, page, left, right, plug}

abbrev pub is_free_tree : {k : ℕ} → Tree k → Bool
is_free_tree free = true
is_free_tree used = false
is_free_tree (node l r) = false

abbrev pub Merged : (k : ℕ) → Tree k → Type 0
Merged k free = Unit
Merged k used = Unit
Merged (suc k) (node l r) = ((is_free_tree l && is_free_tree r) ≡ false) × Merged k l × Merged k r

abbrev pub MergedAround : (k : ℕ) → Context k → Type 0
MergedAround k (page e) = Unit
MergedAround k (left t c) = Merged k t × MergedAround (suc k) c
MergedAround k (right t c) = Merged k t × MergedAround (suc k) c

-- A tree that is not free beside another free one.
abbrev pub Alone : (k : ℕ) → Context k → Tree k → Type 0
Alone k (page e) t = Unit
Alone k (left r c) t = (is_free_tree t && is_free_tree r) ≡ false
Alone k (right l c) t = (is_free_tree l && is_free_tree t) ≡ false

pub no_sibling : (k : ℕ) (c : Context k) (t : Tree k) → is_free_tree t ≡ false → Alone k c t
no_sibling k (page e) t h = tt
no_sibling k (left r c) t h = ground (arith, h)
no_sibling k (right l c) t h = ground (arith, h)

module _ (base : ℕ) where
  pub plug-Merged :
      (k : ℕ) (c : Context k) (t : Tree k)
      → Merged k t
      → MergedAround k c
      → Alone k c t
      → Merged 18 (plug base k c t)
  unfolding plug
  plug-Merged k (page e) t m around alone = coe 0 1 (i. Merged (e i) (coe 0 i (j. Tree (e j)) t)) m
  plug-Merged k (left r c) t m (mr, mc) alone =
      plug-Merged (suc k) c (node t r) (alone, m, mr) mc (no_sibling (suc k) c (node t r) refl)
  plug-Merged k (right l c) t m (ml, mc) alone =
      plug-Merged (suc k) c (node l t) (alone, ml, m) mc (no_sibling (suc k) c (node l t) refl)

  pub Merged-plug :
      (k : ℕ) (c : Context k) (t : Tree k)
      → Merged 18 (plug base k c t)
      → Merged k t × MergedAround k c
  unfolding plug
  Merged-plug k (page e) t m = (coe 1 0 (i. Merged (e i) (coe 0 i (j. Tree (e j)) t)) m, tt)
  Merged-plug k (left r c) t m =
      let ((alone, mt, mr), mc) = Merged-plug (suc k) c (node t r) m in (mt, (mr, mc))
  Merged-plug k (right l c) t m =
      let ((alone, ml, mt), mc) = Merged-plug (suc k) c (node l t) m in (mt, (ml, mc))
