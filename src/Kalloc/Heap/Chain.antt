-- ===== src/Kalloc/Heap/Chain.antt =====
-- Free lists as chains of headers.
use mathlib.Core.Path.{subst}
use native.Mathlib.Decide.{ℕ_discrete}
use ssos.Base.{ℕ, zero, suc, ◌+◌, ◌≤◌, ◌<◌, ◌≡◌, ◌≢◌, refl, sym, ap, arith, ◌∙◌}
use ssos.Base.{
  true, false, some, ◌==◌, leb, ltb, ◌&&◌, if◌then◌else◌, ==_refl, ==_ne, if_true, if_false, List,
  [], ◌∷◌, length,
}
use ssos.Kalloc.{MemBlock, Kalloc, set_block, unlink_behind}
use ssos.Kalloc.Undo.Lists.{set_block_self, set_block_ne}

-- How often an address is in a list.
abbrev pub count : ℕ → List ℕ → ℕ
count y [] = 0
count y (x ∷ xs) = (if y == x then 1 else 0) + count y xs

-- Without the first `b`.
abbrev pub without : ℕ → List ℕ → List ℕ
without b [] = []
without b (x ∷ xs) = if x == b then xs else x ∷ without b xs

pub count-without :
    (y b : ℕ) (l : List ℕ)
    → 0 < count b l
    → count y (without b l) + (if y == b then 1 else 0) ≡ count y l
count-without y b [] lt = absurd (omega arith)
count-without y b (x ∷ xs) lt = elim (ℕ_discrete x b) [
  | yes e ↦ ground (arith, e)
  | no ne ↦ ground (arith, ne, count-without y b xs)
]

-- The addresses of `n` from `lo` on that are in a list.
abbrev total : ℕ → ℕ → List ℕ → ℕ
total lo zero l = 0
total lo (suc n) l = total lo n l + count (lo + n) l

total_cons :
    (lo n x : ℕ) (xs : List ℕ)
    → total lo n (x ∷ xs) ≡ total lo n xs + (if leb lo x && ltb x (lo + n) then 1 else 0)
total_cons lo zero x xs = ground arith
total_cons lo (suc n) x xs = ground (arith, total_cons lo n x xs)

total-length :
    (lo n : ℕ) (l : List ℕ)
    → ((y : ℕ) → 0 < count y l → (lo ≤ y) × (y < lo + n))
    → total lo n l ≡ length l
total-length lo n [] inside = total_nil lo n
  where
    total_nil : (lo n : ℕ) → total lo n [] ≡ 0
    total_nil lo zero = refl
    total_nil lo (suc n) = omega (arith, total_nil lo n)
total-length lo n (x ∷ xs) inside =
    let (ge, lt) = inside x (ground arith) in
    let rest = total-length lo n xs (λ y h. inside y (ground arith)) in
    ground (arith, total_cons lo n x xs, rest, ge, lt)

total_le : (lo n : ℕ) (l : List ℕ) → ((y : ℕ) → count y l ≤ 1) → total lo n l ≤ n
total_le lo zero l distinct = omega arith
total_le lo (suc n) l distinct = omega (arith, total_le lo n l distinct, distinct (lo + n))

-- A list without doubles of addresses in a page is no longer than the page.
pub length-inside :
    (lo n : ℕ) (l : List ℕ)
    → ((y : ℕ) → 0 < count y l → (lo ≤ y) × (y < lo + n))
    → ((y : ℕ) → count y l ≤ 1)
    → length l ≤ n
length-inside lo n l inside distinct =
    omega (arith, total-length lo n l inside, total_le lo n l distinct)

-- The blocks from `h` on, each the next of the one before, and NULL behind the last.
abbrev pub Chain : (ℕ → MemBlock) → ℕ → List ℕ → Type 0
Chain block h [] = h ≡ 0
Chain block h (a ∷ rest) = (h ≡ a) × ((a == 0) ≡ false) × Chain block (block a).next rest

-- A change of a header that is not in the chain.
pub Chain-set_block :
    (a : ℕ) (b : MemBlock) (s : Kalloc) (h : ℕ) (l : List ℕ)
    → count a l ≡ 0
    → Chain s.block h l
    → Chain (set_block a b s).block h l
Chain-set_block a b s h [] none c = c
Chain-set_block a b s h (x ∷ xs) none (at, real, rest) =
    let ne : x ≢ a = λ e. absurd (ground (arith, none, e)) in
    let same : (set_block a b s).block x ≡ s.block x = set_block_ne a x b s ne in
    (
      at,
      real,
      subst (λ (m : MemBlock). Chain (set_block a b s).block m.next xs) (sym same)
          (Chain-set_block a b s (s.block x).next xs (ground (arith, none)) rest),
    )

-- The walk to the block before `b` in a list without doubles, with fuel for the list: the block is
-- taken out of the list.
pub unlink_behind-Chain :
    (fuel b prev : ℕ) (rest : List ℕ) (s : Kalloc)
    → length rest < fuel
    → ((y : ℕ) → count y (prev ∷ rest) ≤ 1)
    → prev ≢ b
    → count b rest ≡ 1
    → Chain s.block prev (prev ∷ rest)
    → (q : ℕ) × (count q (prev ∷ rest) ≡ 1)
      × (unlink_behind fuel prev b s
          ≡ some (set_block q (record (s.block q) { next = (s.block b).next }) s))
      × Chain
          (set_block q (record (s.block q) { next = (s.block b).next }) s).block
          prev
          (prev ∷ without b rest)
unfolding unlink_behind
unlink_behind-Chain zero b prev rest s enough distinct ne has c = absurd (omega arith)
unlink_behind-Chain (suc fuel) b prev [] s enough distinct ne has c = absurd (omega arith)
unlink_behind-Chain (suc fuel) b prev (x ∷ rest) s enough distinct ne has
      (at, real, (next, real', c)) =
    elim (ℕ_discrete x b) [
      | yes e ↦
          let s' = set_block prev (record (s.block prev) { next = (s.block b).next }) s in
          let here : ((s.block prev).next == b) ≡ true = ==_refl (s.block prev).next b (next ∙ e) in
          let own = set_block_self prev (record (s.block prev) { next = (s.block b).next }) s in
          (
            prev,
            ground (arith, distinct prev),
            rw (real, here) refl,
            (
              refl,
              real,
              subst (λ (m : MemBlock). Chain s'.block m.next (without b (x ∷ rest))) (sym own)
                  (subst (λ (l : List ℕ). Chain s'.block (s.block b).next l)
                    (sym (if_true (x == b) rest (x ∷ without b rest) (==_refl x b e)))
                    (Chain-set_block prev (record (s.block prev) { next = (s.block b).next }) s
                      (s.block b).next rest (ground (arith, distinct prev))
                      (subst (λ (a : ℕ). Chain s.block (s.block a).next rest) e c))),
            ),
          )
      | no far ↦
          let off : ((s.block prev).next == b) ≡ false =
            ==_ne (s.block prev).next b (λ e. far (sym next ∙ e)) in
          let (q, in_rest, runs, chain) =
            unlink_behind-Chain fuel b x rest s (omega arith) (λ y. ground (arith, distinct y)) far
              (ground (arith, has, far)) (refl, real', c) in
          (
            q,
            ground (arith, in_rest, distinct q),
            rw (real, off, next) runs,
            (
              refl,
              real,
              let s' = set_block q (record (s.block q) { next = (s.block b).next }) s in
                  let same : (s'.block prev).next ≡ (s.block prev).next =
                    ap (λ (m : MemBlock). m.next)
                      (set_block_ne q prev (record (s.block q) { next = (s.block b).next }) s
                        (λ e. absurd (ground (arith, in_rest, distinct q, e)))) in
                  subst (λ (l : List ℕ). Chain s'.block (s'.block prev).next l)
                    (sym (if_false (x == b) rest (x ∷ without b rest) (==_ne x b far)))
                    (subst (λ (h : ℕ). Chain s'.block h (x ∷ without b rest)) (sym (same ∙ next))
                      chain),
            ),
          )
    ]
