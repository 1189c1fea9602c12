-- ===== src/Shell/Owner.antt =====
-- The memory of the shell's line: the only block of the heap in use.
use native.Mathlib.Decide.{ℕ_discrete}
use ssos.Base.{
  ℕ, zero, suc, ◌+◌, ◌-◌, ◌*◌, ◌≤◌, ◌<◌, ◌≡◌, ◌≢◌, ◌⊎◌, inl, inr, refl, sym, ap, arith, ◌∙◌,
}
use ssos.Base.{
  true, false, none, some, ◌∷◌, ◌==◌, if◌then◌else◌, Option-cases, ==_refl, if_true, u64, ltb,
}
use ssos.Paging.{Paging}
use ssos.Kalloc.{Kalloc, kmalloc, kfree}
use ssos.Kalloc.Heap.Client.{Live, obtained, obtained_self, obtained_ne, Agrees}
use ssos.Memory.{memcpy}
use ssos.Memory.Move.{memcpy_lem}
use ssos.Shell.{Shell, running, make_room}
use ssos.Shell.Line.{read, contents}

-- Reads of the same bytes.
pub read_ext :
    (n x y : ℕ) (b b' : ℕ → ℕ)
    → ((k : ℕ) → k < n → b (x + k) ≡ b' (y + k))
    → read n x b ≡ read n y b'
read_ext zero x y b b' same = refl
read_ext (suc n) x y b b' same =
    let first : b x ≡ b' y = ap b (omega arith) ∙ same 0 (omega arith) ∙ ap b' (omega arith) in
    let rest = read_ext n (x + 1) (y + 1) b b' (λ k lt.
      let ex : x + 1 + k ≡ x + suc k = omega arith in
      let ey : y + suc k ≡ y + 1 + k = omega arith in
      ap b ex ∙ same (suc k) (omega arith) ∙ ap b' ey) in
    λ i. first i ∷ rest i

-- What is copied reads the same.
pub read-memcpy :
    (dest src n : ℕ) (byte : ℕ → ℕ)
    → (dest ≤ src) ⊎ (src + n ≤ dest)
    → read n dest (memcpy dest src n byte) ≡ read n src byte
read-memcpy dest src n byte apart = read_ext n dest src (memcpy dest src n byte) byte (λ k lt.
    let back : src + (dest + k - dest) ≡ src + k = omega arith in
    memcpy_lem dest src n byte (dest + k) apart ∙ ground (arith, lt) ∙ ap byte back)

-- No line, as at boot or behind `shell_reset_prompt_buffer`.
pub record IsEmpty (s : Shell) : Type 0 where
  pub line : s.shell_current_line ≡ 0
  pub capacity : s.shell_line_capacity ≡ 0
  pub size : s.shell_line_size ≡ 0

module _ (base : ℕ) (paging : Paging) where
  -- The line is all that is in use: there is none, or it has its capacity at its place.
  pub record Owns (s : Shell) : Type 0 where
    pub live : Live
    pub agrees : Agrees base paging live s.heap
    pub others : (p : ℕ) → p ≢ s.shell_current_line → live p ≡ none
    pub size : s.shell_line_size ≤ s.shell_line_capacity
    pub place :
        ((s.shell_current_line ≡ 0) × (s.shell_line_capacity ≡ 0))
        ⊎ (live s.shell_current_line ≡ some s.shell_line_capacity)

  -- The line with room for one more letter, and the same letters in it.
  pub record Roomy (s s' : Shell) : Type 0 where
    pub owns : Owns s'
    pub room : s'.shell_line_size + 1 ≤ s'.shell_line_capacity
    pub size : s'.shell_line_size ≡ s.shell_line_size
    pub line : contents s' ≡ contents s
    pub shift : s'.shell_shift_is_held ≡ s.shell_shift_is_held

abbrev pub next_capacity : ℕ → ℕ
next_capacity c = if c == 0 then 1 else u64 (c * 2 + 1)

-- The states that a line which is full leads to.
abbrev pub started : ℕ → Kalloc → Shell → Shell
started p heap s = record s {
  shell_current_line = p;
  shell_line_capacity = next_capacity s.shell_line_capacity;
  heap = heap;
}

abbrev pub moved : ℕ → Kalloc → Shell → Shell
moved p heap s = record s {
  shell_current_line = p;
  shell_line_capacity = next_capacity s.shell_line_capacity;
  heap = heap;
  byte = memcpy p s.shell_current_line s.shell_line_size s.byte;
}

module _ (walk : ℕ) (s : Shell) (p : ℕ) (heap : Kalloc)
    (full : ltb s.shell_line_capacity (s.shell_line_size + 1) ≡ true)
    (call : kmalloc (next_capacity s.shell_line_capacity) s.heap ≡ some (p, heap)) where
  pub room_start :
      (p == 0) ≡ false
      → (s.shell_current_line == 0) ≡ true
      → make_room walk s ≡ some (running (started p heap s))
  unfolding make_room
  room_start real none_yet = rw (full, call, real, none_yet) refl

  pub room_move :
      (heap' : Kalloc)
      → (p == 0) ≡ false
      → (s.shell_current_line == 0) ≡ false
      → kfree walk s.shell_current_line heap ≡ some heap'
      → make_room walk s ≡ some (running (moved p heap' s))
  unfolding make_room
  room_move heap' real old freed = rw (full, call, real, old, freed) refl

module _ (base : ℕ) (paging : Paging) where
  pub not_null : (live : Live) (s : Kalloc) → Agrees base paging live s → live 0 ≡ none
  not_null live s g = elim (Option-cases (live 0)) [
    | inl e ↦ e
    | inr (n, e) ↦ let h = g.held 0 n e in absurd (omega (arith, h.at))
  ]

  pub started-Roomy :
      (s : Shell) (p : ℕ) (heap : Kalloc) (g : Owns base paging s)
      → Agrees base paging (obtained p (next_capacity s.shell_line_capacity) g.live) heap
      → p ≢ 0
      → s.shell_current_line ≡ 0
      → s.shell_line_capacity ≡ 0
      → Roomy base paging s (started p heap s)
  started-Roomy s p heap g a real none_yet empty =
      let cap = next_capacity s.shell_line_capacity in
      let one : cap ≡ 1 = if_true (s.shell_line_capacity == 0) _ _ (==_refl _ _ empty) in
      let size : s.shell_line_size ≡ 0 = omega (arith, g.size) in
      record {
        owns = record {
          live = obtained p cap g.live;
          agrees = a;
          others = λ q ne. obtained_ne p cap q g.live ne ∙ elim (ℕ_discrete q 0) [
            | yes e ↦ ap g.live e ∙ not_null g.live s.heap g.agrees
            | no far ↦ g.others q (λ e. absurd (far (e ∙ none_yet)))
          ];
          size = omega (arith, one);
          place = inr (obtained_self p cap p g.live real refl);
        };
        room = omega (arith, one);
        size = refl;
        line =
            ap (λ n. read n p s.byte) size
            ∙ sym (ap (λ n. read n s.shell_current_line s.byte) size);
        shift = refl;
      }
