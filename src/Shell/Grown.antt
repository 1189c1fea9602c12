-- ===== src/Shell/Grown.antt =====
-- The line moves to a larger block of the heap when it is full, and keeps its letters.
use native.Mathlib.Decide.{ℕ_discrete, dec_le}
use ssos.Base.{
  ℕ, ◌+◌, ◌-◌, pow_le, ◌*◌, ◌%◌, ◌^◌, ◌≤◌, ◌<◌, ◌≡◌, ◌≢◌, inl, inr, refl, sym, ap, arith, ◌∙◌,
}
use ssos.Base.{Option, none, some, ◌==◌, ==_ne, ==_refl, if_true, if_false, ltb_lt, ltb_ge, u64}
use ssos.Paging.{Paging}
use ssos.Kalloc.{Kalloc}
use ssos.Kalloc.Heap.Client.{
  obtained, given_up, obtained_self, obtained_ne, given_up_self, given_up_ne, Agrees, not_both,
}
use ssos.Kalloc.Heap.Tree.{look}
use ssos.Kalloc.Heap.Alloc.{in_use}
use ssos.Kalloc.Heap.Spare.{OnlyAt, kmalloc-Supplied}
use ssos.Kalloc.Heap.Reach.{kfree-Agrees, Held-apart}
use ssos.Shell.{Shell, Run, running, make_room}
use ssos.Shell.Line.{contents}
use ssos.Shell.Owner.{
  Owns, Roomy, next_capacity, started, moved, room_start, room_move, started-Roomy, read-memcpy,
}

module _ (base : ℕ) (paging : Paging) (real : 0 < base) (fits : base + 2 ^ 21 < 2 ^ 64)
    (aligned : base % 2 ^ 21 ≡ 0) (walk : ℕ) (enough : 2 ^ 21 < walk) where
  module _ (s : Shell) (p : ℕ) (heap : Kalloc) (g : Owns base paging s) (p_real : p ≢ 0)
      (new : g.live p ≡ none) (old : g.live s.shell_current_line ≡ some s.shell_line_capacity)
      (larger : s.shell_line_capacity ≤ next_capacity s.shell_line_capacity)
      (a : Agrees base paging (obtained p (next_capacity s.shell_line_capacity) g.live) heap) where
    other : s.shell_current_line ≢ p
    other = λ e. absurd (not_both (g.live p) s.shell_line_capacity new (ap g.live (sym e) ∙ old))

    still :
        obtained p (next_capacity s.shell_line_capacity) g.live s.shell_current_line
        ≡ some s.shell_line_capacity
    still =
        obtained_ne p (next_capacity s.shell_line_capacity) s.shell_current_line g.live other ∙ old

    moved_line : contents (moved p heap s) ≡ contents s
    moved_line =
        let cap = next_capacity s.shell_line_capacity in
        let h = a.held p cap (obtained_self p cap p g.live p_real refl) in
        let h' = a.held s.shell_current_line s.shell_line_capacity still in
        read-memcpy p s.shell_current_line s.shell_line_size s.byte
          (elim (Held-apart base paging real fits aligned walk enough a.tree p cap
            s.shell_current_line s.shell_line_capacity h h' (λ e. other (sym e))) [
              | inl le ↦ inl (omega arith)
              | inr le ↦ inr (omega (arith, g.size))
            ])

    moved-Roomy :
        (heap' : Kalloc)
        → s.shell_line_size + 1 ≤ next_capacity s.shell_line_capacity
        → Agrees base paging
            (given_up s.shell_current_line
              (obtained p (next_capacity s.shell_line_capacity) g.live))
            heap'
        → Roomy base paging s (moved p heap' s)
    moved-Roomy heap' room a' =
        let cap = next_capacity s.shell_line_capacity in
        let live1 = obtained p cap g.live in
        record {
          owns = record {
            live = given_up s.shell_current_line live1;
            agrees = a';
            others = λ q ne. elim (ℕ_discrete q s.shell_current_line) [
              | yes e ↦ given_up_self s.shell_current_line q live1 e
              | no far ↦
                  given_up_ne s.shell_current_line q live1 far
                  ∙ obtained_ne p cap q g.live ne
                  ∙ g.others q far
            ];
            size = omega arith;
            place = inr (
                given_up_ne s.shell_current_line p live1 (λ e. other (sym e))
                ∙ obtained_self p cap p g.live p_real refl);
          };
          room = room;
          size = refl;
          line = moved_line;
          shift = refl;
        }

  -- Room for one more letter.
  abbrev pub RoomMade : Shell → Option Run → Type 0
  RoomMade s call = (s' : Shell) × (call ≡ some (running s')) × Roomy base paging s s'

  -- The block of the line is all that is in use, and it is not the whole page.
  Owns-OnlyAt :
      (s : Shell) (g : Owns base paging s)
      → s.shell_line_capacity + 16 ≤ 2 ^ 20
      → OnlyAt base (s.shell_current_line - 16) g.agrees.tree
  Owns-OnlyAt s g small y k e =
      let (n, on) = g.agrees.kept y k e in
      elim (ℕ_discrete (y + 16) s.shell_current_line) [
        | no ne ↦ absurd (not_both (g.live (y + 16)) n (g.others (y + 16) ne) on)
        | yes at ↦ elim g.place [
          | inl (none_yet, empty) ↦ absurd (omega arith)
          | inr old ↦
              let h = g.agrees.held s.shell_current_line s.shell_line_capacity old in
              let same : h.block ≡ y = omega (arith, h.at) in
              let level : some k ≡ some h.level =
                sym e ∙ ap (λ b. in_use (look 18 g.agrees.tree base b)) (sym same) ∙ h.taken in
              (
                omega arith,
                elim (dec_le h.level 17) [
                  | yes le ↦ ground (arith, level, le)
                  | no gt ↦ absurd (omega (arith, h.close, pow_le 21 (h.level + 3) (omega arith)))
                ],
              )
        ]
      ]

  make_room-enough :
      (s : Shell)
      → s.shell_line_size + 1 ≤ s.shell_line_capacity
      → make_room walk s ≡ some (running s)
  unfolding make_room
  make_room-enough s room = rw (ltb_ge s.shell_line_capacity (s.shell_line_size + 1) room) refl

  grown_capacity :
      (c : ℕ) → c * 2 + 17 ≤ 2 ^ 20 → (c + 1 ≤ next_capacity c) × (next_capacity c + 16 ≤ 2 ^ 20)
  grown_capacity c small = elim (ℕ_discrete c 0) [
    | yes e ↦
        let one : next_capacity c ≡ 1 = if_true (c == 0) _ _ (==_refl c 0 e) in
        (omega arith, omega arith)
    | no ne ↦
        let more : next_capacity c ≡ u64 (c * 2 + 1) = if_false (c == 0) _ _ (==_ne c 0 ne) in
        (omega arith, omega arith)
  ]

  make_room-full :
      (s : Shell)
      → Owns base paging s
      → s.shell_line_size ≡ s.shell_line_capacity
      → s.shell_line_capacity * 2 + 17 ≤ 2 ^ 20
      → RoomMade s (make_room walk s)
  make_room-full s g same small =
      let cap = next_capacity s.shell_line_capacity in
      let (larger, fits_cap) = grown_capacity s.shell_line_capacity small in
      let (p, heap, call, p_real, new, a) =
        kmalloc-Supplied base paging real fits cap (s.shell_current_line - 16) g.live s.heap
          (omega arith) fits_cap g.agrees (Owns-OnlyAt s g (omega arith)) in
      let full = ltb_lt s.shell_line_capacity (s.shell_line_size + 1) (omega arith) in
      elim g.place [
        | inl (none_yet, empty) ↦ (
          started p heap s,
          room_start walk s p heap full call (==_ne p 0 p_real) (==_refl _ _ none_yet),
          started-Roomy base paging s p heap g a p_real none_yet empty,
        )
        | inr old ↦
            let kept = still s p heap g p_real new old (omega arith) a in
            let held = a.held s.shell_current_line s.shell_line_capacity kept in
            let (heap', freed, a') =
              kfree-Agrees base paging real fits aligned walk enough s.shell_current_line
                (obtained p cap g.live) heap (inr (s.shell_line_capacity, kept)) a in
            (
              moved p heap' s,
              room_move walk s p heap full call heap' (==_ne p 0 p_real)
                  (==_ne s.shell_current_line 0 (λ e. absurd (omega (arith, held.at)))) freed,
              moved-Roomy s p heap g p_real new old (omega arith) a heap' (omega arith) a',
            )
      ]

  pub make_room-Roomy :
      (s : Shell)
      → Owns base paging s
      → s.shell_line_size * 2 + 17 ≤ 2 ^ 20
      → RoomMade s (make_room walk s)
  make_room-Roomy s g small = elim (dec_le (s.shell_line_size + 1) s.shell_line_capacity) [
    | yes room ↦ (
      s,
      make_room-enough s room,
      record { owns = g; room = room; size = refl; line = refl; shift = refl },
    )
    | no full ↦ make_room-full s g (omega (arith, g.size)) (omega (arith, g.size))
  ]
