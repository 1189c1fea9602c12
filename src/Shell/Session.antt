-- ===== src/Shell/Session.antt =====
-- A line from its first letter to its end: what is typed is what is in it, and its memory is given back.
use native.Mathlib.Decide.{ℕ_discrete}
use mathlib.Core.Path.{subst}
use ssos.Base.{ℕ, ◌+◌, ◌*◌, ◌%◌, ◌^◌, ◌≤◌, ◌<◌, ◌≡◌, inl, inr, refl, sym, ap, arith, ◌∙◌}
use ssos.Base.{true, false, none, some, List, [], ◌++◌, length, ◌==◌, ==_ne, ==_refl}
use ssos.Keyboard.Keys.{KeyboardEvent}
use ssos.Paging.{Paging}
use ssos.Kalloc.{Kalloc, kfree}
use ssos.Kalloc.Undo.Page.{IsFresh}
use ssos.Kalloc.Heap.Client.{given_up, given_up_self, given_up_ne}
use ssos.Kalloc.Heap.Reach.{kfree-Agrees, IsFresh-Agrees, Agrees-IsFresh}
use ssos.Shell.{Shell, running, shell_reset_prompt_buffer}
use ssos.Shell.Line.{read, contents, typed, type_all}
use ssos.Shell.Owner.{IsEmpty, Owns, not_null}
use ssos.Shell.Typing.{type_all-Holding}

-- No line any more.
abbrev cleared : Kalloc → Shell → Shell
cleared heap s = record s {
  shell_line_capacity = 0;
  shell_line_size = 0;
  shell_current_line = 0;
  heap = heap;
}

module _ (base : ℕ) (paging : Paging) (real : 0 < base) (fits : base + 2 ^ 21 < 2 ^ 64)
    (aligned : base % 2 ^ 21 ≡ 0) (walk : ℕ) (enough : 2 ^ 21 < walk) where
  reset_none :
      (s : Shell)
      → (s.shell_current_line == 0) ≡ true
      → (s' : Shell) × (shell_reset_prompt_buffer walk s ≡ some s')
        × IsEmpty s'
        × (s'.heap ≡ s.heap)
  unfolding shell_reset_prompt_buffer
  reset_none s empty =
      (cleared s.heap s, rw empty refl, record { line = refl; capacity = refl; size = refl }, refl)

  reset_line :
      (s : Shell) (heap : Kalloc)
      → (s.shell_current_line == 0) ≡ false
      → kfree walk s.shell_current_line s.heap ≡ some heap
      → (s' : Shell) × (shell_reset_prompt_buffer walk s ≡ some s') × IsEmpty s' × (s'.heap ≡ heap)
  unfolding shell_reset_prompt_buffer
  reset_line s heap line freed = (
    cleared heap s,
    rw (line, freed) refl,
    record { line = refl; capacity = refl; size = refl },
    refl,
  )

  reset-Owns :
      (s : Shell)
      → Owns base paging s
      → (s' : Shell) × (shell_reset_prompt_buffer walk s ≡ some s')
        × IsEmpty s'
        × IsFresh base paging s'.heap
  reset-Owns s g = elim g.place [
    | inl (none_yet, empty) ↦
        let (s', runs, is_empty, same) = reset_none s (==_refl _ _ none_yet) in
        let unheld : (p : ℕ) → g.live p ≡ none = λ p. unheld_at p none_yet in
        (
          s',
          runs,
          is_empty,
          subst (IsFresh base paging) (sym same) (
              Agrees-IsFresh base paging real fits aligned walk enough s.heap g.live g.agrees
                unheld),
        )
    | inr on ↦
        let h = g.agrees.held s.shell_current_line s.shell_line_capacity on in
        let (heap, freed, a) =
          kfree-Agrees base paging real fits aligned walk enough s.shell_current_line g.live s.heap
            (inr (s.shell_line_capacity, on)) g.agrees in
        let (s', runs, is_empty, same) =
          reset_line s heap (==_ne s.shell_current_line 0 (λ e. absurd (omega (arith, h.at))))
            freed in
        (
          s',
          runs,
          is_empty,
          subst (IsFresh base paging) (sym same) (
              Agrees-IsFresh base paging real fits aligned walk enough heap
                (given_up s.shell_current_line g.live) a
                (λ p. elim (ℕ_discrete p s.shell_current_line) [
                  | yes e ↦ given_up_self s.shell_current_line p g.live e
                  | no ne ↦ given_up_ne s.shell_current_line p g.live ne ∙ g.others p ne
                ])),
        )
  ]
    where
      unheld_at : (p : ℕ) → s.shell_current_line ≡ 0 → g.live p ≡ none
      unheld_at p none_yet = elim (ℕ_discrete p 0) [
        | yes e ↦ ap g.live e ∙ not_null base paging g.live s.heap g.agrees
        | no ne ↦ g.others p (λ e. absurd (ne (e ∙ none_yet)))
      ]

  empty-Owns : (s : Shell) → IsEmpty s → IsFresh base paging s.heap → Owns base paging s
  empty-Owns s e f = record {
    live = λ p. none;
    agrees = IsFresh-Agrees base paging real fits aligned walk enough s.heap f;
    others = λ p ne. refl;
    size = omega (arith, e.size, e.capacity);
    place = inl (e.line, e.capacity);
  }

  -- On a page at a base other than 0 that is a multiple of 2^21, with base + 2^21 below 2^64, which is
  -- free as a whole, with fuel above 2^21 for the walks of kfree, and with no line yet: for every
  -- sequence of keys whose letters, counted twice and 17 more, are at most 2^20, the callback is
  -- defined for one after the other and never stops the machine, and the line then holds just the
  -- letters typed, however often it has moved to a larger block; and shell_reset_prompt_buffer then
  -- leaves no line, and the page free as a whole.
  pub shell_reset_prompt_buffer-type_all :
      (es : List KeyboardEvent) (s : Shell)
      → IsEmpty s
      → IsFresh base paging s.heap
      → length (typed s.shell_shift_is_held es) * 2 + 17 ≤ 2 ^ 20
      → (s1 : Shell) × (s2 : Shell) × (type_all walk es s ≡ some (running s1))
        × (contents s1 ≡ typed s.shell_shift_is_held es)
        × (shell_reset_prompt_buffer walk s1 ≡ some s2)
        × IsEmpty s2
        × IsFresh base paging s2.heap
  shell_reset_prompt_buffer-type_all es s e f small =
      let (s1, runs, h) =
        type_all-Holding base paging real fits aligned walk enough es s (empty-Owns s e f)
          (omega (arith, e.size, small)) in
      let (s2, freed, is_empty, fresh) = reset-Owns s1 h.owns in
      let nothing : contents s ≡ [] = ap (λ n. read n s.shell_current_line s.byte) e.size in
      (
        s1,
        s2,
        runs,
        h.line ∙ ap (λ l. l ++ typed s.shell_shift_is_held es) nothing,
        freed,
        is_empty,
        fresh,
      )
