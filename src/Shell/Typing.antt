-- ===== src/Shell/Typing.antt =====
-- What is typed is what is in the line, however often it moves.
use mathlib.Core.Path.{subst}
use ssos.Base.{ℕ, ◌+◌, ◌*◌, ◌%◌, ◌^◌, ◌≤◌, ◌<◌, ◌≡◌, inl, inr, refl, sym, ap, arith, ◌∙◌}
use ssos.Base.{Bool, false, Option, some, List, [], ◌∷◌, ◌++◌, length, Option-cases, Bool-cases}
use ssos.Keyboard.Keys.{KeyboardEvent}
use ssos.Memory.{store_byte}
use ssos.Paging.{Paging}
use ssos.Shell.{Shell, Run, running, letter, char_of, make_room, append, shell_input_callback}
use ssos.Shell.Line.{
  contents, contents-append, typed, type_all, typed_released, typed-letter, typed_other,
  released_step, other_step, flagged,
}
use ssos.Shell.Owner.{Owns, Roomy}
use ssos.Shell.Grown.{make_room-Roomy}

append_assoc : (xs ys zs : List ℕ) → (xs ++ ys) ++ zs ≡ xs ++ (ys ++ zs)
append_assoc [] ys zs = refl
append_assoc (x ∷ xs) ys zs = ap (λ m. x ∷ m) (append_assoc xs ys zs)

append_nil : (xs : List ℕ) → xs ++ [] ≡ xs
append_nil [] = refl
append_nil (x ∷ xs) = ap (λ m. x ∷ m) (append_nil xs)

-- The state behind `s` once the letters `l` are in its line, which is all of the heap that is in use.
pub record Holding (base : ℕ) (paging : Paging) (l : List ℕ) (s s' : Shell) : Type 0 where
  pub owns : Owns base paging s'
  pub size : s'.shell_line_size ≡ s.shell_line_size + length l
  pub line : contents s' ≡ contents s ++ l

-- The callback once there is room.
abbrev with_letter : ℕ → Shell → Shell
with_letter c s = record s {
  byte = store_byte (s.shell_current_line + s.shell_line_size) c s.byte;
  shell_line_size = s.shell_line_size + 1;
}

abbrev shown : ℕ → Shell → Shell
shown c s = record s { put = c ∷ s.put }

module _ (walk : ℕ) (e : KeyboardEvent) (s : Shell) (i : ℕ) (pressed : e.is_released ≡ false)
    (found : letter e.keycode ≡ some i) where
  letter_put :
      (s1 : Shell)
      → make_room walk (shown (char_of s.shell_shift_is_held i) s) ≡ some (running s1)
      → shell_input_callback walk e s
        ≡ some (running (with_letter (char_of s.shell_shift_is_held i) s1))
  unfolding shell_input_callback append
  letter_put s1 room = rw (pressed, found, room) refl

module _ (walk : ℕ) (e : KeyboardEvent) (es : List KeyboardEvent) (s : Shell) where
  run_next :
      (s1 : Shell)
      → shell_input_callback walk e s ≡ some (running s1)
      → type_all walk (e ∷ es) s ≡ type_all walk es s1
  unfolding type_all
  run_next s1 step = rw step refl

module _ (base : ℕ) (paging : Paging) (real : 0 < base) (fits : base + 2 ^ 21 < 2 ^ 64)
    (aligned : base % 2 ^ 21 ≡ 0) (walk : ℕ) (enough : 2 ^ 21 < walk) where
  abbrev pub Outcome : List ℕ → Shell → Option Run → Type 0
  Outcome l s call = (s' : Shell) × (call ≡ some (running s')) × Holding base paging l s s'

  with_letter-Holding :
      (c : ℕ) (s s1 : Shell)
      → Roomy base paging (shown c s) s1
      → Holding base paging (c ∷ []) s (with_letter c s1)
  with_letter-Holding c s s1 r = record {
    owns = record {
      live = r.owns.live;
      agrees = r.owns.agrees;
      others = r.owns.others;
      size = r.room;
      place = r.owns.place;
    };
    size = omega (arith, r.size);
    line = contents-append c s1 ∙ ap (λ l. l ++ c ∷ []) r.line;
  }

  after_letter :
      (c : ℕ) (l : List ℕ) (s s1 s2 : Shell)
      → Holding base paging (c ∷ []) s s1
      → Holding base paging l s1 s2
      → Holding base paging (c ∷ l) s s2
  after_letter c l s s1 s2 h h' = record {
    owns = h'.owns;
    size = omega (arith, h.size, h'.size);
    line = h'.line ∙ ap (λ m. m ++ l) h.line ∙ append_assoc (contents s) (c ∷ []) l;
  }

  -- A step that leaves the line as it is.
  same_line :
      (l l' : List ℕ) (s s1 : Shell) (call call' : Option Run)
      → contents s1 ≡ contents s
      → s1.shell_line_size ≡ s.shell_line_size
      → call ≡ call'
      → l ≡ l'
      → Outcome l' s1 call'
      → Outcome l s call
  same_line l l' s s1 call call' line size e el (s', runs, h) = (
    s',
    e ∙ runs,
    record {
      owns = h.owns;
      size = h.size ∙ omega (arith, size, ap length el);
      line = h.line ∙ ap (λ m. m ++ l') line ∙ ap (λ m. contents s ++ m) (sym el);
    },
  )

  beside_line :
      (s : Shell) (confirmed shift : Bool) (put : List ℕ)
      → Owns base paging s
      → Owns base paging
          (record s { shell_prompt_confirmed = confirmed; shell_shift_is_held = shift; put = put })
  beside_line s confirmed shift put g = record {
    live = g.live;
    agrees = g.agrees;
    others = g.others;
    size = g.size;
    place = g.place;
  }

  pub type_all-Holding :
      (es : List KeyboardEvent) (s : Shell)
      → Owns base paging s
      → (s.shell_line_size + length (typed s.shell_shift_is_held es)) * 2 + 17 ≤ 2 ^ 20
      → Outcome (typed s.shell_shift_is_held es) s (type_all walk es s)
  unfolding type_all typed
  type_all-Holding [] s g small =
      (s, refl, record { owns = g; size = omega arith; line = sym (append_nil (contents s)) })
  type_all-Holding (e ∷ es) s g small = elim (Bool-cases e.is_released) [
    | inl released ↦
        let el = typed_released s.shell_shift_is_held e es released in
        same_line _ _ s s _ _ refl refl (run_next walk e es s s (released_step walk e s released))
          el (type_all-Holding es s g (omega (arith, small, ap length el)))
    | inr pressed ↦ elim (Option-cases (letter e.keycode)) [
      | inl other ↦
          let el = typed_other s.shell_shift_is_held e es pressed other in
          same_line _ _ s (flagged e.keycode s) _ _ refl refl
            (run_next walk e es s (flagged e.keycode s) (other_step walk e s pressed other)) el
            (type_all-Holding es (flagged e.keycode s) (beside_line s _ _ _ g)
              (omega (arith, small, ap length el)))
      | inr (i, found) ↦
          let c = char_of s.shell_shift_is_held i in
          let el = typed-letter s.shell_shift_is_held e es i pressed found in
          let (s1, room, r) =
            make_room-Roomy base paging real fits aligned walk enough (shown c s)
              (beside_line s _ _ _ g) (omega (arith, small, ap length el)) in
          let s2 = with_letter c s1 in
          let h = with_letter-Holding c s s1 r in
          let shifted : typed s2.shell_shift_is_held es ≡ typed s.shell_shift_is_held es =
            ap (λ b. typed b es) r.shift in
          let (s', runs, h') =
            type_all-Holding es s2 h.owns
              (omega (arith, small, ap length el, ap length shifted, h.size)) in
          (
            s',
            run_next walk e es s s2 (letter_put walk e s i pressed found s1 room) ∙ runs,
            subst (λ l. Holding base paging l s s') (ap (λ l. c ∷ l) shifted ∙ sym el)
                (after_letter c (typed s2.shell_shift_is_held es) s s2 s' h h'),
          )
    ]
  ]
