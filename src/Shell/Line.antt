-- ===== src/Shell/Line.antt =====
-- What is in the line after keys have been typed.
use ssos.Base.{ℕ, zero, suc, ◌+◌, ◌≤◌, ◌≡◌, refl, sym, arith, ap, ◌∙◌, Bool, true, false, ◌||◌}
use ssos.Base.{Option, none, some, ◌>>=◌, List, [], ◌∷◌, ◌++◌, length, ltb_ge, ◌==◌, if◌then◌else◌}
use mathlib.Core.Path.{subst}
use ssos.Base.{inl, inr, Bool-cases, Option-cases, if_true, ==_refl}
use ssos.Keyboard.Keys.{Key, KeyboardEvent}
use ssos.Memory.{store_byte}
use ssos.Shell.Letters.{spelled, shifts, spelled-letter, spelled-none, shifts_lem}
use ssos.Shell.{Shell, Run, running, stopped, letter, char_of, is_shift, is_enter}
use ssos.Shell.{make_room, append, shell_input_callback}

-- The `n` bytes from `addr` on.
abbrev pub read : ℕ → ℕ → (ℕ → ℕ) → List ℕ
read zero addr byte = []
read (suc n) addr byte = byte addr ∷ read n (addr + 1) byte

abbrev pub contents : Shell → List ℕ
contents s = read s.shell_line_size s.shell_current_line s.byte

-- The characters of the letter keys pressed, in ASCII: small until a shift key is first pressed, capitals from then
-- on, whether or not the shift key has been released.
unfoldable pub typed : Bool → List KeyboardEvent → List ℕ
typed held [] = []
typed held (e ∷ es) = if e.is_released then typed held es else elim (spelled held e.keycode) [
  | some c ↦ c ∷ typed held es
  | none ↦ typed (shifts e.keycode || held) es
]

-- The callback for each event, until it stops the machine.
unfoldable pub type_all : ℕ → List KeyboardEvent → Shell → Option Run
type_all walk [] s = some (running s)
type_all walk (e ∷ es) s = shell_input_callback walk e s >>= λ r. elim r [
  | running s' ↦ type_all walk es s'
  | stopped ↦ some stopped
]

read-store_byte :
    (n addr k c : ℕ) (byte : ℕ → ℕ)
    → addr + n ≤ k
    → read n addr (store_byte k c byte) ≡ read n addr byte
unfolding store_byte
read-store_byte zero addr k c byte le = refl
read-store_byte (suc n) addr k c byte le =
    rw (read-store_byte n (addr + 1) k c byte (omega arith)) (ground arith)

read_snoc :
    (n addr : ℕ) (byte : ℕ → ℕ) → read (n + 1) addr byte ≡ read n addr byte ++ byte (addr + n) ∷ []
read_snoc zero addr byte = let e : addr ≡ addr + 0 = omega arith in ap (λ a. byte a ∷ []) e
read_snoc (suc n) addr byte =
    let e : addr + 1 + n ≡ addr + suc n = omega arith in
    let n' : suc n + 1 ≡ suc (n + 1) = omega arith in rw (n', read_snoc n (addr + 1) byte, e) refl

-- The state behind `s` once the letters `l` have been put into its line.
pub record Typed (l : List ℕ) (s s' : Shell) : Type 0 where
  pub line : contents s' ≡ contents s ++ l
  pub size : s'.shell_line_size ≡ s.shell_line_size + length l
  pub capacity : s'.shell_line_capacity ≡ s.shell_line_capacity
  pub place : s'.shell_current_line ≡ s.shell_current_line

pub contents-append :
    (c : ℕ) (s : Shell)
    → read
        (s.shell_line_size + 1)
        s.shell_current_line
        (store_byte (s.shell_current_line + s.shell_line_size) c s.byte)
      ≡ contents s ++ c ∷ []
contents-append c s =
    let addr = s.shell_current_line in
    let n = s.shell_line_size in
    let stored = store_byte (addr + n) c s.byte in
    let same : read n addr stored ≡ read n addr s.byte =
      read-store_byte n addr (addr + n) c s.byte (omega arith) in
    let last : stored (addr + n) ≡ c =
      unfold store_byte in
      if_true (addr + n == addr + n) c (s.byte (addr + n)) (==_refl _ _ refl) in
    read_snoc n addr stored
    ∙ ap (λ l. l ++ stored (addr + n) ∷ []) same
    ∙ ap (λ b. read n addr s.byte ++ b ∷ []) last

-- The states that the three kinds of keys lead to.
abbrev lettered : ℕ → Shell → Shell
lettered c s = record s {
  put = c ∷ s.put;
  byte = store_byte (s.shell_current_line + s.shell_line_size) c s.byte;
  shell_line_size = s.shell_line_size + 1;
}

abbrev pub flagged : Key → Shell → Shell
flagged key s = record s {
  shell_shift_is_held = is_shift key || s.shell_shift_is_held;
  shell_prompt_confirmed = is_enter key || s.shell_prompt_confirmed;
}

module _ (walk : ℕ) (e : KeyboardEvent) (s : Shell) where
  pub released_step : e.is_released ≡ true → shell_input_callback walk e s ≡ some (running s)
  unfolding shell_input_callback
  released_step h = rw h refl

  letter_step :
      (i : ℕ)
      → e.is_released ≡ false
      → letter e.keycode ≡ some i
      → s.shell_line_size + 1 ≤ s.shell_line_capacity
      → shell_input_callback walk e s
        ≡ some (running (lettered (char_of s.shell_shift_is_held i) s))
  unfolding shell_input_callback make_room append
  letter_step i pressed found room =
      rw (pressed, found, ltb_ge s.shell_line_capacity (s.shell_line_size + 1) room) refl

  pub other_step :
      e.is_released ≡ false
      → letter e.keycode ≡ none
      → shell_input_callback walk e s ≡ some (running (flagged e.keycode s))
  unfolding shell_input_callback
  other_step pressed found = rw (pressed, found) refl

  next :
      (es : List KeyboardEvent) (s1 : Shell)
      → shell_input_callback walk e s ≡ some (running s1)
      → type_all walk (e ∷ es) s ≡ type_all walk es s1
  unfolding type_all
  next es s1 step = rw step refl

module _ (held : Bool) (e : KeyboardEvent) (es : List KeyboardEvent) where
  pub typed_released : e.is_released ≡ true → typed held (e ∷ es) ≡ typed held es
  unfolding typed
  typed_released h = rw h refl

  pub typed-letter :
      (i : ℕ)
      → e.is_released ≡ false
      → letter e.keycode ≡ some i
      → typed held (e ∷ es) ≡ char_of held i ∷ typed held es
  unfolding typed
  typed-letter i h found = rw (h, spelled-letter held e.keycode i found) refl

  pub typed_other :
      e.is_released ≡ false
      → letter e.keycode ≡ none
      → typed held (e ∷ es) ≡ typed (is_shift e.keycode || held) es
  unfolding typed
  typed_other h found = rw (h, spelled-none held e.keycode found, shifts_lem e.keycode) refl

lettered-Typed :
    (c : ℕ) (l : List ℕ) (s s' : Shell) → Typed l (lettered c s) s' → Typed (c ∷ l) s s'
lettered-Typed c l s s' t = record {
  line = t.line ∙ ap (λ m. m ++ l) (contents-append c s) ∙ append_assoc (contents s) c l;
  size = t.size ∙ omega arith;
  capacity = t.capacity;
  place = t.place;
}
  where
    append_assoc : (xs : List ℕ) (c : ℕ) (l : List ℕ) → (xs ++ c ∷ []) ++ l ≡ xs ++ c ∷ l
    append_assoc [] c l = refl
    append_assoc (x ∷ xs) c l = ap (λ m. x ∷ m) (append_assoc xs c l)

abbrev Claim : ℕ → List KeyboardEvent → Shell → List ℕ → Type 0
Claim walk es s l =
    s.shell_line_size + length l ≤ s.shell_line_capacity
    → (s' : Shell) × (type_all walk es s ≡ some (running s')) × Typed l s s'

-- In a line with room for all the letters of the keys, the callback never stops the machine, and the
-- line becomes what it was with just those letters behind it, where it is and as long as it is.
pub type_all-Typed :
    (walk : ℕ) (es : List KeyboardEvent) (s : Shell)
    → s.shell_line_size + length (typed s.shell_shift_is_held es) ≤ s.shell_line_capacity
    → (s' : Shell) × (type_all walk es s ≡ some (running s'))
      × Typed (typed s.shell_shift_is_held es) s s'
type_all-Typed walk [] s room = (
  s,
  unfold type_all in refl,
  unfold typed in
      record {
        line = sym (append_nil (contents s));
        size = omega arith;
        capacity = refl;
        place = refl;
      },
)
  where
    append_nil : (xs : List ℕ) → xs ++ [] ≡ xs
    append_nil [] = refl
    append_nil (x ∷ xs) = ap (λ m. x ∷ m) (append_nil xs)
type_all-Typed walk (e ∷ es) s room =
    (elim (Bool-cases e.is_released)
        as (λ _. Claim walk (e ∷ es) s (typed s.shell_shift_is_held (e ∷ es))) [
          | inl released ↦
              subst (Claim walk (e ∷ es) s)
                (sym (typed_released s.shell_shift_is_held e es released))
                (λ room.
                  let (s', run, t) = type_all-Typed walk es s room in
                  (s', next walk e s es s (released_step walk e s released) ∙ run, t))
          | inr pressed ↦ elim (Option-cases (letter e.keycode)) [
            | inl other ↦
                subst (Claim walk (e ∷ es) s)
                  (sym (typed_other s.shell_shift_is_held e es pressed other))
                  (λ room.
                    let (s', run, t) = type_all-Typed walk es (flagged e.keycode s) room in
                    (
                      s',
                      next walk e s es (flagged e.keycode s) (other_step walk e s pressed other)
                          ∙ run,
                      record {
                        line = t.line;
                        size = t.size;
                        capacity = t.capacity;
                        place = t.place;
                      },
                    ))
            | inr (i, found) ↦
                subst (Claim walk (e ∷ es) s)
                  (sym (typed-letter s.shell_shift_is_held e es i pressed found))
                  (λ room.
                    let c = char_of s.shell_shift_is_held i in
                    let (s', run, t) = type_all-Typed walk es (lettered c s) (omega arith) in
                    (
                      s',
                      next walk e s es (lettered c s)
                            (letter_step walk e s i pressed found (omega arith))
                          ∙ run,
                      lettered-Typed c (typed s.shell_shift_is_held es) s s' t,
                    ))
          ]
        ])
      room
