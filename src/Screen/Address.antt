-- ===== src/Screen/Address.antt =====
-- The text that `screen_print_addr` puts on the screen, and a reader of it.
use ssos.Base.{
  ℕ, zero, suc, ◌+◌, ◌-◌, ◌*◌, ◌/◌, ◌%◌, ◌^◌, ◌≤◌, ◌<◌, ◌≡◌, ◌≢◌, refl, sym, ap, arith, ◌∙◌,
}
use ssos.Base.{
  true, ◌&&◌, leb, ltb, ◌==◌, if◌then◌else◌, if_true, if_false, Option, none, some, ◌>>=◌, ==_refl,
  ==_ne,
}
use ssos.Base.{List, [], ◌∷◌, length}
use native.Mathlib.Decide.{ℕ_discrete}
use native.Mathlib.Nat.{pow-suc}
use ssos.Screen.{Screen, screen_putch, screen_print, screen_print_addr, hex_digit, fill_buff}
use ssos.Screen.Print.{is_ascii, bind_ext, screen_print-append}

-- '0' to '9' and 'a' to 'f'.
abbrev pub hex_value : ℕ → Option ℕ
hex_value c =
    if leb 0x30 c && ltb c 0x3A
    then some (c - 0x30)
    else if leb 0x61 c && ltb c 0x67
    then some (c - 0x61 + 10)
    else none

-- The number that the digits spell behind `n`.
abbrev pub hex_number : List ℕ → ℕ → Option ℕ
hex_number [] n = some n
hex_number (c ∷ cs) n = hex_value c >>= λ d. hex_number cs (16 * n + d)

-- "0x" and at least one digit.
abbrev pub read_addr : List ℕ → Option ℕ
read_addr [] = none
read_addr (a ∷ []) = none
read_addr (a ∷ b ∷ []) = none
read_addr (a ∷ b ∷ c ∷ cs) = if (a == 0x30) && (b == 0x78) then hex_number (c ∷ cs) 0 else none

hex_value-hex_digit : (d : ℕ) → d < 16 → hex_value (hex_digit d) ≡ some d
unfolding hex_digit
hex_value-hex_digit d lt = ground arith

hex_digit_ascii : (d : ℕ) → d < 16 → ltb (hex_digit d) 128 ≡ true
unfolding hex_digit
hex_digit_ascii d lt = ground arith

number_step :
    (addr : ℕ) (buff : List ℕ)
    → hex_number (hex_digit (addr % 16) ∷ buff) (addr / 16) ≡ hex_number buff addr
number_step addr buff =
    ap (λ (o : Option ℕ). o >>= λ d. hex_number buff (16 * (addr / 16) + d))
      (hex_value-hex_digit (addr % 16) (omega arith))
    ∙ ap (hex_number buff) (omega arith)

-- What the loop leaves in `buff`: at most `n` digits more, which spell `addr`.
record Filled (n addr : ℕ) (buff text : List ℕ) : Type 0 where
  spells : hex_number text 0 ≡ hex_number buff addr
  short : length text ≤ n + length buff
  ascii : is_ascii buff ≡ true → is_ascii text ≡ true

no_digits :
    (n addr : ℕ) (buff : List ℕ)
    → addr ≡ 0
    → (text : List ℕ) × (fill_buff (suc n) addr buff ≡ some text) × Filled n addr buff text
unfolding fill_buff
no_digits n addr buff e = (
  buff,
  if_true (addr == 0) (some buff) _ (==_refl addr 0 e),
  record { spells = ap (hex_number buff) (sym e); short = omega arith; ascii = λ h. h },
)

fill_buff-Filled :
    (n addr : ℕ) (buff : List ℕ)
    → addr < 16 ^ n
    → (text : List ℕ) × (fill_buff (suc n) addr buff ≡ some text) × Filled n addr buff text
unfolding fill_buff
fill_buff-Filled zero addr buff lt = no_digits zero addr buff (omega arith)
fill_buff-Filled (suc n) addr buff lt = elim (ℕ_discrete addr 0) [
  | yes e ↦ no_digits (suc n) addr buff e
  | no ne ↦
      let rest =
        fill_buff-Filled n (addr / 16) (hex_digit (addr % 16) ∷ buff)
          (omega (arith, pow-suc 16 n)) in
      (
        rest.0,
        if_false (addr == 0) (some buff) _ (==_ne addr 0 ne) ∙ rest.1,
        record {
          spells = rest.2.spells ∙ number_step addr buff;
          short = omega (arith, rest.2.short);
          ascii = λ h. rest.2.ascii (rw (hex_digit_ascii (addr % 16) (omega arith)) h);
        },
      )
]

-- The digits of an address: at least one, at most 16.
record Digits (addr : ℕ) (digits : List ℕ) : Type 0 where
  number : hex_number digits 0 ≡ some addr
  some_digit : 0 < length digits
  few : length digits ≤ 16
  plain : is_ascii digits ≡ true

bind_pair : (o : Option (Screen × (ℕ → ℕ))) → (o >>= λ r. some (r.0, r.1)) ≡ o
bind_pair none = refl
bind_pair (some r) = refl

screen_print-one :
    (ch : ℕ) (s : Screen) (byte : ℕ → ℕ) → screen_print (ch ∷ []) s byte ≡ screen_putch ch s byte
unfolding screen_print
screen_print-one ch s byte = bind_pair (screen_putch ch s byte)

nonempty : (addr : ℕ) (text : List ℕ) → hex_number text 0 ≡ some addr → addr ≢ 0 → 0 < length text
nonempty addr [] e ne = ground (arith, e, ne)
nonempty addr (c ∷ cs) e ne = omega arith

-- What is printed behind "0x".
printed :
    (addr : ℕ)
    → addr < 2 ^ 64
    → (digits : List ℕ) × Digits addr digits
      × ((r : Screen × (ℕ → ℕ))
          → (if addr == 0
              then screen_putch 0x30 r.0 r.1
              else (fill_buff 17 addr [] >>= λ buff. screen_print buff r.0 r.1))
            ≡ screen_print digits r.0 r.1)
printed addr lt = elim (ℕ_discrete addr 0) [
  | yes e ↦ (
    0x30 ∷ [],
    record { number = ap some (sym e); some_digit = omega arith; few = omega arith; plain = refl },
    λ r. if_true (addr == 0) _ _ (==_refl addr 0 e) ∙ sym (screen_print-one 0x30 r.0 r.1),
  )
  | no ne ↦
      let filled = fill_buff-Filled 16 addr [] lt in
      (
        filled.0,
        record {
          number = filled.2.spells;
          some_digit = nonempty addr filled.0 filled.2.spells ne;
          few = omega (arith, filled.2.short);
          plain = filled.2.ascii refl;
        },
        λ r.
            if_false (addr == 0) _ _ (==_ne addr 0 ne)
            ∙ ap (λ (o : Option (List ℕ)). o >>= λ buff. screen_print buff r.0 r.1) filled.1,
      )
]

read_addr-Digits :
    (addr : ℕ) (digits : List ℕ) → Digits addr digits → read_addr (0x30 ∷ 0x78 ∷ digits) ≡ some addr
read_addr-Digits addr [] h = absurd (omega (arith, h.some_digit))
read_addr-Digits addr (c ∷ cs) h = h.number

-- `screen_print_addr`, for every address of 64 bits, prints one and the same text of 3 to 18 ASCII
-- characters on every screen, which spells the address: "0x" and its digits in base 16. The loop that fills `buff` needs no more than 17 tests
-- of `addr`, and puts no more than 16 of the 128 characters there.
pub read_addr-screen_print_addr :
    (addr : ℕ)
    → addr < 2 ^ 64
    → (text : List ℕ) × ((s : Screen) (byte : ℕ → ℕ)
        → screen_print_addr 17 addr s byte ≡ screen_print text s byte)
      × (read_addr text ≡ some addr)
      × (is_ascii text ≡ true)
      × (3 ≤ length text)
      × (length text ≤ 18)
unfolding screen_print_addr
read_addr-screen_print_addr addr lt =
    let found = printed addr lt in
    (
      0x30 ∷ 0x78 ∷ found.0,
      λ s byte.
          bind_ext (screen_print (0x30 ∷ 0x78 ∷ []) s byte) _ _ found.2
          ∙ sym (screen_print-append (0x30 ∷ 0x78 ∷ []) found.0 s byte),
      read_addr-Digits addr found.0 found.1,
      found.1.plain,
      omega (arith, found.1.some_digit),
      omega (arith, found.1.few),
    )
