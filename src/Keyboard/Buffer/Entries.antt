-- ===== src/Keyboard/Buffer/Entries.antt =====
-- A run of entries of the circular buffer, as a list.
use ssos.Base.{ℕ, zero, suc, ◌+◌, ◌%◌, ◌<◌, ◌≡◌, ◌≢◌, refl, arith, ap, List, [], ◌∷◌, ◌++◌}
use ssos.Base.{length, get_or, set, get_or-set_ne}
use ssos.Keyboard.Keys.{KeyboardEvent}
use ssos.Keyboard.Translate.{no_event}

-- The `n` entries from `start` on, round the end.
abbrev pub entries : List KeyboardEvent → ℕ → ℕ → List KeyboardEvent
entries buff start zero = []
entries buff start (suc n) = get_or buff (start % 24) no_event ∷ entries buff (start + 1) n

pub length-entries : (buff : List KeyboardEvent) (start n : ℕ) → length (entries buff start n) ≡ n
length-entries buff start zero = refl
length-entries buff start (suc n) = ap suc (length-entries buff (start + 1) n)

pub entries-snoc :
    (buff : List KeyboardEvent) (start n : ℕ)
    → entries buff start (suc n)
      ≡ entries buff start n ++ get_or buff ((start + n) % 24) no_event ∷ []
entries-snoc buff start zero = ap (λ k. get_or buff (k % 24) no_event ∷ []) (omega arith)
entries-snoc buff start (suc n) =
    let same : start + 1 + n ≡ start + suc n = omega arith in
    ap (◌∷◌ (get_or buff (start % 24) no_event)) (rw same at (entries-snoc buff (start + 1) n))

-- A write outside the run leaves it alone.
pub entries-set :
    (buff : List KeyboardEvent) (i : ℕ) (e : KeyboardEvent) (start n : ℕ)
    → ((j : ℕ) → j < n → i ≢ (start + j) % 24)
    → entries (set buff i e) start n ≡ entries buff start n
entries-set buff i e start zero h = refl
entries-set buff i e start (suc n) h = rw (
  get_or-set_ne buff i (start % 24) e no_event (λ p. h 0 (omega arith) (omega arith)),
  entries-set buff i e (start + 1) n λ j lt p. h (suc j) (omega arith) (omega arith),
)

-- Starting a whole turn further on is the same run.
pub entries-turn :
    (buff : List KeyboardEvent) (a b n : ℕ) → a % 24 ≡ b % 24 → entries buff a n ≡ entries buff b n
entries-turn buff a b zero h = refl
entries-turn buff a b (suc n) h = rw (h, entries-turn buff (a + 1) (b + 1) n (omega arith))
