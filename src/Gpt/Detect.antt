-- ===== src/Gpt/Detect.antt =====
-- A damaged header is not accepted.
use ssos.Base.{
  ℕ, zero, suc, ◌+◌, ◌-◌, ◌≤◌, ◌<◌, ◌≡◌, ◌≢◌, ◌⊎◌, inl, inr, refl, sym, ap, arith, ◌∙◌, List, ◌∷◌,
  ◌++◌,
}
use ssos.Base.{Bool-cases, pos, leb, ltb, ◌&&◌}
use ssos.BitMath.{calculate_ccitt32_ansi_crc32}
use ssos.BitMath.Detect.{IsBytes, no_bytes, more_bytes, calculate_ccitt32_ansi_crc32-ne}
use ssos.Memory.{memset}
use ssos.Gpt.Init.{checksum_cleared}
use ssos.Gpt.{read_le, bytes_at, check_header}
use ssos.Gpt.Header.{without_checksum, IsHeader, check_header_iff, read_le_ext, bytes_at_ext}

bytes_at-IsBytes : (n a : ℕ) (h : ℕ → ℕ) → ((k : ℕ) → h k < 256) → IsBytes (bytes_at n a h)
unfolding bytes_at
bytes_at-IsBytes zero a h lt = no_bytes
bytes_at-IsBytes (suc n) a h lt = more_bytes (lt a) (bytes_at-IsBytes n (a + 1) h lt)

bytes_at_move : (n a b : ℕ) (h : ℕ → ℕ) → a ≡ b → bytes_at n a h ≡ bytes_at n b h
bytes_at_move n a b h e = ap (λ (t : ℕ). bytes_at n t h) e

-- The bytes around the byte `k`.
bytes_at_split :
    (k m a : ℕ) (h : ℕ → ℕ)
    → bytes_at (suc (k + m)) a h ≡ bytes_at k a h ++ (h (a + k) ∷ bytes_at m (a + k + 1) h)
unfolding bytes_at
bytes_at_split zero m a h =
    let first : h a ≡ h (a + 0) = ap h (omega arith) in
    let rest : bytes_at (0 + m) (a + 1) h ≡ bytes_at m (a + 0 + 1) h =
      ap (λ (t : ℕ). bytes_at t (a + 1) h) (omega arith)
      ∙ bytes_at_move m (a + 1) (a + 0 + 1) h (omega arith) in
    cc (first, rest)
bytes_at_split (suc k) m a h =
    let here : h (a + 1 + k) ≡ h (a + suc k) = ap h (omega arith) in
    let count : bytes_at (suc k + m) (a + 1) h ≡ bytes_at (suc (k + m)) (a + 1) h =
      ap (λ (t : ℕ). bytes_at t (a + 1) h) {x = suc k + m} {y = suc (k + m)} (omega arith) in
    let rest = bytes_at_move m (a + 1 + k + 1) (a + suc k + 1) h (omega arith) in
    ap (λ (l : List ℕ). h a ∷ l)
      (count
        ∙ bytes_at_split k m (a + 1) h
        ∙ ap (λ (l : List ℕ). bytes_at k (a + 1) h ++ l) (cc (here, rest)))

-- The bytes that the checksum is of, around the byte `k`.
around :
    (h : ℕ → ℕ) (k : ℕ)
    → k < 92
    → (k < 0x10) ⊎ (0x14 ≤ k)
    → bytes_at 92 0 (without_checksum h)
      ≡ bytes_at k 0 (without_checksum h) ++ (h k ∷ bytes_at (91 - k) (k + 1) (without_checksum h))
around h k lt out =
    let count : 92 ≡ suc (k + (91 - k)) = omega arith in
    let here : without_checksum h (0 + k) ≡ h k =
      ground (arith, out, ap h {x = 0 + k} {y = k} (omega arith)) in
    let rest = bytes_at_move (91 - k) (0 + k + 1) (k + 1) (without_checksum h) (omega arith) in
    ap (λ (n : ℕ). bytes_at n 0 (without_checksum h)) count
    ∙ bytes_at_split k (91 - k) 0 (without_checksum h)
    ∙ ap (λ (l : List ℕ). bytes_at k 0 (without_checksum h) ++ l) (cc (here, rest))

-- Integers are equal just when their bytes are.
read_le-byte :
    (n a j : ℕ) (h h' : ℕ → ℕ)
    → ((k : ℕ) → h k < 256)
    → ((k : ℕ) → h' k < 256)
    → j < n
    → read_le n a h ≡ read_le n a h'
    → h (a + j) ≡ h' (a + j)
unfolding read_le
read_le-byte zero a j h h' b b' lt e = absurd (omega arith)
read_le-byte (suc n) a zero h h' b b' lt e =
    let first : h a ≡ h' a = omega (arith, e, b a, b' a) in
    ap h {x = a + 0} {y = a} (omega arith) ∙ first ∙ ap h' {x = a} {y = a + 0} (omega arith)
read_le-byte (suc n) a (suc j) h h' b b' lt e =
    ap h {x = a + suc j} {y = a + 1 + j} (omega arith)
    ∙ read_le-byte n (a + 1) j h h' b b' (omega arith) (omega (arith, e, b a, b' a))
    ∙ ap h' {x = a + 1 + j} {y = a + suc j} (omega arith)

module _ (h h' : ℕ → ℕ) (k : ℕ) (same : (j : ℕ) → j ≢ k → h j ≡ h' j) where
  elsewhere : (j : ℕ) → j ≢ k → without_checksum h j ≡ without_checksum h' j
  elsewhere j ne = ground (arith, same j ne)

  IsHeader-data :
      ((j : ℕ) → h j < 256)
      → ((j : ℕ) → h' j < 256)
      → k < 92
      → (k < 0x10) ⊎ (0x14 ≤ k)
      → h k ≢ h' k
      → IsHeader h
      → ¬ IsHeader h'
  IsHeader-data b b' lt out ne v v' =
      let l = bytes_at k 0 (without_checksum h) in
      let m = bytes_at (91 - k) (k + 1) (without_checksum h) in
      let before : bytes_at k 0 (without_checksum h') ≡ l =
        bytes_at_ext k 0 0 (without_checksum h') (without_checksum h)
          (λ j lj. sym (elsewhere (0 + j) (omega arith))) in
      let after : bytes_at (91 - k) (k + 1) (without_checksum h') ≡ m =
        bytes_at_ext (91 - k) (k + 1) (k + 1) (without_checksum h') (without_checksum h)
          (λ j lj. sym (elsewhere (k + 1 + j) (omega arith))) in
      let field : read_le 4 0x10 h ≡ read_le 4 0x10 h' =
        read_le_ext 4 0x10 0x10 h h' (λ j lj. same (0x10 + j) (ground (arith, out))) in
      let other : bytes_at 92 0 (without_checksum h') ≡ l ++ (h' k ∷ m) =
        around h' k lt out ∙ cc (before, after) in
      calculate_ccitt32_ansi_crc32-ne l m (h k) (h' k)
        (bytes_at-IsBytes k 0 (without_checksum h) (cleared h b))
        (bytes_at-IsBytes (91 - k) (k + 1) (without_checksum h) (cleared h b)) (b k) (b' k) ne
        (ap calculate_ccitt32_ansi_crc32 (sym (around h k lt out))
          ∙ v.crc32_header
          ∙ field
          ∙ sym v'.crc32_header
          ∙ ap calculate_ccitt32_ansi_crc32 other)
    where
      cleared : (h : ℕ → ℕ) → ((j : ℕ) → h j < 256) → (j : ℕ) → without_checksum h j < 256
      cleared h b j = ground (arith, b j)

  -- A byte of the checksum itself.
  IsHeader-checksum :
      ((j : ℕ) → h j < 256)
      → ((j : ℕ) → h' j < 256)
      → 0x10 ≤ k
      → k < 0x14
      → h k ≢ h' k
      → IsHeader h
      → ¬ IsHeader h'
  IsHeader-checksum b b' le lt ne v v' =
      let there : 0x10 + (k - 0x10) ≡ k = omega arith in
      let data_same : bytes_at 92 0 (without_checksum h) ≡ bytes_at 92 0 (without_checksum h') =
        bytes_at_ext 92 0 0 (without_checksum h) (without_checksum h')
          (λ j lj. ground (arith, same (0 + j))) in
      let found : h (0x10 + (k - 0x10)) ≡ h' (0x10 + (k - 0x10)) =
        read_le-byte 4 0x10 (k - 0x10) h h' b b' (omega arith)
          (sym v.crc32_header ∙ ap calculate_ccitt32_ansi_crc32 data_same ∙ v'.crc32_header) in
      ne (sym (ap h there) ∙ found ∙ ap h' there)

-- No change of a single byte of an accepted header is accepted: where the tests pass on the 92 bytes at
-- `p`, with the checksum set to 0 for the second reading, they fail on memory that differs in one of these
-- bytes, any of them, and nowhere else.
pub check_header-changed :
    (p k : ℕ) (byte byte' : ℕ → ℕ)
    → ((a : ℕ) → byte a < 256)
    → ((a : ℕ) → byte' a < 256)
    → k < 92
    → ((a : ℕ) → a ≢ p + k → byte a ≡ byte' a)
    → byte (p + k) ≢ byte' (p + k)
    → check_header p byte (memset (p + 0x10) 0 4 byte) ≡ pos 0
    → check_header p byte' (memset (p + 0x10) 0 4 byte') ≢ pos 0
check_header-changed p k byte byte' b b' lt same ne accepted accepted' =
    let h : ℕ → ℕ = λ j. byte (p + j) in
    let h' : ℕ → ℕ = λ j. byte' (p + j) in
    let apart : (j : ℕ) → j ≢ k → h j ≡ h' j = λ j d. same (p + j) (omega arith) in
    let valid : (m : ℕ → ℕ)
        → check_header p m (memset (p + 0x10) 0 4 m) ≡ pos 0
        → IsHeader (λ j. m (p + j)) =
      λ m e.
        (check_header_iff p (λ j. m (p + j)) m (memset (p + 0x10) 0 4 m) (λ j lj. refl)
            (checksum_cleared p (λ j. m (p + j)) m (λ j lj. refl))).0
          e in
    elim (Bool-cases (leb 0x10 k && ltb k 0x14)) [
      | inl e ↦
          IsHeader-checksum h h' k apart (λ j. b (p + j)) (λ j. b' (p + j)) (ground (arith, e))
            (ground (arith, e)) ne (valid byte accepted) (valid byte' accepted')
      | inr e ↦
          IsHeader-data h h' k apart (λ j. b (p + j)) (λ j. b' (p + j)) lt (ground (arith, e)) ne
            (valid byte accepted) (valid byte' accepted')
    ]
