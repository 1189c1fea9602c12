-- ===== src/Gpt/Header.antt =====
-- What the tests of `gpt_init` accept.
use ssos.Base.{ℕ, zero, suc, ◌+◌, ◌≤◌, ◌<◌, ◌≡◌, ◌↔◌, refl, sym, ap, arith, ◌∙◌}
use ssos.Base.{Bool, true, false, not, ◌&&◌, leb, ltb, if◌then◌else◌, ==_iff, ==_refl, pos, negsuc}
use ssos.BitMath.{calculate_ccitt32_ansi_crc32}
use ssos.Gpt.{read_le, bytes_at, check_header}

-- The header with its checksum set to 0.
abbrev pub without_checksum : (ℕ → ℕ) → ℕ → ℕ
without_checksum h k = if leb 0x10 k && ltb k 0x14 then 0 else h k

-- A header of revision 1.0, whose bytes are `h`: "EFI PART", the revision, a size of 92 bytes, the checksum
-- of these without itself, and its own place on the disk.
pub record IsHeader (h : ℕ → ℕ) : Type 0 where
  pub signature : read_le 8 0x00 h ≡ 0x5452415020494645
  pub gpt_revision : read_le 4 0x08 h ≡ 0x00010000
  pub header_size : read_le 4 0x0C h ≡ 92
  pub crc32_header :
      calculate_ccitt32_ansi_crc32 (bytes_at 92 0 (without_checksum h)) ≡ read_le 4 0x10 h
  pub curr_lba : read_le 8 0x18 h ≡ 1

pub read_le_ext :
    (n a b : ℕ) (byte h : ℕ → ℕ)
    → ((j : ℕ) → j < n → byte (a + j) ≡ h (b + j))
    → read_le n a byte ≡ read_le n b h
unfolding read_le
read_le_ext zero a b byte h e = refl
read_le_ext (suc n) a b byte h e =
    let first : byte (a + 0) ≡ h (b + 0) = e 0 (omega arith) in
    let rest : read_le n (a + 1) byte ≡ read_le n (b + 1) h =
      read_le_ext n (a + 1) (b + 1) byte h
        (λ j lt. ap byte (omega arith) ∙ e (suc j) (omega arith) ∙ ap h (omega arith)) in
    ground (arith, first, rest)

pub bytes_at_ext :
    (n a b : ℕ) (byte h : ℕ → ℕ)
    → ((j : ℕ) → j < n → byte (a + j) ≡ h (b + j))
    → bytes_at n a byte ≡ bytes_at n b h
unfolding bytes_at
bytes_at_ext zero a b byte h e = refl
bytes_at_ext (suc n) a b byte h e =
    let first : byte a ≡ h b = ap byte (omega arith) ∙ e 0 (omega arith) ∙ ap h (omega arith) in
    let rest : bytes_at n (a + 1) byte ≡ bytes_at n (b + 1) h =
      bytes_at_ext n (a + 1) (b + 1) byte h
        (λ j lt. ap byte (omega arith) ∙ e (suc j) (omega arith) ∙ ap h (omega arith)) in
    cc (first, rest)

-- All tests passed.
verdict :
    (s r z c l : Bool)
    → (if not s
        then negsuc 2
        else if not r
        then negsuc 3
        else if not z
        then negsuc 4
        else if not c
        then negsuc 5
        else if not l
        then negsuc 6
        else pos 0)
      ≡ pos 0
    → (s ≡ true) × (r ≡ true) × (z ≡ true) × (c ≡ true) × (l ≡ true)
verdict true true true true true e = (refl, refl, refl, refl, refl)
verdict true true true true false e = ground (arith, e)
verdict true true true false l e = ground (arith, e)
verdict true true false c l e = ground (arith, e)
verdict true false z c l e = ground (arith, e)
verdict false r z c l e = ground (arith, e)

passing :
    (s r z c l : Bool)
    → s ≡ true
    → r ≡ true
    → z ≡ true
    → c ≡ true
    → l ≡ true
    → (if not s
        then negsuc 2
        else if not r
        then negsuc 3
        else if not z
        then negsuc 4
        else if not c
        then negsuc 5
        else if not l
        then negsuc 6
        else pos 0)
      ≡ pos 0
passing s r z c l es er ez ec el = rw (es, er, ez, ec, el) refl

module _ (p : ℕ) (h byte zeroed : ℕ → ℕ) (same : (k : ℕ) → k < 512 → byte (p + k) ≡ h k)
    (cleared : (k : ℕ) → k < 512 → zeroed (p + k) ≡ without_checksum h k) where
  field : (n off : ℕ) → off + n ≤ 512 → read_le n (p + off) byte ≡ read_le n off h
  field n off le =
      read_le_ext n (p + off) off byte h
        (λ j lt. ap byte (omega arith) ∙ same (off + j) (omega arith))

  curr : read_le 8 (p + 0x18) zeroed ≡ read_le 8 0x18 h
  curr =
      read_le_ext 8 (p + 0x18) 0x18 zeroed h
        (λ j lt. ap zeroed (omega arith) ∙ cleared (0x18 + j) (omega arith) ∙ ground arith)

  sum :
      (size : ℕ)
      → size ≡ 92
      → calculate_ccitt32_ansi_crc32 (bytes_at size p zeroed)
        ≡ calculate_ccitt32_ansi_crc32 (bytes_at 92 0 (without_checksum h))
  sum size e =
      ap (λ (n : ℕ). calculate_ccitt32_ansi_crc32 (bytes_at n p zeroed)) e
      ∙ ap calculate_ccitt32_ansi_crc32 (
          bytes_at_ext 92 p 0 zeroed (without_checksum h) (λ j lt.
            let there : j ≡ 0 + j = omega arith in
            cleared j (omega arith) ∙ ap (without_checksum h) there))

  pub check_header_iff : (check_header p byte zeroed ≡ pos 0) ↔ IsHeader h
  unfolding check_header
  check_header_iff = (accepted, passed)
    where
      accepted : check_header p byte zeroed ≡ pos 0 → IsHeader h
      accepted e =
          let (s, r, z, c, l) = verdict _ _ _ _ _ e in
          let size = (==_iff (read_le 4 (p + 0x0C) byte) 92).0 z in
          record {
            signature =
                sym (field 8 0x00 (omega arith))
                ∙ (==_iff (read_le 8 (p + 0x00) byte) 0x5452415020494645).0 s;
            gpt_revision =
                sym (field 4 0x08 (omega arith))
                ∙ (==_iff (read_le 4 (p + 0x08) byte) 0x00010000).0 r;
            header_size = sym (field 4 0x0C (omega arith)) ∙ size;
            crc32_header =
                sym (sum (read_le 4 (p + 0x0C) byte) size)
                ∙ (==_iff _ (read_le 4 (p + 0x10) byte)).0 c
                ∙ field 4 0x10 (omega arith);
            curr_lba = sym curr ∙ (==_iff (read_le 8 (p + 0x18) zeroed) 1).0 l;
          }

      passed : IsHeader h → check_header p byte zeroed ≡ pos 0
      passed v =
          let size = field 4 0x0C (omega arith) ∙ v.header_size in
          passing _ _ _ _ _
            (==_refl (read_le 8 (p + 0x00) byte) 0x5452415020494645
              (field 8 0x00 (omega arith) ∙ v.signature))
            (==_refl (read_le 4 (p + 0x08) byte) 0x00010000
              (field 4 0x08 (omega arith) ∙ v.gpt_revision))
            (==_refl (read_le 4 (p + 0x0C) byte) 92 size)
            (==_refl _ (read_le 4 (p + 0x10) byte) (
              sum (read_le 4 (p + 0x0C) byte) size
              ∙ v.crc32_header
              ∙ sym (field 4 0x10 (omega arith))))
            (==_refl (read_le 8 (p + 0x18) zeroed) 1 (curr ∙ v.curr_lba))
