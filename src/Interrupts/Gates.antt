-- ===== src/Interrupts/Gates.antt =====
-- The gates that `idt_init` writes.
use ssos.Base.{
  ℕ, zero, suc, ◌+◌, ◌*◌, ◌/◌, ◌^◌, ◌≤◌, ◌<◌, ◌≡◌, ◌≢◌, ◌⊎◌, inl, refl, sym, arith, ◌∙◌,
}
use ssos.Base.{List, some, get_or, length}
use ssos.Base.{length-set, get_or-set_self, get_or-set_ne, get_elem?-eq-get_or, bit_and-ones_mod}
use mathlib.Core.Path.{subst}
use native.Mathlib.Decide.{ℕ_discrete}
use ssos.Interrupts.{IdtEntry, Idtr, idt_set_descriptor, set_vectors, idt_init}

-- An empty entry, for reads outside the table.
abbrev pub no_entry : IdtEntry
no_entry = record {
  isr_low = 0;
  kernel_cs = 0;
  ist = 0;
  attributes = 0;
  isr_mid = 0;
  isr_high = 0;
  reserved = 0;
}

-- The address that the processor calls.
abbrev pub isr_of : IdtEntry → ℕ
isr_of e = e.isr_low + e.isr_mid * 2 ^ 16 + e.isr_high * 2 ^ 32

-- An interrupt gate to `isr` in the kernel's code segment.
pub record IsGate (isr : ℕ) (e : IdtEntry) : Type 0 where
  pub address : isr_of e ≡ isr
  pub kernel_cs : e.kernel_cs ≡ 0x28
  pub ist : e.ist ≡ 0
  pub attributes : e.attributes ≡ 0x8E
  pub reserved : e.reserved ≡ 0

descriptor-IsGate :
    (vector isr : ℕ) (entries : List IdtEntry)
    → vector < length entries
    → isr < 2 ^ 64
    → IsGate isr (get_or (idt_set_descriptor vector isr 0x8E entries) vector no_entry)
unfolding idt_set_descriptor
descriptor-IsGate vector isr entries lt small =
    rw (get_or-set_self entries vector _ no_entry lt) (record {
      address = omega (
        arith,
        bit_and-ones_mod 16 isr,
        bit_and-ones_mod 16 (isr / 2 ^ 16),
        bit_and-ones_mod 32 (isr / 2 ^ 32),
      );
      kernel_cs = refl;
      ist = refl;
      attributes = refl;
      reserved = refl;
    })

same_size :
    (vector isr : ℕ) (before : List IdtEntry)
    → length (idt_set_descriptor vector isr 0x8E before) ≡ length before
unfolding idt_set_descriptor
same_size vector isr before = length-set before vector _

other_entry :
    (vector isr j : ℕ) (before : List IdtEntry)
    → vector ≢ j
    → get_or (idt_set_descriptor vector isr 0x8E before) j no_entry ≡ get_or before j no_entry
unfolding idt_set_descriptor
other_entry vector isr j before ne = get_or-set_ne before vector j _ no_entry ne

-- The gates of the vectors from `first` up to `end` are set to the stubs; the other entries are as before.
pub record Gates (first end : ℕ) (isr_stub_table : List ℕ) (before entries : List IdtEntry)
    : Type 0 where
  pub size : length entries ≡ length before
  pub gates :
      (j : ℕ) → first ≤ j → j < end → IsGate (get_or isr_stub_table j 0) (get_or entries j no_entry)
  pub others :
      (j : ℕ) → (j < first) ⊎ (end ≤ j) → get_or entries j no_entry ≡ get_or before j no_entry

module _ (isr_stub_table : List ℕ) (addresses : (j : ℕ) → get_or isr_stub_table j 0 < 2 ^ 64) where
  set_vectors-Gates :
      (left first : ℕ) (before : List IdtEntry)
      → first + left ≤ length isr_stub_table
      → first + left ≤ length before
      → (entries : List IdtEntry) × (set_vectors first left isr_stub_table before ≡ some entries)
        × Gates first (first + left) isr_stub_table before entries
  unfolding set_vectors
  set_vectors-Gates zero first before ls le = (
    before,
    refl,
    record { size = refl; gates = λ j h l. absurd (omega arith); others = λ j out. refl },
  )
  set_vectors-Gates (suc left) first before ls le =
      let isr = get_or isr_stub_table first 0 in
      let next = idt_set_descriptor first isr 0x8E before in
      let (entries, runs, g) =
        set_vectors-Gates left (first + 1) next (omega arith)
          (omega (arith, same_size first isr before)) in
      (
        entries,
        rw (get_elem?-eq-get_or isr_stub_table first 0 (omega arith)) runs,
        record {
          size = g.size ∙ same_size first isr before;
          gates = λ j h l. elim (ℕ_discrete first j) [
            | yes e ↦
                subst (λ i. IsGate (get_or isr_stub_table i 0) (get_or entries i no_entry)) e
                  (subst (IsGate isr) (sym (g.others first (inl (omega arith))))
                    (descriptor-IsGate first isr before (omega arith) (addresses first)))
            | no ne ↦ g.gates j (omega arith) (omega arith)
          ];
          others = λ j out.
              g.others j (ground (arith, out))
              ∙ other_entry first isr j before (ground (arith, out));
        },
      )

-- `idt_init`, with a table of at least 48 stubs whose addresses have 64 bits, and the 256 entries: the
-- entries 0 to 47 are interrupt gates to their stubs, whose addresses the processor can put together again
-- from the three parts. The other entries are as before. The table register has the table's address and its size
-- less 1.
pub idt_init-Gates :
    (table : ℕ) (isr_stub_table : List ℕ) (before : List IdtEntry)
    → 48 ≤ length isr_stub_table
    → ((j : ℕ) → get_or isr_stub_table j 0 < 2 ^ 64)
    → length before ≡ 256
    → (entries : List IdtEntry) × (reg : Idtr) × (idt_init table isr_stub_table before
        ≡ some (reg, entries))
      × (reg.base ≡ table)
      × (reg.limit + 1 ≡ 16 * length entries)
      × Gates 0 48 isr_stub_table before entries
unfolding idt_init
idt_init-Gates table isr_stub_table before enough addresses size =
    let (entries, runs, g) =
      set_vectors-Gates isr_stub_table addresses 48 0 before (omega arith) (omega arith) in
    (entries, record { limit = 4095; base = table }, rw runs refl, refl, omega (arith, g.size), g)
