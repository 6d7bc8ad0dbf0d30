-- ===== src/Interrupts/Gates.antt =====
-- src/ints.c: the gates of the interrupt table.
use files_co.Base.{ℕ, ◌+◌, ◌*◌, ◌/◌, ◌%◌, ◌^◌, ◌<◌, ◌≡◌, arith}

-- `IDT_PRESENT | IDT_INT_GATE`, the flags that `idt_setup` passes
abbrev pub idt_flags : ℕ
idt_flags = 2 ^ 47 + 14 * 2 ^ 40

-- `struct idt_entry`
pub record IdtEntry : Type 0 where
  pub low : ℕ
  pub high : ℕ

-- `idt_entry_setup`, with the flags of its one call; the parts that are joined by `|` share no bit.
unfoldable pub idt_entry_setup : (selector handler : ℕ) → IdtEntry
idt_entry_setup selector handler = record {
  low = handler % 2 ^ 16 + selector * 2 ^ 16 + handler / 2 ^ 16 % 2 ^ 16 * 2 ^ 48 + idt_flags;
  high = handler / 2 ^ 32 % 2 ^ 32;
}

-- The parts that the processor reads in a gate: the handler's address, the selector and the type.
abbrev pub gate_handler : IdtEntry → ℕ
gate_handler e = e.low % 2 ^ 16 + e.low / 2 ^ 48 % 2 ^ 16 * 2 ^ 16 + e.high % 2 ^ 32 * 2 ^ 32

abbrev pub gate_selector : IdtEntry → ℕ
gate_selector e = e.low / 2 ^ 16 % 2 ^ 16

abbrev pub gate_type : IdtEntry → ℕ
gate_type e = e.low / 2 ^ 40 % 2 ^ 8

-- A gate holds the handler's whole address, the selector, and the type of a present interrupt gate of
-- the kernel (0x8E), and is of two 64-bit words.
pub idt_entry_setup_lem :
    (selector handler : ℕ)
    → selector < 2 ^ 16
    → handler < 2 ^ 64
    → (let e = idt_entry_setup selector handler in
        (gate_handler e ≡ handler)
        × (gate_selector e ≡ selector)
        × (gate_type e ≡ 0x8E)
        × (e.low < 2 ^ 64)
        × (e.high < 2 ^ 32))
unfolding idt_entry_setup
idt_entry_setup_lem selector handler hs hh = omega arith
