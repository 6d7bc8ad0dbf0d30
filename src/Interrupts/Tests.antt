-- ===== src/Interrupts/Tests.antt =====
-- Runs of the interrupt controllers, gates and handlers, and the theorems there.
use files_co.Base.{ℕ, ◌^◌, ◌<◌, ◌≡◌, refl, true, false, [], ◌∷◌, if◌then◌else◌, ◌==◌, arith}
use files_co.Base.Bits.{test_bit}
use files_co.Interrupts.Pic.{Pic, initial_mask, pic_setup, pic_mask, pic_unmask}
use files_co.Interrupts.Pic.Laws.{InSync, IsWired, pic_setup-InSync, pic_mask-InSync}
use files_co.Interrupts.Gates.{
  idt_entry_setup, idt_entry_setup_lem, gate_handler, gate_selector, gate_type,
}
use files_co.Interrupts.Timer.{pit_set_frequency}

abbrev booted : Pic
booted = record { irq_mask = initial_mask; out = [] }

-- The timer's line is opened: only it and the slave's are.
timer_open : (pic_unmask 0 booted).out ≡ (0x21, 0xFA) ∷ []
unfolding pic_unmask initial_mask
timer_open = refl

timer_set : pit_set_frequency 100 [] ≡ (0x40, 0x2E) ∷ (0x40, 0x9B) ∷ (0x43, 0x34) ∷ []
unfolding pit_set_frequency
timer_set = refl

pic_mask-InSync_example :
    (InSync (pic_setup 40 (pic_setup 32 booted)) × IsWired 40 (pic_setup 40 (pic_setup 32 booted)))
    × InSync (pic_mask 9 (pic_setup 32 booted))
    × InSync (pic_unmask 9 (pic_setup 32 booted))
    × ((j : ℕ)
        → (test_bit (pic_mask 9 (pic_setup 32 booted)).irq_mask j
            ≡ (if j == 9 then true else test_bit (pic_setup 32 booted).irq_mask j))
          × (test_bit (pic_unmask 9 (pic_setup 32 booted)).irq_mask j
              ≡ (if j == 9 then false else test_bit (pic_setup 32 booted).irq_mask j)))
pic_mask-InSync_example =
    pic_mask-InSync 40 9 (pic_setup 32 booted) (omega arith) (pic_setup-InSync 32 booted).0

idt_entry_setup_lem_example :
    (let e = idt_entry_setup 8 0xFFFFFFFF80001234 in
      (gate_handler e ≡ 0xFFFFFFFF80001234)
      × (gate_selector e ≡ 8)
      × (gate_type e ≡ 0x8E)
      × (e.low < 2 ^ 64)
      × (e.high < 2 ^ 32))
idt_entry_setup_lem_example = idt_entry_setup_lem 8 0xFFFFFFFF80001234 (omega arith) (omega arith)
