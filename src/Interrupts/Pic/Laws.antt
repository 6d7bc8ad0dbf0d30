-- ===== src/Interrupts/Pic/Laws.antt =====
-- The mask that src/i8259a.c keeps is the one that the controllers have.
use files_co.Base.{
  ℕ, ◌+◌, ◌/◌, ◌^◌, ◌%◌, ◌≤◌, ◌<◌, ◌≡◌, refl, true, false, List, if◌then◌else◌, ltb, ◌==◌, arith,
  ap, sym, ◌∙◌, Bool-cases, inl, inr,
}
use files_co.Base.Bits.{test_bit, set_bit, clear_bit}
use files_co.Base.Bits.Laws.{
  test_bit-set_bit, test_bit-clear_bit, set_bit-div, clear_bit-div, set_bit-mod, clear_bit-mod,
}
use files_co.Interrupts.Pic.Chip.{Chip, ready, chip, command, data_byte, data_byte-ready}
use files_co.Interrupts.Pic.{
  Write, Pic, pic_master_cmd, pic_slave_cmd, pic_master_data, pic_slave_data, master_byte,
  slave_byte, show_mask, pic_mask, pic_unmask, pic_setup,
}

abbrev pub master_chip : List Write → Chip
master_chip out = chip pic_master_cmd pic_master_data out

abbrev pub slave_chip : List Write → Chip
slave_chip out = chip pic_slave_cmd pic_slave_data out

-- The two chips are initialized, and their masks are the bytes of `pic_irq_mask`.
pub record InSync (p : Pic) : Type 0 where
  pub master_ready : (master_chip p.out).phase ≡ ready
  pub slave_ready : (slave_chip p.out).phase ≡ ready
  pub master : (master_chip p.out).mask ≡ p.irq_mask % 256
  pub slave : (slave_chip p.out).mask ≡ p.irq_mask / 256 % 256

-- The master has its interrupts from `offset` on and the slave at its line 2, the slave has the
-- interrupts behind those of the master, and both are in the mode of the 8086.
pub record IsWired (offset : ℕ) (p : Pic) : Type 0 where
  pub master_vector : (master_chip p.out).vector ≡ offset % 256
  pub slave_vector : (slave_chip p.out).vector ≡ (offset + 8) % 256
  pub master_link : (master_chip p.out).link ≡ 2 ^ 2
  pub slave_link : (slave_chip p.out).link ≡ 2
  pub modes : ((master_chip p.out).mode ≡ 1) × ((slave_chip p.out).mode ≡ 1)

pub pic_setup-InSync :
    (offset : ℕ) (p : Pic) → InSync (pic_setup offset p) × IsWired offset (pic_setup offset p)
unfolding pic_setup chip command data_byte test_bit
pic_setup-InSync offset p = (
  record { master_ready = refl; slave_ready = refl; master = omega arith; slave = omega arith },
  record {
    master_vector = refl;
    slave_vector = refl;
    master_link = refl;
    slave_link = refl;
    modes = (refl, refl);
  },
)

-- The chip that does not have the line keeps its byte.
abbrev Kept : ℕ → ℕ → ℕ → Type 0
Kept irq old new =
    (irq < 8 → slave_byte new ≡ slave_byte old) × (8 ≤ irq → master_byte new ≡ master_byte old)

set_bit-Kept : (mask irq : ℕ) → Kept irq mask (set_bit mask irq)
set_bit-Kept mask irq =
    (λ lt. ap (λ (q : ℕ). q % 256) (set_bit-div 8 mask irq lt), λ le. set_bit-mod 8 mask irq le)

clear_bit-Kept : (mask irq : ℕ) → Kept irq mask (clear_bit mask irq)
clear_bit-Kept mask irq =
    (λ lt. ap (λ (q : ℕ). q % 256) (clear_bit-div 8 mask irq lt), λ le. clear_bit-mod 8 mask irq le)

show_mask-InSync :
    (irq mask : ℕ) (p : Pic)
    → InSync p
    → Kept irq p.irq_mask mask
    → InSync (show_mask irq (record p { irq_mask = mask }))
unfolding show_mask chip
show_mask-InSync irq mask p s k = elim (Bool-cases (ltb irq 8)) [
  | inl e ↦
      let written = data_byte-ready (mask % 256 % 256) (master_chip p.out) s.master_ready in
      rw e (record {
        master_ready = rw written s.master_ready;
        slave_ready = s.slave_ready;
        master = rw written (omega arith);
        slave = s.slave ∙ sym (k.0 (ground arith));
      })
  | inr e ↦
      let written = data_byte-ready (mask / 256 % 256 % 256) (slave_chip p.out) s.slave_ready in
      rw e (record {
        master_ready = s.master_ready;
        slave_ready = rw written s.slave_ready;
        master = s.master ∙ sym (k.1 (ground arith));
        slave = rw written (omega arith);
      })
]

show_mask_keeps :
    (irq mask : ℕ) (p : Pic) → (show_mask irq (record p { irq_mask = mask })).irq_mask ≡ mask
unfolding show_mask
show_mask_keeps irq mask p = elim (Bool-cases (ltb irq 8)) [ inl e ↦ rw e refl | inr e ↦ rw e refl ]

-- After `pic_setup` the two controllers, which follow the data sheet, are initialized with vectors from
-- `offset` on, and their masks are the bytes of the mask that the program keeps. Where they are so,
-- they are so after `pic_mask` and `pic_unmask` of one of their 16 lines, which set and clear the bit
-- of that line and no other.
pub pic_mask-InSync :
    (offset irq : ℕ) (p : Pic)
    → irq < 16
    → InSync p
    → (InSync (pic_setup offset p) × IsWired offset (pic_setup offset p))
      × InSync (pic_mask irq p)
      × InSync (pic_unmask irq p)
      × ((j : ℕ)
          → (test_bit (pic_mask irq p).irq_mask j
              ≡ (if j == irq then true else test_bit p.irq_mask j))
            × (test_bit (pic_unmask irq p).irq_mask j
                ≡ (if j == irq then false else test_bit p.irq_mask j)))
unfolding pic_mask pic_unmask
pic_mask-InSync offset irq p lt s =
    let small : irq % 32 ≡ irq = omega arith in
    (
      pic_setup-InSync offset p,
      rw small (show_mask-InSync irq (set_bit p.irq_mask irq) p s (set_bit-Kept p.irq_mask irq)),
      rw small
          (show_mask-InSync irq (clear_bit p.irq_mask irq) p s (clear_bit-Kept p.irq_mask irq)),
      λ j. (
        rw (small, show_mask_keeps irq (set_bit p.irq_mask irq) p)
            (test_bit-set_bit p.irq_mask irq j),
        rw (small, show_mask_keeps irq (clear_bit p.irq_mask irq) p)
            (test_bit-clear_bit p.irq_mask irq j),
      ),
    )
