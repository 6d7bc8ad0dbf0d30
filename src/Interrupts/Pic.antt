-- ===== src/Interrupts/Pic.antt =====
-- src/i8259a.c: the two interrupt controllers.
pub mod Chip
pub mod Laws
use files_co.Base.{ℕ, ◌+◌, ◌-◌, ◌*◌, ◌/◌, ◌%◌, ◌^◌, List, [], ◌∷◌, if◌then◌else◌, ltb, leb}
use files_co.Base.Bits.{set_bit, clear_bit}

abbrev pub pic_master_cmd : ℕ
pic_master_cmd = 0x20

abbrev pub pic_master_data : ℕ
pic_master_data = 0x21

abbrev pub pic_slave_cmd : ℕ
pic_slave_cmd = 0xA0

abbrev pub pic_slave_data : ℕ
pic_slave_data = 0xA1

abbrev pub pic_slave_irq : ℕ
pic_slave_irq = 2

abbrev pub pic_slave_irq_bit : ℕ
pic_slave_irq_bit = 2 ^ pic_slave_irq

abbrev pub pic_irqs : ℕ
pic_irqs = 8

abbrev pub pic_ack_cmd : ℕ
pic_ack_cmd = 0x60

abbrev pub pic_icw1 : ℕ
pic_icw1 = 2 ^ 0 + 2 ^ 4

abbrev pub pic_icw4_8086 : ℕ
pic_icw4_8086 = 2 ^ 0

-- A write of a byte to a port.
abbrev pub Write : Type 0
Write = ℕ × ℕ

-- `out8`: the byte that is written is the low one.
abbrev pub out8 : (port value : ℕ) → List Write → List Write
out8 port value out = (port, value % 256) ∷ out

-- `pic_irq_mask`, of 32 bits, and what was written to the ports.
pub record Pic : Type 0 where
  pub irq_mask : ℕ
  pub out : List Write

-- The initial value of `pic_irq_mask`
unfoldable pub initial_mask : ℕ
initial_mask = 2 ^ 32 - 1 - pic_slave_irq_bit

abbrev pub master_byte : ℕ → ℕ
master_byte mask = mask % 256

abbrev pub slave_byte : ℕ → ℕ
slave_byte mask = mask / 256 % 256

-- `pic_setup`
unfoldable pub pic_setup : ℕ → Pic → Pic
pic_setup offset p =
    let out = out8 pic_master_cmd pic_icw1 p.out in
    let out = out8 pic_slave_cmd pic_icw1 out in
    let out = out8 pic_master_data offset out in
    let out = out8 pic_slave_data (offset + pic_irqs) out in
    let out = out8 pic_master_data pic_slave_irq_bit out in
    let out = out8 pic_slave_data pic_slave_irq out in
    let out = out8 pic_master_data pic_icw4_8086 out in
    let out = out8 pic_slave_data pic_icw4_8086 out in
    let out = out8 pic_master_data (master_byte p.irq_mask) out in
    let out = out8 pic_slave_data (slave_byte p.irq_mask) out in record p { out = out }

-- The end of `pic_mask` and of `pic_unmask`: the byte of the chip that has the line is written.
unfoldable pub show_mask : ℕ → Pic → Pic
show_mask irq p =
    if ltb irq 8
    then record p { out = out8 pic_master_data (master_byte p.irq_mask) p.out }
    else record p { out = out8 pic_slave_data (slave_byte p.irq_mask) p.out }

-- `1u << irq`, of 32 bits, where the processor takes the number of places modulo 32
abbrev pub place : ℕ → ℕ
place irq = irq % 32

-- `pic_mask`
unfoldable pub pic_mask : ℕ → Pic → Pic
unfolding show_mask
pic_mask irq p = show_mask irq (record p { irq_mask = set_bit p.irq_mask (place irq) })

-- `pic_unmask`
unfoldable pub pic_unmask : ℕ → Pic → Pic
unfolding show_mask
pic_unmask irq p = show_mask irq (record p { irq_mask = clear_bit p.irq_mask (place irq) })

-- `pic_ack`
unfoldable pub pic_ack : ℕ → Pic → Pic
pic_ack irq p =
    if leb 8 irq
    then record p {
      out =
          out8 pic_master_cmd (pic_ack_cmd + pic_slave_irq)
            (out8 pic_slave_cmd (pic_ack_cmd + irq % 8) p.out);
    }
    else record p { out = out8 pic_master_cmd (pic_ack_cmd + irq) p.out }
