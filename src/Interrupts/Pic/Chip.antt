-- ===== src/Interrupts/Pic/Chip.antt =====
-- The controller that src/i8259a.c programs, by the data sheet of the 8259A: what the bytes written to
-- its two ports make of it.
use files_co.Base.{ℕ, ◌≡◌, Bool, true, false, List, [], ◌∷◌, if◌then◌else◌, ◌==◌, ap}
use files_co.Base.Bits.{test_bit}
use files_co.Interrupts.Pic.{Write}

-- The initialization word that the chip waits for at its data port, if any; a flag says whether the
-- fourth word follows.
pub data Phase : Type 0 where
  ready : Phase
  wants_vector : Bool → Phase
  wants_link : Bool → Phase
  wants_mode : Phase

pub record Chip : Type 0 where
  pub phase : Phase
  pub vector : ℕ
  pub link : ℕ
  pub mode : ℕ
  pub mask : ℕ

-- A byte at the command port: with the bit 4 it starts the initialization of a chip that is one of
-- several, and clears the mask.
unfoldable pub command : ℕ → Chip → Chip
command v c =
    if test_bit v 4 then record c { phase = wants_vector (test_bit v 0); mode = 0; mask = 0 } else c

unfoldable pub data_byte : ℕ → Phase → Chip → Chip
data_byte v ready c = record c { mask = v }
data_byte v (wants_vector more) c = record c { phase = wants_link more; vector = v }
data_byte v (wants_link true) c = record c { phase = wants_mode; link = v }
data_byte v (wants_link false) c = record c { phase = ready; link = v }
data_byte v wants_mode c = record c { phase = ready; mode = v }

abbrev powered_on : Chip
powered_on = record { phase = ready; vector = 0; link = 0; mode = 0; mask = 0 }

-- The chip at two ports after some writes, of which the first in the list is the last one
unfoldable pub chip : (cmd dat : ℕ) → List Write → Chip
unfolding command data_byte
chip cmd dat [] = powered_on
chip cmd dat ((port, v) ∷ out) =
    let c = chip cmd dat out in
    if port == cmd then command v c else if port == dat then data_byte v c.phase c else c

-- A byte at the data port of a chip that waits for no initialization word
pub data_byte-ready :
    (v : ℕ) (c : Chip) → c.phase ≡ ready → data_byte v c.phase c ≡ record c { mask = v }
unfolding data_byte
data_byte-ready v c e = ap (λ f. data_byte v f c) e
