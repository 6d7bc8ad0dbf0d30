-- ===== src/Interrupts/Handlers.antt =====
-- src/ints.c: the tables of handlers, and `__int_handler`.
use files_co.Base.{ℕ, ◌+◌, ◌-◌, Option, none, some, if◌then◌else◌, ltb, update}
use files_co.Interrupts.Pic.{Pic, pic_ack, pic_mask, pic_unmask}

abbrev pub irqs : ℕ
irqs = 16

abbrev pub errors : ℕ
errors = 32

abbrev pub pic_offset : ℕ
pic_offset = errors

-- `F` is `struct frame`, of which the code reads `intno`; `W` is what the handlers work on besides
-- the interrupt controllers.
module _ (F W : Type 0) (intno : F → ℕ) where
  abbrev pub World : Type 0
  World = Pic × W

  -- `irq_handler_t` and `error_handler_t`
  abbrev pub Handler : Type 0
  Handler = ℕ → F → World → World

  pub record Handlers : Type 0 where
    pub irq_handler : ℕ → Option Handler
    pub error_handler : ℕ → Option Handler

  -- `none` is `unexpected_interrupt`, which prints and never returns.
  unfoldable pub call_error_handler : ℕ → F → Handlers → World → Option World
  call_error_handler error frame h w = elim (h.error_handler error) [
    | none ↦ none
    | some handler ↦ some (handler error frame w)
  ]

  unfoldable pub call_irq_handler : ℕ → F → Handlers → World → Option World
  call_irq_handler irq frame h w = elim (h.irq_handler irq) [
    | none ↦ none
    | some handler ↦ some (handler irq frame (pic_ack irq w.0, w.1))
  ]

  -- `__int_handler`
  unfoldable pub int_handler : F → Handlers → World → Option World
  unfolding call_error_handler call_irq_handler
  int_handler frame h w =
      if ltb (intno frame) errors
      then call_error_handler (intno frame) frame h w
      else if ltb (intno frame) (errors + irqs)
      then call_irq_handler (intno frame - errors) frame h w
      else none

  unfoldable pub register_error_handler : ℕ → Handler → Handlers → Handlers
  register_error_handler error handler h = record h {
    error_handler = update h.error_handler error (some handler);
  }

  unfoldable pub register_irq_handler : ℕ → Handler → Handlers → Handlers
  register_irq_handler irq handler h = record h {
    irq_handler = update h.irq_handler irq (some handler);
  }

  unfoldable pub activate_irq : ℕ → World → World
  activate_irq irq w = (pic_unmask irq w.0, w.1)

  unfoldable pub deactivate_irq : ℕ → World → World
  deactivate_irq irq w = (pic_mask irq w.0, w.1)
