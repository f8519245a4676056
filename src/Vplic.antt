-- ===== src/Vplic.antt =====
-- virtual/vplic.c: the interrupt controller that a guest sees. Its accesses to the controller's
-- addresses trap; the handlers decode the instruction and carry the access out on the physical
-- controller, with the guest's interrupt numbers and context replaced by the physical ones.
pub mod Window
pub mod Instr
pub mod Irq
pub mod Load
pub mod Store
pub mod Guests
pub mod Handlers
pub mod Steps
pub mod Protocol
pub mod Overrun
