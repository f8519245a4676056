-- ===== src/Vplic/Guests.antt =====
-- Two guests on two harts: what the handlers do for one of them, and what they do for the other.
use mathlib.Core.Path.{subst}
use riscv_hypervisor.Common.{
  ◌-◌, ◌≤◌, ℕ, ◌^◌, ◌/◌, ◌%◌, ◌<◌, ◌≡◌, ◌≢◌, Bool, true, false, Bool-cases, inl, inr, List, [], ◌∷◌,
  ◌++◌, Option, none, some, All, arith, ◌==◌, ◌&&◌, not, u32, bit_or, refl,
}
use riscv_hypervisor.Common.Effects.{Cmd, ok}
use riscv_hypervisor.Common.Extends.{Extends}
use riscv_hypervisor.Plic.{Access, Device, plic_claim}
use riscv_hypervisor.Plic.Registers.{MayAccess, written}
use riscv_hypervisor.Plic.Isolation.{Own, claim-Own, writes_apart}
use riscv_hypervisor.Vcpu.{Hart}
use riscv_hypervisor.Vplic.Irq.{sources_of}
use riscv_hypervisor.Vplic.Instr.{Instr}
use riscv_hypervisor.Vplic.Instr.Laws.{fields, parse_htinst-fields}
use riscv_hypervisor.Vplic.Load.{context_of}
use riscv_hypervisor.Vplic.Load.Isolation.{Isolated, emulate_load-Isolated}
use riscv_hypervisor.Vplic.Store.Isolation.{emulate_store-Isolated}
use riscv_hypervisor.Vplic.Handlers.{
  vplic_handle_load_page_fault, vplic_handle_interrupt, vplic_handle_store_or_amo_page_fault,
}

-- What the emulated controller is asked to serve; a page fault comes with its address.
pub data Trap : Type 0 where
  interrupt : Trap
  load_fault : ℕ → Trap
  store_fault : ℕ → Trap

abbrev pub serve : Device → Trap → Cmd Hart (Unit {0})
serve device interrupt = vplic_handle_interrupt device
serve device (load_fault addr) = vplic_handle_load_page_fault device addr
serve device (store_fault addr) = vplic_handle_store_or_amo_page_fault addr

store_fault-Isolated :
    (addr : ℕ) (h : Hart)
    → Isolated h.vcpu.conf.devices
        (context_of h.hartid)
        h.bus
        (vplic_handle_store_or_amo_page_fault addr h)
unfolding vplic_handle_store_or_amo_page_fault
store_fault-Isolated addr h =
    let i : Instr = fields h.htinst addr in
    rw (parse_htinst-fields addr h) (elim (Bool-cases (i.addr_offset == 0)) [
      | inr a ↦ rw a tt
      | inl a ↦ elim (Bool-cases (h.htinst / 2 ^ 25 % 2 ^ 7 == 0)) [
        | inr b ↦ rw (a, b) tt
        | inl b ↦ elim (Bool-cases (bit_or i.opcode 2 == 0x23)) [
          | inr c ↦ rw (a, b, c) tt
          | inl c ↦ elim (Bool-cases (i.funct3 == 2)) [
            | inr d ↦ rw (a, b, c, d) tt
            | inl d ↦ rw (a, b, c, d) (emulate_store-Isolated i h)
          ]
        ]
      ]
    ])

load_fault-Isolated :
    (device : Device) (addr : ℕ) (h : Hart)
    → Isolated h.vcpu.conf.devices
        (context_of h.hartid)
        h.bus
        (vplic_handle_load_page_fault device addr h)
unfolding vplic_handle_load_page_fault
load_fault-Isolated device addr h =
    let i : Instr = fields h.htinst addr in
    rw (parse_htinst-fields addr h) (elim (Bool-cases (i.addr_offset == 0)) [
      | inr a ↦ rw a tt
      | inl a ↦ elim (Bool-cases (h.htinst / 2 ^ 25 % 2 ^ 7 == 0)) [
        | inr b ↦ rw (a, b) tt
        | inl b ↦ elim (Bool-cases (bit_or i.opcode 2 == 0x3)) [
          | inr c ↦ rw (a, b, c) tt
          | inl c ↦ elim (Bool-cases (not (i.funct3 == 2) && not (i.funct3 == 6))) [
            | inl d ↦ rw (a, b, c, d) tt
            | inr d ↦ rw (a, b, c, d) (emulate_load-Isolated device i h)
          ]
        ]
      ]
    ])

interrupt-Isolated :
    (device : Device) (h : Hart)
    → Isolated h.vcpu.conf.devices (context_of h.hartid) h.bus (vplic_handle_interrupt device h)
unfolding vplic_handle_interrupt
interrupt-Isolated device h =
    let claim : Extends (Own (sources_of h.vcpu.conf.devices) (u32 (context_of h.hartid))) h.bus
        (plic_claim device (u32 (context_of h.hartid)) h.bus).1 =
      claim-Own (sources_of h.vcpu.conf.devices) (u32 (context_of h.hartid)) device h.bus in
    elim (Bool-cases ((plic_claim device (u32 (context_of h.hartid)) h.bus).0 == 0)) [
      | inl a ↦ rw a claim
      | inr a ↦ rw a claim
    ]

-- Whatever a guest makes the handlers do, every access to the controller is to a register of the
-- devices of its machine or of its hart's own context, or changes there an own source's bit.
pub serve-Isolated :
    (device : Device) (trap : Trap) (h : Hart)
    → Isolated h.vcpu.conf.devices (context_of h.hartid) h.bus (serve device trap h)
serve-Isolated device interrupt h = interrupt-Isolated device h
serve-Isolated device (load_fault addr) h = load_fault-Isolated device addr h
serve-Isolated device (store_fault addr) h = store_fault-Isolated addr h

-- Two words, where there are two, are different.
abbrev pub AreApart : Option ℕ → Option ℕ → Type 0
AreApart none w = Unit
AreApart (some i) none = Unit
AreApart (some i) (some j) = i ≢ j

-- No access of one list changes a word that an access of the other list changes.
abbrev pub HaveNoCommonWord : List Access → List Access → Type 0
HaveNoCommonWord mine yours = All (λ a. All (λ b. AreApart (written a) (written b)) yours) mine

module _ {mine yours : ℕ → Bool} {my_context your_context : ℕ}
    (apart : (p : ℕ) → 1 ≤ p → mine p ≡ true → yours p ≡ false)
    (ne : my_context ≢ your_context) where
  access-AreApart :
      (a b : Access) (i j : Option ℕ)
      → written a ≡ i
      → written b ≡ j
      → MayAccess mine my_context a
      → MayAccess yours your_context b
      → AreApart i j
  access-AreApart a b none j ea eb m y = tt
  access-AreApart a b (some i) none ea eb m y = tt
  access-AreApart a b (some i) (some j) ea eb m y = writes_apart m y apart ne i j ea eb

  one-AreApart :
      (a : Access) (bs : List Access)
      → MayAccess mine my_context a
      → All (MayAccess yours your_context) bs
      → All (λ b. AreApart (written a) (written b)) bs
  one-AreApart a [] m ys = tt
  one-AreApart a (b ∷ bs) m ys =
      (access-AreApart a b _ _ refl refl m ys.0, one-AreApart a bs m ys.1)

  pub All-AreApart :
      (my bs : List Access)
      → All (MayAccess mine my_context) my
      → All (MayAccess yours your_context) bs
      → HaveNoCommonWord my bs
  All-AreApart [] bs ms ys = tt
  All-AreApart (a ∷ my) bs ms ys = (one-AreApart a bs ms.0 ys, All-AreApart my bs ms.1 ys)

-- For two guests on different harts, of numbers below 2^31 - 1, whose machines share no
-- interrupt source but 0: if a page fault or interrupt of each is served, no word of the
-- controller that is written for one of them is written for the other.
pub guests_apart :
    (device : Device) (mine yours : Trap) (h h' k k' : Hart)
    → ((p : ℕ)
        → 1 ≤ p
        → sources_of h.vcpu.conf.devices p ≡ true
        → sources_of k.vcpu.conf.devices p ≡ false)
    → h.hartid < 2 ^ 31 - 1
    → k.hartid < 2 ^ 31 - 1
    → h.hartid ≢ k.hartid
    → serve device mine h ≡ ok tt h'
    → serve device yours k ≡ ok tt k'
    → (my_accesses your_accesses : List Access) × (h'.bus ≡ my_accesses ++ h.bus)
      × (k'.bus ≡ your_accesses ++ k.bus)
      × HaveNoCommonWord my_accesses your_accesses
guests_apart device mine yours h h' k k' apart small small' ne ends ends' =
    let m : Extends (Own (sources_of h.vcpu.conf.devices) (u32 (context_of h.hartid))) h.bus
        h'.bus =
      subst (Isolated h.vcpu.conf.devices (context_of h.hartid) h.bus) ends
        (serve-Isolated device mine h) in
    let y : Extends (Own (sources_of k.vcpu.conf.devices) (u32 (context_of k.hartid))) k.bus
        k'.bus =
      subst (Isolated k.vcpu.conf.devices (context_of k.hartid) k.bus) ends'
        (serve-Isolated device yours k) in
    (
      m.added,
      y.added,
      m.grown,
      y.grown,
      All-AreApart apart (omega arith) m.added y.added m.each y.each,
    )
