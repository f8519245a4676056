-- ===== src/Trap/Identity.antt =====
-- No handler changes which hart and which machine it works for.
use riscv_hypervisor.Common.{
  ℕ, ◌≡◌, refl, ◌∙◌, List, Option, ◌==◌, not, ◌&&◌, bit_or, bit_and, u32, sub64, ◌^◌, ◌/◌, ◌%◌,
  Bool-cases, inl, inr,
}
use riscv_hypervisor.Common.Effects.{Cmd, Outcome, and_then}
use riscv_hypervisor.Common.Lands.{Lands, and_then-Lands}
use riscv_hypervisor.Dtb.{dtb_plic}
use riscv_hypervisor.Plic.{Device, plic_claim}
use riscv_hypervisor.VmConfig.{MmioDev}
use riscv_hypervisor.Vcpu.{Hart}
use riscv_hypervisor.Vplic.Irq.{virt_to_phys_irq}
use riscv_hypervisor.Vplic.Window.{
  is_access_to_priority_reg, is_access_to_pending_regs, is_access_to_enable_regs,
  is_access_to_threshold_reg, is_access_to_claim_complete_reg,
}
use riscv_hypervisor.Vplic.Instr.{Instr}
use riscv_hypervisor.Vplic.Instr.Laws.{fields, parse_htinst-fields}
use riscv_hypervisor.Vplic.Load.{
  context_of, write_back, advance_sepc, load_register, handle_claim_reg_load, emulate_load,
}
use riscv_hypervisor.Vplic.Store.{store_register, handle_complete_reg_store, emulate_store}
use riscv_hypervisor.Vplic.Handlers.{
  vplic_handle_interrupt, vplic_handle_load_page_fault, vplic_handle_store_or_amo_page_fault,
}

-- The same hart, with the same number in the same machine.
abbrev pub IsSame : Hart → Hart → Type 0
IsSame g h = (h.hartid ≡ g.hartid) × (h.vcpu.vhartid ≡ g.vcpu.vhartid) × (h.vcpu.conf ≡ g.vcpu.conf)

pub IsSame-trans : (g h k : Hart) → IsSame g h → IsSame h k → IsSame g k
IsSame-trans g h k a b = (b.0 ∙ a.0, b.1 ∙ a.1, b.2 ∙ a.2)

-- A command that, if it ends, leaves the same hart.
abbrev pub Stays : {A : Type 0} → Hart → Outcome Hart A → Type 0
Stays = Lands IsSame

Stays-bind :
    {A B : Type 0} (h : Hart) (m : Outcome Hart A) (k : A → Cmd Hart B)
    → Stays h m
    → ((a : A) (g : Hart) → Stays g (k a g))
    → Stays h (and_then m k)
Stays-bind h m k x next = and_then-Lands IsSame IsSame-trans h m k x next

advance_sepc-IsSame : (instr : Instr) (h : Hart) → IsSame h (advance_sepc instr h)
unfolding advance_sepc
advance_sepc-IsSame instr h = elim (Bool-cases (not (bit_and instr.opcode 2 == 0))) [
  | inl e ↦ rw e (refl, refl, refl)
  | inr e ↦ rw e (refl, refl, refl)
]

handle_claim_reg_load-Stays :
    (device : Device) (devs : List (Option MmioDev)) (offset vctx : ℕ) (h : Hart)
    → Stays h (handle_claim_reg_load device devs offset vctx h)
unfolding handle_claim_reg_load
handle_claim_reg_load-Stays device devs offset vctx h =
    elim (Bool-cases (vctx == sub64 offset 0x200004 / 0x1000)) [
      | inl e ↦ rw e (refl, refl, refl)
      | inr e ↦ rw e (refl, refl, refl)
    ]

load_register-Stays :
    (device : Device) (devs : List (Option MmioDev)) (offset vctx pctx : ℕ) (h : Hart)
    → Stays h (load_register device devs offset vctx pctx h)
unfolding load_register
load_register-Stays device devs offset vctx pctx h =
    elim (Bool-cases (is_access_to_priority_reg offset)) [
      | inl a ↦ rw a (refl, refl, refl)
      | inr a ↦ elim (Bool-cases (is_access_to_pending_regs offset)) [
        | inl b ↦ rw (a, b) (refl, refl, refl)
        | inr b ↦ elim (Bool-cases (is_access_to_enable_regs offset)) [
          | inl c ↦ rw (a, b, c) (refl, refl, refl)
          | inr c ↦ elim (Bool-cases (is_access_to_threshold_reg offset)) [
            | inl d ↦ rw (a, b, c, d) (refl, refl, refl)
            | inr d ↦ elim (Bool-cases (is_access_to_claim_complete_reg offset)) [
              | inl e ↦ rw (a, b, c, d, e) (handle_claim_reg_load-Stays device devs offset vctx h)
              | inr e ↦ rw (a, b, c, d, e) tt
            ]
          ]
        ]
      ]
    ]

emulate_load-Stays :
    (device : Device) (instr : Instr) (h : Hart) → Stays h (emulate_load device instr h)
unfolding emulate_load write_back
emulate_load-Stays device instr h =
    let devs = h.vcpu.conf.devices in
    let offset = sub64 instr.addr dtb_plic in
    let vctx = context_of h.vcpu.vhartid in
    let pctx = context_of h.hartid in
    Stays-bind h (load_register device devs offset vctx pctx h) _
      (load_register-Stays device devs offset vctx pctx h)
      (λ val g. advance_sepc-IsSame instr (write_back instr val g))

handle_complete_reg_store-Stays :
    (offset vctx pctx val : ℕ) (h : Hart)
    → Stays h (handle_complete_reg_store offset vctx pctx val h)
unfolding handle_complete_reg_store
handle_complete_reg_store-Stays offset vctx pctx val h =
    elim (Bool-cases (vctx == sub64 offset 0x200004 / 0x1000)) [
      | inr bad ↦ rw bad (refl, refl, refl)
      | inl own ↦
          elim (Bool-cases
            (virt_to_phys_irq h.vcpu.conf.devices val == h.vcpu.last_claimed_irq_id)) [
              | inl same ↦ rw (own, same) (refl, refl, refl)
              | inr other ↦ rw (own, other) (refl, refl, refl)
            ]
    ]

store_register-Stays :
    (devs : List (Option MmioDev)) (offset vctx pctx val : ℕ) (h : Hart)
    → Stays h (store_register devs offset vctx pctx val h)
unfolding store_register
store_register-Stays devs offset vctx pctx val h =
    elim (Bool-cases (is_access_to_priority_reg offset)) [
      | inl a ↦ rw a (refl, refl, refl)
      | inr a ↦ elim (Bool-cases (is_access_to_pending_regs offset)) [
        | inl b ↦ rw (a, b) (refl, refl, refl)
        | inr b ↦ elim (Bool-cases (is_access_to_enable_regs offset)) [
          | inl c ↦ rw (a, b, c) (refl, refl, refl)
          | inr c ↦ elim (Bool-cases (is_access_to_threshold_reg offset)) [
            | inl d ↦ rw (a, b, c, d) (refl, refl, refl)
            | inr d ↦ elim (Bool-cases (is_access_to_claim_complete_reg offset)) [
              | inl e ↦ rw (a, b, c, d, e) (handle_complete_reg_store-Stays offset vctx pctx val h)
              | inr e ↦ rw (a, b, c, d, e) tt
            ]
          ]
        ]
      ]
    ]

emulate_store-Stays : (instr : Instr) (h : Hart) → Stays h (emulate_store instr h)
unfolding emulate_store
emulate_store-Stays instr h =
    let devs = h.vcpu.conf.devices in
    let offset = sub64 instr.addr dtb_plic in
    let vctx = context_of h.vcpu.vhartid in
    let pctx = context_of h.hartid in
    let val = u32 (h.vcpu.regs instr.rs2) in
    Stays-bind h (store_register devs offset vctx pctx val h) _
      (store_register-Stays devs offset vctx pctx val h) (λ u g. advance_sepc-IsSame instr g)

pub load_fault-Stays :
    (device : Device) (addr : ℕ) (h : Hart) → Stays h (vplic_handle_load_page_fault device addr h)
unfolding vplic_handle_load_page_fault
load_fault-Stays device addr h =
    let i : Instr = fields h.htinst addr in
    rw (parse_htinst-fields addr h) (elim (Bool-cases (i.addr_offset == 0)) [
      | inr a ↦ rw a tt
      | inl a ↦ elim (Bool-cases (h.htinst / 2 ^ 25 % 2 ^ 7 == 0)) [
        | inr b ↦ rw (a, b) tt
        | inl b ↦ elim (Bool-cases (bit_or i.opcode 2 == 0x3)) [
          | inr c ↦ rw (a, b, c) tt
          | inl c ↦ elim (Bool-cases (not (i.funct3 == 2) && not (i.funct3 == 6))) [
            | inl d ↦ rw (a, b, c, d) tt
            | inr d ↦ rw (a, b, c, d) (emulate_load-Stays device i h)
          ]
        ]
      ]
    ])

pub store_fault-Stays :
    (addr : ℕ) (h : Hart) → Stays h (vplic_handle_store_or_amo_page_fault addr h)
unfolding vplic_handle_store_or_amo_page_fault
store_fault-Stays addr h =
    let i : Instr = fields h.htinst addr in
    rw (parse_htinst-fields addr h) (elim (Bool-cases (i.addr_offset == 0)) [
      | inr a ↦ rw a tt
      | inl a ↦ elim (Bool-cases (h.htinst / 2 ^ 25 % 2 ^ 7 == 0)) [
        | inr b ↦ rw (a, b) tt
        | inl b ↦ elim (Bool-cases (bit_or i.opcode 2 == 0x23)) [
          | inr c ↦ rw (a, b, c) tt
          | inl c ↦ elim (Bool-cases (i.funct3 == 2)) [
            | inr d ↦ rw (a, b, c, d) tt
            | inl d ↦ rw (a, b, c, d) (emulate_store-Stays i h)
          ]
        ]
      ]
    ])

pub interrupt-Stays : (device : Device) (h : Hart) → Stays h (vplic_handle_interrupt device h)
unfolding vplic_handle_interrupt
interrupt-Stays device h =
    elim (Bool-cases ((plic_claim device (u32 (context_of h.hartid)) h.bus).0 == 0)) [
      | inl a ↦ rw a (refl, refl, refl)
      | inr a ↦ rw a (refl, refl, refl)
    ]
