-- ===== src/Plic/Registers.antt =====
-- The registers of the controller, and who may use them.
use riscv_hypervisor.Common.{ℕ, ◌-◌, ◌^◌, ◌≤◌, ◌≡◌, ◌⊎◌, Bool, true, Option, none, some}
use riscv_hypervisor.Plic.{
  Access, read, write, amo_and, amo_or, enable_offset, threshold_offset, claim_offset,
  pending_offset, source_mask,
}

pub data Register : Type 0 where
  priority : ℕ → Register
  pending : ℕ → Register
  enable : (context source : ℕ) → Register
  threshold : ℕ → Register
  claim : ℕ → Register

abbrev pub offset_of : Register → ℕ
offset_of (priority source) = source
offset_of (pending source) = pending_offset source
offset_of (enable context source) = enable_offset context source
offset_of (threshold context) = threshold_offset context
offset_of (claim context) = claim_offset context

abbrev pub IsOwnSource : (ℕ → Bool) → ℕ → Type 0
IsOwnSource sources source = (1 ≤ source) × (source ≤ 1023) × (sources source ≡ true)

-- The registers of a set of sources and one context.
abbrev pub IsOwn : (ℕ → Bool) → ℕ → Register → Type 0
IsOwn sources context (priority p) = IsOwnSource sources p
IsOwn sources context (pending p) = IsOwnSource sources p
IsOwn sources context (enable c p) = (c ≡ context) × (c ≤ 15871) × IsOwnSource sources p
IsOwn sources context (threshold c) = (c ≡ context) × (c ≤ 15871)
IsOwn sources context (claim c) = (c ≡ context) × (c ≤ 15871)

-- The accesses that stay within these registers: a word of enable bits is shared by 32 sources, so
-- it is changed only at the bit of an own source, and only an own source (or 0) is completed.
pub data MayAccess (sources : ℕ → Bool) (context : ℕ) (a : Access) : Type 0 where
  gets :
      (r : Register)
      → IsOwn sources context r
      → a ≡ read (offset_of r)
      → MayAccess sources context a
  sets_priority :
      (p value : ℕ)
      → IsOwn sources context (priority p)
      → a ≡ write p value
      → MayAccess sources context a
  sets_threshold :
      (value : ℕ)
      → IsOwn sources context (threshold context)
      → a ≡ write (threshold_offset context) value
      → MayAccess sources context a
  completes :
      (p : ℕ)
      → IsOwn sources context (claim context)
      → (p ≡ 0) ⊎ (sources p ≡ true)
      → a ≡ write (claim_offset context) p
      → MayAccess sources context a
  enables :
      (p : ℕ)
      → IsOwn sources context (enable context p)
      → a ≡ amo_or (enable_offset context p) (source_mask p)
      → MayAccess sources context a
  disables :
      (p : ℕ)
      → IsOwn sources context (enable context p)
      → a ≡ amo_and (enable_offset context p) (2 ^ 32 - 1 - source_mask p)
      → MayAccess sources context a

-- The word that an access changes.
abbrev pub written : Access → Option ℕ
written (read offset) = none
written (write offset value) = some offset
written (amo_and offset value) = some offset
written (amo_or offset value) = some offset
