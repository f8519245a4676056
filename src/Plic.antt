-- ===== src/Plic.antt =====
-- driver/plic.c: the driver of the interrupt controller. The controller itself is hardware: it is a
-- parameter that answers each read from the accesses made so far, newest first. Every access of the
-- driver goes to the record of accesses, by its index in the array `plic` of 32-bit words. An `int`
-- argument is its 32-bit pattern.
pub mod Registers
pub mod Isolation
use riscv_hypervisor.Common.{
  ℕ, ◌+◌, ◌-◌, ◌*◌, ◌/◌, ◌%◌, ◌^◌, Bool, ◌||◌, List, ◌∷◌, ltb, ◌==◌, if◌then◌else◌, u32,
  is_negative, bit_and,
}

pub data Access : Type 0 where
  read : (offset : ℕ) → Access
  write : (offset value : ℕ) → Access
  amo_and : (offset value : ℕ) → Access
  amo_or : (offset value : ℕ) → Access

abbrev pub Bus : Type 0
Bus = List Access

-- What a read of a word gives, after the accesses of the record.
abbrev pub Device : Type 0
Device = Bus → ℕ → ℕ

abbrev pub load_word : Device → ℕ → Bus → ℕ × Bus
load_word device offset bus = (u32 (device bus offset), read offset ∷ bus)

abbrev pub store_word : ℕ → ℕ → Bus → Bus
store_word offset value bus = write offset value ∷ bus

-- `interrupt_source < 1 || 1023 < interrupt_source`
abbrev pub bad_source : ℕ → Bool
bad_source interrupt_source =
    is_negative interrupt_source || ltb interrupt_source 1 || ltb 1023 interrupt_source

-- `context < 0 || 15871 < context`
abbrev pub bad_context : ℕ → Bool
bad_context context = is_negative context || ltb 15871 context

abbrev pub source_mask : ℕ → ℕ
source_mask interrupt_source = 2 ^ (interrupt_source % 32)

abbrev pub pending_offset : ℕ → ℕ
pending_offset interrupt_source = 0x1000 / 4 + interrupt_source / 32

abbrev pub enable_offset : ℕ → ℕ → ℕ
enable_offset context interrupt_source = 0x2000 / 4 + 1024 / 32 * context + interrupt_source / 32

abbrev pub threshold_offset : ℕ → ℕ
threshold_offset context = 0x200000 / 4 + 0x1000 / 4 * context

abbrev pub claim_offset : ℕ → ℕ
claim_offset context = 0x200004 / 4 + 0x1000 / 4 * context

unfoldable pub plic_get_priority : Device → ℕ → Bus → ℕ × Bus
plic_get_priority device interrupt_source bus =
    if bad_source interrupt_source then (0, bus) else load_word device interrupt_source bus

unfoldable pub plic_set_priority : ℕ → ℕ → Bus → Bus
plic_set_priority interrupt_source priority bus =
    if bad_source interrupt_source then bus else store_word interrupt_source priority bus

unfoldable pub plic_get_pending : Device → ℕ → Bus → ℕ × Bus
plic_get_pending device interrupt_source bus =
    if bad_source interrupt_source
    then (0, bus)
    else (let (word, bus') = load_word device (pending_offset interrupt_source) bus in
        (bit_and word (source_mask interrupt_source), bus'))

unfoldable pub plic_get_enabled : Device → ℕ → ℕ → Bus → ℕ × Bus
plic_get_enabled device context interrupt_source bus =
    if bad_source interrupt_source
    then (0, bus)
    else if bad_context context
    then (0, bus)
    else (let (word, bus') = load_word device (enable_offset context interrupt_source) bus in
        (bit_and word (source_mask interrupt_source), bus'))

-- The two atomic instructions write the word and drop its old value. `~source_mask` is a `uint32`.
unfoldable pub plic_set_enabled : ℕ → ℕ → ℕ → Bus → Bus
plic_set_enabled context interrupt_source enable bus =
    if bad_source interrupt_source
    then bus
    else if bad_context context
    then bus
    else if enable == 0
    then amo_and (enable_offset context interrupt_source)
        (2 ^ 32 - 1 - source_mask interrupt_source)
      ∷ bus
    else amo_or (enable_offset context interrupt_source) (source_mask interrupt_source) ∷ bus

unfoldable pub plic_get_threshold : Device → ℕ → Bus → ℕ × Bus
plic_get_threshold device context bus =
    if bad_context context then (0, bus) else load_word device (threshold_offset context) bus

unfoldable pub plic_set_threshold : ℕ → ℕ → Bus → Bus
plic_set_threshold context threshold bus =
    if bad_context context then bus else store_word (threshold_offset context) threshold bus

-- 0 if no interrupt is pending, or on a bad context.
unfoldable pub plic_claim : Device → ℕ → Bus → ℕ × Bus
plic_claim device context bus =
    if bad_context context then (0, bus) else load_word device (claim_offset context) bus

unfoldable pub plic_complete : ℕ → ℕ → Bus → Bus
plic_complete context interrupt_id bus =
    if bad_context context then bus else store_word (claim_offset context) interrupt_id bus
