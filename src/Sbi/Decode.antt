-- ===== src/Sbi/Decode.antt =====
-- The requests against the numbers that the specification of the interface gives them.
use riscv_hypervisor.Common.{ℕ, ◌≡◌, refl, Option, none, some, ◌&&◌, ◌==◌, if◌then◌else◌, u32}
use riscv_hypervisor.Sbi.{
  Sbiret, Ecall, sbi_get_spec_version, sbi_get_impl_id, sbi_get_impl_version, sbi_probe_extension,
  sbi_get_mvendorid, sbi_get_marchid, sbi_get_mimpid, sbi_set_timer, sbi_send_ipi,
  sbi_remote_fence_i, sbi_remote_sfence_vma, sbi_remote_sfence_vma_asid,
  sbi_remote_hfence_gvma_vmid, sbi_remote_hfence_gvma, sbi_remote_hfence_vvma_asid,
  sbi_remote_hfence_vvma, sbi_hart_start, sbi_hart_stop, sbi_hart_get_status, sbi_hart_suspend,
}

-- One constructor for each function of the interface that the hypervisor can call.
pub data Request : Type 0 where
  get_spec_version : Request
  get_impl_id : Request
  get_impl_version : Request
  probe_extension : (extension_id : ℕ) → Request
  get_mvendorid : Request
  get_marchid : Request
  get_mimpid : Request
  set_timer : (stime_value : ℕ) → Request
  send_ipi : (hart_mask hart_mask_base : ℕ) → Request
  remote_fence_i : (hart_mask hart_mask_base : ℕ) → Request
  remote_sfence_vma : (hart_mask hart_mask_base start_addr size : ℕ) → Request
  remote_sfence_vma_asid : (hart_mask hart_mask_base start_addr size asid : ℕ) → Request
  remote_hfence_gvma_vmid : (hart_mask hart_mask_base start_addr size vmid : ℕ) → Request
  remote_hfence_gvma : (hart_mask hart_mask_base start_addr size : ℕ) → Request
  remote_hfence_vvma_asid : (hart_mask hart_mask_base start_addr size asid : ℕ) → Request
  remote_hfence_vvma : (hart_mask hart_mask_base start_addr size : ℕ) → Request
  hart_start : (hartid start_addr opaque : ℕ) → Request
  hart_stop : Request
  hart_get_status : (hartid : ℕ) → Request
  hart_suspend : (suspend_type resume_addr opaque : ℕ) → Request

module _ {S : Type 0} (ecall : Ecall → S → Sbiret × S) where
  abbrev pub send : Request → S → Sbiret × S
  send get_spec_version = sbi_get_spec_version ecall
  send get_impl_id = sbi_get_impl_id ecall
  send get_impl_version = sbi_get_impl_version ecall
  send (probe_extension extension_id) = sbi_probe_extension ecall extension_id
  send get_mvendorid = sbi_get_mvendorid ecall
  send get_marchid = sbi_get_marchid ecall
  send get_mimpid = sbi_get_mimpid ecall
  send (set_timer stime_value) = sbi_set_timer ecall stime_value
  send (send_ipi hart_mask hart_mask_base) = sbi_send_ipi ecall hart_mask hart_mask_base
  send (remote_fence_i hart_mask hart_mask_base) = sbi_remote_fence_i ecall hart_mask hart_mask_base
  send (remote_sfence_vma hart_mask hart_mask_base start_addr size) =
      sbi_remote_sfence_vma ecall hart_mask hart_mask_base start_addr size
  send (remote_sfence_vma_asid hart_mask hart_mask_base start_addr size asid) =
      sbi_remote_sfence_vma_asid ecall hart_mask hart_mask_base start_addr size asid
  send (remote_hfence_gvma_vmid hart_mask hart_mask_base start_addr size vmid) =
      sbi_remote_hfence_gvma_vmid ecall hart_mask hart_mask_base start_addr size vmid
  send (remote_hfence_gvma hart_mask hart_mask_base start_addr size) =
      sbi_remote_hfence_gvma ecall hart_mask hart_mask_base start_addr size
  send (remote_hfence_vvma_asid hart_mask hart_mask_base start_addr size asid) =
      sbi_remote_hfence_vvma_asid ecall hart_mask hart_mask_base start_addr size asid
  send (remote_hfence_vvma hart_mask hart_mask_base start_addr size) =
      sbi_remote_hfence_vvma ecall hart_mask hart_mask_base start_addr size
  send (hart_start hartid start_addr opaque) = sbi_hart_start ecall hartid start_addr opaque
  send hart_stop = sbi_hart_stop ecall
  send (hart_get_status hartid) = sbi_hart_get_status ecall hartid
  send (hart_suspend suspend_type resume_addr opaque) =
      sbi_hart_suspend ecall suspend_type resume_addr opaque

-- The request that the registers of a call stand for, by its extension and function.
abbrev pub decode : Ecall → Option Request
decode r =
    if r.a7 == 0x10 && r.a6 == 0
    then some get_spec_version
    else if r.a7 == 0x10 && r.a6 == 1
    then some get_impl_id
    else if r.a7 == 0x10 && r.a6 == 2
    then some get_impl_version
    else if r.a7 == 0x10 && r.a6 == 3
    then some (probe_extension r.a0)
    else if r.a7 == 0x10 && r.a6 == 4
    then some get_mvendorid
    else if r.a7 == 0x10 && r.a6 == 5
    then some get_marchid
    else if r.a7 == 0x10 && r.a6 == 6
    then some get_mimpid
    else if r.a7 == 0x54494d45 && r.a6 == 0
    then some (set_timer r.a0)
    else if r.a7 == 0x735049 && r.a6 == 0
    then some (send_ipi r.a0 r.a1)
    else if r.a7 == 0x52464e43 && r.a6 == 0
    then some (remote_fence_i r.a0 r.a1)
    else if r.a7 == 0x52464e43 && r.a6 == 1
    then some (remote_sfence_vma r.a0 r.a1 r.a2 r.a3)
    else if r.a7 == 0x52464e43 && r.a6 == 2
    then some (remote_sfence_vma_asid r.a0 r.a1 r.a2 r.a3 r.a4)
    else if r.a7 == 0x52464e43 && r.a6 == 3
    then some (remote_hfence_gvma_vmid r.a0 r.a1 r.a2 r.a3 r.a4)
    else if r.a7 == 0x52464e43 && r.a6 == 4
    then some (remote_hfence_gvma r.a0 r.a1 r.a2 r.a3)
    else if r.a7 == 0x52464e43 && r.a6 == 5
    then some (remote_hfence_vvma_asid r.a0 r.a1 r.a2 r.a3 r.a4)
    else if r.a7 == 0x52464e43 && r.a6 == 6
    then some (remote_hfence_vvma r.a0 r.a1 r.a2 r.a3)
    else if r.a7 == 0x48534d && r.a6 == 0
    then some (hart_start r.a0 r.a1 r.a2)
    else if r.a7 == 0x48534d && r.a6 == 1
    then some hart_stop
    else if r.a7 == 0x48534d && r.a6 == 2
    then some (hart_get_status r.a0)
    else if r.a7 == 0x48534d && r.a6 == 3
    then some (hart_suspend r.a0 r.a1 r.a2)
    else none

-- The type of a suspension is a 32-bit number.
abbrev pub truncated : Request → Request
truncated (hart_suspend suspend_type resume_addr opaque) =
    hart_suspend (u32 suspend_type) resume_addr opaque
truncated get_spec_version = get_spec_version
truncated get_impl_id = get_impl_id
truncated get_impl_version = get_impl_version
truncated (probe_extension extension_id) = probe_extension extension_id
truncated get_mvendorid = get_mvendorid
truncated get_marchid = get_marchid
truncated get_mimpid = get_mimpid
truncated (set_timer stime_value) = set_timer stime_value
truncated (send_ipi hart_mask hart_mask_base) = send_ipi hart_mask hart_mask_base
truncated (remote_fence_i hart_mask hart_mask_base) = remote_fence_i hart_mask hart_mask_base
truncated (remote_sfence_vma hart_mask hart_mask_base start_addr size) =
    remote_sfence_vma hart_mask hart_mask_base start_addr size
truncated (remote_sfence_vma_asid hart_mask hart_mask_base start_addr size asid) =
    remote_sfence_vma_asid hart_mask hart_mask_base start_addr size asid
truncated (remote_hfence_gvma_vmid hart_mask hart_mask_base start_addr size vmid) =
    remote_hfence_gvma_vmid hart_mask hart_mask_base start_addr size vmid
truncated (remote_hfence_gvma hart_mask hart_mask_base start_addr size) =
    remote_hfence_gvma hart_mask hart_mask_base start_addr size
truncated (remote_hfence_vvma_asid hart_mask hart_mask_base start_addr size asid) =
    remote_hfence_vvma_asid hart_mask hart_mask_base start_addr size asid
truncated (remote_hfence_vvma hart_mask hart_mask_base start_addr size) =
    remote_hfence_vvma hart_mask hart_mask_base start_addr size
truncated (hart_start hartid start_addr opaque) = hart_start hartid start_addr opaque
truncated hart_stop = hart_stop
truncated (hart_get_status hartid) = hart_get_status hartid

-- Each function of the firmware interface makes one ecall, and the extension, function and
-- argument registers of that call stand for the same request and arguments, a suspension's type
-- cut to 32 bits.
pub send-decode :
    {S : Type 0} (ecall : Ecall → S → Sbiret × S) (request : Request) (s : S)
    → (r : Ecall) × (send ecall request s ≡ ecall r s) × (decode r ≡ some (truncated request))
unfolding sbi_get_spec_version sbi_get_impl_id sbi_get_impl_version sbi_probe_extension
    sbi_get_mvendorid sbi_get_marchid sbi_get_mimpid sbi_set_timer sbi_send_ipi sbi_remote_fence_i
    sbi_remote_sfence_vma sbi_remote_sfence_vma_asid sbi_remote_hfence_gvma_vmid
    sbi_remote_hfence_gvma sbi_remote_hfence_vvma_asid sbi_remote_hfence_vvma sbi_hart_start
    sbi_hart_stop sbi_hart_get_status sbi_hart_suspend
send-decode ecall get_spec_version s = (_, refl, refl)
send-decode ecall get_impl_id s = (_, refl, refl)
send-decode ecall get_impl_version s = (_, refl, refl)
send-decode ecall (probe_extension extension_id) s = (_, refl, refl)
send-decode ecall get_mvendorid s = (_, refl, refl)
send-decode ecall get_marchid s = (_, refl, refl)
send-decode ecall get_mimpid s = (_, refl, refl)
send-decode ecall (set_timer stime_value) s = (_, refl, refl)
send-decode ecall (send_ipi hart_mask hart_mask_base) s = (_, refl, refl)
send-decode ecall (remote_fence_i hart_mask hart_mask_base) s = (_, refl, refl)
send-decode ecall (remote_sfence_vma hart_mask hart_mask_base start_addr size) s = (_, refl, refl)
send-decode ecall (remote_sfence_vma_asid hart_mask hart_mask_base start_addr size asid) s =
    (_, refl, refl)
send-decode ecall (remote_hfence_gvma_vmid hart_mask hart_mask_base start_addr size vmid) s =
    (_, refl, refl)
send-decode ecall (remote_hfence_gvma hart_mask hart_mask_base start_addr size) s = (_, refl, refl)
send-decode ecall (remote_hfence_vvma_asid hart_mask hart_mask_base start_addr size asid) s =
    (_, refl, refl)
send-decode ecall (remote_hfence_vvma hart_mask hart_mask_base start_addr size) s = (_, refl, refl)
send-decode ecall (hart_start hartid start_addr opaque) s = (_, refl, refl)
send-decode ecall hart_stop s = (_, refl, refl)
send-decode ecall (hart_get_status hartid) s = (_, refl, refl)
send-decode ecall (hart_suspend suspend_type resume_addr opaque) s = (_, refl, refl)
