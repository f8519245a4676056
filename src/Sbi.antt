-- ===== src/Sbi.antt =====
-- lib/sbi.c: the calls of the firmware. What the firmware does is a parameter: the answer to the
-- registers of an `ecall`, and the new state of the machine.
pub mod Decode
use riscv_hypervisor.Common.{ℕ, u32}

pub record Sbiret : Type 0 where
  pub error : ℕ
  pub value : ℕ

-- The argument registers, and `a6` and `a7` with the numbers of the function and the extension.
pub record Ecall : Type 0 where
  pub a0 : ℕ
  pub a1 : ℕ
  pub a2 : ℕ
  pub a3 : ℕ
  pub a4 : ℕ
  pub a5 : ℕ
  pub a6 : ℕ
  pub a7 : ℕ

module _ {S : Type 0} (ecall : Ecall → S → Sbiret × S) where
  unfoldable pub sbi_ecall : (eid fid a0 a1 a2 a3 a4 a5 : ℕ) → S → Sbiret × S
  sbi_ecall eid fid a0 a1 a2 a3 a4 a5 =
      ecall record { a0 = a0; a1 = a1; a2 = a2; a3 = a3; a4 = a4; a5 = a5; a6 = fid; a7 = eid }

  unfoldable pub sbi_get_spec_version : S → Sbiret × S
  unfolding sbi_ecall
  sbi_get_spec_version = sbi_ecall 0x10 0 0 0 0 0 0 0

  unfoldable pub sbi_get_impl_id : S → Sbiret × S
  unfolding sbi_ecall
  sbi_get_impl_id = sbi_ecall 0x10 1 0 0 0 0 0 0

  unfoldable pub sbi_get_impl_version : S → Sbiret × S
  unfolding sbi_ecall
  sbi_get_impl_version = sbi_ecall 0x10 2 0 0 0 0 0 0

  unfoldable pub sbi_probe_extension : (extension_id : ℕ) → S → Sbiret × S
  unfolding sbi_ecall
  sbi_probe_extension extension_id = sbi_ecall 0x10 3 extension_id 0 0 0 0 0

  unfoldable pub sbi_get_mvendorid : S → Sbiret × S
  unfolding sbi_ecall
  sbi_get_mvendorid = sbi_ecall 0x10 4 0 0 0 0 0 0

  unfoldable pub sbi_get_marchid : S → Sbiret × S
  unfolding sbi_ecall
  sbi_get_marchid = sbi_ecall 0x10 5 0 0 0 0 0 0

  unfoldable pub sbi_get_mimpid : S → Sbiret × S
  unfolding sbi_ecall
  sbi_get_mimpid = sbi_ecall 0x10 6 0 0 0 0 0 0

  unfoldable pub sbi_set_timer : (stime_value : ℕ) → S → Sbiret × S
  unfolding sbi_ecall
  sbi_set_timer stime_value = sbi_ecall 0x54494d45 0 stime_value 0 0 0 0 0

  unfoldable pub sbi_send_ipi : (hart_mask hart_mask_base : ℕ) → S → Sbiret × S
  unfolding sbi_ecall
  sbi_send_ipi hart_mask hart_mask_base = sbi_ecall 0x735049 0 hart_mask hart_mask_base 0 0 0 0

  unfoldable pub sbi_remote_fence_i : (hart_mask hart_mask_base : ℕ) → S → Sbiret × S
  unfolding sbi_ecall
  sbi_remote_fence_i hart_mask hart_mask_base =
      sbi_ecall 0x52464e43 0 hart_mask hart_mask_base 0 0 0 0

  unfoldable pub sbi_remote_sfence_vma :
      (hart_mask hart_mask_base start_addr size : ℕ) → S → Sbiret × S
  unfolding sbi_ecall
  sbi_remote_sfence_vma hart_mask hart_mask_base start_addr size =
      sbi_ecall 0x52464e43 1 hart_mask hart_mask_base start_addr size 0 0

  unfoldable pub sbi_remote_sfence_vma_asid :
      (hart_mask hart_mask_base start_addr size asid : ℕ) → S → Sbiret × S
  unfolding sbi_ecall
  sbi_remote_sfence_vma_asid hart_mask hart_mask_base start_addr size asid =
      sbi_ecall 0x52464e43 2 hart_mask hart_mask_base start_addr size asid 0

  unfoldable pub sbi_remote_hfence_gvma_vmid :
      (hart_mask hart_mask_base start_addr size vmid : ℕ) → S → Sbiret × S
  unfolding sbi_ecall
  sbi_remote_hfence_gvma_vmid hart_mask hart_mask_base start_addr size vmid =
      sbi_ecall 0x52464e43 3 hart_mask hart_mask_base start_addr size vmid 0

  unfoldable pub sbi_remote_hfence_gvma :
      (hart_mask hart_mask_base start_addr size : ℕ) → S → Sbiret × S
  unfolding sbi_ecall
  sbi_remote_hfence_gvma hart_mask hart_mask_base start_addr size =
      sbi_ecall 0x52464e43 4 hart_mask hart_mask_base start_addr size 0 0

  unfoldable pub sbi_remote_hfence_vvma_asid :
      (hart_mask hart_mask_base start_addr size asid : ℕ) → S → Sbiret × S
  unfolding sbi_ecall
  sbi_remote_hfence_vvma_asid hart_mask hart_mask_base start_addr size asid =
      sbi_ecall 0x52464e43 5 hart_mask hart_mask_base start_addr size asid 0

  unfoldable pub sbi_remote_hfence_vvma :
      (hart_mask hart_mask_base start_addr size : ℕ) → S → Sbiret × S
  unfolding sbi_ecall
  sbi_remote_hfence_vvma hart_mask hart_mask_base start_addr size =
      sbi_ecall 0x52464e43 6 hart_mask hart_mask_base start_addr size 0 0

  unfoldable pub sbi_hart_start : (hartid start_addr opaque : ℕ) → S → Sbiret × S
  unfolding sbi_ecall
  sbi_hart_start hartid start_addr opaque = sbi_ecall 0x48534d 0 hartid start_addr opaque 0 0 0

  unfoldable pub sbi_hart_stop : S → Sbiret × S
  unfolding sbi_ecall
  sbi_hart_stop = sbi_ecall 0x48534d 1 0 0 0 0 0 0

  unfoldable pub sbi_hart_get_status : (hartid : ℕ) → S → Sbiret × S
  unfolding sbi_ecall
  sbi_hart_get_status hartid = sbi_ecall 0x48534d 2 hartid 0 0 0 0 0

  unfoldable pub sbi_hart_suspend : (suspend_type resume_addr opaque : ℕ) → S → Sbiret × S
  unfolding sbi_ecall
  sbi_hart_suspend suspend_type resume_addr opaque =
      sbi_ecall 0x48534d 3 (u32 suspend_type) resume_addr opaque 0 0 0
