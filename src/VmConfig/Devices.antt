-- ===== src/VmConfig/Devices.antt =====
-- The devices of the board's two machines.
use riscv_hypervisor.Common.{ℕ, ◌≤◌, ◌≡◌, true, false, arith}
use riscv_hypervisor.VmConfig.{xv6_devices, another_xv6_devices}
use riscv_hypervisor.Vplic.Irq.{sources_of}
use riscv_hypervisor.Vplic.Irq.Laws.{IsOneToOne}

-- No interrupt source from 1 on belongs to both machines of the board's configuration.
pub sources_apart :
    (p : ℕ) → 1 ≤ p → sources_of xv6_devices p ≡ true → sources_of another_xv6_devices p ≡ false
unfolding sources_of
sources_apart p nonzero h = ground arith

pub xv6_devices-IsOneToOne : IsOneToOne xv6_devices
xv6_devices-IsOneToOne = ground arith

pub another_xv6_devices-IsOneToOne : IsOneToOne another_xv6_devices
another_xv6_devices-IsOneToOne = ground arith
