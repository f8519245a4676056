-- ===== src/Examples/Starts.antt =====
-- Harts that start and run their guests.
use riscv_hypervisor.Common.{ℕ, ◌+◌, ◌^◌, ◌≡◌, refl, List, [], ◌∷◌, ◌++◌, arith}
use riscv_hypervisor.Common.Effects.{ok}
use riscv_hypervisor.Plic.{Access}
use riscv_hypervisor.VmConfig.{VmConfig, xv6_devices, another_xv6_devices}
use riscv_hypervisor.VmConfig.Devices.{sources_apart}
use riscv_hypervisor.Vcpu.{Hart, get_config_for_cpu, get_vhartid, vhartid_loop, init_vcpu}
use riscv_hypervisor.Vplic.Guests.{HaveNoCommonWord}
use riscv_hypervisor.Vplic.Handlers.{vplic_handle_interrupt}
use riscv_hypervisor.Trap.{Machine, hs_interrupt_handler}
use riscv_hypervisor.Trap.Runs.{Run, begin, interrupted, IsKept, Run-IsKept, runs_apart}
use riscv_hypervisor.VmRun.Start.{
  Core, check_phase, map_phase, enter_phase, init_hs, init_vs, vm_run, init_vm_barriers,
}
use riscv_hypervisor.VmRun.Entered.{Entered, vm_run-Entered}
use riscv_hypervisor.Examples.{conf_of, hart_of, first_hart, second_hart, serial_pends}
use riscv_hypervisor.VmRun.Barriers.{AreCounted, init_vm_barriers-AreCounted}
use riscv_hypervisor.Lock.{Barrier, barrier_initializer}

abbrev on_board : Hart → Machine
on_board h = record { hart = h; ram = record { memory = λ a. 0; freelist = 0 } }

-- The second of two harts of a machine.
abbrev two_harts : List VmConfig
two_harts = conf_of 0b11 xv6_devices ∷ []

abbrev before : Core
before = record {
  machine = on_board (hart_of 1 0 (λ r. 0) (conf_of 0b11 xv6_devices));
  registers = λ n. 0;
  barriers = [];
}

starts : (after : Core) × (vm_run two_harts 1 before ≡ ok tt after)
unfolding vm_run check_phase map_phase enter_phase init_vcpu get_config_for_cpu get_vhartid
    vhartid_loop init_hs init_vs
starts = (_, refl)

vm_run-Entered_example : Entered two_harts 1 before starts.0
vm_run-Entered_example = vm_run-Entered two_harts 1 before starts.0 (omega arith) starts.1

-- An external interrupt on each of the two harts of the board.
abbrev external : ℕ
external = 2 ^ 63 + 9

first_run : (after : Machine) × Run (on_board first_hart) after
unfolding hs_interrupt_handler vplic_handle_interrupt
first_run = (_, interrupted serial_pends external begin refl)

second_run : (after : Machine) × Run (on_board second_hart) after
unfolding hs_interrupt_handler vplic_handle_interrupt
second_run = (_, interrupted serial_pends external begin refl)

Run-IsKept_example : IsKept (on_board first_hart) first_run.0
Run-IsKept_example = Run-IsKept first_run.1

runs_apart_example :
    (mine yours : List Access) × (first_run.0.hart.bus ≡ mine ++ [])
    × (second_run.0.hart.bus ≡ yours ++ [])
    × HaveNoCommonWord mine yours
runs_apart_example =
    runs_apart (on_board first_hart) first_run.0 (on_board second_hart) second_run.0
      (λ p. sources_apart p) (omega arith) (omega arith) (omega arith) first_run.1 second_run.1

-- Both machines of the board.
abbrev barriers_unset : Core
barriers_unset = record before { barriers = barrier_initializer 5 ∷ barrier_initializer 6 ∷ [] }

init_vm_barriers-AreCounted_example :
    (bars : List Barrier) × (init_vm_barriers
        (conf_of 1 xv6_devices ∷ conf_of 2 another_xv6_devices ∷ [])
        barriers_unset
      ≡ ok tt (record barriers_unset { barriers = bars }))
    × AreCounted (conf_of 1 xv6_devices ∷ conf_of 2 another_xv6_devices ∷ []) bars
init_vm_barriers-AreCounted_example =
    init_vm_barriers-AreCounted (conf_of 1 xv6_devices ∷ conf_of 2 another_xv6_devices ∷ [])
      barriers_unset (omega arith, (omega arith, tt))
