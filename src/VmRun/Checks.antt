-- ===== src/VmRun/Checks.antt =====
-- What a configuration that passes the checks of the boot processor satisfies.
use riscv_hypervisor.Common.{ℕ, ◌≡◌, List, [], ◌∷◌, ◌++◌, All, ◌==◌, not, bit_and, arith}
use riscv_hypervisor.Common.BitTests.{bit, bit-zero, bit-bit_and}
use riscv_hypervisor.Common.Effects.{ok, and_then-eq-ok, panic_if-eq-ok, shared_cpu, panic_if}
use riscv_hypervisor.VmConfig.{VmConfig}
use riscv_hypervisor.Ram.{Ram}
use riscv_hypervisor.VmRun.{overlaps, check_overlap, check_cpu_configuration}

-- No hart belongs to both machines.
abbrev pub ShareNoHart : VmConfig → VmConfig → Type 0
ShareNoHart c d = (hart : ℕ) → bit hart c.cpu_affinity ≡ 1 → bit hart d.cpu_affinity ≡ 0

-- No two machines of the list share a hart.
abbrev pub ArePartitioned : List VmConfig → Type 0
ArePartitioned [] = Unit
ArePartitioned (c ∷ config) = All (λ d. ShareNoHart d c) config × ArePartitioned config

ShareNoHart-and : (c d : VmConfig) → bit_and c.cpu_affinity d.cpu_affinity ≡ 0 → ShareNoHart c d
ShareNoHart-and c d none_common hart mine =
    let common : bit hart (bit_and c.cpu_affinity d.cpu_affinity) ≡ 0 =
      rw none_common (bit-zero hart) in
    omega (arith, bit-bit_and hart c.cpu_affinity d.cpu_affinity)

overlaps-ok :
    (c : VmConfig) (before : List VmConfig) (ram after : Ram)
    → overlaps c.cpu_affinity before ram ≡ ok tt after
    → All (ShareNoHart c) before × (ram ≡ after)
unfolding overlaps
overlaps-ok c [] ram after h = (tt, cc)
overlaps-ok c (d ∷ before) ram after h =
    let (u, ram1, tested, rest) =
      and_then-eq-ok (panic_if (not (bit_and c.cpu_affinity d.cpu_affinity == 0)) shared_cpu ram)
        (λ _. overlaps c.cpu_affinity before) h in
    let (passed, same) =
      panic_if-eq-ok (not (bit_and c.cpu_affinity d.cpu_affinity == 0)) shared_cpu ram tested in
    let (others, kept) = overlaps-ok c before ram1 after rest in
    ((ShareNoHart-and c d (ground arith), others), cc (same, kept))

All-split : (P : VmConfig → Type 0) (xs ys : List VmConfig) → All P (xs ++ ys) → All P xs × All P ys
All-split P [] ys h = (tt, h)
All-split P (x ∷ xs) ys h = let (l, r) = All-split P xs ys h.1 in ((h.0, l), r)

check_overlap-ok :
    (before config : List VmConfig) (ram after : Ram)
    → check_overlap before config ram ≡ ok tt after
    → All (λ c. All (ShareNoHart c) before) config × ArePartitioned config × (ram ≡ after)
unfolding check_overlap
check_overlap-ok before [] ram after h = (tt, tt, cc)
check_overlap-ok before (c ∷ config) ram after h =
    let (u, ram1, first, rest) =
      and_then-eq-ok (overlaps c.cpu_affinity before ram)
        (λ _. check_overlap (before ++ c ∷ []) config) h in
    let (mine, same) = overlaps-ok c before ram ram1 first in
    let (later, parted, kept) = check_overlap-ok (before ++ c ∷ []) config ram1 after rest in
    (
      (mine, earlier before c config later),
      (with_first before c config later, parted),
      cc (same, kept),
    )
  where
    earlier :
        (before : List VmConfig) (c : VmConfig) (config : List VmConfig)
        → All (λ d. All (ShareNoHart d) (before ++ c ∷ [])) config
        → All (λ d. All (ShareNoHart d) before) config
    earlier before c [] h = tt
    earlier before c (d ∷ config) h =
        ((All-split (ShareNoHart d) before (c ∷ []) h.0).0, earlier before c config h.1)

    with_first :
        (before : List VmConfig) (c : VmConfig) (config : List VmConfig)
        → All (λ d. All (ShareNoHart d) (before ++ c ∷ [])) config
        → All (λ d. ShareNoHart d c) config
    with_first before c [] h = tt
    with_first before c (d ∷ config) h =
        ((All-split (ShareNoHart d) before (c ∷ []) h.0).1.0, with_first before c config h.1)

-- If the check of a configuration ends normally, no hart belongs to two of its machines.
pub check_cpu_configuration-ArePartitioned :
    (config : List VmConfig) (ram after : Ram)
    → check_cpu_configuration config ram ≡ ok tt after
    → ArePartitioned config
unfolding check_cpu_configuration
check_cpu_configuration-ArePartitioned config ram after h =
    let (u, ram1, first, rest) = and_then-eq-ok (check_overlap [] config ram) _ h in
    (check_overlap-ok [] config ram ram1 first).1
