-- ===== src/Vmem/Tree.antt =====
-- The tables that `map_pages` makes for a guest, as a tree: a root of 2048 entries in the kernel's
-- image, and pages of the allocator as tables of 512 entries below it.
pub mod Slots
pub mod Entries
pub mod Grow
pub mod Fill
pub mod New
pub mod Table
pub mod Descent
pub mod Mapping
pub mod Frame
pub mod Give
pub mod Lookup
pub mod Total
pub mod Region
pub mod Loop
use riscv_hypervisor.Common.{
  ℕ, ◌+◌, ◌*◌, ◌/◌, ◌%◌, ◌^◌, ◌<◌, ◌≤◌, ◌≡◌, ◌≢◌, ◌⊎◌, refl, sym, ◌∙◌, length, arith, Bool, true,
  List, ◌==◌, if◌then◌else◌,
}
use riscv_hypervisor.Dtb.{dtb_memory_size}
use riscv_hypervisor.Memory.{page_size, vas_ram, pte2pa, pa2kpa}
use riscv_hypervisor.Ram.{Ram}
use riscv_hypervisor.Kmem.Chain.{has, IsFree}

-- What a page is used for: nothing yet, a table below the root's entry `i`, a table below entry
-- `j` of such a table, memory of the guest at an address, or something outside the tree.
pub data Use : Type 0 where
  unused : Use
  upper : (i : ℕ) → Use
  lower : (i j : ℕ) → Use
  given : (va : ℕ) → Use
  foreign : Use

abbrev pub slot : ℕ → ℕ → ℕ
slot table index = table + 8 * index

-- The kernel's address of the table that an entry names.
abbrev pub table_of : ℕ → ℕ
table_of e = pa2kpa (pte2pa e)

-- A valid entry that names a table has no permissions.
abbrev pub LeadsTo : ℕ → ℕ → Type 0
LeadsTo table e = (e % 2 ≡ 1) × (e / 2 % 8 ≡ 0) × (table_of e ≡ table)

-- A page of the memory, by the kernel's address.
abbrev pub IsPage : ℕ → Type 0
IsPage page = (page % page_size ≡ 0) × (vas_ram ≤ page) × (page < vas_ram + dtb_memory_size)

-- The root lies in the kernel's image, below the map of the memory.
abbrev pub IsRoot : ℕ → Type 0
IsRoot root = (root ≢ 0) × (root + page_size * 4 ≤ vas_ram)

-- The entry is not valid, or it names the table of a place.
abbrev pub Links : (ℕ → Use) → Use → ℕ → Type 0
Links own place e = (e % 2 ≡ 0) ⊎ ((table : ℕ) × (own table ≡ place) × LeadsTo table e)

pub record Tree (root : ℕ) (own : ℕ → Use) (memory : ℕ → ℕ) : Type 0 where
  pub roots : (i : ℕ) → i < 2048 → Links own (upper i) (memory (slot root i))
  pub uppers :
      (i j table : ℕ)
      → own table ≡ upper i
      → j < 512
      → Links own (lower i j) (memory (slot table j))
  pub pages : (page : ℕ) → own page ≢ foreign → IsPage page

-- The tree with the pages that the allocator has left.
pub record Space (dynamic root : ℕ) (own : ℕ → Use) (pages : List ℕ) (ram : Ram) : Type 0 where
  pub tree : Tree root own ram.memory
  pub list : IsFree dynamic ram pages
  pub left : (page : ℕ) → has page pages ≡ true → own page ≡ unused

-- A page that is put to a use.
abbrev pub assign : (ℕ → Use) → ℕ → Use → ℕ → Use
assign own page place q = if q == page then place else own q

-- The last entry below an entry of an upper table, or 0.
abbrev pub last_entry : (ℕ → ℕ) → ℕ → ℕ → ℕ
last_entry memory a k = if memory a % 2 == 0 then 0 else memory (slot (table_of (memory a)) k)

-- The last entry for a place, or 0 where a table is missing.
abbrev pub entry : (ℕ → ℕ) → ℕ → ℕ → ℕ → ℕ → ℕ
entry memory root i j k =
    if memory (slot root i) % 2 == 0
    then 0
    else last_entry memory (slot (table_of (memory (slot root i))) j) k

-- The place of an address below 2^41.
abbrev pub root_index : ℕ → ℕ
root_index va = va / 2 ^ 30 % 2048

abbrev pub upper_index : ℕ → ℕ
upper_index va = va / 2 ^ 21 % 512

abbrev pub lower_index : ℕ → ℕ
lower_index va = va / 2 ^ 12 % 512

-- What later steps keep of the pages and of the memory outside the tree.
pub record Grows (root : ℕ) (own own' : ℕ → Use) (memory memory' : ℕ → ℕ) : Type 0 where
  pub kept : (q : ℕ) → own q ≢ unused → own' q ≡ own q
  pub others :
      (page k : ℕ)
      → IsPage page
      → own page ≡ foreign
      → k < 512
      → memory' (slot page k) ≡ memory (slot page k)
  pub outside :
      (a : ℕ) → a < vas_ram → (a < root) ⊎ (root + page_size * 4 ≤ a) → memory' a ≡ memory a

-- A step from a space to a space that takes at most `most` pages.
pub record Moves (dynamic root most : ℕ) (own own' : ℕ → Use) (pages pages' : List ℕ)
    (ram ram' : Ram) : Type 0 where
  pub space : Space dynamic root own' pages' ram'
  pub grows : Grows root own own' ram.memory ram'.memory
  pub takes : length pages ≤ most + length pages'

pub Moves-refl :
    (dynamic root : ℕ) (own : ℕ → Use) (pages : List ℕ) (ram : Ram)
    → Space dynamic root own pages ram
    → Moves dynamic root 0 own own pages pages ram ram
Moves-refl dynamic root own pages ram s = record {
  space = s;
  grows = record { kept = λ q u. refl; others = λ page k p f h. refl; outside = λ a h o. refl };
  takes = omega arith;
}

pub Moves-trans :
    (dynamic root n m : ℕ) (own own' own'' : ℕ → Use) (pages pages' pages'' : List ℕ)
    (ram ram' ram'' : Ram)
    → Moves dynamic root n own own' pages pages' ram ram'
    → Moves dynamic root m own' own'' pages' pages'' ram' ram''
    → Moves dynamic root (n + m) own own'' pages pages'' ram ram''
Moves-trans dynamic root n m own own' own'' pages pages' pages'' ram ram' ram'' f g = record {
  space = g.space;
  grows = record {
    kept = λ q u. g.grows.kept q (λ e. u (sym (f.grows.kept q u) ∙ e)) ∙ f.grows.kept q u;
    others = λ page k p o h.
        g.grows.others page k p (f.grows.kept page (λ e. cc) ∙ o) h ∙ f.grows.others page k p o h;
    outside = λ a h o. g.grows.outside a h o ∙ f.grows.outside a h o;
  };
  takes = (let a = f.takes in let b = g.takes in omega arith);
}

pub Moves-more :
    (dynamic root n m : ℕ) (own own' : ℕ → Use) (pages pages' : List ℕ) (ram ram' : Ram)
    → Moves dynamic root n own own' pages pages' ram ram'
    → n ≤ m
    → Moves dynamic root m own own' pages pages' ram ram'
Moves-more dynamic root n m own own' pages pages' ram ram' f h = record {
  space = f.space;
  grows = f.grows;
  takes = (let a = f.takes in omega arith);
}
