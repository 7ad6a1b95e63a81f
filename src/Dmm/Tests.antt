-- ===== src/Dmm/Tests.antt =====
-- kernel/mm/dmm.c: a heap on the virtual memory manager and a small machine, and the theorems at it.
use os_learn.Base.{◌≡◌, arith}
use os_learn.Vmm.Sample.{machine, machine-IsPaged, page_one}
use os_learn.Dmm.{HeapContext, lxbrk}
use os_learn.Dmm.Brk.{Backed, Grows, lxbrk-Grows, lxbrk_wraps}
use os_learn.Dmm.OnVmm.{vmm_pages}

abbrev heap : HeapContext
heap = record { start = 0x1000; brk = 0x1004; max_addr = 0xffbf_0000 }

heap-Backed : Backed vmm_pages 0x1000 heap machine
heap-Backed = record {
  word = omega arith;
  pos = omega arith;
  from = omega arith;
  within = omega arith;
  ready = machine-IsPaged;
  backed = λ a l u. (omega (arith, u), page_one a l (omega (arith, u)));
}

lxbrk-Grows_example : Grows vmm_pages 0x1000 heap 4100 (lxbrk vmm_pages heap 4100 machine)
lxbrk-Grows_example =
    lxbrk-Grows vmm_pages 0x1000 heap 4100 machine heap-Backed (omega arith) (omega arith)

lxbrk_wraps_example :
    lxbrk vmm_pages heap 0xffff_fffe machine ≡ (0x1004, record heap { brk = 0x1002 }, machine)
lxbrk_wraps_example =
    lxbrk_wraps vmm_pages heap 0xffff_fffe machine (omega arith) (omega arith) (omega arith)
      (omega arith) (omega arith)
