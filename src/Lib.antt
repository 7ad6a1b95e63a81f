-- ===== src/Lib.antt =====
-- OS_LEARN: a kernel for 32-bit x86 machines, and the part of it that is modelled here.
--
-- The program boots by a small loader that sets up the first page tables (arch/x86/hhk.c), starts
-- the kernel proper (kernel/k_init.c), which fills the descriptor tables, the physical memory
-- manager and the screen, then maps memory, sets up the heap, reads the ACPI tables, and starts the
-- interrupt controllers and the timer. The parts that are modelled, each with its file:
--
--   Paging      includes/awa/mm/page.h: the macros on addresses and page table entries.
--   Pmm         kernel/mm/pmm.c: the bitmap of physical pages, marking, allocation and release.
--   Mmu         no code: the machine below vmm.c, that is memory by frames and the translation of an
--               address by two levels of tables.
--   Vmm         kernel/mm/vmm.c: mapping, lookup and unmapping of pages, on that machine.
--   Dmm         kernel/mm/dmm.c: the end of the heap, over an interface to vmm.c.
--   Kalloc      kernel/mm/kalloc.c: the allocator on the heap.
--   Klibc       libs/klibc: memory, texts and the printing of numbers.
--   Tty         kernel/tty/tty.c: the text screen.
--   Interrupts  kernel/asm/x86/interrupts.c and intr_routines.c: subscription and dispatch.
--   Llist       includes/awa/ds/llist.h: the doubly linked list.
--   Rtc         hal/rtc.c: the real time clock.
--   Boot        arch/x86/hhk.c: the first page tables, up to what the machine translates with them.
--   Multiboot   arch/x86/hhk.c: the copies of the multiboot structures.
--   KInit       kernel/k_init.c: the memory map, the reserved memory and the stack.
--   Descriptors kernel/asm/x86/gdt.c and idt.c: the entries of the descriptor tables.
--   Ioapic      hal/ioapic.c: the redirection of interrupt lines.
--   Timer       kernel/timer.c: the timers, and the calibration of the local timer.
--   Acpi        hal/acpi/acpi.c and hal/acpi/parser/madt_parser.c: the root pointer and the tables.
--   Sprintf     libs/klibc/stdio/sprintf.c: formatted output.
--   Kprintf     kernel/kprintf.c: the messages of the kernel.
--   Apic        hal/apic.c: the local interrupt controller.
--   Cpu         hal/cpu.c: the processor's model and brand.
--   Base        no code: comparisons, C arrays, words with their bits, and the loops of C.
--
-- Each file of a part has the functions of the source under the same names, a record for the static
-- variables, and child modules for what is proved; the children named Tests hold small states, the
-- theorems at them, and runs. Pmm and Vmm fit together: a command of Vmm runs on a machine that
-- holds the state of Pmm. Dmm takes the virtual memory manager as a record of operations and laws,
-- and Kalloc takes the same record; Dmm/OnVmm fills it with vmm_alloc_page and vmm_alloc_pages on
-- the machine, for whole pages and well-formed page tables, where they neither fault nor run out of
-- rounds. The heap of Kalloc is a memory of words; Kalloc/Layout says which memories hold a list of
-- chunks, and what malloc means on that list. Timer keeps its timers on Llist, takes ticks from Rtc
-- and subscribes with Interrupts; a callback is an event. Kprintf puts together its message with
-- Sprintf and shows it with Tty; a format is the list of its characters.
--
-- Numbers are natural numbers; a value of 32, 16 or 8 bits is reduced where the code may exceed it.
-- Arrays and memory are functions from an index, so that the bounds of a static array are not part
-- of the state; where an access could leave it, the theorems say which indices are written, or, for
-- the array of madt_parse and the buffers of kprintf, leaving it is an outcome.
--
-- Loops. A counted loop is a recursion on its count. The search of pmm_alloc_page has the fuel
-- max_pg + pg_lookup_ptr + 2, since each round moves on inside at most two intervals. The search of
-- vmm_map_page has one round for each entry of each table and two more, for the first entry past
-- them and to stop. The walk of the allocator has one round for each word of the heap and one to
-- stop. The loops of the C library that run to the end of a text take their fuel as an argument, and
-- the theorems ask for more than the length of the text; __uitoa_internal has the value itself plus
-- one, since each further round divides it. The loop of time_getdatetime takes its fuel as an
-- argument, as do timer_update and madt_parse, whose theorems ask for more than the timers and the
-- entries. acpi_locate_rsdp has one round for every 16 bytes up to 1 MiB and one to stop, and
-- __sprintf_internal one for each character of the format and one to stop.
--
-- Left out. `assert` and `assert_msg` are those of a build without __AWAOS_DEBUG__. Access rights,
-- the translation cache and the flushing of it are left out. Interrupt routines print and stop; that
-- one is called is an event. The rest of kernel/k_init.c is not modelled, nor are assembly, linker
-- scripts and the build.
pub mod Base
pub mod Paging
pub mod Pmm
pub mod Mmu
pub mod Vmm
pub mod Dmm
pub mod Kalloc
pub mod Klibc
pub mod Tty
pub mod Interrupts
pub mod Llist
pub mod Rtc
pub mod Boot
pub mod KInit
pub mod Descriptors
pub mod Ioapic
pub mod Multiboot
pub mod Timer
pub mod Acpi
pub mod Sprintf
pub mod Kprintf
pub mod Cpu
pub mod Apic
