-- ===== src/Lib.antt =====
-- Fobos OS, modelled and verified: the core of the kernel, under kernel/, with lib/mem.c and part
-- of lib/printf.c. The hardware reaches the kernel through interrupts. The timer's drives the scheduler; the keyboard's and the mouse's fill
-- the state that the desktop polls; the network card's frames go through one handler. Page
-- allocator and heap stand below all of it: the boot code starts the page allocator from the boot
-- loader's memory map, the heap and the tables of paging take their pages from there, and the tasks'
-- stacks come from it. The file system stands on a disk of sectors, and the HTTP client on the
-- network's connections.
--
-- Each module is about one file of the source, and each of its functions about the C function of
-- the same name; a part of a C function that has a definition of its own is named for what it does.
-- The static variables of a file are a record (Pmm, Vmm, Sched, Keyboard, Mouse, Net, Dfs) that the functions
-- take and give back; what the hardware or another component supplies is an argument.
--
--   Base       numbers, Boolean tests, integers, lists and arrays that the rest shares
--   Pmm        kernel/pmm.c: the page allocator (Pmm) and its start-up (Pmm/Boot); the bitmap
--              (Bits), the invariant (Inv), one page (Frame, Mark), runs of pages (Frames)
--   Vmm        kernel/vmm.c: the tables in memory over the page allocator; the tree they form (Walk,
--              Table, Step) above the lowest 512 GB, mapping (Mapping) and unmapping (Unmapping)
--   Heap       kernel/heap.c: the block list as the list of its blocks; what it keeps true
--              (Blocks), kmalloc (Alloc), kfree (Free, Release)
--   Sched      kernel/sched.c: the task table and the choice of a task (Sched, Pick,
--              Order), the invariant
--              (Inv), giving way and leaving (Switch, Exit), the timer tick (Tick), creation
--              (Create) and periodic tasks (Period)
--   Keyboard   kernel/keyboard.c: scancode tables (Maps), the ring of characters (Buffer), the
--              layout switch (Layout)
--   Mouse      kernel/mouse.c: packets and the pointer's bounds (Bounds)
--   Rtc        kernel/rtc.c: the calendar (Calendar), the time zone (Offset), the registers (Decode)
--   Mem        lib/mem.c: copies (Move) and comparison (Compare) of bytes in memory
--   Printf     lib/printf.c: characters and unsigned numbers into a buffer (Numbers)
--   Wire       the helpers of kernel/net.c on bytes: fields, checksum (Checksum), addresses in text
--              (Address), host names, equal text (Strings)
--   Net        kernel/net.c: state, ARP and IPv4 output (Link), ICMP, UDP and TCP (Transport), the
--              way of a frame (Receive), the ARP exchange (Arp), IPv4 headers (Header), the TCP
--              stream (Stream)
--   Http       kernel/http.c: text (Scan), cookies (Cookies, its Count), URLs (Url), headers (Headers),
--              chunked bodies (Chunked), request, answer and redirects (Request)
--   DiskFs     kernel/diskfs.c over a block device, which is an interface (Device): bytes on disk
--              (Layout, Directory), operations (Files), and what they keep and promise (the rest)
--
-- A module called Tests holds runs of the definitions and the theorems at concrete states.
--
-- Numbers are natural and wrap at their width where the code can reach it; signed ones that can
-- fall below zero are integers (Base/Int). Loops are recursion on the list they walk or on fuel:
-- the search loops of the page allocator run on the number of pages left, which is their exact
-- count; the clock's minutes are wrapped with one round for each day of the total and its months
-- with two, and offsets of up to 14 hours need one; the carries of a checksum are folded with two
-- rounds, enough for 32 bits; net_tcp_send and the file system's transfers run one round for each
-- byte, and a round moves one or more.
--
-- The theorems on paging are on the addresses above the lowest 512 GB: below, the boot code has
-- entries of 2 MB pages, which vmm.c takes for tables.
--
-- Not modelled: port input and output, assembly and the tables of the processor, which are
-- hardware, with the flush of the translation buffer; the loader of programs, the disk driver,
-- HTML, the window system and the applications; memory contents behind heap pointers; and the loops
-- of kernel/net.c that wait on the timer, in whose place stand sequences of received packets.
pub mod Base
pub mod DiskFs
pub mod Heap
pub mod Http
pub mod Keyboard
pub mod Mem
pub mod Mouse
pub mod Net
pub mod Pmm
pub mod Printf
pub mod Rtc
pub mod Sched
pub mod Vmm
pub mod Wire
