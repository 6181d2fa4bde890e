-- ===== src/Lib.antt =====
-- DeprecatOS is a 32-bit x86 kernel with an ext2 file system on ATA disks, a shell and a small C
-- library. This development models the parts that carry its logic over data.
--
-- etc/lib: rb/ringBuffer.c is Ring, longops/longops.c is Division, epochToDate/epochToDate.c is
-- Date, mem/mem.c is Mem, and strlen, streq and strcat are Text. A C function is the function of
-- the same name, without the prefix rb_; what it changes through a pointer it returns.
--
-- kernel/process: queue/processQueue.c is Process.Queue, with its static variables as a record,
-- and schedule of scheduler/scheduler.c is Process.Scheduler over it, with the table of the
-- processes that the pointers lead to. The ring and the queue are both circular arrays of 256
-- places; Circular has their arithmetic and Fifo the bounded list that both implement.
--
-- kernel/memory: frameAlloc/frameAllocator.c with mmap_walk of mmap/memoryMap.c is Memory.Frames,
-- paging/paging.c is Memory.Paging and heap/kernelHeap.c is Memory.Heap. Memory is words by their
-- addresses: below HEAP_START, where the page tables lie, every page is mapped to the frame of the
-- same address, and a page from HEAP_START on has the words of its frame. Memory.Heap.Blocks has
-- the list of blocks that a heap stands for. The words of the model can be read and written whether
-- their page is mapped or not; Memory.Paging.Mapped says of an address that the processor finds an
-- entry for it, and Memory.Heap.Mapped that page tables are in place up to a limit and the heap is
-- mapped.
--
-- kernel/drivers/keyboard/keyboard.c is Keyboard: Keys and Switch for the enumeration and the
-- switches, Scancodes and Chars for the tables, and the handler, which pushes to the Ring.
--
-- kernel/drivers/fb/fbController.c is Screen: Screen.Draw has the cells and their pixels, Screen
-- the functions that other files call, Screen.Init fb_init, and Screen.Calls puts the calls in any
-- order. The pixels are bytes of the memory of Mem, moved by its memmove and memset. What fb_init
-- sets once is the argument Geometry of the other functions. The loop over a string runs on a fuel
-- argument.
--
-- kernel/fs and kernel/drivers/disk/ata.c are Fs. Fs.Disk has the transfers of sectors, Fs.Volume
-- the struct fs_info, the monad of operations on a volume and the transfers of blocks, Fs.Bitmap
-- fs/ext2/bitmapController.c. Of fs/block/blockController.c, Fs.Inode has get_inode and set_inode,
-- Fs.MapBlock map_file_block, and Fs.File the operations on whole files: Read, Free, Write, Make,
-- Change and Insert. Packed structs are their bytes, read and written at the offsets of their
-- fields (Fs.Bytes). map_file_block takes its blocks from alloc_block and gives them back to
-- free_block of Fs.Bitmap; everything below a block number goes through read_block and
-- write_block.
--
-- fs/ext2/directoryController.c is in three layers: Fs.Directory.Block has what it does with one
-- block of entries, Fs.Directory.Scan and Fs.Directory.Link the loops over the blocks of a
-- directory on one volume, and Fs.Names the functions that other files call, which first cross a
-- mount point. block_init of the block layer, with drivers/disk/partition.c, is Fs.Partitions.
-- lookup_path of directoryController.c is Fs.Path, which has one component in Step, spells
-- paths in Spell, and says in Route where a path leads by the directories and the table of mounted
-- file systems alone. fs/mount/mount.c is Fs.Mount, and its mount_fs Fs.Mounting: the table of file
-- systems over the two drives, where a pointer to a struct fs_info is its place, and an operation
-- on a volume is lifted to the entry it belongs to. Fs.Volume.Keeps, Fs.Bitmap.Keeps and the like
-- have what every operation preserves, one lemma for each function, and Fs.Safety puts the
-- operations in any order.
--
-- Where the C code calls timer_get_epoch_sec the time is the argument now. What kmalloc leaves in
-- a buffer is the argument junk.
--
-- Numbers are natural numbers; where the C code wraps around, the remainder is written out. Bits
-- has the bit operations, Prelude the names that all modules share.
--
-- Bounds and fuel: the year loop of Date runs on one round more than there are days, and a round
-- takes at least 365 of them; the month loop runs on 12 rounds; the loops of streq and strcat run
-- on a fuel argument, and one round more than the string has characters is enough. A scan of a
-- block of entries runs on 4096 rounds, as each entry that it passes is at least one byte long (its
-- form with the ending _on takes what it returns when the rounds are out),
-- and the loop of append_to_inode, and those of insert_in_inode over bytes, on as many rounds as
-- bytes are left. A walk of lookup_path runs on as many rounds as the path has characters, as each
-- round passes one; kmalloc on a round more than there are pages below the ceiling, as a growth
-- adds one; and the loops over the blocks of the heap on as many rounds as it has bytes. All other
-- loops have their bounds in the source.
--
-- Not modelled: the answers of devices (a drive is its sectors and becomes ready without an
-- error), messages on the screen, page faults, what an access behind the end of bgdt_buf reaches in
-- struct fs_info (the descriptors are a table of their own, and Fs.Safety asks for at most 128
-- groups), the failure of kmalloc, and the parts of the repository that are
-- not named above: ls_dir, interrupts, system calls and the programs in user.
pub mod Prelude
pub mod Bits
pub mod Fifo
pub mod Circular
pub mod Ring
pub mod Process
pub mod Screen
pub mod Fs
pub mod Division
pub mod Date
pub mod Memory
pub mod Keyboard
pub mod Mem
pub mod Text
