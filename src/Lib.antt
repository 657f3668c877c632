-- ===== src/Lib.antt =====
-- CrashMonkey finds crash consistency bugs of file systems. A workload runs on a file system that
-- stands on a logging block device; the logged requests are permuted into states that a crash
-- could leave, each state is written to a snapshot of the disk, and the file system is checked
-- there.
--
-- The parts and how they meet:
-- - code/disk_wrapper.c logs each request with its flags (struct disk_write_op_meta of
--   code/disk_wrapper_ioctl.h); user space keeps it as a disk_write (code/utils/utils.cpp).
-- - code/permuter/Permuter.cpp cuts the log into epochs at barriers (InitDataVector) and asks a
--   permuter for states until one is new (GenerateCrashState); code/permuter/RandomPermuter.cpp
--   makes the states.
-- - code/cow_brd.c is the RAM disk and its copy-on-write snapshots that the states are written to.
-- - code/harness/Tester.cpp drives them: it inserts the modules, records a workload, restores the
--   snapshot, writes each crash state to it and checks it, and code/results counts the outcomes.
-- - code/utils/communication carries the commands of the user's scripts to the harness.
-- The files:
-- - DiskWrite/Meta: code/utils/utils_c.c, the tests and updates of the flags in bi_rw, over a
--   64-bit word; the positions of the flags in the kernel are the parameter ReqBits. DiskWrite,
--   DiskWrite/Stream: code/utils/utils.cpp, the class disk_write with its comparison, serialize
--   and deserialize. A stream is a list of bytes, a failed assertion is `none`.
-- - Permuter: epoch and epoch_op of code/permuter/Permuter.h, BioVectorHash and BioVectorEqual.
--   Permuter/Init: InitDataVector; the locals that live across epochs are the record Locals, what
--   the source reads uninitialised is the parameter Garbage, and sectors are cut to 32 bits as
--   `range` does. Its outer loop has one unit of fuel for each request of the log, which is enough
--   since each round takes at least one. Permuter/Generate: GenerateCrashState over any
--   gen_one_state, with max_retries units of fuel, as many as its loop makes rounds at most.
--   Permuter/Random: gen_one_state and permute_epoch of code/permuter/RandomPermuter.cpp;
--   std::mt19937 with uniform_int_distribution is the parameter Draw, of which only is asked that
--   it draws within its bounds. A vector that is indexed out of its bounds is `thrown`.
-- - CowBrd: brd_device, and the kernel's radix tree as the interface RadixTree with its laws.
--   CowBrd/Pages: brd_lookup_page, brd_insert_page, brd_zero_page, brd_free_pages (whose batches
--   have one unit of fuel more than there are indices below the tree's bound). CowBrd/Copy:
--   copy_to_brd_setup, discard_from_brd, copy_to_brd, copy_from_brd, brd_do_bvec. CowBrd/Requests:
--   brd_make_request. CowBrd/Ioctl: brd_ioctl. A page is a function from offsets to bytes, the
--   parent's pages are an argument, and which page can be allocated is an argument, too.
-- - DiskWrapper: hwm_device of code/disk_wrapper.c, whose log is a list of nodes at addresses of a
--   heap; disk_wrapper_bio and free_logs (one unit of fuel for each node). DiskWrapper/Ioctl:
--   disk_wrapper_ioctl; a copy loop has one unit of fuel more than it copies bytes. The allocator,
--   copy_to_user, access_ok and the layout of a node's metadata are arguments. DiskWrapper/Chain
--   and DiskWrapper/Log: what a log is, and a request added to it. DiskWrapper/Clear: free_logs.
--   DiskWrapper/Dangling: a request for whose data there is no memory.
-- - Tester/Profile: log_profile_save and log_profile_load of code/harness/Tester.cpp; the loop has
--   one unit of fuel for each byte of the file, of which every request takes at least one.
--   Tester/WriteData: test_write_data, over lseek and write as parameters; its inner loop has one
--   unit of fuel more than the request has bytes, of which each write takes at least one.
--   Tester/WrapperLog: get_wrapper_log and the calls around it over the driver's model, with one
--   round more than the log has entries; WrapperLog/Session is a whole recording. Tester/Check:
--   test_check_random_permutations with mount_device and umount_device; the permuter, fsck, mount
--   and the user's check are the parameter Machine, which also says how many file systems are
--   mounted at the mount point. Tester/Check/Mounts: Tester's disk_mounted beside that number.
--   Tester/Devices: the modules, the open devices and cleanup_harness, over the parameter Modules. Tester/Image: log_snapshot_save and
--   log_snapshot_load over the parameter ImageCalls; each loop has one unit of fuel more than the
--   image has bytes, of which each call that works takes at least one.
-- - Results: code/results, the counters of TestSuiteResult::PrintResults. Results/Errors:
--   PrintErrors with operator<< over a stream, which is the names printed and its failbit; a loop
--   has 32 units of fuel, one for each bit of an unsigned int.
-- - Sockets: code/utils/communication/BaseSocket.cpp with the messages of SocketUtils.h; a loop
--   around recv or send has one unit of fuel more than it moves bytes, of which each call moves at
--   least one. The source counts these bytes in an `int`: one that would reach 2^31 is an error of
--   the model, and the length that WriteStringToSocket keeps is cut to 32 bits. Sockets/Ends: ClientSocket.cpp, ServerSocket.cpp and ClientCommandSender.cpp. The
--   kernel's calls are the parameter Net; Sockets/Words, Loops, Transfers, Messages and Bounds are
--   about words in network byte order, the loops, integers and strings, messages, and what goes
--   wrong.
-- - Common: the names that all share. Tests: concrete inputs, and the theorems at them.
-- Not modelled: main of code/harness/c_harness.cpp and its options; of Tester partitions
-- and formats, the dirty expire time, clear_caches, the class loader, time
-- statistics and what is printed; module load and unload of code/cow_brd.c and
-- code/disk_wrapper.c; the destructors of the sockets; the operators << of disk_write, which print
-- for people; the test cases and tools, which call the parts above.
pub mod Common
pub mod CowBrd
pub mod DiskWrapper
pub mod DiskWrite
pub mod Permuter
pub mod Results
pub mod Sockets
pub mod Tester
pub mod Tests
