-- ===== src/Lib.antt =====
-- The Linux kernel module tutorials: the drivers of tutorial-01 to tutorial-05, handler by handler,
-- and the user-space programs that load the modules, use their devices and show their proc files.
--
-- The parts. Each driver is a module of its own; a load and an unload bracket its life, and in
-- between user processes call its handlers through the kernel. Two of the drivers have activities
-- of their own: a kernel thread (tutorial-04), and interrupts with a bottom half, delayed work and
-- a timer (tutorial-05). The test programs call insmod and rmmod and open the devices.
--
-- * Hello is tutorial-01/hello.c, which only prints.
-- * SimpleChar is tutorial-02/simple_char.c: char_read, char_write, char_llseek, char_open and
--   char_release over the global device_buffer and the position of a file. SimpleChar/Calls is the
--   table simple_fops, as the kernel calls it on open files; SimpleChar/FileSpec is the file that
--   the device stands for, and FileSpec/Refines relates the two. SimpleChar/Session is the sequence
--   of calls of any processes with the moves of the position; SimpleChar/Setup is simple_char_init
--   and simple_char_exit.
-- * KmemDemo is tutorial-03/kmem_demo.c: init_memory with its labels, free_memory, kmem_demo_init,
--   kmem_demo_exit; KmemDemo/Show is kmem_demo_show.
-- * SyncDemo is tutorial-04/sync_demo.c: sync_demo_read, sync_demo_write, sync_proc_show and
--   demo_thread_fn, each run alone. SyncDemo/Threads has the thread, any number of resets and any
--   number of readers of the proc file as steps, one access to shared memory at a time, under the
--   four locks; SyncDemo/Race has the end of the thread against the unload; SyncDemo/Setup is
--   sync_demo_init and sync_demo_exit.
-- * IrqDemo is tutorial-05/irq_demo.c: button_irq_handler, demo_work_handler,
--   demo_delayed_work_handler, demo_timer_callback, irq_demo_read, irq_demo_write, irq_proc_show.
--   IrqDemo/Order has their interleavings, one access to what they share at a time, and Order/Times
--   the times that they store; IrqDemo/Setup is irq_demo_init and irq_demo_exit, for every setting
--   of using_gpio and using_timer.
-- * Status is the end of a read of a status text, which tutorial-04 and tutorial-05 share.
--   Status/Calls is their tables sync_fops and irq_fops, as the kernel calls them on open files,
--   with the file that a status device stands for; Calls/Refines relates the two.
-- * Process is what the programs call: system() and access(), and the system calls on a device.
-- * Loader is main of tutorial-01/test_hello.c, and load_module and unload_module of
--   tutorial-02/test_char.c and tutorial-03/test_kmem.c.
-- * TestChar is read_device and write_device of tutorial-02/test_char.c, TestChar/Suite its
--   run_tests and TestChar/CommandLine its main; TestChar/OverDriver joins them with SimpleChar.
-- * TestStatus is the two displays and the command that tutorial-04/test_sync.c and
--   tutorial-05/test_irq.c have in common. TestKmem is display_memory_info, monitor_memory and main
--   of tutorial-03/test_kmem.c. TestSync is the rest of tutorial-04/test_sync.c, and
--   TestSync/OverDriver joins it with SyncDemo. TestIrq is tutorial-05/test_irq.c:
--   trigger_interrupt, reset_counters, run_latency_test and the menu of main; TestIrq/OverDriver
--   joins the latency test with IrqDemo, and TestIrq/Menu is about the end of the menu.
-- * Kernel has what the drivers use of the kernel, Text the printing and comparing of strings, Base
--   the numbers and lists.
--
-- How the code is written. A handler takes the globals that it uses and gives what it leaves there
-- with its return value. The buffers are lists of bytes, and an access outside one is `none`. An
-- int and a loff_t is an integer whose conversions are written out (Base/Int); a 32-bit counter is
-- a number whose increment wraps. A load or an unload gives its globals, its return value and the
-- list of what it obtained and released, in order (Kernel/Trace); `settle` (Kernel/Ledger) plays
-- that list against what is held, and stops where something is released twice or out of its place.
--
-- Parameters. The kernel is not part of the repository. Copies to and from user memory are a record
-- UserAccess, with their documented behaviour as the laws IsUserAccess; the answers of the calls of
-- a load are a record Answers, which has one field for each; system() and access() are a record
-- Shell, and the system calls of the test programs a record Syscalls, with the laws IsShell and
-- IsDevice. The proc file and the passing of time are a record Around; IsSyncDevice and
-- IsQuietDevice say of it and of the system calls that the driver of tutorial-04 or tutorial-05 is
-- behind them, that the rounds of the thread, or the bottom halves, fall between the calls, and
-- that nothing else raises an interrupt, and IsUndisturbed that nobody else unloads the module that
-- test_kmem.c monitors. What scanf stores is an argument of TestSync, and what is left to scan a
-- list of numbers, words and ends of lines in TestIrq.
--
-- Termination. Every handler is a function by clauses. Two loops run on fuel: `drain` in
-- SimpleChar/Drain, reads of a file to its end, and `menu` in TestIrq, whose end depends on what is
-- typed; that enough fuel ends them is part of their theorems. The steps of SyncDemo/Threads are a
-- relation, with a measure in Threads/Work.
--
-- Not modelled: printk, and the tables of the proc files, which hand the show functions to the
-- kernel; the messages that the programs print; the build scripts.
pub mod Base
pub mod Kernel
pub mod Text
pub mod Status
pub mod Hello
pub mod SimpleChar
pub mod KmemDemo
pub mod SyncDemo
pub mod IrqDemo
pub mod Process
pub mod Loader
pub mod TestStatus
pub mod TestChar
pub mod TestKmem
pub mod TestSync
pub mod TestIrq
