-- ===== src/Lib.antt =====
-- BeagleLogic: the logic analyzer of the BeagleBone, verified in parts.
--
-- The program is a Linux driver (kernel/beaglelogic.c with kernel/beaglelogic.h) and firmware for
-- the two PRU cores. The driver keeps a ring of sample buffers. It maps them for DMA and hands their
-- bus addresses to PRU0 in a table; PRU1 samples, PRU0 fills the buffers in order and raises an
-- interrupt after each; the interrupt handler hands a full buffer over to the reader of the device
-- file and maps the next one. Modelled are the driver, the C part of PRU0's firmware, the
-- library for user programs and the application that tests it.
--
--   Device      the enumerations and structures. A pointer to a buffer is the number of the array's
--               allocation with an index, so that a stale pointer can be told from a good one.
--   System      the state that a call works on, how a call ends (it returns, sleeps for ever, is
--               still in a loop, or does what C leaves undefined), and `Platform`, the answers of
--               the kernel's functions and of the firmware. System.Returns is the total correctness
--               statement: the call returns, and in a state of this kind; System.Settles, that it
--               returns or sleeps.
--   Buffers     beaglelogic_memalloc, _memfree, _map_buffer and _unmap_buffer
--   Submit      beaglelogic_map_and_submit_all_buffers, _fill_buffer_testpattern
--   Attributes  the getters and setters of sample rate, sample unit and trigger flags
--   Irq         beaglelogic_serve_irq, and wait_event_interruptible over the interrupts and signals
--               that come while a task waits, in order
--   Capture     beaglelogic_send_cmd, _write_configuration, _start and _stop
--   File        beaglelogic_f_open, _f_read, _f_mmap, _f_llseek, _f_poll and _f_release.
--               File.Mmap.Pages: the addresses that the ranges mapped stand for, in pages of 4096
--               bytes
--   Ioctl       beaglelogic_f_ioctl
--   Sysfs       the device attributes; how numbers are read and printed is the parameter `Text`. A page
--               of an attribute has 4096 bytes, and a line past its end is undefined.
--   Probe       beaglelogic_probe and _remove; what the platform answers to them is the
--               parameter `Bus`
--   Safety      the invariant of a device, kept by every call and interrupt, and the states
--               that they lead to
--   Use         a device in use, and the calls that a program can then make in any order: what each
--               call needs of the buffers, the settings and the reader of its file
--   Pru0        firmware/beaglelogic-pru0.c: what answers the commands that the driver sends.
--               Pru0.Access and Pru0.Registers: the functions of firmware/pru_defs.h on PRU1's
--               registers; Pru0.Clock: its conversions of times; Pru0.Routing:
--               firmware/resource_table_0.h; Pru0.Sampling: the program that fills the buffers,
--               firmware/beaglelogic-pru0-core.asm
--   User        testapp/beaglelogic.c: the library's calls, through the numbers of the commands, down
--               to the driver; what the C library and the system calls do is the parameter `Libc`
--   TestApp     testapp/beaglelogictestapp.c, with its calls of the library; the rest of what it asks
--               of the system is the parameter `Host`
--   Base        shared helpers: tests, lists, 32-bit words, integers, counts of equal elements
--   Tests       a concrete platform and device, and each theorem at a concrete input
--
-- Integers are uint32_t in the source; where a sum or product can wrap, the wrap is written out.
-- Loops over the buffers are recursion on their number. The loop of SEEK_CUR runs on fuel; the
-- offset is enough, when it is below 2 ^ 32. The loop of send_cmd is recursion on its own timeout.
-- The loop that waits for PRU1 to stop runs on fuel; any more than the looks that find it running is
-- enough. The reads of the test application run on fuel too; so does PRU0's sampling program, with
-- the fuel that its theorems give.
--
-- Not modelled: the sampling program of PRU1, in assembly that is exact to the cycle, its writes to
-- R31 and its empty resource table, and the servers and the web application, which only use the
-- device file. A waiting task sees the interrupts only while it waits, one call runs at a time, and
-- the mutex is not passed on to another task while a call sleeps on it. A call that sleeps is not
-- resumed, in Safety and Use either: other calls go on from the state in which it sleeps. No
-- interrupt and no call is served during the probe. PRU0's sampling program does not run while the
-- driver's calls do: what it does is a list of writes and events. Messages to the log are left out.
pub mod Base
pub mod Device
pub mod System
pub mod Buffers
pub mod Submit
pub mod Attributes
pub mod Irq
pub mod Capture
pub mod File
pub mod Ioctl
pub mod Sysfs
pub mod Pru0
pub mod Safety
pub mod Probe
pub mod User
pub mod TestApp
pub mod Use
mod Tests
