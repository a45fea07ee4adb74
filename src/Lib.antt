-- ===== src/Lib.antt =====
-- Nachos 4.0 (Nachos4.0/code), an instructional operating system kernel with a simulated MIPS
-- machine, extended by this repository with processes, semaphores, files and sockets for user
-- programs.
--
-- Prelude holds what the modules share. Its type Exec says how a piece of kernel code ends: `ok`
-- with a value, `aborted` by a failed ASSERT, `undefined` where C++ defines nothing (an index
-- outside its array, a NULL pointer followed), `halted` in Interrupt::Halt. An `int` that can be
-- -1 is a ℤ of Prelude/Int; an `int` that is a machine address or register is its 32-bit pattern.
-- Bits has the laws of `&`, `|` and masks, bit by bit. Loops recur on the rounds that are left,
-- so only the loop of CheckIfDue in Interrupt needs fuel.
--
-- Bitmap models lib/bitmap.cc over its array of words: init, mark, clear, test, find_and_set and
-- num_clear are the methods. Bitmap/View reads it as a map from numbers to Booleans, Bitmap/Laws,
-- Init, Find and Count show each method against that view, and Bitmap/Marks is about lists of
-- bits taken together.
--
-- FileHeader models filesys/filehdr.cc: allocate and deallocate, on a header and a free map.
--
-- Machine models machine/translate.cc and the register accesses of machine/machine.cc: translate,
-- read_mem and write_mem on a record of memory, TLB, page table and registers. Machine/Bytes is
-- about little-endian numbers in memory, Machine/Valid, Translate, Grant and Memory hold the
-- proofs. RaiseException is not run here: an access that traps returns the exception that it
-- raises.
--
-- Host is the operating system under the kernel: a record with an unknown state and the calls the
-- kernel makes, and the wrappers of lib/sysdep.cc over them. CString has strlen, strcmp and
-- strcasecmp as Booleans on lists of bytes.
--
-- FileTable models userprog/FileDescriptors.h, the table of open files and sockets, over the stub
-- file objects of filesys/openfile.h and filesys/filesys.h (FILESYS_STUB is what the build
-- defines). FileTable/Descriptor has one descriptor and its file object, FileTable/Valid the
-- invariant, Preserve, Search, Slots and Behaviour the proofs. A descriptor that a pointer names
-- stands as its index in the table.
--
-- UserMemory models User2System, System2User and IncreasePC of userprog/ksyscall.h. A trap during
-- a kernel access ends in Halt, as exception.cc handles it. Lengths are non-negative here.
--
-- Syscall models the system calls on files and sockets of userprog/ksyscall.h over a kernel of
-- machine, table and world: sys_create is SysCreate and so on. Syscall/Safety says that code does
-- nothing undefined; Syscall/Files, Slots, Calls, Console, Receive and Transfer prove it of the
-- operations and Syscall/Session of a program's calls one after the other; Syscall/Unopened is
-- about identifiers that are not open. Sizes and lengths are non-negative, and memory that is not
-- freed is not modelled.
--
-- AddrSpace models userprog/addrspace.cc: reserve is the part of Load that takes frames for the
-- page table, release the destructor, load_program the whole of Load over the host.
-- AddrSpace/Reserve, Release and Isolation are about the frames, AddrSpace/Agree about Translate.
-- One program is loaded at a time (addrLock).
--
-- Semaphore models class Semaphore of threads/synch.cc: p is one test of the loop of P, v is V.
-- Semaphore/Steps is the step relation of the threads that use it. Sleeping and being made ready
-- are the queue and the list of woken threads; the scheduler may run them in any order.
--
-- Mips models machine/mipssim.h and machine/mipssim.cc as they are built, with SIM_FIX:
-- Mips/OpCode and Mips/Decode the tables and Instruction::Decode, Mips/Word and Mips/Mult the
-- arithmetic on 32-bit patterns and Mult, Mips/Cpu the pieces the cases of the switch share, and
-- Mips/Execute the switch itself, DelayedLoad, RaiseException up to the call of the kernel, and
-- OneInstruction. Signed additions, subtractions and negations wrap, as the simulator expects of
-- its compiler; a quotient that is no int is undefined behaviour. The loop of Mult recurs on its
-- 32 rounds. Run's endless loop, the tick of the clock after each instruction and the printing of
-- instructions are not modelled. Mips/Unaligned is about the bytes that LWR and LWL put together,
-- Mips/Parts about the two as instructions.
--
-- LinkedList models List and SortedList of lib/list.h and lib/list.cc over a list of items and
-- the count that the code keeps apart; LinkedList/Insert is about sorted insertion,
-- LinkedList/Queue and LinkedList/Remove about Append and Remove. What an item is compared by is
-- a parameter.
--
-- Interrupt models machine/interrupt.h and machine/interrupt.cc: the clock, the sorted list of
-- pending interrupts, Schedule, CheckIfDue, OneTick, SetLevel and Idle. What a handler does to
-- the rest of the kernel is a parameter; the interrupts it schedules and the yield it asks for
-- are a list of actions. The loop of CheckIfDue takes fuel, and Interrupt/Check shows that as
-- many rounds as interrupts are pending are enough. OneTick and SetLevel give the state in which
-- the running thread yields; the thread switch itself is not modelled.
--
-- ProcessTable models threads/pcb.h, threads/pcb.cc, threads/ptable.h and threads/ptable.cc: the
-- table of at most ten processes over a Bitmap, with the semaphores of each process. ExecUpdate
-- is exec_update, JoinUpdate and ExitUpdate are in ProcessTable/Wait. An operation that can sleep
-- on a semaphore is split there, since other threads run in between: JoinUpdate is join_update,
-- join_finish and join_code, ExitUpdate is exit_update and then remove. Whether a file opens and
-- whether a thread can be made are parameters of ExecUpdate; the block that new gives for the
-- program's name is a parameter too, since strcpy writes a byte past what was asked for, which is
-- undefined unless the block is larger; and the thread that Fork starts is only its number. To
-- delete a PCB ends its thread, which must be the one that calls: the result finished.
--
-- Lock models class Lock of threads/synch.h and threads/synch.cc over Semaphore: Acquire is P and
-- then hold, with any other thread in between, since the end of P turns interrupts on again;
-- Release runs without a break. Lock/Exclusion has all orders of the steps of any number of
-- threads as a relation.
--
-- SemaphoreTable models threads/sem.h, threads/sem.cc, threads/stable.h and threads/stable.cc:
-- the ten semaphores that user programs make and use by name. The loop that Create, Wait and
-- Signal share is find_sem, and SemaphoreTable/Search is about it. Initial values are natural
-- numbers; a name is copied into 50 bytes, and a longer one is undefined behaviour.
--
-- SemaphoreTable/Calls has the system calls on semaphores of userprog/ksyscall.h, over the
-- machine.
--
-- Scheduler models threads/thread.h, threads/thread.cc, threads/scheduler.h and
-- threads/scheduler.cc: the threads with their status, the ready list, ReadyToRun, FindNextToRun,
-- Run and CheckToBeDestroyed; Scheduler/Actions has Fork, Yield and Sleep. SWITCH is where run
-- ends and switched_in of the next thread goes on. Of a stack only the fence post is modelled,
-- and of an address space only whether there is one (what SaveState and RestoreState do is in
-- AddrSpace). Scheduler/Valid, Ready, Switch, Resume, Safe, Wake, Yield, Perform and Reach hold
-- the proofs.
--
-- Directory models filesys/directory.h and filesys/directory.cc over the table of entries.
-- Directory/View reads it as a map from names to sectors, of which strncmp looks at nine bytes;
-- Directory/Add and Directory/Remove show the operations against that map. Reading and writing
-- the file that holds the table is not modelled.
--
-- HashTable models lib/hash.h and lib/hash.cc over the lists of LinkedList: keys, the hash
-- function and == are a parameter. The loops of ReHash go over the counts of the old lists, by
-- which IsEmpty goes. HashTable/Search reads the table as a map from keys to items; Place,
-- Rehash, Flat and Resize are about moving items between tables, Insert and Remove about the two
-- operations. Products and counts do not wrap here. Apply and the iterators are not modelled.
--
-- Exception models userprog/exception.cc: request reads the call from the registers, serve makes
-- it by the functions of Syscall.Session, SemaphoreTable.Calls and ProcessTable.Calls, answer is
-- the common end of the cases. The registers 4 to 6 are read at once, and an exception that is no
-- system call stops the kernel. The threads that semaphores wake are kept in a list; a call in
-- which the thread falls asleep ends there: the next test of the semaphore, and join_finish or
-- remove after it, are those of ProcessTable. Negative lengths and negative initial values of
-- semaphores are not modelled, which is a result of its own. Exception/Asks says by syscall.h how
-- a program asks for a call, Handled and Joined are about calls that are made, Again about
-- numbers that the handler does not know. ProcessTable/Calls models SysExec, SysJoin and SysExit
-- of userprog/ksyscall.h.
--
-- Condition models class Condition of threads/synch.h and threads/synch.cc over Semaphore and
-- Lock. Wait is split where other threads may run. The fuel of the loop of Broadcast is the
-- length of the queue, of which each Signal takes one.
--
-- Bounds of int: Semaphore has a value of any size, since V tests nothing; at the greatest int
-- the code overflows, and Semaphore/Steps, the step relation, has no V there. User2System is
-- undefined at the greatest int as its limit, where limit + 1 overflows. Memory is never short:
-- new gives what it is asked for. The address of a byte in user memory wraps on 32 bits.
--
-- Not modelled: the context switch (threads/switch.S is assembly), the file system over the disk
-- (the build of user programs uses the stub), the devices but for what Host says of them, and the
-- start of the kernel. usr/local is another project's compiler.
pub mod Prelude
pub mod ProcessTable
pub mod Bits
pub mod Bitmap
pub mod Condition
pub mod FileHeader
pub mod Machine
pub mod CString
pub mod Host
pub mod FileTable
pub mod UserMemory
pub mod Syscall
pub mod AddrSpace
pub mod Semaphore
pub mod Interrupt
pub mod Lock
pub mod Exception
pub mod HashTable
pub mod Scheduler
pub mod Directory
pub mod SemaphoreTable
pub mod LinkedList
pub mod Mips
