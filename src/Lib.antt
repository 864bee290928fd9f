-- ===== src/Lib.antt =====
-- Verification of the operating systems course programs: a preemptive scheduler (ps9), semaphores
-- and the tests of a lock and of a fifo (ps7), measurements (ps8), experiments with mmap (ps5), a
-- pager over pipes (ps4), a shell (ps3), a directory walker (ps2) and a copying program (ps1). Each
-- is a program of its own; they share no code.
--
-- Base holds what all parts use: Boolean tests on the native numbers, lists, searches over an index
-- range (for the loops over tables), arrays as functions, and signed integers with the conversions
-- of C (`to_int`, `to_long`), which wrap.
--
-- Sched is ps9/sched.c and ps9/sched.h. Sched/Types has the task, the table of slots and the whole
-- state (the globals current, running, proc_count and tick_count, the signal mask, the registers);
-- Sched/Switch has sched_switch, Sched/Calls has sched_tick, sched_init, sched_fork, sched_exit,
-- sched_wait, sched_nice and the getters. A call that reaches sched_switch inside (sched_exit,
-- sched_wait) is cut there, and goes on as the point at which its task resumes: savectx and
-- restorectx, which are assembly, are the saving and loading of this point and of the registers. A
-- tick can come in, too, between the end of sched_switch and the line of sched_wait that blocks the
-- signals again: that is a point of its own.
-- Sched/Machine composes the calls to runs: a step is a call by the current task or a tick, which
-- comes in only while signals are not blocked. The table has the source's bound, nproc = 1023
-- slots, and the loops over it are searches of at most so many indices, so nothing runs on fuel but
-- the rounds of sched_wait, which are steps. Sched/Stack has the copy of the stack in sched_fork and
-- ps9/adjstack.c, on a memory of words; the walk of adjstack runs on fuel, of which more than there
-- are frames in the chain is enough. Sched/Listing has sched_ps, and Sched/Demo
-- the program of ps9/main.c, whose tasks make the calls. Sched/Change has what a step may make of
-- the tasks' lives, and Sched/Lives the lives alone, the view that a user of the calls has. The
-- other files of Sched/ prove what each is named for.
--
-- Sem is ps7/sem.c, ps7/sem.h and ps7/tas64.S. Sem/System has one semaphore and a step relation
-- whose steps are single accesses to shared memory, or changes of the signal state, of any of the
-- 64 processes; an interleaving is a sequence of steps. SIGUSR1 is delivered in the step that sends
-- it. A counter that leaves the range of an `int` has no meaning in C, and no step.
--
-- Tas is ps7/tasTest.c: its parent forks 64 children, each of which adds 1 to a shared `int` 100000
-- times, under the lock of ps7/tas64.S. Tas/System has a step for each access to the shared memory;
-- a round of the spinning that finds the lock taken changes nothing and is no step. Tas/Atomic has
-- the counter that is meant, and Tas/Schedule a run to the end.
--
-- FifoTest is ps7/fifoTest.c: FifoTest/Fifo is the contract of ps7/fifo.h as an interface, with a
-- list for an instance. FifoTest/Numbers has the packing of a writer's id into the numbers of test2,
-- FifoTest/System its 56 writers and the reader, and FifoTest/Pair the writer and the reader of
-- test1, and main: a step for each call of the fifo; forks are taken to succeed.
--
-- Posix/Interface is what the programs assume of open, dup2, close and pipe: an interface with the
-- documented behaviour as its laws, which Posix/Table shows to hold of a table of 1024 descriptors.
-- Posix/Input has what the calls of read give.
--
-- Shell is ps3/main.c. Shell/Command has getArguments (with strtok), the two counting functions,
-- the arrays that executeCommand builds and its tests on a redirection. Its loops write one entry
-- more than was asked of malloc, so the room that malloc gives is a parameter, and a write behind it
-- is an end of the run. Texts are lists of bytes, without the 0. Shell/Announce has the line that executeCommand prints, Shell/Child the
-- redirections of the child on its descriptors, Shell/Run a line from main to execvp, Shell/Parent
-- the parent's side of it with the times, and Shell/Script the loop over the lines.
--
-- Walker is ps2/main.c. Walker/Listing has listDir, on a tree of entries: every directory in it can
-- be opened, and the paths fit their buffers. Walker/Stat has getType, getPermissions and
-- toDisplay, Walker/Print has printData with getUser and getGroup, as the sequence of the calls of
-- printf and their values, and Walker/Main the options and main, which composes them. What the
-- system answers (lstat, readlink, the user and group databases, the time) is a parameter, on which
-- nothing is assumed but where a theorem says so.
--
-- Cat is ps1/main.c, all of its main: Cat/Options has the reading of the options and their removal
-- from argv in place, Cat/Copy the copying loops, Cat/Main the whole. What open, read and write
-- return are parameters; a file is what the calls of read on it come to give. The buffer is an array
-- on the stack of the size of an option: the room for it is a parameter, and a size that is not
-- positive or too large is an end of the run.
--
-- Pager is ps4/main.c. Pager/Pipes has the descriptors of the three processes of pipeFile, with both
-- forks taken to succeed, Pager/Feed the loop that copies a file into the first pipe, and
-- Pager/Files main.
--
-- Mmap is ps5/main.c. Mmap/Calls is what the program assumes of a file and its mapping, which
-- Mmap/Disk shows to hold of a file that is a function. Mmap/Questions has the questions, as chains
-- of calls that may end in exit(1) or in a signal; B and C are one definition, with the kind of
-- mapping as its argument. Mmap/Main has the choice of a question.
--
-- Cost is ps8/costTest.c: Cost/Parts has main and the three parts, on a machine with a clock.
--
-- Not modelled: what is printed elsewhere; wait3 and the failures of fork, but in ps3/main.c, and of
-- exec; the signal handlers of ps4/main.c, which leaves pipeFile by
-- longjmp, and of ps5/main.c; the fifo (ps7/fifo.c is empty); the handler of SIGINT of
-- ps9/main.c; and ps9/savectx64.S, whose effect is in the states of the scheduler.
pub mod Base
pub mod Sched
pub mod Sem
pub mod Shell
pub mod Walker
pub mod Cat
pub mod Tas
pub mod Posix
pub mod Pager
pub mod FifoTest
pub mod Mmap
pub mod Cost
