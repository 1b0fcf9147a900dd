-- ===== src/Lib.antt =====
-- Models of the programs of an operating systems course: an allocator, the compression programs,
-- a scheduler, a file system, a shell and two text utilities, with the theorems that make them
-- correct.
--
-- The programs are independent of each other; what they share here is Base, with the names of the
-- libraries, Boolean tests, list functions and integers over the native natural numbers.
--
-- Memory: assigned-project-memory/goatmalloc.c and goatmalloc.h.
--   Memory/Heap is the memory: a partial map from addresses to node headers, the payload bytes and
--   the three globals of the file, with commands that read and write headers. A read of an address
--   without a header is a fault. Memory/Arena has init, destroy, walloc, wfree and wrealloc, with
--   the parts of the long functions as helpers. Memory/Chain says which headers an arena with a
--   given list of chunks has. Memory/FirstFit is the specification on lists of chunks, without
--   addresses of links; Memory/Arena/Walloc, Wfree, Wrealloc, Startup and RoundTrip prove the code
--   against it.
--   The loop of walloc runs on fuel. Each chunk takes 32 bytes of the arena, so the size of the arena
--   is fuel enough. size_t wraps at 2 ^ 64; the arenas of the theorems end below it. The answers of
--   getpagesize, open and mmap are an argument of init, the answer of munmap one of destroy.
--   Headers and payloads are kept apart in the model; the one place where the code writes a header
--   over a link that it still reads, in wrealloc, has the bytes of the link computed.
--
-- Compress: assigned_project_utilities/wzip/wzip.c and wunzip/wunzip.c, and the directory
--   assigned-project-concurrency with wzip.c, wpzip.c and wpzip_unoptimized.c.
--   A file is the list of its bytes, or `none` where it cannot be opened; a command gives the bytes
--   on its standard output and its exit status. Compress/Runs has the run-length encoding that the
--   programs are compared with. Compress/Wzip and Compress/Wunzip are the utilities,
--   Compress/SerialWzip is the serial program of the concurrency project, and Compress/Wpzip the
--   threaded one: a list of thread data made from the files, an encoding for each, and the merge of
--   the results. Each thread writes to its own result, so Compress/Wpzip runs them one after the
--   other; Compress/Wpzip/Interleaving has the steps of main and of the threads in any order, with
--   the semaphore and the counter that main waits for, and compares the two.
--   Compress/WpzipUnoptimized is the version of the threaded program before that, with the capacity of
--   its arrays.
--   The serial wzip and wunzip keep the 32 bits of their counts. The others count in natural
--   numbers, which is what the code does on runs of fewer than 2 ^ 31 bytes. Compress/Chunks has the
--   bounds of the offsets that the threaded programs compute as int; their main gives `none` where
--   an offset does not fit, or where wpzip.c has no room for the identifier of a thread.
--
-- Scheduling: assigned-project-scheduling/scheduler.c and scheduler.h.
--   Scheduling/Jobs has the linked lists of jobs, Scheduling/Policies the three handlers,
--   Scheduling/Stats the list of statistics, and Scheduling/Run the simulation of handle_run: `round`
--   is the body of its loop, run on fuel by `run_loop`; the latest arrival and the lengths of all jobs
--   together are fuel enough. Scheduling/Run/Accounts is about a round, Scheduling/Run/Completes about
--   the whole run. Scheduling/Main has arg_parse, analyze_run and main, with atoi, the rows of a file
--   and the division of floats as arguments, and a list of what is printed. What malloc leaves in the
--   cell of the queue and in the sums, which the code does not set, is an argument too. Times are
--   natural numbers, as in the workload files, without overflow of int; a run with a negative time
--   slice ends in such an overflow and is not followed.
--
-- Files: assigned-project-files/solution/disk.c, goatfs.c and their headers.
--   Files/Disk has the disk: blocks as functions from offsets to bytes, the counters, and the answers
--   of the system to seeks and transfers as a field. The offset of a seek is an int, so from block
--   2 ^ 19 on it is negative or that of another block. A command can end in an exit of the program or
--   in an access out of bounds. Files/Inodes has the super block and the inodes as words of a block,
--   Files/Bitmaps the two bitmaps and the searches in them, Files/Mounting format, create_bitmaps and
--   mount, Files/Operations create, wremove and stat, Files/Transfer wfsread and wfswrite. What malloc
--   leaves in the bitmaps is an argument of mount. `(int)ceil(n * .1)` is the quotient of n + 9 by 10.
--   The loops of wfsread and wfswrite run on fuel; a round moves a byte at least, so the number of
--   bytes is enough. Files/Inodes/Slots and Files/Bitmaps/Bits have an inode in its block and a bit in
--   its bitmap. Files/Operations/Consistent is about the state between two operations, in which the
--   bitmap and the inodes agree and inodes point behind the inode blocks: Files/Mounting/Blank sets it
--   up, and Files/Operations/Create, Files/Operations/Remove and Files/Transfer/Stores are about the
--   operations in it. It asks for files without an indirect block, since no operation makes one. In
--   Files/Transfer, Writable is about the pointers of a file and a block for one of them, Writes about
--   the bytes of one write and of two after each other, WriteLoop about the rounds together,
--   and Disjoint about files that have no block in common.
--   Files/Display has debug, with what it prints as a list of lines. Files/Disk/Image
--   has winit, wopen and wdestroy, which open and close the image.
--
-- Shell: assigned-project-processes/wshell.c.
--   Shell/Text has strings, the words of a line and the command string of a job, Shell/History and
--   Shell/Jobs the two tables, Shell/Builtins builtIn and command, and Shell/Lines the loop of shell:
--   a line is parsed to an action, and an action is performed. Shell/Lines/Recorded and
--   Shell/Lines/Tables follow the two tables through a session. The answers of the system are a record
--   of functions, with the number of calls so far as an argument; what is printed, the signals and the
--   processes are a list of events. A pipe and a redirection are one event each. What a child in the
--   background prints is left out. Names of directories are shorter than the arrays for them.
--
-- Utilities: assigned_project_utilities/wcat/wcat.c and wgrep/wgrep.c.
--   Utilities/Wcat and Utilities/Wgrep are the programs on the bytes of their files, with getline and
--   strstr as functions on lists, which stop at a zero byte where the code's strings do;
--   Utilities/Wgrep/Selects says which lines are printed.
--
-- Not modelled: wshell_Riley.c, another shell; context_switch.c, a
--   measurement; messages, and the test drivers.
pub mod Base
pub mod Memory
pub mod Compress
pub mod Scheduling
pub mod Files
pub mod Shell
pub mod Utilities
