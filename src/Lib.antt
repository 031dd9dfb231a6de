-- ===== src/Lib.antt =====
-- Models of the programs of this repository: the shell of shelllab/tsh.c; the allocator of
-- malloclab/mm.c with its memory model malloclab/memlib.c, and the replay of traces by its driver
-- malloclab/mdriver.c; the memory tracer of linklab/bonus/memtrace.c with its list
-- linklab/utils/memlist.c, and the tracers of linklab before it; the proxy of proxylab/proxy.c;
-- and the sampler malloclab/fcyc.c that times the driver. They do not call each other, but for
-- malloclab: the driver calls the allocator, which calls the memory model and shares the driver's
-- range list.
--
-- Base: tests on numbers into Bool, lists over the native numbers, and searches in lists.
--
-- Shell: the shell.
--   Shell/State: struct job_t and the global variables, as a record that the functions pass on; what
--     printf prints and what kill sends are lists in it. A run is `ok`, or a `fault` (an access
--     outside an array), `blocked` (a wait that no further signal ends) or `exited`.
--   Shell/Jobs: clearjob, initjobs, maxjid, addjob, deletejob, fgpid, getjobpid, getjobjid, pid2jid
--     and listjobs. A `struct job_t *` is the index of its slot.
--     Jobs/Table: the table's invariant. Jobs/Lookup: the lookups. Jobs/Ids: the job numbers.
--   Shell/Parse: parseline. A write outside its array or outside argv ends it. Its fuel is the length of the line and one more.
--     Parse/Words: the texts of words. Parse/RoundTrip: from words to arguments. Parse/Total: the fuel.
--   Shell/Signals: the handlers of SIGCHLD, SIGINT and SIGTSTP, and waitfg. The results of waitpid
--     and kill are arguments, and so are the signals that arrive while the shell waits, in their
--     order: one run of a handler is one step.
--     Signals/Aligned: lists in which job n is in slot n - 1. Signals/Foreground, Signals/Background:
--     the child is the foreground job, or another one.
--   Shell/Control: do_bgfg, builtin_cmd (`command`), eval and the loop of main. The result of fork is
--     an argument. Control/Launch, Control/Resume: running and resuming a job.
--     Control/Foreground, Control/Settled: the job in the foreground through the loop of main.
--
-- Malloc: the allocator, with 4-byte pointers, as its Makefile builds it.
--   Malloc/Memory: the heap's words by their addresses, the static variables of memlib.c and mm.c,
--     memlib.c, and the macros of mm.c. A sum of addresses in memlib.c wraps around at 2 ^ 32; in mm.c,
--     where the heap ends below 2 ^ 32, it does not.
--   Malloc/FreeList: get_freeCategory_root, insert_free_block and remove_free_block.
--     FreeList/Chain: doubly linked lists in the memory. FreeList/Sorted: lists sorted by size.
--     FreeList/Insert, FreeList/Remove: the two operations on such lists.
--   Malloc/Fit: find_fit. Fit/Lists: one list. Fit/Best: the ten lists together.
--   Malloc/Blocks: coalesce, extend_heap and place. Malloc/Api: mm_init, mm_malloc, mm_free,
--     mm_realloc and mm_exit. Api/Sizes: the sizes that they compute.
--   Malloc/Ranges: add_range, remove_range and clear_ranges. Ranges/Overlap: what they keep.
--   Malloc/Driver: eval_mm_valid and eval_mm_util of mdriver.c, which replay a trace of requests; its
--     reading from a file is left out. Driver/Realloc: traces with a REALLOC request.
--   Malloc/Layout: the heap as a list of blocks, which are allocated, free in a list, or free in none;
--     what the words of the memory hold of it. Layout/Blocks, Layout/Tags, Layout/Lists: such lists
--     and their addresses. Layout/Links, Layout/Moves, Layout/Listing, Layout/Unlisting: a block gets
--     into its free list or out of it. Layout/Retile: blocks in no list are replaced.
--     Layout/Neighbours, Layout/Joins, Layout/Coalesce, Layout/Merge: coalesce. Layout/Settled: the
--     blocks between two calls.
--   Malloc/Check: mm_check and its tests. Check/Escaped, Check/Passes, Check/Messages: what they answer
--     on a heap of blocks.
--   Malloc/Refine: the heap represents the list of the allocated blocks. Refine/Blocks: that list and
--     the blocks. Refine/Init, Refine/Fit, Refine/Place and Refine/Placed, Refine/Grown and
--     Refine/Extend, Refine/Malloc, Refine/Free: the functions of mm.c on it. Refine/Bounds: where the
--     blocks lie. Refine/Runs: histories of calls.
--   A loop along a free list has fuel, for which one more than the list's length is enough, and so is
--   one more than the number of blocks, of which a call of mm_malloc makes two at most. A walk of the
--   heap checker wants one more than the number of blocks.
--
-- Trace: the memory tracer.
--   Trace/Blocks: alloc, dealloc and find of memlist.c. Blocks/Search: what find answers.
--   Trace/Tracer: malloc, realloc, calloc, free and fini, with what the C library returns as an
--     argument of each. Tracer/Runs: sequences of calls.
--   Trace/Part1, Trace/Part2: the tracers of linklab/part1 and linklab/part2, where they differ.
--     Part2/Frees: the free that does not check its pointer.
--
-- Proxy: the proxy, which passes lines between clients and servers.
--   Proxy/State: the variables of a thread, and its events in their order; a run is `ran`, or `exits`
--     where the process ends, or a write goes past the end of an array. What csapp.c and the C library return is a record of functions, by how
--     often they were called; what a client sends is a list of the results of rio_readlineb.
--   Proxy/Scan: sscanf and atoi. Proxy/Format: deal_log_format. Format/Numbers, Format/Line: the numbers
--     in a line of the log, and the line.
--   Proxy/Request: process_request. Request/Buffers: its arrays. Request/Events, Request/Writes: what is
--     seen of a thread. Request/Serve, Request/Loop, Request/Traffic: one line, all lines, the whole
--     thread. Request/Hangup: a server that is gone. Request/Overrun: an answer that is too long to log.
--   Proxy/Threads: main and the steps of the process. Threads/Balanced, Threads/Request: the semaphores
--     in the events of a thread. Threads/Holders, Threads/Fair, Threads/Exclusion: who holds them.
--
-- Timing: the sampler of running times.
--   Timing/Sampler: the functions of malloclab/fcyc.c. A time is a natural number, epsilon a fraction,
--     and what the counters of clock.c say is an argument. The loop of fcyc has as many rounds as
--     `maxsamples` and one, which is enough.
--     Sampler/Sorted: its insertion sort. Sampler/Best: the array. Sampler/Result: fcyc. Sampler/Clear:
--     the loop that clears the cache.
--
-- Shell/Tests, Malloc/Tests, Malloc/Refine/Tests, Malloc/Driver/Tests, Trace/Tests, Proxy/Tests and
-- Timing/Tests run the definitions on concrete inputs.
--
-- Not modelled: the options of the shell and its child processes behind fork, the output to the
-- terminal but for that of the heap checker, the reading of traces, the scores and the timers of the
-- driver, the call sites of the tracer, csapp.c of proxylab, which is a copy of a library, and its echo
-- programs.
pub mod Base
pub mod Shell
pub mod Malloc
pub mod Trace
pub mod Proxy
pub mod Timing
