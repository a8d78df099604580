-- ===== src/Lib.antt =====
-- Verification of InsideNginx (ngx_src): parts of the core of nginx, rewritten for study.
--
-- The program's parts. ngx_src has the data structures (memory pools, arrays, chained lists, queues,
-- the red-black tree and the event timers over it, the radix tree), three load balancers of the
-- upstream module, the thread pool, and the processes (cycle, master and worker cycles, signals).
-- This library covers all of them, the start of a configuration and of a process in part.
--
-- The balancers. ngx_http_upstream_init_round_robin builds a chain of at most two groups of peers
-- from the servers of an upstream, or one group from its host; ngx_http_upstream_init_*_peer starts
-- a request, whose state holds the group, the current peer and the bitmap `tried`; `peer.get` hands
-- out a peer and `peer.free` gives it back. The ip hash and the least connections balancers wrap
-- round-robin and fall back to it.
--   Upstream/Peer.antt         the structures of ngx_src/ngx_http_upstream_round_robin.h
--   Upstream/Tried.antt        the bitmap `tried`
--   Upstream/RoundRobin.antt   ngx_http_upstream_get_peer (get_peer),
--                              ngx_http_upstream_get_round_robin_peer (get_round_robin_peer) and
--                              ngx_http_upstream_free_round_robin_peer (free_round_robin_peer) of
--                              ngx_src/ngx_http_upstream_round_robin.c
--   Upstream/Init.antt         the functions of that file that build groups and start requests
--   Upstream/IpHash.antt       ngx_src/ngx_http_upstream_ip_hash_module.c
--   Upstream/LeastConn.antt    ngx_src/ngx_http_upstream_least_conn_module.c
--   Upstream/Directive.antt    the handlers of the directives ip_hash and least_conn
-- A list of peers stands for the `next` chain, and a list of groups for the chain of groups; a
-- pointer to a peer is its position. The functions take the groups and the state of the request and
-- return them changed. The time is a parameter, and so is each outcome of an allocation. The locks
-- are empty macros in the source.
--
-- The radix tree.
--   Radix.antt                 ngx_radix32tree_insert, ngx_radix32tree_delete,
--                              ngx_radix32tree_find and ngx_radix_alloc of
--                              ngx_src/ngx_radix_tree.c
--   Radix/Create.antt          ngx_radix_tree_create
-- A node is its value and its subtrees. The free list is its length: the nodes on it are
-- interchangeable. Whether a page can be had from the pool is a parameter. A negative number of bits
-- to preallocate other than -1, which would count down through all numbers, is left out.
--
-- The memory pools.
--   Pool.antt                  ngx_src/ngx_palloc.c: ngx_create_pool, ngx_destroy_pool, ngx_reset_pool,
--                              ngx_palloc, ngx_pnalloc, ngx_pcalloc, ngx_pmemalign, ngx_pfree and
--                              ngx_pool_cleanup_add, by the names without ngx_
-- Addresses are numbers; the blocks of a pool are a list in the order of the chain. The answers of
-- ngx_memalign and ngx_alloc and the sizes of the structures are parameters, and ngx_align_ptr is one
-- with the properties of IsAlign. At most five nodes are looked at for a large allocation, as in the
-- source. The handlers of cleanups that close and delete files are not modelled.
--
-- The arrays.
--   Array.antt                 ngx_src/ngx_array.c and ngx_src/ngx_array.h
-- The elements lie in a memory that is a function of the address, and the bytes come from ngx_palloc
-- of Pool.antt. Both pushes grow an array by the same function, with the sizes that each of them
-- computes.
--
-- The thread pool. The main thread posts tasks to a pool; its workers run them and put them into the
-- queue of completed tasks, whose events the main thread handles.
--   ThreadPool.antt            ngx_src/ngx_thread_pool.c: ngx_thread_task_post (post),
--                              ngx_thread_pool_cycle (step_worker), ngx_thread_pool_handler (collect,
--                              complete_first) as the steps of a relation (Reach)
--   ThreadPool/Links.antt      the linked queue of tasks (append_task, remove_task)
--   ThreadPool/Conf.antt       ngx_thread_pool_add, ngx_thread_pool_get, ngx_thread_pool_init_conf, the
--                              directive thread_pool, ngx_thread_pool_init and
--                              ngx_thread_pool_init_worker
-- The code between two releases of a lock is one step, and the steps of the threads interleave in any
-- order. The results of the pthread calls are parts of the events, and ngx_atoi is a parameter.
-- Destroying a pool, where a thread spins until another one ends, is not modelled.
--
-- The processes. The master keeps a table of its children and talks to them through channels and
-- signals; the handlers of signals set flags, which the loop of each process looks at.
--   Process.antt               ngx_src/ngx_process.c: ngx_spawn_process (spawn)
--   Process/Signals.antt       the table of signals, ngx_init_signals, ngx_signal_handler,
--                              ngx_os_signal_process
--   Process/Status.antt        ngx_process_get_status (get_status)
--   Master.antt                ngx_src/ngx_process_cycle.c: the globals, the messages,
--                              ngx_pass_open_channel
--   Master/Notify.antt         ngx_signal_worker_processes
--   Master/Reap.antt           ngx_reap_children
--   Master/Start.antt          ngx_start_worker_processes, ngx_start_cache_manager_processes
--   Master/Cycle.antt          the loop of ngx_master_process_cycle (round)
--   Master/Worker.antt         the rounds of the other loops, ngx_channel_handler (channel_handler,
--                              obey), the handlers of the cache processes
-- A pid or descriptor is a number, or none for -1. The table is a function of the slot together with
-- ngx_last_process. The answers of the system calls, of ngx_init_cycle and of ngx_exec_new_binary are
-- parameters, and the calls that others see are returned in their order. Of a fork only the parent is
-- followed. The signals that arrive in a round of the master are a list that is worked off while the
-- master sleeps, as its signal mask demands. The loops over the slots recur on the number of slots.
--
-- The cycle. What a configuration holds of the system is taken over or replaced by the next one.
--   Cycle/Zones.antt           ngx_src/ngx_cycle.c: ngx_shared_memory_add, the shared memory of
--                              ngx_init_cycle (create_zones, free_zones), ngx_init_zone_pool
--   Cycle/Sockets.antt         the listening sockets (inherit_sockets, close_old, close_opened)
--   Cycle/Files.antt           the open files, ngx_reopen_files
--   Cycle/Load.antt            ngx_init_cycle up to the parsed configuration
--   Cycle/Init.antt            the stages of ngx_init_cycle from the parsed configuration on
--   Cycle/Clean.antt           ngx_clean_old_cycles, ngx_set_shutdown_timer and its handler,
--                              ngx_create_pidfile, ngx_signal_process
-- What the system answers is a function of the position of a zone or file, or a field of CycleSteps, and
-- what is closed and freed is returned. The parsing, ngx_open_listening_sockets, ngx_cmp_sockaddr,
-- the `init` of a zone and the calls of modules are parameters.
--
-- The containers.
--   Queue.antt                 ngx_src/ngx_queue.h: the macros on queues (insert_head, remove, ...)
--   Queue/Middle.antt          ngx_src/ngx_queue.c: ngx_queue_middle
--   Queue/Sort.antt            ngx_queue_sort (sort_queue)
--   Chain.antt                 ngx_src/ngx_list.h and ngx_src/ngx_list.c: ngx_list_create,
--                              ngx_list_push (push_list)
--   RbTree.antt                ngx_src/ngx_rbtree.h and ngx_src/ngx_rbtree.c: the nodes, the
--                              rotations
--   RbTree/Walk.antt           ngx_rbtree_min, ngx_rbtree_next
--   RbTree/Insert.antt         ngx_rbtree_insert, ngx_rbtree_insert_value,
--                              ngx_rbtree_insert_timer_value
--   RbTree/Delete.antt         ngx_rbtree_delete, ngx_rbtree_transplant
--   Timer.antt                 ngx_src/ngx_event_timer.c and ngx_src/ngx_event_timer.h: the timers of
--                              events, kept in such a tree
-- A queue lives in a memory of nodes, and its loops run on fuel; more rounds than nodes are enough. A
-- chained list is its parts in their order. A red-black tree lives in a memory of nodes too; NULL is
-- 0, and a field read or written through it is a fault. The loops over a tree run on fuel, for which
-- the number of its nodes is enough where a property says so.
--
-- Numbers. Unsigned words are native numbers taken modulo 2 ^ 64, keys and masks are read bit by
-- bit, and signed integers (ngx_int_t, time_t) do not wrap. The loop of the ip hash runs on fuel for
-- 21 rounds, the most that its counter of tries allows; running out counts as a fault. The loops of
-- the radix tree recur on the 32 bits of a key; the loop over the keys of one length in
-- ngx_radix_tree_create runs on fuel for 2 ^ 32 divided by its step, which is enough.
--
-- Not modelled: logging, the SSL parts under #if, the tables of commands and modules, what a worker
-- process sets up by system calls before its loop, the exits of the processes, the texts that a
-- cycle copies, the optional features of listening sockets, and ngx_src/ngx_alloc.c, which only calls
-- the allocator of the system.
--
-- Base.antt holds what the parts share: codes, tests on numbers, lists, words and their bits.
pub mod Array
pub mod Base
pub mod Chain
pub mod Cycle
pub mod Master
pub mod Pool
pub mod Process
pub mod Queue
pub mod Radix
pub mod RbTree
pub mod ThreadPool
pub mod Timer
pub mod Upstream
