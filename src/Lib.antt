-- ===== src/Lib.antt =====
-- sweet-clib, a collection of C components: what of it is modelled and what is proved of it.
--
-- The parts and their files. A definition has the name of the C function that it models; a helper says
-- in its comment which part of a function it is.
--   Linked   lib/_structs/list.c and list.h over an explicit memory: a function from addresses to
--            nodes, where malloc and free write entries and an access through NULL or to a free address
--            is a fault. Linked/Cells says when memory and a header hold a list, Linked/Insert,
--            Linked/Remove and Linked/Destroy treat the operations, and Linked/View gives the interface
--            on sequences that the parts above the list use.
--   Queue    lib/_structs/queue.c, queue.h; Stack lib/_structs/stack.c, stack.h: calls of the list in
--            memory. lib/threadpool and lib/app/bns have copies of these files.
--   Chtbl    lib/_structs/chtbl.c and chtbl.h (and the copy in lib/app/bns): the chained hash table, its
--            buckets lists through the interface of Linked/View.
--   Bitree   lib/_structs/bitree.c, bitree.h and traverse.c: trees built node by node, and the three
--            traversals, which append to a list through the same interface.
--   Bistree  lib/_structs/bistree.c and bistree.h: the AVL tree with lazy removal. Bistree/Order has the
--            sorted sequence that specifies it, Bistree/Rotate and Bistree/Insert (with Bistree/Left and
--            Bistree/Right) the balance, Bistree/Search and Bistree/Lookup what the operations mean to
--            one another, and Bistree/Release has bistree_init and bistree_destroy.
--   Sort     lib/sort/issort.c: insertion sort in place.
--   Text     lib/app/bns/bns_util.c, my_csv of the converters (lib/app/bns/gem_effect.c and others)
--            and hashpjw and match_sweet_list_kv of lib/app/bns/bns_hash.c; Text/Hash puts the table of
--            Chtbl over these two.
--   Kvmsg    lib/zeromq/clone/kvsimple.c: the key-value message, its sequence number and its frames.
--            Kvmsg/Clone has the loops of clonesrv1.c, clonecli1.c, clonesrv2.c and clonecli2.c over these
--            messages, with what a run of updates stores in Replay, what a snapshot sends and loads in Entries and
--            Snapshot, and a server and a client together in Converge.
--   Echo     lib/libevent/lowlevel_libevent_server.c: the buffer of a connection, do_read, do_write and
--            their calls by the event loop, with Slices for parts of the buffer, Reading, Writing and
--            Stream.
--   ThreadPool  lib/threadpool/threadpool.c: the pool of worker threads as a step relation over the queue,
--            whose sequences come from Linked/View; ThreadPool/Safety has the invariant.
--   Czmq     the operations of czmq that lib/zeromq/MDP and lib/zeromq/reliable call, as interfaces: a message,
--            a table and a list, each with the sequence or function it stands for and the laws of the czmq manual.
--   Mdp      lib/zeromq/MDP/mdp.h: the constants of the Majordomo protocol, and below it
--            Mdp/Client (mdcliapi.c, mdcliapi2.c), what the client sends and returns, given what each poll
--            of its socket finds, with Mdp/Client/Retry; Mdp/Worker (mdwrkapi.c), the calls of mdwrk_recv
--            over the rounds of its loop, with Mdp/Worker/Kept, Mdp/Worker/Rounds and
--            Mdp/Worker/Requests; and
--            Mdp/Broker (mdbroker.c): Objects (state, sending, deletion, purge) and Handlers (services,
--            dispatch, messages, a round of the main loop), with the invariant in Sound and what keeps
--            it in Leaving, Delete, Purge, Pairing, Dispatch, Enrolled, Changes, Handling, Mmi, Clients,
--            Branches, Workers and Rounds.
--            Mdp/Exchange puts the three programs together, with what the broker sends in Mdp/Exchange/Legs.
--   Chat     lib/pthread/chat_server.c: the table of the sockets, with Leaving for the client that goes.
--   Spqueue  lib/zeromq/reliable/spqueue.c: the rounds of the simple pirate queue, over Czmq.
--   Processpool  lib/processpool/processpool.h: the constructor of the pool and run_parent, with Robin and
--            Fair for the choice of a child, Spawned and Tracked for the children and their pipes; and
--            Processpool/Child: run_child, with Events and Turns for the connections of one child.
--   Tests    runs at concrete inputs.
--
-- Conventions. The callbacks hash, match and compare are parameters, with what the code relies on as
-- records of laws (Respects, IsOrder, IsTotal); that a callback has no effect is assumed. A callback
-- destroy is modelled by the list of the data handed to it, in order. Whether malloc succeeds is an
-- argument, and a test of the two mallocs of one insertion is one argument. Return codes 0, -1 and 1
-- are success, failure and duplicate. Sizes are numbers without the bound of int, as is the sum of a
-- tree's sizes; sequence numbers are numbers below 2 ^ 64 and hash values words of 32 bits.
--
-- Fuel. The do-while loop of run_parent looks at every child once, and the loop of do_write runs on one more
-- than the bytes that are ready, since a send that succeeds takes one or more. The loop of s_broker_purge runs on the number of workers that wait, since a round deletes one, and
-- that of s_service_dispatch on the number of its requests and one more. The loop of list_destroy runs on
-- fuel above the size of the list, which is enough. The loop over the fields of a line needs fuel above
-- their number. Every other loop is structural recursion on the
-- list, the tree or the string that it walks.
--
-- Outside. A ZeroMQ message is the list of its bytes and a socket the list of the frames that are sent or
-- arrive; keys are taken to have no byte 0. tolower and isspace are those of the C locale. The reads of
-- my_csv through overlapping calls of sprintf are taken to move the rest of the line to its front. A mutex
-- is an optional owner, and a thread that waits on the condition may wake at any time, which covers
-- signals, broadcasts and the wake-ups that POSIX allows without one.
--
-- In the clone programs a list of messages ends where a receive returns NULL, sequence numbers are numbers,
-- and a snapshot and the updates go to one client; the keys and bodies, which the servers draw at random, are
-- arguments. In the process pool the results of fork, epoll_wait, recv, accept and waitpid are arguments,
-- the children are numbered as in the array, and the objects of the connections of a child, of the type T of
-- the template, are a function of the descriptor, with init and process as arguments. In the echo server
-- the results of recv are in the events, send is a function of the number of the call and of the bytes it
-- is asked to send, and what it documents of its result is a hypothesis.
--
-- In the broker workers and services are objects at addresses; the address that zmalloc returns is an
-- argument. The messages it sends are a list in order of sending, and zclock_time reads a sequence of
-- times. Times and the number of retries are not negative, and frames that are compared with or used as C
-- strings have no byte 0. The loops of the worker and of the queue run over the list of rounds that happen.
--
-- Not modelled: the end of threadpool_destroy, behind its broadcast; the other programs of
-- lib/zeromq/reliable (ppqueue.c does not compile), and of lib/zeromq/MDP the destruction of objects and
-- sockets, the logging and the programs that call the client and the worker; the main functions of the
-- converters, which read files and print; create, run and the set-up of signals in
-- processpool.h; do_accept and run of the echo server; the other programs around epoll, libevent, libcurl, MySQL, MongoDB, msgpack, regular expressions
-- and embedded interpreters, which consist of calls of those libraries.
pub mod Prelude
pub mod Linked
pub mod Queue
pub mod Stack
pub mod Chtbl
pub mod Bistree
pub mod Bitree
pub mod Sort
pub mod Text
pub mod Chat
pub mod Echo
pub mod Kvmsg
pub mod Czmq
pub mod Mdp
pub mod Spqueue
pub mod Processpool
pub mod ThreadPool
mod Tests
