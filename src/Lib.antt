-- ===== src/Lib.antt =====
-- A verification of the core of the RSVP-TE daemon: the code that must be right for labels not to
-- be shared, for packets from the network not to be misread, and for two daemons to understand each
-- other.
--
-- The program. A packet that the dispatcher receives goes to the parser (src/pi/rsvp_parser.c),
-- which fills a `struct rsvp_message_info`; the state machine (src/pi/rsvp_state_machine.c) updates
-- the soft state in the database (src/pi/rsvp_state_db.c), takes labels from the label manager
-- (src/pi/label_mgr.c), and answers with messages that the builder (src/pi/rsvp_builder.c) writes and
-- the dispatcher (src/pi/rsvp_dispatcher.c) sends. The operator's commands come by src/pi/rsvp_cli.c.
-- The Hello protocol (src/pi/rsvp_hello.c) watches the neighbours.
--
-- The files.
--   Prelude      names of the libraries, Boolean tests on numbers, lists as arrays, bits of a byte.
--   Label        src/pi/label_mgr.c. Its static variables are the record `LabelMgr`, its functions
--                keep their names and return the new record. Label/Bitmap and Label/Inv hold the
--                invariant, Label/Alloc the behaviour of a call, Label/History of a run of calls.
--   Wire         src/common/rsvp_protocol.h: byte order, lengths, message types, object classes.
--   Wire/Checksum  rsvp_checksum and rsvp_checksum_verify.
--   Wire/Builder   src/pi/rsvp_builder.c; the buffer is a list of bytes, one function per function.
--   Wire/Parser    src/pi/rsvp_parser.c. Store is the `switch` on the object class, Loop the walk
--                over the objects and the header checks; a pointer of the result is the list of the
--                bytes behind it, NULL is `none`. Safety has the sizes, Required the checks, First the
--                objects that the key is from.
--   Wire/RoundTrip  messages built by the one and read by the other.
--   StateDb      src/pi/rsvp_state_db.c and src/pi/rsvp_state.h. StateDb/Blocks has the state blocks,
--                Buckets the hash table that the three tables share, Key the keys. A pointer is an
--                address in the heap of its table. Refine and Contract relate a table to the list
--                of its blocks, Links, Valid and Blockade hold the invariant, Lookup the searches. Drain has
--                the loops that empty the tables, Heads and Drained what `rsvp_state_db_cleanup` leaves.
--   Hello        src/pi/rsvp_hello.c. The table is a list of neighbours; a function returns the
--                changed neighbour or table and the events: packets sent, traffic switched over.
--                Recv and Inv have one entry, Neighbors the whole table and runs of steps, Reception
--                what a Hello does to the table, Packet what a peer reads.
--   Iface        src/pi/rsvp_if.c: the table of interfaces and the bandwidth reserved on them; Reserve
--                has the lemmas and theorems on it.
--   Wheel        wheel_timer/wheel_timer.c: the wheel as lists of nodes, one step for a tick, for a call and
--                for what a worker thread does with a node. Slots has the arithmetic of the lists,
--                Moves and Turns what a cascade does with a timer, Ticks a tick, Arming what follows a call;
--                Firing and Deleting have the theorems.
--   Machine      src/pi/rsvp_state_machine.c: the state is the database, the label manager and the events
--                so far: packets sent, MPLS entries made and removed, and the timer callbacks that were given
--                a freed block, which nothing in the code keeps from it. Messages has the packets, Checks the
--                validation and the next hop, Sending the functions that send, Cleanup the teardown,
--                Frr fast reroute, PathMsg, ResvMsg and Errors the handlers, Handle the dispatch on the
--                type, Commands what the operator starts, Shutdown the end. Steady is what a
--                statement about the state must survive, Sent and Rerouting are for any such statement.
--                Ownership, Taking, Keeping, Tearing, PathLabels, ResvLabels and Labels have the lemmas on
--                who has a label, Runs the runs of inputs, Effects what single operations do, Switched and
--                Failover fast reroute. Memory is about the blocks, their pointers and timers; `bare` leaves
--                in a block its key and its pointer between PSB and RSB only. Bare, Linking, Agreeing,
--                Running, Steps, Joined and Timed have the steps that the functions are made of, Torn,
--                PathFields, PathSteps, ResvFields, ResvSteps, Handled and Launched the functions, Emptied
--                the shutdown, Safety whole runs.
--   Dispatcher   src/pi/rsvp_dispatcher.c: the IP header that a message gets, and what the event loop does
--                with a received packet. Header is about the header, Delivery about a message from the
--                builder of one node to the state machine of another.
--   Cli          src/pi/rsvp_cli.c: a line and what it does to the state machine, the interfaces and the
--                neighbours. Words has the words of the commands, Inputs what a line is to the state machine.
--   Timers       src/pi/rsvp_timers.c: the registry, start and stop, and the pipe between the wheel and
--                the event loop. Registry has the lemmas on the array, Expiry the life of a timer.
--
-- Numbers are natural numbers; the wrap-around of the C types is written out as a remainder.
-- The bandwidths that src/pi/rsvp_if.c keeps as `double` are the bits of the number; the arithmetic on them is
-- the record `Double`.
-- Network order is modelled by the bytes in memory, so the host's byte order does not matter, except that
-- the hash of a key and the lengths of a TSpec that the state machine stores depend on it, and are those
-- of a little-endian host.
--
-- Bounds and fuel. The theorems on labels need 0 < label_min ≤ label_max < 2 ^ 31; the daemon is
-- started with 1000 to 20000. The loop that folds the carries of the checksum has three rounds, which
-- end it for any 32-bit sum. The parser's loop has one round more than the message has bytes.
-- The loop over a received route has as many rounds as the object has bytes, and a round takes two
-- at least; the loops over the hash table have one round for each of the 1024 buckets, and a loop that
-- empties a bucket has as many rounds as its chain has blocks.
--
-- Arguments that stand for the environment: what calloc returns (an address that is free, or NULL),
-- what rand() and time() return, whether a packet could be sent, whether the wheel took a timer,
-- the arithmetic of `double`, the index that if_nametoindex() returns, and what sscanf() and
-- inet_pton() read from a command line. The record `Hal` of Machine has those of the state machine:
-- routes and addresses from netlink, memory, and the arithmetic of `float`.
--
-- Not modelled. The event loop around `poll`, what the command line prints, netlink, the clock, logging
-- and start-up are input and output. What a timer callback does to a block that was freed is not modelled: it
-- is an event, and the state stays as it is. Outside this library are also timer_wheel_destroy,
-- the lengths of the refresh and cleanup intervals, and the functions that print the tables.
pub mod Prelude
pub mod Label
pub mod Wire
pub mod StateDb
pub mod Hello
pub mod Iface
pub mod Timers
pub mod Wheel
pub mod Machine
pub mod Dispatcher
pub mod Cli
