-- ===== src/Lib.antt =====
-- Distributed systems course work: the processes of the homework and the seminars, modelled from the
-- Python sources.
--
-- The program is a set of processes for the dslab-mp simulator. A process is a class with three
-- callbacks (on_local_message, on_message, on_timer); it talks to the world through a Context that
-- collects what it sends, what it tells its user and the timers that it sets.
--
-- The files:
--   Prelude         shared names, Boolean tests, lists over the native numbers, and Python's set
--                   (Prelude/HashSet) and dict (Prelude/Dict, in insertion order).
--   Runtime         homework/dslab/dslabmp.py: Message, Context, the interface Process. A message's
--                   keys are a record; an exception is an error of Result and ends the callback.
--                   Runtime/Loop is the while loop with fuel and its rule for total correctness.
--   Guarantees      homework/01-guarantees/solution.py: the four pairs of a sender and a receiver.
--                   Guarantees/AtMostOnce, AtLeastOnce, ExactlyOnce and Ordered define the classes of
--                   these names; Guarantees/Window is the code that ExactlyOnceSender and
--                   ExactlyOnceOrderedSender share, with its window and delay as parameters. Each
--                   Arrival module treats one callback of a receiver, each Delivery module whole runs.
--   Guarantees/Link the network: a message that was sent may arrive at any later time, in any order,
--                   any number of times or never; an active timer may fire at any time. A step is one
--                   callback that ends without an exception. Link/Schedule executes given events.
--   Guarantees/Log  the list of orders that a user has been told.
--   Sharding        homework/07-kv-sharding/solution.py: KeyStore and StorageNode. Sharding/Deque is Python's
--                   deque; KeyStore/Ring is the ring as a list, against which Search, Closest, Rings,
--                   Split, SplitLoop and Partition set the search, the lookup, the joining of a node and the
--                   split of the data. Sharding/Node is StorageNode with all its handlers; its
--                   messages are constructors of three types, and unknown types are left out.
--   Broadcast       homework/04-broadcast/solution.py: BroadcastProcess. Broadcast/State has the state and
--                   the operations on its parts; Broadcast/Causality says what the causal order is;
--                   Deliver, Popping, Rounds and Arrival follow one callback, and History any number.
--   Membership      homework/06-membership/solution.py: GroupMember. Membership/Tables has the two tables
--                   and the merge of those of a message, Membership the callbacks; Changes and Merge
--                   say what a merge keeps.
--   Gossip          seminars/04-broadcast/gossip: the four classes Peer, each in its own module; what they
--                   have alike is in Gossip. Once treats the histories of a peer that stops.
--   PingPong        seminars/01-framework/ping-pong: impl_basic.py and impl_retry.py;
--                   Pongs treats the histories of the client that tries again.
--   Replication     homework/09-kv-replication-v2/solution.py: StorageNode and the replicas of a key, which
--                   homework/08-kv-replication/solution.py has too. The number that md5 gives is a
--                   parameter.
--   KvProxy         seminars/08-balancing-sharding/kv: the proxies of proxy/strategies.py (ShardingProxy,
--                   ReplicatingProxy, QuorumProxy, Raid3 and Raid3Proxy), proxy/main.py (App) and
--                   storage/main.py (Storage). KvProxy/Http is the interface between them, requests over
--                   a world that changes; KvProxy/Cluster fills it with storage nodes.
--   Tests           runs of the processes, and the theorems at these runs.
--
-- How it fits together: Guarantees/Window/Receivers is what a receiver promises to the windowed
-- sender. Window/Runs and Window/Progress treat runs with any such receiver; ExactlyOnce and Ordered
-- fill the interface.
--
-- Bounds and fuel. The loops of the two exactly-once receivers take the size of the stored set as
-- fuel, which is enough since each round removes one element. A timer is named by the decimal digits of a counter; Context refuses names of more than 50
-- characters, so what is said of progress is for fewer than 10^50 messages. Numbers are natural
-- numbers: AtMostOnceReceiver's range of three orders before a small order contains negative numbers,
-- which are never in its set, and the test fails there.
--
-- KeyStore's binary search takes the number of nodes as fuel for its recursion, and needs no more than
-- the binary logarithm of it. Its hash, `hash(key) % m`, is a parameter, since Python's hash of a text
-- is chosen by the interpreter; nothing is asked of it.
--
-- update_deliver of BroadcastProcess takes the size of its buffer and one as fuel: each round but the
-- last takes a message out of the buffer. What is sent by a BroadcastProcess has a number for each
-- process; a message with fewer raises index_error, which the model has too.
--
-- What randint draws is a list, an argument of the callback of GroupMember; a call with no draw left
-- is Python's RecursionError. Its delays are in tenths of a unit of time.
--
-- The proxies' library calls are parameters: UTF-8 in both directions, base64, json.dumps and
-- json.loads, sha256 and HTTP requests. What is asked of them is that a decoder undoes its encoder.
--
-- Not modelled: the JSON and pickle encodings of dslabmp.py, the Rust simulator and tests, real time
-- (the clock is an argument of each callback), and the state of a process after an exception. The
-- type checks of Context hold by typing. Of the storage node and the proxy application, the pages
-- /state and /health are left out, which only print. Of
-- homework/08-kv-replication only the replicas of a key are modelled. The other homework and seminar
-- programs are not modelled.
pub mod Prelude
pub mod Runtime
pub mod Guarantees
pub mod Sharding
pub mod Broadcast
pub mod Membership
pub mod Gossip
pub mod PingPong
pub mod Replication
pub mod KvProxy
pub mod Tests
