-- ===== src/Lib.antt =====
-- go-backend-kit is a library of building blocks for backend services with a distributed crawler. The
-- crawler's work is a stream of tasks: a task is created, perhaps by a schedule, and validated, waits
-- in a queue for its priority, and a dispatcher gives it to one of the worker nodes that beat and have
-- room; pipelines process what it fetches, stores keep the results, and a lock in Redis keeps
-- services from doing the same work twice. A manager keeps the instances of tasks, pools give the
-- fetchers their proxies, and a limiter in Redis bounds the requests of a client. The development
-- models these parts as executable functions on records.
--
-- The parts and their files:
--   Common       helpers. `Int` has signed integers and Go's 64-bit wrap-around, `Clock` times and
--                durations in nanoseconds, `Maps` association lists for maps, `Lists` and `Tests` the
--                functions on lists and Booleans over the native numbers.
--   Task         crawler/task/task.go. `Types` has the record of a task, `Lifecycle` its methods
--                (`Task.Queue` is `enqueue`); `Stamps`, `Retries` and `Labels` hold the theorems.
--   Queue        crawler/task/queue.go. `Memory` is `MemoryQueue`, `Priority` is `PriorityQueue`, each
--                method a function from the state to the new state and its result. `Interface` is the
--                interface `Queue` with its laws, and `Instances` shows that the priority queue has
--                them. `View`, `Order`, `Rounds`, `Occupancy`, `Counter` and `Fifo` hold
--                the theorems.
--   Dispatch     crawler/task/dispatcher.go over any queue that has the interface. `Select` has the
--                four strategies, `Engine` the nodes and the batches, `Intake` the tasks that come in and
--                the router; `Conserve`, `Lossless`, `Load`, `Picks` and `Health` hold the theorems.
--   Schedule     crawler/task/scheduler.go over any cron library (`CronOps`, with `CronLaws`). `Types`
--                and `Rules` have the data and the functions on one schedule, `Engine` the methods of
--                the scheduler, `Calls` histories of calls in which runs overlap. `Wired`, `Bounded`
--                and `Idle` hold the theorems, `Fields`, `Begin`, `Edits`, `Jobs`, `Wiring`, `Room` and
--                `Slots` their lemmas.
--   Storage      crawler/storage/memory.go. `Memory` has the store and its methods; `Expiry`, `Cleanup` and
--                `Batches` hold the theorems.
--   Pipeline     crawler/pipeline/pipeline.go and errors/errors.go. `Errors` has application errors,
--                `Engine` the pipeline; `Meaning` says what a run and a batch are;
--                `Tally` and `Runs` hold the theorems.
--   Lock         lock/distributed_lock.go over any Redis (`RedisOps`, with `RedisLaws`). `Engine` has the
--                methods, with the two Lua scripts as functions that Redis executes in one step;
--                `Exclusive` and `Scoped` hold the theorems.
--   Pages        utils/pagination.go, the page of a request and of a result; `Bounds` holds the theorem.
--   Events       crawler/communication/eventbus.go, the calls and the goroutines of the event bus as
--                steps; `Conserve` holds the theorem.
--   Cluster      crawler/distributed. `Types` has nodes, results and the Redis commands; `Assign` the
--                message for a node, `Coordinator` and `Results` the methods of coordinator.go, `Chain`
--                the result middleware, and `Manager` the cluster manager. `Placing`, `Rounds`,
--                `Accepting` and `Drain` follow the pending queue; `Counters`, `Counted` and `Batches` the counters of batches;
--                `Retries`, `Timeouts`, `Reassign` and `Status` hold the other theorems.
--   Instances    crawler/task/manager.go. `Create` makes task instances, `Engine` updates them, `Allocator`
--                picks nodes, and `Ticks` has the turns of the goroutines and the calls. `Worker` follows
--                the channel of the allocation worker, `Open`, `Turns` and `Leaks` an instance that has
--                not ended, `Books`, `Moves` and `Balance` the counters, and `Restart` what a restart
--                finds.
--   Proxies      crawler/fetcher/pool.go. `Pool` is `ProxyPool` and `Agents` is `UserAgentPool` with the
--                test for mobile devices; `Alive`, `Marks`, `Weights` and `Keywords` hold the theorems.
--   Limits       middleware/ratelimit.go. `Engine` has the keys, the sliding window over the sorted sets of
--                Redis and the handler; `Members`, `Kept`, `Window` and `Passing` hold the theorems.
--   Money        decimal/money.go. `Engine` has `Sum` and `Split` over a decimal library (`Types`), and
--                `Shares` what the parts of a split are.
--   Tests        concrete states, and the theorems applied to them.
--
-- State is passed explicitly. A lock that is held for a whole call makes the call one step. The clock
-- is an argument `now`. A pointer to a node is its identifier, read through the node map at each use,
-- and a pointer to a schedule its key; the iteration order of a map is the order of its association
-- list, which is arbitrary. For the dispatcher, Redis is an answer of the environment (`Env`):
-- whether the pipeline that stores an assignment succeeds. A panic is a value (`panics`, `crash`,
-- `crashed`, `nil_panic`, `nil_node`, `bad_index`, `close_panics`). All loops are structural; no
-- fuel is used. The dispatcher takes its queue, the scheduler its cron library, the lock, the
-- coordinator and the rate limiter their Redis, and money its decimals as a record of operations
-- with a record of laws. The laws of batch counters and of sorted sets have the clock of Redis and
-- the deadlines of keys: a key is there up to its deadline. Random numbers are arguments.
--
-- Not modelled: the queues and stores that live in Redis and databases, JSON, logging, the goroutines
-- that call the operations at intervals, and the remaining parts of the library.
pub mod Common
pub mod Task
pub mod Queue
pub mod Dispatch
pub mod Schedule
pub mod Storage
pub mod Pipeline
pub mod Lock
pub mod Pages
pub mod Events
pub mod Cluster
pub mod Instances
pub mod Proxies
pub mod Limits
pub mod Money
pub mod Tests
