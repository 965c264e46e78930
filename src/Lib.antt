-- ===== src/Lib.antt =====
-- A model of the core of Nexus, the library for Bittensor subnets under src/nexus/_internal, and the
-- theorems that make it correct.
--
-- The program runs a graph of nodes. Actors receive events on sinks and send events from sources; a
-- bus distributes them along the pipes. Every event belongs to a context, whose payload and user data
-- live in a context store that logs each change, so that a restart can rebuild them. Some actors talk
-- to neurons over HTTP and resolve requests from several threads, retry failed attempts with timers,
-- follow the chain's epochs, and keep the results of tasks.
--
-- What models which part (paths from the repository's root):
--   Exceptions     src/nexus/_internal/utils/exceptions.py, and errors as results; Exceptions/Exec is the
--                  state and error monad in which a write before a raise stays written.
--   Chain          utils/types.py and utils/chain.py (Epoch), and under actors/chain_beat the files
--                  set_weights_beat.py (SetWeightsBeat), block_beat.py (BlockBeat), epoch_beat.py
--                  (EpochBeat).
--   Dsl            core/dsl/nodes.py: NodeSources and NodeSinks (Nodes), Targets and Pipes (Pipes).
--   ContextStore   core/runtime/context_store.py and context_store_types.py: the log (Persistence), the
--                  store and its contexts (Store), recover_from (Recovery). Recovery/Local and
--                  Recovery/Entries look at one context, Durability ties memory to the log, History
--                  has the sequences of calls and restarts, Guarantees and Completion the theorems.
--   Communicator   actors/executor_communicator: the pending requests (PendingRequests), and the steps
--                  of the actor, the sender, the callback server and the sweep (Threads) on one state.
--   TaskResults    core/runtime/task_result_store.py.
--   Retry          actors/retry_strategy.py, on the context store.
--   EventBus       core/runtime/event_bus.py: one event of the bus's loop.
--   Runtime        core/runtime/actor.py: one event of an actor's loop, on its state and the store.
--                  Patterns and Producer are core/runtime/actor_patterns.py.
--   Timestamper    actors/timestamper.py; Starts looks the start times up, Flush and Waiting are about
--                  the queue; Runs, Shrinks and Accounts are about sequences of events.
--   Router         actors/neuron_router.py, run by the loop of Runtime.
--   Preparer       actors/task_result_preparer.py; Protocol is what it promises.
--   Storer         actors/task_result_storer.py, on the stores of TaskResults and of ContextStore.
--   Rest           actors/rest_entry_point_runtime.py: ErrorBody, PendingResponses, and the handling
--                  of a request (Requests); actors/rest_entry_point.py: Responses.
--   Prelude        lists, dictionaries as association lists in insertion order, integers, a stable sort.
--
-- How state and operations correspond: a method that changes an object takes the object's state and
-- returns the new one beside its result or error. A method of a Context is a function of the context
-- and of the store. A lock makes the region under it one step, and an interleaving of threads is a
-- list of steps. Ids that the program draws at random, and current times, are arguments. No definition
-- runs on fuel of its own: the loops of the program go over finite collections and are structural
-- recursion. The loops of the producers go over the list of what the polls answer until the stop;
-- only the walk along the causes of an exception may not end, and its bound is the source's own
-- MAX_EXCEPTION_DEPTH. The methods that an actor's subclass supplies are arguments, functions of the
-- context into the state and error monad. A mixed sequence of events that threads put on a queue is a list of events.
--
-- Parameters, which stand for code that is not in this repository: the deepdiff library (DeepDiff, with
-- IsExact for what it documents of a delta), pydantic's validation (validate, with Validation), the formatting of a
-- neuron's url (url_of), Python's isinstance on user data (Values, with IsHeld), and the answers of
-- pylon and of the HTTP client (WeightsStatus, Poll, Reply), the neurons that pylon gives (Neurons),
-- the seeded shuffle of Python's random (shuffle, with IsShuffle), the names, texts and links of
-- Python's exceptions (Exceptions), pydantic's to_jsonable_python (Payloads), the texts of the
-- storers' notes (note), and the clock, in whole microseconds.
--
-- Not modelled: the other task actors (dispatcher, mux, weight setter, sampler), the stop
-- events, HTTP servers and clients, the start and stop of threads, contention on a lock that another
-- thread holds, creation times, logging, settings, the demo. A deep copy is the value itself, since
-- values do not change here. The uuid7 order of ids is not used. Emissions of different threads
-- between their reads of the shared store are not reordered.
pub mod Prelude
pub mod Exceptions
pub mod Chain
pub mod Dsl
pub mod ContextStore
pub mod Communicator
pub mod TaskResults
pub mod Retry
pub mod Runtime
pub mod Timestamper
pub mod Router
pub mod Preparer
pub mod Rest
pub mod Storer
pub mod EventBus
