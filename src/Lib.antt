-- ===== src/Lib.antt =====
-- A model of the tower crates: middleware for asynchronous services, as state machines that are
-- polled. A service has `poll_ready` and `call` (tower-service/src/lib.rs); each middleware wraps a
-- service and implements the same trait, and its `call` gives a response future that wraps that of
-- the inner service. What a crate shares between a middleware and its response futures in an `Arc`
-- is one cell here, passed to every operation beside the object.
--
-- Conventions. A method on `&mut self` returns its result with the new state. `Poll` and `Result`
-- are data types; a future, a service, a discovery, a policy and a predicate are records of
-- operations, so that every statement is for all of them. What the environment answers is in the
-- state that they pass on. A `usize` is a natural number whose additions and subtractions wrap at
-- 2 ^ 64 where the code's could, and an `isize` is an integer with the code's saturating and
-- wrapping operations. The clock, timers, wakeups and random numbers are parameters. Log lines and
-- `Debug`, `Display` and `error::Error` implementations are left out.
--
-- Base has the shared names, lists and integers. Service has the traits. Machine is a method that
-- can return, fail, panic or run out of fuel, and Loop the loop of a `poll`, turn by turn.
--
--   * Protocol: what tower-service/src/lib.rs asks of a caller, that it calls a service only after
--     that has told that it is ready. A watched service notes whether it was ever called before;
--     `Keeps` says what a service is between its operations, and what it is where it is ready;
--     `run` is a caller that asks and calls in any order, and leaves a call out where it is not
--     allowed. The time, and a cell that others write to, are given with each operation, as any
--     value. Wrappers and Gates have the middleware whose `poll_ready` and `call` are those of a
--     service, Stack puts some of them on each other, Responses, Checked and Connections have
--     those that call a service themselves; the balancer is in Balance/Endpoints, the router in
--     Router/Calls, and the worker of the buffer in Buffer/Worker/Calls and Readiness.
--   * Balance: tower-balance/src/lib.rs. The two index maps, the chosen and the dispatched index,
--     and the methods of `Balance` with one definition for each loop body. IndexMap states what
--     the indexmap crate documents of its maps over the list of the entries; Choose has
--     tower-balance/src/choose, and Discover tower-discover/src/lib.rs. The balancer asks its
--     chooser only for what `IsInRange` says. `poll_ready` is given fuel for the changes that the
--     discovery yields, which is a number that the balancer does not know; the loop over ready
--     services has fuel for their number and one more, since each turn but the last takes one away.
--     Balance/Table forgets in which map an endpoint is. Balance/Numbered is about the static list
--     as a discovery, and Balance/Listed puts it together with round robin. Balance/Driven has
--     `poll_service` and `poll_close`.
--   * PendingRequests: tower-balance/src/load/pending_requests.rs and instrument.rs. The strong count
--     of the shared `Arc` is a cell, and a handle is one of its references.
--   * PeakEwma: tower-balance/src/load/peak_ewma.rs. The floating point numbers are a parameter, and
--     every reading of the clock is an argument.
--   * Constant: tower-balance/src/load/constant.rs.
--   * InFlight: tower-in-flight-limit/src/lib.rs. `reserve_round` is one turn of the loop in
--     `Shared::reserve`. InFlight/Ops is about operations that run alone; InFlight/Steps runs them
--     for many handles and response futures, whole or with the rounds of their `reserve` loops
--     interleaved; and InFlight/System counts the reservations.
--   * Filter: tower-filter/src/lib.rs. The states of a response future, with three turns of fuel,
--     as a request goes through three states at most.
--   * RateLimit: tower-rate-limit/src/lib.rs. Methods that read the clock take the time.
--   * Retry: tower-retry/src/lib.rs. A policy may ask for retries without end, so the number of
--     turns is a parameter of `poll`. Retry/Attempts has a plain account of it.
--   * Reconnect: tower-reconnect/src/lib.rs. The loop of `poll_ready` has no bound in the source, so
--     the number of turns is a parameter.
--   * AndThen and Then: tower-util/src/ext/and_then.rs and then.rs, where `poll` calls itself at most
--     once, so that it needs no fuel. Futures is about a future that is polled again and again.
--   * Mapping: tower-util/src/ext/map.rs and map_err.rs. Optional: tower-util/src/option.rs and
--     either.rs.
--   * Timeout: tower-timeout/src/lib.rs.
--   * Buffer: tower-buffer/src/lib.rs. Channels states what the futures crate documents of its bounded
--     queue and of its oneshots. The handles, the response futures and the worker share the queue,
--     the store of oneshots and `open`. A poll of the worker runs alone, and the handles act between
--     the polls. The worker has fuel for the messages that it may skip in one turn, more than the
--     messages that wait, and for its turns, more than twice as many and one, since every turn takes
--     a message or is the last to find the service idle. Buffer/Client has the handles,
--     Buffer/Worker the worker, and Buffer/Delivery goes from one to the other. Buffer/System is all
--     of them, with calls, polls and callers that give up in any order.
--   * Router: tower-router/src/lib.rs. The cell that futures_borrow provides is a parameter, and a
--     route is a name under which the recognizer holds a service. Two turns are the most that a poll
--     of a response future takes.
--   * Watch: tower-watch/src/lib.rs, with the watch of futures_watch as a parameter.
--   * Budget: tower-retry/src/budget.rs. Times are nanoseconds. The loop of `expire` has as much
--     fuel as time has passed, which is enough where a window takes time.
--   * ChannelService: examples/channel_service.rs, with `for_each` of the futures crate left out: the
--     future that the task makes of one message is there, and time is in milliseconds.
--   * Mock: tower-mock/src/lib.rs. The map of blocked tasks is a list of them by their ids.
--   * Boxed: tower-util/src/boxed.rs and the forwarding implementations of tower-service/src/lib.rs.
--     Combinators: make_service.rs, service_fn.rs, ext/mod.rs, ext/apply.rs, ext/from_err.rs and
--     ext/ready.rs of tower-util/src.
--
-- Not modelled: other clones that only copy fields, and the example
-- tower-balance/examples/demo.rs, which drives the balancer with timers and prints. The order of
-- memory accesses is that of one thread at a time (`SeqCst`). The locks of the retry budget, of the
-- mock and of the latency estimate are not modelled: the operations under them run one at a time.
-- A worker of the buffer that has ended keeps its queue here, where the executor drops it with what
-- is in it. The debug assertion on the amount in `Budget::try_get` and the end of the range of the
-- mock's clone ids are not modelled.
pub mod Base
pub mod Service
pub mod InFlight
pub mod Budget
pub mod IndexMap
pub mod Machine
pub mod Discover
pub mod Choose
pub mod Balance
pub mod Loop
pub mod Filter
pub mod RateLimit
pub mod Retry
pub mod Reconnect
pub mod Futures
pub mod AndThen
pub mod Mapping
pub mod Constant
pub mod Optional
pub mod Then
pub mod Timeout
pub mod Channels
pub mod Buffer
pub mod PendingRequests
pub mod Router
pub mod Watch
pub mod Mock
pub mod Boxed
pub mod PeakEwma
pub mod Combinators
pub mod ChannelService
pub mod Protocol
