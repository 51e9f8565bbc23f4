-- ===== src/Lib.antt =====
-- StarlingMonkey: a JavaScript runtime on SpiderMonkey for WebAssembly components.
--
-- The modelled part is what decides which JavaScript code runs when: the event loop of
-- crates/core-runtime, with the timers of `setTimeout` and `setInterval`; the writable streams and
-- the readable streams with a default controller of crates/builtins/web-streams, state machines
-- driven by calls and by the jobs of that loop; and, of the globals, events and abort signals, base64
-- and the URL classes.
--
-- EventLoop/TaskQueue: `TaskEntry` and `TaskQueue` of crates/core-runtime/src/event_loop.rs. The
-- children hold the invariant (Inv), the expiry of timers (Expire) and the choice of the next
-- task (Dispatch). A task is of any type, an instant its number of nanoseconds.
--
-- EventLoop/Interest: `InterestTracker` and `InterestHandle` of event_loop/interest.rs, beside it.
-- Interest/Trackers holds the trackers of several loops with the handles acquired from them, and
-- runs any sequence of acquisitions and drops.
--
-- EventLoop/Registry: `EventLoop` with each method that changes it, by the method's name. A
-- method that reads the clock or the JS stack takes the reading as an argument; a panic is
-- `none`. Registry/Snapshot is `pending_work` and `ensure_idle_for_snapshot`.
--
-- EventLoop/Timer: event_loop/timer.rs. A `World` is a loop with what the code finds in
-- thread-local state and in the global. JS code is any `JsHost`: it answers, from the whole
-- world, with the calls that it makes on the active loop.
--
-- EventLoop/Step: `EventLoop::step` with its batch and the drain of microtasks after each task. A
-- debug assertion that fails is `none`, like any panic.
--
-- Streams: crates/builtins/web-streams/src. Streams/QueueWithSizes is queuing/queue_with_sizes.rs
-- with the queue operations of algorithms.rs, over any type of numbers (Streams/Float).
-- Streams/Writable is the directory writable/: the state of a stream with its controller, its
-- writers and its promises, then Erroring, Controller and Api for the algorithms and methods, by
-- their names less the prefix `writable_stream_`, `writable_stream_default_controller_` or
-- `writable_stream_default_writer_`, and Jobs for the reactions to the sink's promises. JS code
-- that a method calls back is an argument, a function on the state, which Jobs fills with any
-- calls of the methods. A debug assertion that fails, or an `expect`, is `none`. Writable/Inv
-- holds the invariant, and the children of each part the lemmas on it. Streams/Readable is the
-- directory readable/ in the same way, with the prefixes `readable_stream_` and
-- `readable_stream_default_controller_`: default_controller.rs, default_reader.rs, the methods of
-- readable_stream.rs on them, the `Read` requests of read_request.rs, and the part of algorithms.rs
-- that these run. Author code also runs where a read is resolved, which looks up `then`.
-- The state of a promise is what it was resolved with, as a `then` that author code installed may keep
-- it from being fulfilled.
-- Readable/Channel relates such a stream to the chunks that it holds and the reads that wait.
--
-- Events: events/ and signals/ of crates/builtins/web-globals/src. The events, targets and signals of a
-- realm are one record, `Realm`, in which an object is its number. Events/Flags is event.rs,
-- Events/Listeners and Events/Dispatch are event_target.rs and events/algorithms.rs, and Events/Abort
-- is signals/; a function has its method's name. What listeners and callbacks do is an argument, a
-- run on the realm, which Events/Runs fills with any calls of the methods: it is the microtasks that
-- may run after them too. What they throw is only reported. A debug assertion that fails is `panics`;
-- `debug` says whether they are on. Events/Inv holds the
-- invariant, Events/Kept what every call keeps, and Events/Safety what a run gives.
--
-- Web: further globals of crates/builtins. Web/Text holds strings as lists of scalar values, with their
-- UTF-8 and UTF-16. Web/Base64 is web-globals/src/base64.rs, with the decoder of the `data-url`
-- crate as a parameter. Web/Params is the list of pairs of web-url/src/url_search_params.rs, and
-- Web/Url the classes of url.rs and url_search_params.rs with algorithms.rs, over a store of their
-- objects: Url/SearchParams and Url/Methods have the methods, by their names, and Url/Sync the
-- invariant. The `url` and `form_urlencoded` crates are the record `UrlCrate`, and what the code
-- relies on of them the record `IsUrlCrate`.
--
-- The loops of the source are recursions on fuel. `expire_timers` has a round for each timer and
-- one more, and `allocate_js_timer_id` one for id 0, one for each id in use, and one that
-- succeeds. Arithmetic on `u64` wraps, and the results ask for ids left over, except that the ids of
-- event listeners, of which author code would have to add 2 ^ 64, are taken to be unbounded.
--
-- Not modelled: the drivers of the loop (`run_until` and its callers) and the futures that they
-- poll, garbage collection, the text of most error messages, and the bindings of the JS engine, the
-- platform and the host. Of events: the getters, the time stamps, and that making an object throws.
-- Of the streams: byte controllers, transform streams, piping, tee and the async iterator, with their
-- read requests; the order among jobs; that `start` throws; and whether a promise of a readable stream
-- is marked as handled.
pub mod Prelude
pub mod Collections
pub mod Web
pub mod EventLoop
pub mod Streams
pub mod Events
