-- ===== src/EventLoop/Timer.antt =====
-- crates/core-runtime/src/event_loop/timer.rs: the timers of `setTimeout` and `setInterval`. JS
-- values are numbers, a duration is its nanoseconds, and `now` is a reading of the clock.
pub mod Inv
pub mod Calls
pub mod Run
pub mod Schedule
pub mod Repeat
pub mod Again
use starlingmonkey_ng.Prelude.{
  ℕ, ◌+◌, ◌-◌, ◌*◌, ◌^◌, Bool, true, false, ◌&&◌, Option, none, some, List, [], ◌∷◌, String,
  if◌then◌else◌, ltb, is_some,
}
use starlingmonkey_ng.Prelude.Int.{ℤ, pos, max_zero}
use starlingmonkey_ng.EventLoop.Interest.{drop_handle}
use starlingmonkey_ng.EventLoop.Registry.{
  acquire_interest_handle, register_pending_send, EventLoop, add_instant, queue, queue_ready,
  queue_timer, cancel_if_queued, queue_js_timer, requeue_js_timer, clear_js_timer, js_timer_fired,
  signal_ready, request_stop,
}

pub data TimerHandler : Type 0 where
  function : ℕ → List ℕ → TimerHandler
  code : String → TimerHandler

pub record TimerTask : Type 0 where
  pub handler : TimerHandler
  pub interval : Option ℕ
  pub nesting_level : ℕ
  pub timer_id : ℕ

-- What implements the trait `Task`: a timer, or a task of another builtin (such as
-- `AbortTimeoutTask`), by its kind and a number.
pub data LoopTask : Type 0 where
  timer : TimerTask → LoopTask
  native : String → ℕ → LoopTask

-- One loop, with what its code finds outside it: whether the loop is the active one
-- (`CURRENT_EVENT_LOOP`), the counter of timer ids of the global (`TIMER_ID_COUNTER_KEY`), and
-- `CURRENT_TIMER_NESTING`; and, of the JS engine, whether microtasks are queued and whether an
-- exception is pending.
pub record World : Type 0 where
  pub loop : EventLoop LoopTask
  pub active : Bool
  pub counter : ℕ
  pub nesting : ℕ
  pub pending_jobs : Bool
  pub pending_exception : Bool

abbrev pub nanos_per_milli : ℕ
nanos_per_milli = 1_000_000

abbrev pub min_nested : ℕ
min_nested = 4 * nanos_per_milli

abbrev pub u32_max : ℕ
u32_max = 2 ^ 32 - 1

-- `nesting_level.saturating_add(1)`
abbrev pub next_level : ℕ → ℕ
next_level level = if ltb level u32_max then level + 1 else u32_max

unfoldable pub clamp_nested_timeout : ℕ → ℕ → ℕ
clamp_nested_timeout level delay = if ltb 5 level && ltb delay min_nested then min_nested else delay

-- `TimerHandlerArg`
pub data TimerHandlerArg : Type 0 where
  callable : ℕ → TimerHandlerArg
  string : String → TimerHandlerArg

-- The extra arguments go to a function; a code string ignores them.
abbrev pub handler_of : TimerHandlerArg → List ℕ → TimerHandler
handler_of (callable callback) arguments = function callback arguments
handler_of (string text) arguments = code text

pub data TimerResult : Type 0 where
  ok : ℕ → TimerResult
  no_event_loop : TimerResult

-- The task that `timer_initialization_steps` makes for a timer id.
abbrev pub new_timer : TimerHandlerArg → ℤ → List ℕ → Bool → World → ℕ → LoopTask
new_timer handler timeout arguments repeat w timer_id =
    let delay = clamp_nested_timeout w.nesting (max_zero timeout * nanos_per_milli) in
    timer (record {
      handler = handler_of handler arguments;
      interval = if repeat then some delay else none;
      nesting_level = next_level w.nesting;
      timer_id = timer_id;
    })

abbrev pub timer_deadline : ℕ → ℤ → World → ℕ
timer_deadline now timeout w =
    add_instant now (clamp_nested_timeout w.nesting (max_zero timeout * nanos_per_milli))

-- `none` is a panic of the counter of timer ids.
unfoldable pub timer_initialization_steps :
    ℕ → Option String → TimerHandlerArg → ℤ → List ℕ → Bool → World → Option (World × TimerResult)
timer_initialization_steps now origin handler timeout arguments repeat w =
    let queued =
      queue_js_timer origin (timer_deadline now timeout w)
        (new_timer handler timeout arguments repeat w) w.counter w.loop in
    if w.active
    then elim queued [
      | none ↦ none
      | some (timer_id, counter', loop') ↦
          some (record w { loop = loop'; counter = counter' }, ok timer_id)
    ]
    else some (w, no_event_loop)

abbrev pub or_zero : Option ℤ → ℤ
or_zero none = pos 0
or_zero (some timeout) = timeout

unfoldable pub set_timeout :
    ℕ → Option String → TimerHandlerArg → Option ℤ → List ℕ → World → Option (World × TimerResult)
unfolding timer_initialization_steps
set_timeout now origin handler timeout arguments w =
    timer_initialization_steps now origin handler (or_zero timeout) arguments false w

unfoldable pub set_interval :
    ℕ → Option String → TimerHandlerArg → Option ℤ → List ℕ → World → Option (World × TimerResult)
unfolding timer_initialization_steps
set_interval now origin handler timeout arguments w =
    timer_initialization_steps now origin handler (or_zero timeout) arguments true w

abbrev pub id_or_zero : Option ℕ → ℕ
id_or_zero none = 0
id_or_zero (some id) = id

-- Also `clear_interval`, which does the same.
unfoldable pub clear_timeout : Option ℕ → World → World
clear_timeout id w =
    if w.active then record w { loop = clear_js_timer (id_or_zero id) w.loop } else w

-- What JS code, and the builtins that it calls, ask of the active loop.
pub data Call : Type 0 where
  sets_timeout : ℕ → Option String → TimerHandlerArg → Option ℤ → List ℕ → Call
  sets_interval : ℕ → Option String → TimerHandlerArg → Option ℤ → List ℕ → Call
  clears : Option ℕ → Call
  queues : Option String → String → ℕ → Call
  queues_ready : Option String → String → ℕ → Call
  queues_timer : Option String → String → ℕ → ℕ → Call
  cancels : ℕ → Call
  signals : ℕ → Call
  acquires_interest : Option String → Call
  releases_interest : Option ℕ → Call
  registers_send : Option String → ℕ → Call
  stops : Call

-- `with_active_event_loop`, for an operation whose result is not used.
abbrev pub on_active : (EventLoop LoopTask → EventLoop LoopTask) → World → World
on_active f w = if w.active then record w { loop = f w.loop } else w

abbrev pub first_of_pair : Option (World × TimerResult) → Option World
first_of_pair none = none
first_of_pair (some (w, r)) = some w

-- A handle is dropped on the loop that it is of, active or not. Where the count is 0 there is no
-- handle to drop.
unfoldable pub release_interest : Option ℕ → World → World
release_interest key w = elim (drop_handle key w.loop.interest) [
  | none ↦ w
  | some interest' ↦ record w { loop = record (w.loop) { interest = interest' } }
]

unfoldable pub acquire_interest : Option String → World → Option World
acquire_interest origin w = elim (acquire_interest_handle origin w.loop) [
  | none ↦ none
  | some (loop', key) ↦ some (record w { loop = loop' })
]

-- `none` is a panic.
unfoldable pub run_call : Call → World → Option World
unfolding set_timeout set_interval clear_timeout acquire_interest release_interest
run_call (sets_timeout now origin handler timeout arguments) w =
    first_of_pair (set_timeout now origin handler timeout arguments w)
run_call (sets_interval now origin handler timeout arguments) w =
    first_of_pair (set_interval now origin handler timeout arguments w)
run_call (clears id) w = some (clear_timeout id w)
run_call (queues origin kind n) w = some (on_active (λ el. (queue origin (native kind n) el).0) w)
run_call (queues_ready origin kind n) w =
    some (on_active (λ el. (queue_ready origin (native kind n) el).0) w)
run_call (queues_timer origin kind n deadline) w =
    some (on_active (λ el. (queue_timer origin (native kind n) deadline el).0) w)
run_call (cancels id) w = some (on_active (λ el. (cancel_if_queued id el).0) w)
run_call (signals id) w = some (on_active (signal_ready id) w)
run_call (acquires_interest origin) w = if w.active then acquire_interest origin w else some w
run_call (releases_interest key) w = some (release_interest key w)
run_call (registers_send origin send) w = some (on_active (register_pending_send origin send) w)
run_call stops w = some (on_active request_stop w)

unfoldable pub run_calls : List Call → World → Option World
run_calls [] w = some w
run_calls (c ∷ cs) w = elim (run_call c w) [ none ↦ none | some w' ↦ run_calls cs w' ]

-- One run of a task's code: the calls that it makes, whether it throws, the clock after it, and what
-- it leaves in the JS engine.
pub record Turn : Type 0 where
  pub calls : List Call
  pub failed : Bool
  pub now : ℕ
  pub pending_jobs : Bool
  pub pending_exception : Bool

-- One drain of the microtasks: the calls that they make, and what the drain leaves in the JS engine.
pub record Drain : Type 0 where
  pub calls : List Call
  pub pending_jobs : Bool
  pub pending_exception : Bool

-- What the loop's tasks and microtasks do is no code of the runtime: it may depend on all of the
-- world.
pub record JsHost : Type 0 where
  pub invoke : TimerHandler → World → Turn
  pub run_native : String → ℕ → World → Turn
  pub microtasks : World → Drain
  pub futures : World → Bool

-- The JS engine after a run or a drain.
abbrev pub leave : Bool → Bool → World → World
leave jobs exception w = record w { pending_jobs = jobs; pending_exception = exception }

-- The task under which an interval is queued again.
abbrev pub repeated : TimerTask → TimerTask
repeated task = record task { nesting_level = next_level task.nesting_level }

unfoldable pub after_handler : TimerTask → ℕ → ℕ → World → World
after_handler task id now w = elim task.interval [
  | none ↦ on_active (js_timer_fired task.timer_id) w
  | some interval ↦
      let deadline = add_instant now (clamp_nested_timeout task.nesting_level interval) in
      on_active (requeue_js_timer task.timer_id id (timer (repeated task)) deadline) w
]

-- `TimerTask::run`: the Boolean says that the handler failed.
unfoldable pub run_timer : JsHost → TimerTask → ℕ → World → Option (World × Bool)
unfolding run_calls after_handler
run_timer host task id w =
    let nested = record w { nesting = task.nesting_level } in
    let turn = host.invoke task.handler nested in
    elim (run_calls turn.calls nested) [
      | none ↦ none
      | some w' ↦ some (
        after_handler task id turn.now
            (leave turn.pending_jobs turn.pending_exception (record w' { nesting = w.nesting })),
        turn.failed,
      )
    ]
