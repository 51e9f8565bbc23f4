-- ===== src/Events/Abort.antt =====
-- Abort signals (signals/ of crates/builtins/web-globals/src). What the callbacks of abort algorithms
-- do, by the signal and the place in its list, and what the listeners of the `abort` event do, by the
-- signal and the listener's id, are arguments. An abort controller is its signal.
use starlingmonkey_ng.Prelude.{
  ℕ, zero, suc, ◌+◌, Bool, true, false, Option, none, some, List, [], ◌∷◌, ◌++◌, mem, if◌then◌else◌,
  ◌==◌,
}
use starlingmonkey_ng.Web.Text.{codes}
use starlingmonkey_ng.Events.{
  AbortAlgorithm, remove_listener, run_steps, AbortReason, undefined, abort_error, timeout_error,
  AbortSignal, Realm, done, and_run, set_signal, set_listeners, is_undefined,
}
use starlingmonkey_ng.Events.Listeners.{
  aborted, remove_an_event_listener, remove_an_event_listener_by_id, add_an_event_listener,
}
use starlingmonkey_ng.Events.Dispatch.{Author, fire_an_event}

-- `AbortSignal::new`, and the constructor of `EventTarget`.
unfoldable pub new_signal : Realm → Realm × ℕ
new_signal w =
    let signal : AbortSignal = record {
      abort_reason = undefined;
      dependent = false;
      source_signals = [];
      dependent_signals = [];
      abort_algorithms = [];
      onabort_handler = none;
    } in
    let added = set_listeners w.next_target [] (set_signal w.next_target signal w) in
    (record added { next_target = w.next_target + 1 }, w.next_target)

abbrev pub set_reason : ℕ → AbortReason → Realm → Realm
set_reason s reason w = set_signal s (record (w.signals s) { abort_reason = reason }) w

-- `AbortSignal::abort`
unfoldable pub abort : Option AbortReason → Realm → Realm × ℕ
unfolding new_signal
abort reason w =
    let (w', s) = new_signal w in
    (set_reason s (elim reason [ none ↦ abort_error | some r ↦ r ]) w', s)

-- What is thrown, if anything is.
unfoldable pub throw_if_aborted : ℕ → Realm → Option AbortReason
throw_if_aborted s w =
    if is_undefined (w.signals s).abort_reason then none else some (w.signals s).abort_reason

unfoldable pub first_aborted : List ℕ → Realm → Option ℕ
first_aborted [] w = none
first_aborted (s ∷ ss) w =
    if is_undefined (w.signals s).abort_reason then first_aborted ss w else some s

-- The source is appended to the signals of the result, and the result to those of the source.
unfoldable pub link_source : ℕ → ℕ → Realm → Realm
link_source result source w =
    let w1 =
      set_signal result
        (record (w.signals result) {
          source_signals = (w.signals result).source_signals ++ source ∷ [];
        })
        w in
    set_signal source
      (record (w1.signals source) {
        dependent_signals = (w1.signals source).dependent_signals ++ result ∷ [];
      })
      w1

unfoldable pub link_sources : ℕ → List ℕ → Realm → Realm
unfolding link_source
link_sources result [] w = w
link_sources result (source ∷ sources) w =
    link_sources result sources
      (if mem source (w.signals result).source_signals then w else link_source result source w)

unfoldable pub link_signals : ℕ → List ℕ → Realm → Realm
unfolding link_source link_sources
link_signals result [] w = w
link_signals result (s ∷ ss) w = link_signals result ss (
    if (w.signals s).dependent
    then link_sources result (w.signals s).source_signals w
    else link_source result s w)

unfoldable pub create_dependent_abort_signal : List ℕ → Realm → Realm × ℕ
unfolding new_signal first_aborted link_signals
create_dependent_abort_signal signals w =
    let (w1, result) = new_signal w in
    elim (first_aborted signals w1) [
      | some s ↦ (set_reason result (w1.signals s).abort_reason w1, result)
      | none ↦ (
        link_signals result signals
            (set_signal result (record (w1.signals result) { dependent = true }) w1),
        result,
      )
    ]

-- The dependent signals that are not aborted get the reason; they are the second answer.
unfoldable pub abort_dependents : AbortReason → List ℕ → Realm → Realm × List ℕ
abort_dependents reason [] w = (w, [])
abort_dependents reason (d ∷ ds) w =
    let unset = is_undefined (w.signals d).abort_reason in
    let (w', rest) = abort_dependents reason ds (if unset then set_reason d reason w else w) in
    (w', if unset then d ∷ rest else rest)

-- The snapshot of the algorithms, each run: the first is at place `i`.
unfoldable pub run_algorithms : (ℕ → Author) → ℕ → List AbortAlgorithm → Author
unfolding remove_an_event_listener_by_id
run_algorithms callbacks i [] w = done w
run_algorithms callbacks i (remove_listener t id ∷ rest) w =
    run_algorithms callbacks (suc i) rest (remove_an_event_listener_by_id t id w)
run_algorithms callbacks i (run_steps c ∷ rest) w =
    and_run (callbacks i w) (λ w'. run_algorithms callbacks (suc i) rest w')

unfoldable pub run_the_abort_steps : Bool → (ℕ → Author) → (ℕ → Author) → ℕ → Author
unfolding run_algorithms fire_an_event
run_the_abort_steps debug callbacks listeners s w =
    let emptied = set_signal s (record (w.signals s) { abort_algorithms = [] }) w in
    and_run (run_algorithms callbacks 0 (w.signals s).abort_algorithms emptied)
      λ w'. and_run (fire_an_event debug listeners (codes "abort") s w') λ a. done a.0

unfoldable pub run_each : Bool → (ℕ → ℕ → Author) → (ℕ → ℕ → Author) → List ℕ → Author
unfolding run_the_abort_steps
run_each debug callbacks listeners [] w = done w
run_each debug callbacks listeners (s ∷ ss) w =
    and_run (run_the_abort_steps debug (callbacks s) (listeners s) s w)
      (λ w'. run_each debug callbacks listeners ss w')

-- Making the reason a JS value does not throw here, nor does making the error or the event.
unfoldable pub signal_abort : Bool → (ℕ → ℕ → Author) → (ℕ → ℕ → Author) → ℕ → AbortReason → Author
unfolding abort_dependents run_the_abort_steps run_each
signal_abort debug callbacks listeners s reason w =
    let given = (if is_undefined reason then abort_error else reason) in
    let w1 = set_reason s given w in
    let (w2, dependents) = abort_dependents given (w1.signals s).dependent_signals w1 in
    let aborts =
      and_run (run_the_abort_steps debug (callbacks s) (listeners s) s w2)
        (λ w3. run_each debug callbacks listeners dependents w3) in
    if is_undefined (w.signals s).abort_reason then aborts else done w

-- `AbortTimeoutTask::run`
unfoldable pub timeout_fires : Bool → (ℕ → ℕ → Author) → (ℕ → ℕ → Author) → ℕ → Author
unfolding signal_abort
timeout_fires debug callbacks listeners s w =
    signal_abort debug callbacks listeners s timeout_error w

unfoldable pub add_abort_algorithm : ℕ → ℕ → Realm → Realm
unfolding aborted
add_abort_algorithm s callback w =
    if aborted s w
    then w
    else set_signal s
        (record (w.signals s) {
          abort_algorithms = (w.signals s).abort_algorithms ++ run_steps callback ∷ [];
        })
        w

unfoldable pub without_callback : ℕ → List AbortAlgorithm → List AbortAlgorithm
without_callback callback [] = []
without_callback callback (run_steps c ∷ rest) =
    let kept = without_callback callback rest in if c == callback then kept else run_steps c ∷ kept
without_callback callback (remove_listener t id ∷ rest) =
    remove_listener t id ∷ without_callback callback rest

unfoldable pub remove_abort_algorithm : ℕ → ℕ → Realm → Realm
unfolding without_callback
remove_abort_algorithm s callback w =
    set_signal s
      (record (w.signals s) {
        abort_algorithms = without_callback callback (w.signals s).abort_algorithms;
      })
      w

-- `set_onabort`: the new handler is `none` where the value is not callable.
unfoldable pub set_onabort : ℕ → Option ℕ → Realm → Realm
unfolding remove_an_event_listener add_an_event_listener
set_onabort s handler w =
    let removed : Realm = elim (w.signals s).onabort_handler [
      | none ↦ w
      | some old ↦ remove_an_event_listener s (codes "abort") old false w
    ] in
    let added : Realm = elim handler [
      | none ↦ removed
      | some new ↦ add_an_event_listener s (codes "abort") new false none false none removed
    ] in
    set_signal s (record (added.signals s) { onabort_handler = handler }) added

abbrev pub count : List AbortAlgorithm → ℕ
count [] = 0
count (a ∷ rest) = suc (count rest)

-- `abort_algorithm_count_including_dependents`, with fuel for the depth; `none` where it does not
-- suffice.
unfoldable pub algorithm_sum : (ℕ → Option ℕ) → List ℕ → Option ℕ
algorithm_sum count_of [] = some 0
algorithm_sum count_of (d ∷ ds) = elim (count_of d) [
  | none ↦ none
  | some n ↦ elim (algorithm_sum count_of ds) [ none ↦ none | some m ↦ some (n + m) ]
]

unfoldable pub algorithm_count : ℕ → ℕ → Realm → Option ℕ
unfolding algorithm_sum
algorithm_count zero s w = none
algorithm_count (suc depth) s w =
    elim (algorithm_sum (λ d. algorithm_count depth d w) (w.signals s).dependent_signals) [
      | none ↦ none
      | some n ↦ some (count (w.signals s).abort_algorithms + n)
    ]
