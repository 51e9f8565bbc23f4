-- ===== src/Events/Safety.antt =====
-- What a run of author code gives, with the debug assertions of events/event.rs
-- (crates/builtins/web-globals/src).
use starlingmonkey_ng.Prelude.{◌≡◌, Bool, true}
use starlingmonkey_ng.Events.{not_stopped, is_dispatching, Run, done, panics, and_run}

-- A property of what a run leaves; the only assertion that may fail is that of `start_dispatching`.
abbrev pub Safe : {A : Type 0} → Bool → (A → Type 0) → Run A → Type 0
Safe debug P (done a) = P a
Safe debug P (panics not_stopped) = debug ≡ true
Safe debug P (panics is_dispatching) = ⊥

pub Safe-and_run :
    {A B : Type 0} (debug : Bool) (P : A → Type 0) (Q : B → Type 0) (run : Run A) (f : A → Run B)
    → Safe debug P run
    → ((a : A) → P a → Safe debug Q (f a))
    → Safe debug Q (and_run run f)
Safe-and_run debug P Q (done a) f h k = k a h
Safe-and_run debug P Q (panics not_stopped) f h k = h
Safe-and_run debug P Q (panics is_dispatching) f h k = h

pub Safe-map :
    {A : Type 0} (debug : Bool) (P Q : A → Type 0) (run : Run A)
    → ((a : A) → P a → Q a)
    → Safe debug P run
    → Safe debug Q run
Safe-map debug P Q (done a) f h = f a h
Safe-map debug P Q (panics not_stopped) f h = h
Safe-map debug P Q (panics is_dispatching) f h = h
