-- ===== src/Events/Runs/Any.antt =====
-- What `AbortSignal.any` makes (signals/ of crates/builtins/web-globals/src).
