-- ===== src/Streams/Writable/Controller/Writing.antt =====
-- Lemmas on the chunk that a controller queues (writable/algorithms.rs), for the invariant.
use starlingmonkey_ng.Prelude.{
  ℕ, zero, suc, ◌≡◌, refl, sym, subst, true, false, not, Option, List, [], ◌∷◌, ◌++◌, arith,
  is_some, length-append, if_cases,
}
use starlingmonkey_ng.Streams.Float.{Float}
use starlingmonkey_ng.Streams.QueueWithSizes.{
  Value, QueueWithSizes, ValueWithSize, chunk, close_sentinel, Throws, ok, err,
  enqueue_value_with_size, is_non_negative_number,
}
use starlingmonkey_ng.Streams.Writable.{
  Stream, pending, and_then, is_writable, close_queued_or_in_flight, has_operation_marked_in_flight,
  add_promise,
}
use starlingmonkey_ng.Streams.Writable.Cases.{throws_cases_eq}
use starlingmonkey_ng.Streams.Writable.Inv.{
  IsCoherent, IsValid, Ok, Ok-and_then, Keeps, starts_with_chunk, has_shape, chunks,
}
use starlingmonkey_ng.Streams.Writable.Erroring.Starting.{CanErr, IsCoherent-CanErr}
use starlingmonkey_ng.Streams.Writable.Controller.{
  refresh_backpressure, controller_write, error_if_needed, get_chunk_size, advance_queue_if_needed,
  get_backpressure, get_desired_size,
}
use starlingmonkey_ng.Streams.Writable.Controller.Advancing.{advance_queue_if_needed-IsValid}
use starlingmonkey_ng.Streams.Writable.Controller.Pressure.{
  repressed, refresh_backpressure-IsCoherent, error_if_needed-IsValid,
}

module _ {F : Type 0} ⦃fl : Float F⦄ where
  pub IsValid-error_if_needed :
      (author : Stream F → Option (Stream F)) (e : Value) (s : Stream F)
      → Keeps author
      → IsValid s
      → Ok IsValid (error_if_needed author e s)
  IsValid-error_if_needed author e s keeps v =
      error_if_needed-IsValid author e s keeps
        (λ h. (IsCoherent-CanErr s h v.coherent, v.coherent.calm h)) (λ h. v)

  pub get_chunk_size-IsValid :
      (sizing : Stream F → Option (Stream F)) (answer : Throws F)
      (author : Stream F → Option (Stream F)) (s : Stream F)
      → Keeps sizing
      → Keeps author
      → IsValid s
      → Ok (λ r. IsValid r.0) (get_chunk_size sizing answer author s)
  unfolding get_chunk_size
  get_chunk_size-IsValid sizing answer author s keeps keeps' v =
      if_cases (Ok _) s.strategy_size_algorithm
        (λ h.
          Ok-and_then (λ r. IsValid r.0) (sizing s) _ (keeps s v)
            (λ t v'.
              throws_cases_eq (Ok _) answer (λ n e. v')
                (λ x e.
                  Ok-and_then (λ r. IsValid r.0) (error_if_needed author x t) _
                    (IsValid-error_if_needed author x t keeps' v') (λ u w. w))))
        (λ h. v)

  -- The request is made, and its chunk is not yet queued.
  abbrev pub requested : Stream F → Stream F
  requested s = record (add_promise pending s) {
    write_requests = s.write_requests ++ s.next_promise ∷ [];
  }

  abbrev enqueued : Value → F → F → Stream F → Stream F
  enqueued v n total s = record (requested s) {
    container = record { queue = s.container.queue ++ chunk v n ∷ []; queue_total_size = total };
  }

  requested-CanErr : (s : Stream F) → CanErr s → CanErr (requested s)
  unfolding has_operation_marked_in_flight
  requested-CanErr s a = record {
    one_in_flight = a.one_in_flight;
    started_first = a.started_first;
    front = a.front;
    closing = a.closing;
    start_reacts = a.start_reacts;
    write_reacts = a.write_reacts;
    close_reacts = a.close_reacts;
    no_abort_reaction = a.no_abort_reaction;
    owned = a.owned;
  }

  has_shape-append :
      (k : ℕ) (vs : List (ValueWithSize F)) (v : Value) (n : F)
      → has_shape k false vs ≡ true
      → has_shape (suc k) false (vs ++ chunk v n ∷ []) ≡ true
  has_shape-append zero [] v n h = refl
  has_shape-append zero (x ∷ vs) v n h = absurd (ground arith)
  has_shape-append (suc k) [] v n h = absurd (ground arith)
  has_shape-append (suc k) (chunk w m ∷ vs) v n h = has_shape-append k vs v n h
  has_shape-append (suc k) (close_sentinel ∷ vs) v n h = absurd (ground arith)

  starts_with_chunk-append :
      (vs ws : List (ValueWithSize F))
      → starts_with_chunk vs ≡ true
      → starts_with_chunk (vs ++ ws) ≡ true
  starts_with_chunk-append [] ws h = absurd (ground arith)
  starts_with_chunk-append (chunk v n ∷ vs) ws h = refl
  starts_with_chunk-append (close_sentinel ∷ vs) ws h = absurd (ground arith)

  chunks-requested : (s : Stream F) → chunks (requested s) ≡ suc (chunks s)
  chunks-requested s = omega (arith, length-append s.write_requests (s.next_promise ∷ []))

  enqueued-IsCoherent :
      (s : Stream F) (v : Value) (n total : F)
      → IsCoherent s
      → is_writable s.state ≡ true
      → close_queued_or_in_flight s ≡ false
      → IsCoherent (repressed (enqueued v n total s))
  unfolding has_operation_marked_in_flight close_queued_or_in_flight get_backpressure
      get_desired_size
  enqueued-IsCoherent s v n total c on not_closing = record {
    calm = c.calm;
    pending_abort = c.pending_abort;
    one_in_flight = c.one_in_flight;
    started_first = c.started_first;
    starts_open = c.starts_open;
    in_flight_open = c.in_flight_open;
    shape = λ h. shaped;
    front = λ h. starts_with_chunk-append s.container.queue _ (c.front h);
    closing = c.closing;
    finished = λ h. absurd (ground arith);
    start_reacts = c.start_reacts;
    write_reacts = c.write_reacts;
    close_reacts = c.close_reacts;
    abort_reacts = c.abort_reacts;
    pressed = λ h i. refl;
    owned = c.owned;
  }
    where
      no_request : is_some s.close_request ≡ false
      no_request = ground arith

      shaped :
          has_shape
            (chunks (requested s))
            (is_some s.close_request)
            (s.container.queue ++ chunk v n ∷ [])
          ≡ true
      shaped =
          subst
            (λ k.
              has_shape k (is_some s.close_request) (s.container.queue ++ chunk v n ∷ []) ≡ true)
            (sym (chunks-requested s))
            (subst (λ b. has_shape (suc (chunks s)) b (s.container.queue ++ chunk v n ∷ []) ≡ true)
              (sym no_request)
              (has_shape-append (chunks s) s.container.queue v n (
                subst (λ b. has_shape (chunks s) b s.container.queue ≡ true) no_request
                  (c.shape on))))

  enqueue_cases :
      (P : Throws (QueueWithSizes F) → Type 0) (v : Value) (n : F) (c : QueueWithSizes F)
      → ((e : Value) → P (err e))
      → ((total : F)
          → P (ok (record { queue = c.queue ++ chunk v n ∷ []; queue_total_size = total })))
      → P (enqueue_value_with_size v n c)
  unfolding enqueue_value_with_size
  enqueue_cases P v n c k l =
      if_cases P (not (is_non_negative_number n)) (λ h. k _)
        (λ h. if_cases P (fl.eq n fl.infinity) (λ i. k _) (λ i. l _))

  pub controller_write-IsValid :
      (v : Value) (n : F) (author : Stream F → Option (Stream F)) (s : Stream F)
      → Keeps author
      → IsCoherent s
      → is_writable s.state ≡ true
      → close_queued_or_in_flight s ≡ false
      → Ok IsValid (controller_write v n author (requested s))
  unfolding controller_write close_queued_or_in_flight
  controller_write-IsValid v n author s keeps c on not_closing =
      let fails : (e : Value) → Ok IsValid (error_if_needed author e (requested s)) = λ e.
        error_if_needed-IsValid author e (requested s) keeps
          (λ h. (requested-CanErr s (IsCoherent-CanErr s on c), c.calm on))
          (λ h. absurd (ground arith)) in
      enqueue_cases
        (λ r. Ok IsValid (elim r [
          | err e ↦ error_if_needed author e (requested s)
          | ok c ↦
              and_then (refresh_backpressure (record (requested s) { container = c }))
                (λ s'. advance_queue_if_needed author s')
        ]))
        v n s.container fails
        (λ total.
          Ok-and_then IsValid (refresh_backpressure (enqueued v n total s)) _
            (refresh_backpressure-IsCoherent _ (enqueued-IsCoherent s v n total c on not_closing))
            (λ t r.
              advance_queue_if_needed-IsValid author t keeps r.0 (ground (arith, r.1))
                (ground (arith, r.2))))
