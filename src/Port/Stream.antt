-- ===== src/Port/Stream.antt =====
-- The line as a stream: `Read` against the bytes that are held and still to come.
use ritex.Base.{
  ℕ, zero, suc, ◌+◌, ◌-◌, ◌≤◌, ◌<◌, ◌≡◌, refl, sym, ap, ◌∙◌, true, false, inl, inr, List, [], ◌∷◌,
  ◌++◌, ◌==◌, some, arith, length, take, drop, length-append, length-take, length-drop, take_all,
  take-append_le, take-append_add, drop-append_le, drop-append_add, drop_all, append_assoc,
  append-nil, le_or_lt,
}
use mathlib.Core.Path.{subst}
use ritex.Port.{
  Port, Event, arrives, times_out, fails, Error, timeout, other, Outcome, ok, err, stuck,
  cancel_echo, take_held, wait_event, read_loop, read, budget, event_budget,
}

-- The bytes that arrive before the first event that is no arrival.
abbrev pub line : List Event → List ℕ
line [] = []
line (arrives seconds bytes ∷ events) = bytes ++ line events
line (e ∷ events) = []

abbrev pub stream : Port → List ℕ
stream p = p.held ++ line p.events

-- What ends the stream.
abbrev pub line_error : List Event → Error
line_error [] = timeout
line_error (arrives seconds bytes ∷ events) = line_error events
line_error (times_out seconds ∷ events) = timeout
line_error (fails ∷ events) = other

-- `q` is `p` after n bytes of its stream.
pub record Consumes (n : ℕ) (p q : Port) : Type 0 where
  pub rest : stream q ≡ drop n (stream p)
  pub quiet : q.echo_cancel_fifo ≡ []
  pub sent : q.written ≡ p.written
  pub fault : line_error q.events ≡ line_error p.events
  pub spent : budget q + n ≤ budget p

-- `q` is `p` after its stream has ended in the error `e`.
pub record Drained (p q : Port) (e : Error) : Type 0 where
  pub fault : e ≡ line_error p.events
  pub quiet : q.echo_cancel_fifo ≡ []
  pub sent : q.written ≡ p.written

-- The next n bytes of the stream, put behind `pre`.
abbrev pub Reads : ℕ → List ℕ → Port → Outcome (List ℕ) → Type 0
Reads n pre p (ok bytes q) =
    (n ≤ length (stream p)) × (bytes ≡ pre ++ take n (stream p)) × Consumes n p q
Reads n pre p (err e q) = (length (stream p) < n) × Drained p q e
Reads n pre p stuck = ⊥

abbrev quiet_port : List ℕ → List Event → List ℕ → ℕ → Port
quiet_port held events written clock = record {
  held = held;
  events = events;
  echo_cancel_fifo = [];
  written = written;
  clock = clock;
}

cancel_echo_quiet :
    (i total : ℕ) (buffer : List ℕ) → cancel_echo i [] total buffer ≡ some ([], total)
unfolding cancel_echo
cancel_echo_quiet zero total buffer = refl
cancel_echo_quiet (suc i) total buffer = refl

-- A round on held bytes, with no echo to wait for.
take_held_quiet :
    (len total : ℕ) (buffer pre held : List ℕ) (events : List Event) (written : List ℕ) (clock : ℕ)
    → take total buffer ≡ pre
    → take_held len total buffer (quiet_port held events written clock)
      ≡ some (
        total + length (take (len - total) held),
        pre ++ take (len - total) held,
        quiet_port (drop (len - total) held) events written clock,
      )
unfolding take_held
take_held_quiet len total buffer pre held events written clock e =
    rw (cancel_echo_quiet, take_held)
      (ap
        (λ t. some (
          total + length (take (len - total) held),
          t ++ take (len - total) held,
          quiet_port (drop (len - total) held) events written clock,
        ))
        e)

-- `p'` is `p` with the bytes `got` taken off its stream.
record Advances (got : List ℕ) (p p' : Port) : Type 0 where
  split : stream p ≡ got ++ stream p'
  sent : p'.written ≡ p.written
  fault : line_error p'.events ≡ line_error p.events
  spent : budget p' + length got ≤ budget p

-- What is read after `got` is read behind it.
Reads-advance :
    (m n : ℕ) (pre got : List ℕ) (p p' : Port) (r : Outcome (List ℕ))
    → Advances got p p'
    → n ≡ length got + m
    → Reads m (pre ++ got) p' r
    → Reads n pre p r
Reads-advance m n pre got p p' (ok bytes q) a e (room, same, c) =
    rw (a.split, e)
      (
        omega (arith, length-append got (stream p')),
        same
            ∙ append_assoc pre got (take m (stream p'))
            ∙ ap (◌++◌ pre) (sym (take-append_add m got (stream p'))),
        record {
          rest = c.rest ∙ sym (rw (a.split) (drop-append_add m got (stream p')));
          quiet = c.quiet;
          sent = c.sent ∙ a.sent;
          fault = c.fault ∙ a.fault;
          spent = omega (arith, c.spent, a.spent);
        },
      )
Reads-advance m n pre got p p' (err x q) a e (short, d) =
    rw (a.split, e)
      (
        omega (arith, length-append got (stream p')),
        record { fault = d.fault ∙ a.fault; quiet = d.quiet; sent = d.sent ∙ a.sent },
      )
Reads-advance m n pre got p p' stuck a e h = h

-- The last round, and a round that leaves the line empty.
read_loop_enough :
    (fuel len total : ℕ) (buffer pre : List ℕ) (b : ℕ) (bs : List ℕ) (events : List Event)
    (written : List ℕ) (clock : ℕ)
    → take total buffer ≡ pre
    → length pre ≡ total
    → total < len
    → len - total ≤ length (b ∷ bs)
    → read_loop (suc fuel) len total buffer (quiet_port (b ∷ bs) events written clock)
      ≡ ok
          (pre ++ take (len - total) (b ∷ bs))
          (quiet_port (drop (len - total) (b ∷ bs)) events written clock)
unfolding read_loop
read_loop_enough fuel len total buffer pre b bs events written clock e l lt enough =
    rw (take_held_quiet len total buffer pre (b ∷ bs) events written clock e, read_loop)
      (rw (full, take_all len (pre ++ take (len - total) (b ∷ bs)) fits))
  where
    full : (total + length (take (len - total) (b ∷ bs)) == len) ≡ true
    full = ground (arith, length-take (len - total) (b ∷ bs))

    fits : length (pre ++ take (len - total) (b ∷ bs)) ≤ len
    fits =
        omega (
          arith,
          length-append pre (take (len - total) (b ∷ bs)),
          length-take (len - total) (b ∷ bs),
        )

read_loop_short :
    (fuel len total : ℕ) (buffer pre : List ℕ) (b : ℕ) (bs : List ℕ) (events : List Event)
    (written : List ℕ) (clock : ℕ)
    → take total buffer ≡ pre
    → length pre ≡ total
    → length (b ∷ bs) < len - total
    → read_loop (suc fuel) len total buffer (quiet_port (b ∷ bs) events written clock)
      ≡ read_loop fuel len
          (total + length (b ∷ bs))
          (pre ++ (b ∷ bs))
          (quiet_port [] events written clock)
unfolding read_loop
read_loop_short fuel len total buffer pre b bs events written clock e l short =
    rw (take_held_quiet len total buffer pre (b ∷ bs) events written clock e, read_loop)
      (rw more (
        rw (
          take_all (len - total) (b ∷ bs) (omega arith),
          drop_all (len - total) (b ∷ bs) (omega arith),
        )))
  where
    more : (total + length (take (len - total) (b ∷ bs)) == len) ≡ false
    more = ground (arith, length-take (len - total) (b ∷ bs))

read_loop_stream :
    (fuel len total : ℕ) (buffer pre held : List ℕ) (events : List Event) (written : List ℕ)
    (clock : ℕ)
    → take total buffer ≡ pre
    → length pre ≡ total
    → total < len
    → length held + event_budget events < fuel
    → Reads
        (len - total)
        pre
        (quiet_port held events written clock)
        (read_loop fuel len total buffer (quiet_port held events written clock))
unfolding read_loop wait_event
read_loop_stream zero len total buffer pre held events written clock e l lt f = absurd (omega arith)
read_loop_stream (suc fuel) len total buffer pre [] [] written clock e l lt f =
    (omega arith, record { fault = refl; quiet = refl; sent = refl })
read_loop_stream (suc fuel) len total buffer pre [] (times_out s ∷ events) written clock e l lt f =
    (omega arith, record { fault = refl; quiet = refl; sent = refl })
read_loop_stream (suc fuel) len total buffer pre [] (fails ∷ events) written clock e l lt f =
    (omega arith, record { fault = refl; quiet = refl; sent = refl })
read_loop_stream (suc fuel) len total buffer pre [] (arrives s bytes ∷ events) written clock e l lt
      f =
    Reads-advance (len - total) (len - total) pre []
      (quiet_port [] (arrives s bytes ∷ events) written clock)
      (quiet_port bytes events written (clock + s)) _
      (record { split = refl; sent = refl; fault = refl; spent = omega arith }) (omega arith)
      (rw append-nil (
        read_loop_stream fuel len total buffer pre bytes events written (clock + s) e l lt
          (omega arith)))
read_loop_stream (suc fuel) len total buffer pre (b ∷ bs) events written clock e l lt f =
    elim (le_or_lt (len - total) (length (b ∷ bs))) [
      | inl enough ↦
          subst (Reads (len - total) pre (quiet_port (b ∷ bs) events written clock))
            (sym
              (read_loop_enough fuel len total buffer pre b bs events written clock e l lt enough))
            (
              omega (arith, length-append (b ∷ bs) (line events)),
              ap (◌++◌ pre) (sym (take-append_le (len - total) (b ∷ bs) (line events) enough)),
              record {
                rest = sym (drop-append_le (len - total) (b ∷ bs) (line events) enough);
                quiet = refl;
                sent = refl;
                fault = refl;
                spent = omega (arith, length-drop (len - total) (b ∷ bs));
              },
            )
      | inr short ↦
          subst (Reads (len - total) pre (quiet_port (b ∷ bs) events written clock))
            (sym (read_loop_short fuel len total buffer pre b bs events written clock e l short))
            (Reads-advance (len - (total + length (b ∷ bs))) (len - total) pre (b ∷ bs)
              (quiet_port (b ∷ bs) events written clock) (quiet_port [] events written clock) _
              (record { split = refl; sent = refl; fault = refl; spent = omega arith })
              (omega arith)
              (read_loop_stream fuel len (total + length (b ∷ bs)) (pre ++ (b ∷ bs))
                (pre ++ (b ∷ bs)) [] events written clock
                (take_all _ (pre ++ (b ∷ bs)) (omega (arith, length-append pre (b ∷ bs))))
                (omega (arith, length-append pre (b ∷ bs))) (omega arith) (omega arith)))
    ]

-- With no echo to wait for, a read of at least one byte returns the next bytes of the stream,
-- however they arrive, or the error that ends the stream.
pub read_stream :
    (len : ℕ) (p : Port) → 0 < len → p.echo_cancel_fifo ≡ [] → Reads len [] p (read len p)
unfolding read
read_stream len p h quiet =
    subst (λ q. Reads len [] q (read len q)) (λ i. record p { echo_cancel_fifo = sym quiet i })
      (subst (λ n. Reads n [] quieted (read_loop (suc (budget p)) len 0 [] quieted)) (omega arith)
        (read_loop_stream (suc (budget p)) len 0 [] [] p.held p.events p.written p.clock refl refl h
          (omega arith)))
  where
    quieted : Port
    quieted = record p { echo_cancel_fifo = [] }
