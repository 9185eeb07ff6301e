-- ===== src/Port/Ends.antt =====
-- The loops on the serial line end for every list of events, whatever waits for its echo: a round takes a
-- held byte or an event.
use ritex.Base.{
  ℕ, zero, suc, ◌+◌, ◌-◌, ◌≤◌, ◌<◌, ◌≡◌, refl, sym, ap, ◌∙◌, Bool, true, false, Option, none, some,
  List, [], ◌∷◌, ◌++◌, ◌==◌, if◌then◌else◌, length, take, get_or, arith, length-drop, length-take,
  Bool-cases, inl, inr, Option-cases,
}
use ritex.Protocol.{ksu_address}
use ritex.Port.{
  Port, Outcome, ok, err, stuck, Event, arrives, times_out, fails, other, Wait, ready, broken,
  wait_event, cancel_echo, flush, take_held, read_loop, event_budget, budget, read, skip_to_address,
}

-- A result, with something taken off the line where it is one without error.
abbrev pub Ends {ℓ} : {A : Type ℓ} → ℕ → Outcome A → Type 0
Ends b (ok a q) = budget q < b
Ends b (err e q) = budget q ≤ b
Ends b stuck = ⊥

cancel_echo_less :
    (i : ℕ) (fifo : List ℕ) (total : ℕ) (buffer fifo' : List ℕ) (total' : ℕ)
    → cancel_echo i fifo total buffer ≡ some (fifo', total')
    → total' ≤ total
unfolding cancel_echo
cancel_echo_less zero fifo total buffer fifo' total' h = ground (arith, h)
cancel_echo_less (suc i) [] total buffer fifo' total' h = ground (arith, h)
cancel_echo_less (suc i) (echo ∷ fifo) total buffer fifo' total' h =
    elim (Bool-cases (echo == get_or buffer (total - 1) 0)) [
      | inl e ↦ omega (
        arith,
        cancel_echo_less i fifo (total - 1) buffer fifo' total'
            (sym (ap (λ b. if b then cancel_echo i fifo (total - 1) buffer else none) e) ∙ h),
      )
      | inr e ↦
          absurd
            (cc (sym (ap (λ b. if b then cancel_echo i fifo (total - 1) buffer else none) e) ∙ h))
    ]

-- What a round on held bytes leaves.
abbrev Taken : ℕ → Port → Option (ℕ × List ℕ × Port) → Type 0
Taken len p none = Unit
Taken len p (some (total, filled, q)) = (total ≤ len) × (budget q < budget p)

take_held-Taken :
    (len total : ℕ) (buffer : List ℕ) (p : Port)
    → total < len
    → 0 < length p.held
    → Taken len p (take_held len total buffer p)
unfolding take_held
take_held-Taken len total buffer p h some_held =
    let got = take (len - total) p.held in
    elim (Option-cases (
      cancel_echo (length got) p.echo_cancel_fifo (total + length got)
        (take total buffer ++ got))) [
          | inl e ↦ rw (e, Taken) tt
          | inr ((fifo, total'), e) ↦
              rw (e, Taken)
                (
                  omega (
                    arith,
                    cancel_echo_less (length got) p.echo_cancel_fifo (total + length got)
                        (take total buffer ++ got) fifo total' e,
                    length-take (len - total) p.held,
                  ),
                  omega (arith, length-drop (len - total) p.held),
                )
        ]

-- `select` takes an event, if there is one.
abbrev Waited : Port → Wait → Type 0
Waited p (ready q) = budget q < budget p
Waited p (broken e q) = budget q ≤ budget p

wait_event-Waited :
    (events : List Event) (p : Port)
    → p.held ≡ []
    → p.events ≡ events
    → Waited p (wait_event events p)
unfolding wait_event
wait_event-Waited [] p h e = omega arith
wait_event-Waited (arrives seconds bytes ∷ events) p h e =
    omega (arith, ap event_budget e, ap length h)
wait_event-Waited (times_out seconds ∷ events) p h e = omega (arith, ap event_budget e)
wait_event-Waited (fails ∷ events) p h e = omega (arith, ap event_budget e)

Ends-weaken : {A : Type 0} (b c : ℕ) (o : Outcome A) → b ≤ c → Ends b o → Ends c o
Ends-weaken b c (ok a q) h ends = omega (arith, h, ends)
Ends-weaken b c (err e q) h ends = omega (arith, h, ends)
Ends-weaken b c stuck h ends = absurd ends

-- What follows a wait, and what follows a round on held bytes.
after_wait :
    (fuel len total : ℕ) (buffer : List ℕ) (p : Port) (w : Wait)
    → Waited p w
    → ((q : Port) → budget q < budget p → Ends (budget q) (read_loop fuel len total buffer q))
    → Ends (budget p) (elim w as (λ x. Outcome (List ℕ)) [
      | broken e q ↦ err e q
      | ready q ↦ read_loop fuel len total buffer q
    ])
after_wait fuel len total buffer p (broken e q) w later = w
after_wait fuel len total buffer p (ready q) w later =
    Ends-weaken (budget q) (budget p) (read_loop fuel len total buffer q) (omega (arith, w))
      (later q w)

after_total :
    (fuel len total : ℕ) (filled : List ℕ) (p q : Port) (b : Bool)
    → budget q < budget p
    → ((total == len) ≡ b)
    → total ≤ len
    → (total < len → Ends (budget q) (read_loop fuel len total filled q))
    → Ends (budget p) (elim b as (λ x. Outcome (List ℕ)) [
      | true ↦ ok (take len filled) q
      | false ↦ read_loop fuel len total filled q
    ])
after_total fuel len total filled p q true less e h later = less
after_total fuel len total filled p q false less e h later =
    Ends-weaken (budget q) (budget p) (read_loop fuel len total filled q) (omega (arith, less))
      (later (ground (arith, e, h)))

after_round :
    (fuel len : ℕ) (p : Port) (o : Option (ℕ × List ℕ × Port))
    → Taken len p o
    → ((total : ℕ) (filled : List ℕ) (q : Port)
        → budget q < budget p
        → total < len
        → Ends (budget q) (read_loop fuel len total filled q))
    → Ends (budget p) (elim o as (λ x. Outcome (List ℕ)) [
      | none ↦ err other (flush p)
      | some (total', filled, q) ↦ elim (total' == len) as (λ x. Outcome (List ℕ)) [
        | true ↦ ok (take len filled) q
        | false ↦ read_loop fuel len total' filled q
      ]
    ])
after_round fuel len p none taken later = omega arith
after_round fuel len p (some (total', filled, q)) (small, less) later =
    after_total fuel len total' filled p q (total' == len) less refl small
      λ h. later total' filled q less h

-- A round of the loop, by what is held.
round :
    (fuel len total : ℕ) (buffer : List ℕ) (p : Port) (held : List ℕ)
    → p.held ≡ held
    → total < len
    → ((total : ℕ) (filled : List ℕ) (q : Port)
        → budget q < budget p
        → total < len
        → Ends (budget q) (read_loop fuel len total filled q))
    → Ends (budget p) (elim held as (λ x. Outcome (List ℕ)) [
      | [] ↦ elim (wait_event p.events p) as (λ x. Outcome (List ℕ)) [
        | broken e q ↦ err e q
        | ready q ↦ read_loop fuel len total buffer q
      ]
      | b ∷ bs ↦ elim (take_held len total buffer p) as (λ x. Outcome (List ℕ)) [
        | none ↦ err other (flush p)
        | some (total', filled, q) ↦ elim (total' == len) as (λ x. Outcome (List ℕ)) [
          | true ↦ ok (take len filled) q
          | false ↦ read_loop fuel len total' filled q
        ]
      ]
    ])
round fuel len total buffer p [] e h later =
    after_wait fuel len total buffer p (wait_event p.events p) (wait_event-Waited p.events p e refl)
      λ q less. later total buffer q less h
round fuel len total buffer p (b ∷ bs) e h later =
    after_round fuel len p (take_held len total buffer p)
      (take_held-Taken len total buffer p h (omega (arith, ap length e))) later

read_loop-Ends :
    (fuel len total : ℕ) (buffer : List ℕ) (p : Port)
    → budget p < fuel
    → total < len
    → Ends (budget p) (read_loop fuel len total buffer p)
unfolding read_loop
read_loop-Ends zero len total buffer p enough h = absurd (omega arith)
read_loop-Ends (suc fuel) len total buffer p enough h =
    round fuel len total buffer p p.held refl h λ total' filled q less h'.
      read_loop-Ends fuel len total' filled q (omega (arith, enough, less)) h'

pub read-Ends : (len : ℕ) (p : Port) → 0 < len → Ends (budget p) (read len p)
unfolding read
read-Ends len p h = read_loop-Ends (suc (budget p)) len 0 [] p (omega arith) h

-- What follows a byte that was read in the search for the address.
after_byte :
    (fuel : ℕ) (p q : Port) (b : Bool)
    → budget q < budget p
    → Ends (budget q) (skip_to_address fuel q)
    → Ends
        (budget p)
        (elim b as (λ x. Outcome (Unit {0})) [ true ↦ ok tt q | false ↦ skip_to_address fuel q ])
after_byte fuel p q true less later = less
after_byte fuel p q false less later =
    Ends-weaken (budget q) (budget p) (skip_to_address fuel q) (omega (arith, less)) later

after_read :
    (fuel : ℕ) (p : Port) (o : Outcome (List ℕ))
    → Ends (budget p) o
    → ((q : Port) → budget q < budget p → Ends (budget q) (skip_to_address fuel q))
    → Ends (budget p) (elim o as (λ x. Outcome (Unit {0})) [
      | stuck ↦ stuck
      | err e q ↦ err e q
      | ok bytes q ↦ elim (get_or bytes 0 0 == ksu_address) as (λ x. Outcome (Unit {0})) [
        | true ↦ ok tt q
        | false ↦ skip_to_address fuel q
      ]
    ])
after_read fuel p stuck ends later = ends
after_read fuel p (err e q) ends later = ends
after_read fuel p (ok bytes q) ends later =
    after_byte fuel p q (get_or bytes 0 0 == ksu_address) ends (later q ends)

pub skip_to_address-Ends :
    (fuel : ℕ) (p : Port) → budget p < fuel → Ends (budget p) (skip_to_address fuel p)
unfolding skip_to_address
skip_to_address-Ends zero p enough = absurd (omega arith)
skip_to_address-Ends (suc fuel) p enough =
    after_read fuel p (read 1 p) (read-Ends 1 p (omega arith))
      λ q less. skip_to_address-Ends fuel q (omega (arith, enough, less))
