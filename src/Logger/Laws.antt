-- ===== src/Logger/Laws.antt =====
-- What a logger keeps over all orders of steps.
use ritex.Base.{
  ℕ, zero, suc, ◌≤◌, ◌≡◌, refl, sym, ap, ◌∙◌, List, [], ◌∷◌, ◌++◌, length, length-append,
  append_assoc, arith,
}
use ritex.Logger.{
  Phase, waiting, writing, locked, Logger, enque_data, begin_with, take_front, go_in, go, Reach,
  start, enqued, went,
}

-- A transaction holds no more items than the queue.
abbrev pub Fits {ℓ} : {A : Type ℓ} → Phase → List A → Type 0
Fits waiting queue = Unit
Fits (writing left) queue = left ≤ length queue
Fits locked queue = ⊥

module _ {A : Type 0} where
  -- Nothing is lost, doubled or out of order, and the thread is not behind the break.
  pub record IsKept (given : List A) (s : Logger A) : Type 0 where
    pub in_order : s.pushed ++ s.queue ≡ given
    pub fits : Fits s.phase s.queue

  Fits-enqued :
      (phase : Phase) (queue : List A) (item : A)
      → Fits phase queue
      → Fits phase (queue ++ (item ∷ []))
  Fits-enqued waiting queue item h = tt
  Fits-enqued (writing left) queue item h = omega (arith, length-append {0} queue (item ∷ []))
  Fits-enqued locked queue item h = absurd h

  begin-IsKept :
      (given : List A) (s : Logger A) (queue : List A)
      → s.queue ≡ queue
      → s.phase ≡ waiting
      → s.pushed ++ s.queue ≡ given
      → IsKept given (begin_with queue s)
  begin-IsKept given s [] e f h = record { in_order = h; fits = rw f tt }
  begin-IsKept given s (item ∷ items) e f h = record {
    in_order = h;
    fits = omega (arith, ap length e);
  }

  take-IsKept :
      (given : List A) (s : Logger A) (left : ℕ) (queue : List A)
      → s.queue ≡ queue
      → suc left ≤ length queue
      → s.pushed ++ s.queue ≡ given
      → IsKept given (take_front left queue s)
  take-IsKept given s left [] e f h = absurd (omega arith)
  take-IsKept given s left (item ∷ items) e f h = record {
    in_order = append_assoc s.pushed (item ∷ []) items ∙ ap (λ q. s.pushed ++ q) (sym e) ∙ h;
    fits = omega arith;
  }

  go-IsKept :
      (given : List A) (s : Logger A) (phase : Phase)
      → s.phase ≡ phase
      → s.pushed ++ s.queue ≡ given
      → Fits phase s.queue
      → IsKept given (go_in phase s)
  go-IsKept given s waiting e h f = begin-IsKept given s s.queue refl e h
  go-IsKept given s (writing zero) e h f = record { in_order = h; fits = tt }
  go-IsKept given s (writing (suc left)) e h f = take-IsKept given s left s.queue refl f h
  go-IsKept given s locked e h f = absurd f

  -- After every order of steps of the logger and of threads that put items into its queue: what was
  -- pushed and what is in the queue are together the items that were put into it, in their order; a
  -- transaction has no more items left than the queue holds; and the thread is never behind the
  -- break that leaves the mutex locked.
  pub Reach-IsKept : {given : List A} {s : Logger A} → Reach given s → IsKept given s
  unfolding enque_data go
  Reach-IsKept start = record { in_order = refl; fits = tt }
  Reach-IsKept (enqued {given} {s} item r) =
      let kept = Reach-IsKept r in
      record {
        in_order =
            sym (append_assoc s.pushed s.queue (item ∷ []))
            ∙ ap (λ q. q ++ (item ∷ [])) kept.in_order;
        fits = Fits-enqued s.phase s.queue item kept.fits;
      }
  Reach-IsKept (went {given} {s} r) =
      let kept = Reach-IsKept r in go-IsKept given s s.phase refl kept.in_order kept.fits
