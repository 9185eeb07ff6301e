-- ===== src/Traffic/Run/Order.antt =====
-- The order of the answers over a run of the loop.
use ritex.Base.{
  ℕ, ◌≡◌, refl, sym, ap, ◌∙◌, Bool, true, false, Option, none, some, List, [], ◌∷◌, ◌++◌,
  append_assoc, if◌then◌else◌,
}
use ritex.Packet.{DataPacket}
use ritex.Port.{Port, PortM, Outcome, ok, err, stuck}
use ritex.Device.Reports.{OffsetTableEntry}
use ritex.Device.Clock.{StationTime}
use ritex.Traffic.Motor.{Answer}
use ritex.Traffic.Run.State.{Processor, Pass, send_custom_cmd, start}
use ritex.Traffic.Run.{pass}
use ritex.Traffic.Run.Session.{
  Step, sends, starts, passes, Session, join, continue_with, when_running, run,
}
use ritex.Traffic.Run.Kept.{commands_of}
use ritex.Traffic.Run.Queue.{Gives, bind-Gives, PassLeaves, pass-leaves}

abbrev pub sent : List Step → List DataPacket
sent [] = []
sent (sends cmd ∷ steps) = cmd ∷ sent steps
sent (starts ∷ steps) = sent steps
sent (passes ∷ steps) = sent steps

Gives-weaken {ℓ} :
    {A : Type ℓ} (P R : A → Type 0) (o : Outcome A) → ((a : A) → P a → R a) → Gives P o → Gives R o
Gives-weaken P R (ok a q) f h = f a h
Gives-weaken P R (err e q) f h = absurd h
Gives-weaken P R stuck f h = absurd h

commands_of-append :
    (xs ys : List (DataPacket × Answer)) → commands_of (xs ++ ys) ≡ commands_of xs ++ commands_of ys
commands_of-append [] ys = refl
commands_of-append ((cmd, answer) ∷ xs) ys = ap (◌∷◌ cmd) (commands_of-append xs ys)

module _ (table : List OffsetTableEntry) (mktime : StationTime → ℕ) (limit : ℕ)
    (channel : Option ℕ) where
  -- Where the commands of a run are: answered, waiting in the queue, deleted at the end of the loop, or
  -- sent behind that end; and the loop ends and leaves no steps but behind its end.
  abbrev pub InOrder : Processor → List Step → Option Session → Type 0
  InOrder st steps none = Unit
  InOrder st steps (some s) =
      (commands_of s.answers ++ (s.after.pending ++ (s.deleted ++ sent s.left))
        ≡ st.pending ++ sent steps)
      × (if s.is_exited
          then (s.after.pending ≡ []) × (s.after.do_run ≡ false)
          else (s.deleted ≡ []) × (s.left ≡ []))

  joined-InOrder :
      (st : Processor) (done : Pass) (steps : List Step) (o : Option Session)
      → commands_of done.answers ++ done.after.pending ≡ st.pending
      → InOrder done.after steps o
      → InOrder st steps (join done o)
  joined-InOrder st done steps none kept h = tt
  joined-InOrder st done steps (some s) kept (h, ended) = (
    ap (λ cmds. cmds ++ (s.after.pending ++ (s.deleted ++ sent s.left)))
          (commands_of-append done.answers s.answers)
        ∙ append_assoc (commands_of done.answers) (commands_of s.answers)
            (s.after.pending ++ (s.deleted ++ sent s.left))
        ∙ ap (λ cmds. commands_of done.answers ++ cmds) h
        ∙ sym (append_assoc (commands_of done.answers) done.after.pending (sent steps))
        ∙ ap (λ cmds. cmds ++ sent steps) kept,
    ended,
  )

  continue_with-InOrder :
      (st : Processor) (steps : List Step) (o : Option Pass)
      (rest : Processor → PortM (Option Session)) (p : Port)
      → PassLeaves table mktime limit channel st o
      → ((st' : Processor) (q : Port) → Gives (InOrder st' steps) (rest st' q))
      → Gives (InOrder st steps) (continue_with o rest p)
  continue_with-InOrder st steps none rest p leaves later = tt
  continue_with-InOrder st steps (some done) rest p (kept, idle) later =
      bind-Gives (InOrder done.after steps) (InOrder st steps) (rest done.after) _ p
        (later done.after p) λ s q h. joined-InOrder st done steps s kept h

  when_running-InOrder :
      (b : Bool) (st : Processor) (steps : List Step) (rest : Processor → PortM (Option Session))
      (p : Port)
      → st.do_run ≡ b
      → ((st' : Processor) (q : Port) → Gives (InOrder st' steps) (rest st' q))
      → Gives
          (InOrder st (passes ∷ steps))
          (when_running table mktime limit channel b steps st rest p)
  when_running-InOrder false st steps rest p stopped later = (refl, (refl, stopped))
  when_running-InOrder true st steps rest p running later =
      bind-Gives (PassLeaves table mktime limit channel st) (InOrder st steps)
        (pass table mktime limit channel st) _ p (pass-leaves table mktime limit channel st p)
        λ o q leaves. continue_with-InOrder st steps o rest q leaves later

  sent-InOrder :
      (cmd : DataPacket) (st : Processor) (steps : List Step) (o : Option Session)
      → InOrder (send_custom_cmd cmd st) steps o
      → InOrder st (sends cmd ∷ steps) o
  unfolding send_custom_cmd
  sent-InOrder cmd st steps none h = tt
  sent-InOrder cmd st steps (some s) (h, ended) =
      (h ∙ append_assoc st.pending (cmd ∷ []) (sent steps), ended)

  -- A run of the loop, with commands sent and starts made at any moment between its passes and
  -- behind its end, comes to a result on every list of events of the line. Unless the program ends
  -- by an assertion or a read behind the data, the commands are, in the order in which they waited
  -- and were sent: first those that are answered, then those that wait, then those that the end of
  -- the loop deleted, then those that were sent behind its end. Where the loop has ended, its
  -- condition is false and no command waits; where it has not, none was deleted or sent behind an
  -- end.
  pub run-InOrder :
      (steps : List Step) (st : Processor) (p : Port)
      → Gives (InOrder st steps) (run table mktime limit channel steps st p)
  unfolding run send_custom_cmd
  run-InOrder [] st p = (refl, (refl, refl))
  run-InOrder (sends cmd ∷ steps) st p =
      Gives-weaken _ _ (run table mktime limit channel steps (send_custom_cmd cmd st) p)
        (sent-InOrder cmd st steps) (run-InOrder steps (send_custom_cmd cmd st) p)
  run-InOrder (starts ∷ steps) st p = run-InOrder steps (start st) p
  run-InOrder (passes ∷ steps) st p =
      when_running-InOrder st.do_run st steps (run table mktime limit channel steps) p refl
        λ st' q. run-InOrder steps st' q
