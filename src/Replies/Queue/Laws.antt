-- ===== src/Replies/Queue/Laws.antt =====
-- The settings behind the replies of a queue.
use ritex.Base.{
  ℕ, suc, ◌≡◌, refl, sym, ap, ◌∙◌, Bool, true, false, ◌&&◌, Option, none, some, List, [], ◌∷◌, ◌==◌,
  if◌then◌else◌, length, get_or, arith, inl, inr, Bool-cases, Option-cases,
}
use ritex.Protocol.Req
use ritex.Protocol.Ack
use ritex.Packet.{DataPacket}
use ritex.Port.{Error}
use ritex.Device.Table.{Setting}
use ritex.Device.Settings.{set_current_setting_value, set_value, is_known, get_setting_name}
use ritex.Device.Settings.Stored.{value_of}
use ritex.CmdLine.Compile.Laws.{bind_some}
use ritex.Commands.Laws.{some_inj}
use ritex.Traffic.Motor.{Answer}
use ritex.Device.Event.{DbEvent}
use ritex.Replies.{
  Part, text, unknown_reply, fault_result, motor_events, External, Replied, says, external_reply,
  reply_to, reply_setting_set, reply_changed, reply_motor, is_motor, test_device_reply,
}
use ritex.Replies.Queue.{Asked, external, test, Handled, Told, test_reply, reply_as, reply_all}

-- The packet confirms a change of a setting.
abbrev is_change : ℕ → DataPacket → Bool
is_change cmd_id packet =
    if cmd_id == Req.setting_set then packet.cmd == Ack.all_settings else false

abbrev confirms : ℕ → Option Error → Option DataPacket → Bool
confirms cmd_id none (some packet) = is_change cmd_id packet
confirms cmd_id error packet = false

abbrev changed : ℕ → Asked → Answer → ℕ → ℕ
changed id (external c) answer old =
    if confirms c.cmd_id answer.error answer.packet && c.param1 == id then c.param2 else old
changed id test answer old = old

-- The value of a setting behind all replies: that of the last command to it which the station confirmed with
-- its settings.
abbrev pub last_confirmed : ℕ → List Handled → ℕ → ℕ
last_confirmed id [] old = old
last_confirmed id (h ∷ hs) old = last_confirmed id hs (changed id h.asked h.answer old)

set_value_value :
    (id k new old : ℕ) (ss : List Setting)
    → value_of id ss ≡ some old
    → value_of id (set_value k new ss).0 ≡ some (if k == id then new else old)
unfolding set_value
set_value_value id k new old [] h = ground arith
set_value_value id k new old (s ∷ ss) h = ground (arith, set_value_value id k new old ss)

reply_changed-settings :
    (channel : Option ℕ) (now : ℕ) (c : External) (ss : List Setting) (old : Option ℕ) (r : Replied)
    → reply_changed channel now c (some (ss, old)) ≡ some r
    → r.settings ≡ ss
reply_changed-settings channel now c ss none r h =
    ap (λ (x : Replied). x.settings) (sym (some_inj h))
reply_changed-settings channel now c ss (some old) r h =
    elim (Option-cases (get_setting_name c.param1 ss)) [
      | inl e ↦ absurd (cc (rw (e, reply_changed) at h))
      | inr (name, e) ↦
          ap (λ (x : Replied). x.settings) (sym (some_inj (rw (e, reply_changed) at h)))
    ]

reply_changed-value :
    (channel : Option ℕ) (now id old : ℕ) (c : External) (ss : List Setting) (r : Replied)
    → value_of id ss ≡ some old
    → reply_changed channel now c (set_current_setting_value c.param1 c.param2 ss) ≡ some r
    → value_of id r.settings ≡ some (if c.param1 == id then c.param2 else old)
unfolding set_current_setting_value
reply_changed-value channel now id old c ss r v h = elim (Bool-cases (is_known c.param1 ss)) [
  | inl e ↦
      rw
        (reply_changed-settings channel now c (set_value c.param1 c.param2 ss).0
          (set_value c.param1 c.param2 ss).1 r (rw e at h))
        (set_value_value id c.param1 c.param2 old ss v)
  | inr e ↦ absurd (cc (rw e at h))
]

says_settings :
    {raw : List Part} {ss : List Setting} {events : List DbEvent} {r : Replied}
    → says raw ss events ≡ some r
    → r.settings ≡ ss
says_settings h = ap (λ (x : Replied). x.settings) (sym (some_inj h))

kept :
    (id old : ℕ) (ss : List Setting) (r : Replied)
    → value_of id ss ≡ some old
    → r.settings ≡ ss
    → value_of id r.settings ≡ some old
kept id old ss r v e = rw e v

-- The reply to a change of a setting, by the packet that came.
set_reply :
    (id old new : ℕ) (hit is_ack is_all : Bool) (raw : List Part) (ss : List Setting) (r : Replied)
    (changing : Option Replied)
    → value_of id ss ≡ some old
    → (is_all ≡ true → is_ack ≡ false)
    → (changing ≡ some r → value_of id r.settings ≡ some (if hit then new else old))
    → (if is_ack then says raw ss [] else if is_all then changing else says [] ss []) ≡ some r
    → value_of id r.settings ≡ some (if is_all && hit then new else old)
set_reply id old new hit true true raw ss r changing v not_both f h =
    absurd (ground (arith, not_both refl))
set_reply id old new hit true false raw ss r changing v not_both f h =
    kept id old ss r v (says_settings h)
set_reply id old new hit false true raw ss r changing v not_both f h = f h
set_reply id old new hit false false raw ss r changing v not_both f h =
    kept id old ss r v (says_settings h)

motor_reply :
    (motor is_ack is_info : Bool) (raw : List Part) (ss : List Setting) (events : List DbEvent)
    (r : Replied)
    → (if motor
        then (if is_ack
            then says raw ss []
            else if is_info
            then says (text "8;Прием без ошибок\n" ∷ []) ss events
            else says unknown_reply ss [])
        else says [] ss [])
      ≡ some r
    → r.settings ≡ ss
motor_reply true true is_info raw ss events r h = says_settings h
motor_reply true false true raw ss events r h = says_settings h
motor_reply true false false raw ss events r h = says_settings h
motor_reply false is_ack is_info raw ss events r h = says_settings h

not_ack : (cmd : ℕ) → (cmd == Ack.all_settings) ≡ true → (cmd == Ack.ack) ≡ false
not_ack cmd e = ground (arith, e)

-- One reply of an external command.
by_kind :
    (channel : Option ℕ) (now id old : ℕ) (c : External) (ss : List Setting) (packet : DataPacket)
    (r : Replied) (sets : Bool)
    → value_of id ss ≡ some old
    → (if sets
        then reply_setting_set channel now c ss packet
        else if is_motor c.cmd_id
        then reply_motor channel now c ss packet
        else says [] ss [])
      ≡ some r
    → value_of id r.settings
      ≡ some (
          if (if sets then packet.cmd == Ack.all_settings else false) && c.param1 == id
          then c.param2
          else old)
unfolding reply_setting_set reply_motor
by_kind channel now id old c ss packet r true v h =
    set_reply id old c.param2 (c.param1 == id) (packet.cmd == Ack.ack)
      (packet.cmd == Ack.all_settings) (fault_result (get_or packet.bytes 0 0)) ss r _ v
      (not_ack packet.cmd) (reply_changed-value channel now id old c ss r v) h
by_kind channel now id old c ss packet r false v h = kept id old ss r v (
    motor_reply (is_motor c.cmd_id) (packet.cmd == Ack.ack) (packet.cmd == Ack.info)
      (fault_result (get_or packet.bytes 0 0)) ss (motor_events channel now c) r h)

external_value :
    (channel : Option ℕ) (now id old : ℕ) (c : External) (ss : List Setting) (error : Option Error)
    (packet : Option DataPacket) (status : ℕ) (r : Replied)
    → value_of id ss ≡ some old
    → external_reply channel now c ss (record { packet = packet; error = error; status = status })
      ≡ some r
    → value_of id r.settings
      ≡ some (if confirms c.cmd_id error packet && c.param1 == id then c.param2 else old)
unfolding external_reply reply_to
external_value channel now id old c ss (some e) none status r v h =
    kept id old ss r v (says_settings h)
external_value channel now id old c ss (some e) (some p) status r v h =
    kept id old ss r v (says_settings h)
external_value channel now id old c ss none none status r v h = absurd (cc h)
external_value channel now id old c ss none (some p) status r v h =
    by_kind channel now id old c ss p r (c.cmd_id == Req.setting_set) v h

test_settings :
    (ss : List Setting) (raw : Option (List Part)) (r : Replied)
    → test_reply ss raw ≡ some r
    → r.settings ≡ ss
test_settings ss none r h = absurd (cc h)
test_settings ss (some raw) r h = says_settings h

asked_value :
    (channel : Option ℕ) (now id old : ℕ) (asked : Asked) (ss : List Setting) (answer : Answer)
    (r : Replied)
    → value_of id ss ≡ some old
    → reply_as channel now asked ss answer ≡ some r
    → value_of id r.settings ≡ some (changed id asked answer old)
asked_value channel now id old (external c) ss answer r v h =
    external_value channel now id old c ss answer.error answer.packet answer.status r v h
asked_value channel now id old test ss answer r v h =
    kept id old ss r v (test_settings ss (test_device_reply answer) r h)

-- Commands of a drained queue whose replies come to an end: each has one result; and a setting with
-- a value before has behind them all the value of the last command to it that the station confirmed
-- with its settings, or its old value where there is none.
pub reply_all-last_confirmed :
    (channel : Option ℕ) (id old : ℕ) (hs : List Handled) (ss : List Setting) (told : Told)
    → value_of id ss ≡ some old
    → reply_all channel hs ss ≡ some told
    → (value_of id told.settings ≡ some (last_confirmed id hs old))
      × (length told.results ≡ length hs)
unfolding reply_all
reply_all-last_confirmed channel id old [] ss told v h =
    let e : told ≡ record { results = []; settings = ss; events = [] } = sym (some_inj h) in
    rw e (v, refl)
reply_all-last_confirmed channel id old (k ∷ hs) ss told v h =
    let (r, one, rest) = bind_some (reply_as channel k.now k.asked ss k.answer) _ told h in
    let (later, all, made) = bind_some (reply_all channel hs r.settings) _ told rest in
    let (values, results) =
      reply_all-last_confirmed channel id (changed id k.asked k.answer old) hs r.settings later
        (asked_value channel k.now id old k.asked ss k.answer r v one) all in
    let e = sym (some_inj made) in
    (
      ap (λ (t : Told). value_of id t.settings) e ∙ values,
      ap (λ (t : Told). length t.results) e ∙ ap suc results,
    )
