-- ===== src/Traffic/Exchange/Laws.antt =====
-- A request and its reply on the line, and the three exchanges that capture the device.
use ritex.Base.{
  ℕ, ◌+◌, ◌*◌, ◌^◌, ◌≡◌, refl, sym, ap, ◌∙◌, true, none, some, List, [], ◌∷◌, ◌++◌, All, IsByte,
  arith, append_assoc, length,
}
use mathlib.Core.Path.{subst}
use ritex.Protocol.{PacketType, type_cmd, type_ack, ksu_address, get_cmd, is_length_matches, scan}
use ritex.Protocol.Req
use ritex.Protocol.Ack
use ritex.Packet.{DataPacket, new_packet, fill, size, msb, lsb, create_raw_packet}
use ritex.Port.{Port, PortM, ◌>>=◌, return, Outcome, ok, err, stuck, read_packet, write_packet}
use ritex.Port.Stream.{stream}
use ritex.Port.RoundTrip.{as_read}
use ritex.Port.Echo.{read_packet-write_packet}
use ritex.Traffic.Exchange.{
  Reply, received, failed, wait_for_ksu_activity, send, capture_device, capture_device_result,
  get_passwords, get_passwords_result, set_password, set_password_result, with_password,
  when_captured, capture,
}

-- A telegram to the station or from it, as it is sent.
abbrev pub telegram : PacketType → ℕ → List ℕ → DataPacket
telegram type cmd bytes = fill (new_packet type ksu_address cmd 0) bytes

abbrev pub raw_request : ℕ → List ℕ → List ℕ
raw_request cmd bytes = create_raw_packet (telegram type_cmd cmd bytes)

abbrev pub raw_reply : ℕ → List ℕ → List ℕ
raw_reply cmd bytes = create_raw_packet (telegram type_ack cmd bytes)

-- A line that waits for no echo, with the bytes that will come.
pub record Ready (coming : List ℕ) (p : Port) : Type 0 where
  pub comes : stream p ≡ coming
  pub quiet : p.echo_cancel_fifo ≡ []

-- A result that leaves a line that is ready, after `sent` was written.
abbrev pub Yields {ℓ} : {A : Type ℓ} → A → List ℕ → List ℕ → Port → Outcome A → Type ℓ
Yields a sent rest p r = (q : Port) × (r ≡ ok a q) × Ready rest q × (q.written ≡ p.written ++ sent)

-- The packet that a reader in write mode `mode` makes of a reply.
abbrev pub reply_as_read : ℕ → ℕ → ℕ → List ℕ → DataPacket
reply_as_read mode timestamp cmd bytes =
    as_read mode type_ack timestamp (telegram type_ack cmd bytes)

-- A step that has its result, in front of others.
pub bind_ok {ℓ κ} :
    {A : Type ℓ} {B : Type κ} (m : PortM A) (k : A → PortM B) {p q : Port} {a : A}
    → m p ≡ ok a q
    → (m >>= k) p ≡ k a q
bind_ok m k e = ap (λ r. elim r [ ok a q ↦ k a q | err e q ↦ err e q | stuck ↦ stuck ]) e

pub wait_ok :
    (mode : ℕ) (p : Port) {q : Port} {packet : DataPacket}
    → read_packet mode p ≡ ok packet q
    → wait_for_ksu_activity mode p ≡ ok (received packet) q
unfolding wait_for_ksu_activity
wait_ok mode p e =
    ap
      (λ r. elim r [
        | ok packet q ↦ ok (received packet) q
        | err e q ↦ ok (failed e) q
        | stuck ↦ stuck
      ])
      e

-- The time of a packet is not sent.
raw_at :
    (now cmd : ℕ) (bytes : List ℕ)
    → create_raw_packet (fill (new_packet type_cmd ksu_address cmd now) bytes)
      ≡ raw_request cmd bytes
unfolding create_raw_packet
raw_at now cmd bytes = refl

module _ {ℓ} {A : Type ℓ} (mode cmd cmd' : ℕ) (bytes bytes' rest : List ℕ) (p : Port) where
  -- A request and the wait for its reply, in front of what is done with it.
  pub exchange_then :
      (k : Reply → PortM A)
      → Ready (raw_request cmd bytes ++ (raw_reply cmd' bytes' ++ rest)) p
      → All IsByte bytes'
      → is_length_matches (get_cmd cmd') (size (telegram type_ack cmd' bytes') + 1) ≡ some type_ack
      → (timestamp : ℕ) × (q : Port) × ((send cmd bytes >>= λ u. wait_for_ksu_activity mode >>= k) p
          ≡ k (received (reply_as_read mode timestamp cmd' bytes')) q)
        × Ready rest q
        × (q.written ≡ p.written ++ raw_request cmd bytes)
  unfolding send write_packet
  exchange_then k ready hb m =
      let (timestamp, q, same, after, sent, calm) =
        read_packet-write_packet mode p _ (fill (new_packet type_cmd ksu_address cmd p.clock) bytes)
          (telegram type_ack cmd' bytes') rest {t = type_ack} ready.quiet refl
          (ready.comes
            ∙ ap (λ raw. raw ++ (raw_reply cmd' bytes' ++ rest)) (sym (raw_at p.clock cmd bytes)))
          refl hb m in
      (
        timestamp,
        q,
        bind_ok (wait_for_ksu_activity mode) k (wait_ok mode _ same),
        record { comes = after; quiet = calm },
        sent ∙ ap (λ raw. p.written ++ raw) (raw_at p.clock cmd bytes),
      )

  -- The result of an exchange: a request, the wait for its reply, and what is made of it.
  pub exchange :
      (f : Reply → A)
      → Ready (raw_request cmd bytes ++ (raw_reply cmd' bytes' ++ rest)) p
      → All IsByte bytes'
      → is_length_matches (get_cmd cmd') (size (telegram type_ack cmd' bytes') + 1) ≡ some type_ack
      → (timestamp : ℕ) × Yields
          (f (received (reply_as_read mode timestamp cmd' bytes')))
          (raw_request cmd bytes)
          rest
          p
          ((send cmd bytes >>= λ u. wait_for_ksu_activity mode >>= λ reply. return (f reply)) p)
  exchange f ready hb m =
      let (timestamp, q, same, ready_q, sent) =
        exchange_then (λ reply. return (f reply)) ready hb m in
      (timestamp, (q, same, ready_q, sent))

-- The reply to the request for the device: 150 grants it.
abbrev grant : List ℕ
grant = 150 ∷ []

pub capture_device-granted :
    (mode : ℕ) (rest : List ℕ) (p : Port)
    → Ready (raw_request Req.device_req [] ++ (raw_reply Ack.ack grant ++ rest)) p
    → Yields (true, none) (raw_request Req.device_req []) rest p (capture_device mode p)
unfolding capture_device is_length_matches scan
capture_device-granted mode rest p ready =
    (exchange mode Req.device_req Ack.ack [] grant rest p capture_device_result ready
      (omega arith, tt) refl).1

-- The four bytes of the reply with the passwords.
get_passwords-told :
    (mode a b hi low : ℕ) (rest : List ℕ) (p : Port)
    → All IsByte (a ∷ b ∷ hi ∷ low ∷ [])
    → Ready
        (raw_request Req.password_get []
          ++ (raw_reply Ack.passwords (a ∷ b ∷ hi ∷ low ∷ []) ++ rest))
        p
    → Yields (some (hi, low), none) (raw_request Req.password_get []) rest p (get_passwords mode p)
unfolding get_passwords is_length_matches scan
get_passwords-told mode a b hi low rest p hb ready =
    (exchange mode Req.password_get Ack.passwords [] (a ∷ b ∷ hi ∷ low ∷ []) rest p
      get_passwords_result ready hb refl).1

abbrev setting_bytes : ℕ → ℕ → List ℕ
setting_bytes setting value = setting ∷ msb value ∷ lsb value ∷ []

set_password-accepted :
    (mode password : ℕ) (bytes rest : List ℕ) (p : Port)
    → All IsByte bytes
    → length bytes ≡ 47
    → Ready
        (raw_request Req.setting_set (setting_bytes 44 password)
          ++ (raw_reply Ack.all_settings bytes ++ rest))
        p
    → (timestamp : ℕ) × Yields
        (some (reply_as_read mode timestamp Ack.all_settings bytes), none)
        (raw_request Req.setting_set (setting_bytes 44 password))
        rest
        p
        (set_password mode password p)
unfolding set_password
set_password-accepted mode password bytes rest p hb len ready =
    exchange mode Req.setting_set Ack.all_settings (setting_bytes 44 password) bytes rest p
      set_password_result ready hb (rw len (unfold is_length_matches scan in refl))

-- The two bytes of a password are sent as they were told.
setting_bytes_pair :
    (setting hi low : ℕ)
    → IsByte hi
    → IsByte low
    → setting_bytes setting (hi * 2 ^ 8 + low) ≡ setting ∷ hi ∷ low ∷ []
setting_bytes_pair setting hi low h l =
    let upper : msb (hi * 2 ^ 8 + low) ≡ hi = omega arith in
    let lower : lsb (hi * 2 ^ 8 + low) ≡ low = omega arith in cc (upper, lower)

-- The line in a conversation that captures the device: each request and its reply.
abbrev pub capture_line : List ℕ → List ℕ → List ℕ → List ℕ → List ℕ
capture_line password passwords settings rest =
    raw_request Req.device_req []
    ++ (raw_reply Ack.ack grant
        ++ (raw_request Req.password_get []
            ++ (raw_reply Ack.passwords passwords
                ++ (raw_request Req.setting_set (44 ∷ password)
                    ++ (raw_reply Ack.all_settings settings ++ rest)))))

-- Two steps one after the other.
pub then_sent :
    (p q r : Port) (first second : List ℕ)
    → q.written ≡ p.written ++ first
    → r.written ≡ q.written ++ second
    → r.written ≡ p.written ++ (first ++ second)
then_sent p q r first second e f = f ∙ ap (λ w. w ++ second) e ∙ append_assoc p.written first second

password_set :
    (mode hi low : ℕ) (bytes rest : List ℕ) (p : Port)
    → IsByte hi
    → IsByte low
    → All IsByte bytes
    → length bytes ≡ 47
    → Ready
        (raw_request Req.setting_set (44 ∷ hi ∷ low ∷ [])
          ++ (raw_reply Ack.all_settings bytes ++ rest))
        p
    → (timestamp : ℕ) × Yields
        (some (reply_as_read mode timestamp Ack.all_settings bytes))
        (raw_request Req.setting_set (44 ∷ hi ∷ low ∷ []))
        rest
        p
        (with_password mode (some (hi, low), none) p)
unfolding with_password
password_set mode hi low bytes rest p bh bl hb len ready =
    let pair = setting_bytes_pair 44 hi low bh bl in
    let (timestamp, (q, same, ready', sent)) =
      set_password-accepted mode (hi * 2 ^ 8 + low) bytes rest p hb len (
        subst
          (λ bs.
            Ready (raw_request Req.setting_set bs ++ (raw_reply Ack.all_settings bytes ++ rest)) p)
          (sym pair) ready) in
    (
      timestamp,
      (
        q,
        bind_ok (set_password mode (hi * 2 ^ 8 + low)) (λ result. return result.0) same,
        ready',
        sent ∙ ap (λ bs. p.written ++ raw_request Req.setting_set bs) pair,
      ),
    )

-- A conversation that captures the device: on a line that waits for no echo, where the request for
-- the device is echoed and granted, the request for the passwords echoed and answered, and the
-- setting of that password echoed and answered with 47 bytes of settings, the capture writes
-- exactly these three requests, the last with the password that it was told, yields the packet with
-- the settings, and leaves what follows on the line.
pub capture_lem :
    (mode a b hi low : ℕ) (bytes rest : List ℕ) (p : Port)
    → All IsByte (a ∷ b ∷ hi ∷ low ∷ [])
    → All IsByte bytes
    → length bytes ≡ 47
    → Ready (capture_line (hi ∷ low ∷ []) (a ∷ b ∷ hi ∷ low ∷ []) bytes rest) p
    → (timestamp : ℕ) × Yields
        (some (reply_as_read mode timestamp Ack.all_settings bytes))
        (raw_request Req.device_req []
          ++ (raw_request Req.password_get [] ++ raw_request Req.setting_set (44 ∷ hi ∷ low ∷ [])))
        rest
        p
        (capture mode p)
unfolding capture when_captured
capture_lem mode a b hi low bytes rest p hp hb len ready =
    let (q, granted, ready_q, sent_q) = capture_device-granted mode _ p ready in
    let (r, told, ready_r, sent_r) = get_passwords-told mode a b hi low _ q hp ready_q in
    let (timestamp, (t, set, ready_t, sent_t)) =
      password_set mode hi low bytes rest r hp.1.1.0 hp.1.1.1.0 hb len ready_r in
    (
      timestamp,
      (
        t,
        bind_ok (capture_device mode) (when_captured mode) granted
            ∙ bind_ok (get_passwords mode) (with_password mode) told
            ∙ set,
        ready_t,
        then_sent p q t _ _ sent_q (then_sent q r t _ _ sent_r sent_t),
      ),
    )
