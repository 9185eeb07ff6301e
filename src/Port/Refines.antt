-- ===== src/Port/Refines.antt =====
-- `ReadPacket` against the decoder of the stream, step by step.
use ritex.Base.{
  ℕ, zero, suc, ◌-◌, ◌<◌, ◌≡◌, refl, sym, ap, ◌∙◌, Bool, true, false, Option, none, some, List, [],
  ◌∷◌, ◌==◌, if◌then◌else◌, length, take, drop, get_or, ltb, arith,
}
use mathlib.Core.Path.{subst}
use ritex.Protocol.{PacketType, ksu_address}
use ritex.Packet.{DataPacket, fill, new_packet}
use ritex.Port.{
  Port, PortM, Outcome, ok, err, stuck, Error, bad_crc, bad_packet, long_cmd, read, budget,
  skip_to_address, find_address, read_bytes, read_rest, read_checked, read_packet,
}
use ritex.Port
use ritex.Port.Stream.{stream, Reads, read_stream}
use ritex.Port.Frame.{
  Parsed, Parser, got, failed, cut, next, after_address, Telegram, next_bytes, decode_rest,
  decode_checked, decode,
}
use ritex.Port.Frame
use ritex.Port.Agrees.{Follows, consumed, Agrees, Agrees-follow, Agrees-bind, bind_outcomes}

abbrev Same : List ℕ → List ℕ → Type 0
Same xs ys = xs ≡ ys

abbrev Done : Unit {0} → Unit {0} → Type 0
Done a b = Unit {0}

Agrees-bind_same :
    {A C D : Type 0} (S : C → D → Type 0) (m : PortM A) (f : A → PortM C) (k : Parser A)
    (g : A → Parser D) (p : Port)
    → Agrees (λ a b. a ≡ b) p (m p) (k (stream p))
    → ((a : A) (q : Port) → q.echo_cancel_fifo ≡ [] → Agrees S q (f a q) (g a (stream q)))
    → Agrees S p (Port.◌>>=◌ m f p) (Frame.◌>>=◌ k g (stream p))
Agrees-bind_same S m f k g p h next =
    Agrees-bind (λ a b. a ≡ b) S m f k g p h
      λ a b q e quiet. subst (λ t. Agrees S q (f a q) (g t (stream q))) e (next a q quiet)

read-next_outcome :
    (n : ℕ) (p : Port) (r : Outcome (List ℕ)) → Reads n [] p r → Agrees Same p r (next n (stream p))
unfolding next
read-next_outcome n p (ok a q) (room, e, c) =
    let fits : ltb (length (stream p)) n ≡ false = ground arith in rw fits (e, c.rest, consumed c)
read-next_outcome n p (err e q) (short, d) =
    let misfit : ltb (length (stream p)) n ≡ true = ground arith in
    rw misfit (d.fault, d.quiet, d.sent)
read-next_outcome n p stuck h = absurd h

read-next :
    (n : ℕ) (p : Port)
    → 0 < n
    → p.echo_cancel_fifo ≡ []
    → Agrees Same p (read n p) (next n (stream p))
read-next n p h quiet = read-next_outcome n p (read n p) (read_stream n p h quiet)

abbrev skip_after : ℕ → Outcome (List ℕ) → Outcome (Unit {0})
skip_after fuel r = elim r [
  | stuck ↦ stuck
  | err e q ↦ err e q
  | ok bytes q ↦ elim (get_or bytes 0 0 == ksu_address) [
    | true ↦ ok tt q
    | false ↦ skip_to_address fuel q
  ]
]

module _ (fuel : ℕ) (p : Port)
    (later : (q : Port)
      → q.echo_cancel_fifo ≡ []
      → budget q < budget p
      → Agrees Done q (skip_to_address fuel q) (after_address (stream q))) where
  -- One round on the byte `b`.
  skip_byte :
      (hit : Bool) (b : ℕ) (s : List ℕ) (q : Port)
      → (b == ksu_address) ≡ hit
      → stream q ≡ s
      → Follows p q
      → budget q < budget p
      → Agrees Done p
          (elim hit [ true ↦ ok tt q | false ↦ skip_to_address fuel q ])
          (after_address (b ∷ s))
  unfolding after_address
  skip_byte true b s q t e f less = rw t (tt, e, f)
  skip_byte false b s q t e f less = rw t (
      Agrees-follow Done p q _ _ f (
        subst (λ u. Agrees Done q (skip_to_address fuel q) (after_address u)) e
          (later q f.quiet less)))

  skip_round :
      (r : Outcome (List ℕ)) (s : List ℕ)
      → stream p ≡ s
      → Reads 1 [] p r
      → Agrees Done p (skip_after fuel r) (after_address s)
  skip_round (ok bytes q) [] e (room, same, c) = absurd (omega (arith, ap length e))
  skip_round (ok bytes q) (b ∷ s) e (room, same, c) =
      let first : bytes ≡ b ∷ [] = same ∙ ap (take 1) e in
      subst (λ t. Agrees Done p (skip_after fuel (ok t q)) (after_address (b ∷ s))) (sym first)
        (skip_byte (b == ksu_address) b s q refl (c.rest ∙ ap (drop 1) e) (consumed c)
          (omega (arith, c.spent)))
  skip_round (err x q) [] e (short, d) = unfold after_address in (d.fault, d.quiet, d.sent)
  skip_round (err x q) (b ∷ s) e (short, d) = absurd (omega (arith, ap length e))
  skip_round stuck s e h = absurd h

skip-after_address :
    (fuel : ℕ) (p : Port)
    → p.echo_cancel_fifo ≡ []
    → budget p < fuel
    → Agrees Done p (skip_to_address fuel p) (after_address (stream p))
unfolding skip_to_address
skip-after_address zero p quiet h = absurd (omega arith)
skip-after_address (suc fuel) p quiet h =
    skip_round fuel p (λ q quiet' less. skip-after_address fuel q quiet' (omega arith)) (read 1 p)
      (stream p) refl (read_stream 1 p (omega arith) quiet)

find-after_address :
    (p : Port) → p.echo_cancel_fifo ≡ [] → Agrees Done p (find_address p) (after_address (stream p))
unfolding find_address
find-after_address p quiet = skip-after_address (suc (budget p)) p quiet (omega arith)

-- A packet and a telegram that say the same.
pub record SameTelegram (packet : DataPacket) (t : Telegram) : Type 0 where
  pub address : packet.address ≡ ksu_address
  pub cmd : packet.cmd ≡ t.cmd
  pub type : packet.type ≡ t.type
  pub bytes : packet.bytes ≡ t.bytes

stays : (p : Port) → p.echo_cancel_fifo ≡ [] → Follows p p
stays p quiet = record { quiet = quiet; sent = refl; fault = refl }

read_bytes-next :
    (none_left : Bool) (n : ℕ) (p : Port)
    → (n == 0) ≡ none_left
    → p.echo_cancel_fifo ≡ []
    → Agrees Same p
        ((if none_left then ok [] p else read n p))
        ((if none_left then Frame.pure [] else next n) (stream p))
read_bytes-next true n p e quiet = (refl, refl, stays p quiet)
read_bytes-next false n p e quiet = read-next n p (ground arith) quiet

read_bytes-next_bytes :
    (n : ℕ) (p : Port)
    → p.echo_cancel_fifo ≡ []
    → Agrees Same p (read_bytes n p) (next_bytes n (stream p))
unfolding read_bytes next_bytes
read_bytes-next_bytes n p quiet = read_bytes-next (n == 0) n p refl quiet

-- The comparison of the check sums.
sum-Agrees :
    (fine : Bool) (type : PacketType) (cmd now : ℕ) (bytes : List ℕ) (p : Port)
    → p.echo_cancel_fifo ≡ []
    → Agrees SameTelegram p
        ((if fine
            then Port.return (fill (new_packet type ksu_address cmd now) bytes)
            else Port.throw bad_crc)
          p)
        ((if fine
            then Frame.pure (record { type = type; cmd = cmd; bytes = bytes })
            else Frame.fail bad_crc)
          (stream p))
sum-Agrees true type cmd now bytes p quiet =
    (record { address = refl; cmd = refl; type = refl; bytes = refl }, refl, stays p quiet)
sum-Agrees false type cmd now bytes p quiet = (refl, refl, stays p quiet)

read_rest-decode_rest :
    (type : PacketType) (cmd len crc : ℕ) (p : Port)
    → p.echo_cancel_fifo ≡ []
    → Agrees SameTelegram p (read_rest type cmd len crc p) (decode_rest type cmd len crc (stream p))
unfolding read_rest decode_rest
read_rest-decode_rest type cmd len crc p quiet =
    Agrees-bind_same SameTelegram (read_bytes (len - 1)) _ (next_bytes (len - 1)) _ p
      (read_bytes-next_bytes (len - 1) p quiet)
      λ bytes q quiet_q.
        Agrees-bind_same SameTelegram (read 2) _ (next 2) _ q (read-next 2 q (omega arith) quiet_q)
          λ sum r quiet_r. sum-Agrees _ type cmd p.clock bytes r quiet_r

-- What follows the length check.
read_checked-decode_checked :
    (t : Option PacketType) (cmd len crc : ℕ) (p : Port)
    → p.echo_cancel_fifo ≡ []
    → Agrees SameTelegram p (read_checked t cmd len crc p) (decode_checked t cmd len crc (stream p))
unfolding read_checked decode_checked
read_checked-decode_checked none cmd len crc p quiet = (refl, refl, stays p quiet)
read_checked-decode_checked (some type) cmd len crc p quiet =
    read_rest-decode_rest type cmd len crc p quiet

-- The rest of `read_packet`, behind the address.
pub read_packet-decode_from :
    (mode : ℕ) (s : List ℕ) (p : Port)
    → Agrees Done p (find_address p) (after_address s)
    → Agrees SameTelegram p (read_packet mode p) (decode mode s)
unfolding read_packet decode
read_packet-decode_from mode s p found =
    bind_outcomes Done SameTelegram _ _ p (find_address p) (after_address s) found
      λ u u' q e quiet_q.
        Agrees-bind_same SameTelegram (read 2) _ (next 2) _ q (read-next 2 q (omega arith) quiet_q)
          λ ls r quiet_r.
            Agrees-bind_same SameTelegram (read 1) _ (next 1) _ r
              (read-next 1 r (omega arith) quiet_r)
              λ cs s quiet_s. read_checked-decode_checked _ _ _ _ s quiet_s

-- Read_packet refines the decoder of the byte stream: with no echo to wait for it always returns,
-- and its packet, its error and the rest of the line are those that the bytes alone determine,
-- however they arrive.
pub read_packet-decode :
    (mode : ℕ) (p : Port)
    → p.echo_cancel_fifo ≡ []
    → Agrees SameTelegram p (read_packet mode p) (decode mode (stream p))
read_packet-decode mode p quiet =
    read_packet-decode_from mode (stream p) p (find-after_address p quiet)

-- The same behind an echo, from the first byte that follows it.
pub find_address_from :
    (b : ℕ) (s : List ℕ) (p q : Port)
    → read 1 p ≡ ok (b ∷ []) q
    → stream q ≡ s
    → Follows p q
    → budget q < budget p
    → Agrees Done p (find_address p) (after_address (b ∷ s))
unfolding find_address skip_to_address
find_address_from b s p q e after f less =
    subst (λ r. Agrees Done p (skip_after (budget p) r) (after_address (b ∷ s))) (sym e)
      (skip_byte (budget p) p (λ r quiet' less'. skip-after_address (budget p) r quiet' less')
        (b == ksu_address) b s q refl after f less)
