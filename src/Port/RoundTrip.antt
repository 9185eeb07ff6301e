-- ===== src/Port/RoundTrip.antt =====
-- Telegrams that `CreateRawPacket` wrote, read by `ReadPacket`.
use ritex.Base.{ℕ, ◌+◌, ◌≡◌, ◌≢◌, ap, ◌∙◌, some, List, [], ◌∷◌, ◌++◌, length, arith, All, IsByte}
use ritex.Protocol.{PacketType, is_length_matches, ksu_address, get_cmd}
use ritex.Packet.{msb, lsb, size, DataPacket, create_raw_packet}
use mathlib.Core.Path.{subst}
use ritex.Port.{Port, bad_crc, long_cmd, read_packet, Outcome, ok, err}
use ritex.Port.Stream.{stream}
use ritex.Port.Agrees.{Agrees, Agrees-got, Agrees-failed}
use ritex.Port.Refines.{SameTelegram, read_packet-decode}
use ritex.Port.Frame.{got, decode}
use ritex.Crc.{crc16}
use ritex.Port.Telegram.{body, decode-create_raw_packet, decode_corrupted}

-- The packet that a reader in write mode `mode` makes of a telegram of `packet`: the mode of a
-- reply with information is the reader's, and so are the type and the time.
abbrev pub as_read : ℕ → PacketType → ℕ → DataPacket → DataPacket
as_read mode t timestamp packet = record packet {
  cmd = long_cmd mode (get_cmd packet.cmd);
  type = t;
  timestamp = timestamp;
}

as_read_lem :
    (mode : ℕ) (t : PacketType) (packet packet' : DataPacket)
    → packet.address ≡ ksu_address
    → SameTelegram packet'
        (record { type = t; cmd = long_cmd mode (get_cmd packet.cmd); bytes = packet.bytes })
    → packet' ≡ as_read mode t packet'.timestamp packet
as_read_lem mode t packet packet' addr s = ground (arith, s.address, s.cmd, s.type, s.bytes, addr)

-- An outcome that agrees with the decoding of a telegram is the packet.
pub reads_back :
    (mode : ℕ) (p : Port) (r : Outcome DataPacket) (noise rest : List ℕ) (packet : DataPacket)
    {t : PacketType}
    → Agrees SameTelegram p r (decode mode (noise ++ (create_raw_packet packet ++ rest)))
    → All (λ b. b ≢ ksu_address) noise
    → packet.address ≡ ksu_address
    → All IsByte packet.bytes
    → is_length_matches (get_cmd packet.cmd) (size packet + 1) ≡ some t
    → (timestamp : ℕ) × (q : Port) × (r ≡ ok (as_read mode t timestamp packet) q)
      × (stream q ≡ rest)
      × (q.written ≡ p.written)
      × (q.echo_cancel_fifo ≡ [])
reads_back mode p r noise rest packet {t} agrees clean addr hb m =
    let (packet', q, same, s, after, f) = Agrees-got SameTelegram p r _ rest got_it in
    (
      packet'.timestamp,
      q,
      same ∙ ap (λ a. ok a q) (as_read_lem mode t packet packet' addr s),
      after,
      f.sent,
      f.quiet,
    )
  where
    got_it : Agrees SameTelegram p r (
        got
          (record { type = t; cmd = long_cmd mode (get_cmd packet.cmd); bytes = packet.bytes })
          rest)
    got_it =
        subst (Agrees SameTelegram p r)
          (decode-create_raw_packet mode noise rest packet clean addr hb m) agrees

-- With no echo to wait for, what create_raw_packet wrote for a packet of an accepted length, behind
-- bytes that are no address, is read back as that packet (with the mode of the reader on a reply
-- with information), and the bytes behind it are left.
pub read_packet-create_raw_packet :
    (mode : ℕ) (p : Port) (noise rest : List ℕ) (packet : DataPacket) {t : PacketType}
    → p.echo_cancel_fifo ≡ []
    → stream p ≡ noise ++ (create_raw_packet packet ++ rest)
    → All (λ b. b ≢ ksu_address) noise
    → packet.address ≡ ksu_address
    → All IsByte packet.bytes
    → is_length_matches (get_cmd packet.cmd) (size packet + 1) ≡ some t
    → (timestamp : ℕ) × (q : Port) × (read_packet mode p ≡ ok (as_read mode t timestamp packet) q)
      × (stream q ≡ rest)
      × (q.written ≡ p.written)
      × (q.echo_cancel_fifo ≡ [])
read_packet-create_raw_packet mode p noise rest packet {t} quiet e clean addr hb m =
    reads_back mode p (read_packet mode p) noise rest packet
      (subst (λ s. Agrees SameTelegram p (read_packet mode p) (decode mode s)) e
        (read_packet-decode mode p quiet))
      clean addr hb m

-- With no echo to wait for, an accepted telegram in which one data byte was changed on the way is
-- refused with bad_crc, and the bytes behind it are left.
pub read_packet_corrupted :
    (mode cmd x y : ℕ) (p : Port) (noise front back rest : List ℕ) {t : PacketType}
    → p.echo_cancel_fifo ≡ []
    → stream p
      ≡ noise
        ++ (body cmd (front ++ (y ∷ back))
            ++ (msb (crc16 0 (body cmd (front ++ (x ∷ back))))
                ∷ lsb (crc16 0 (body cmd (front ++ (x ∷ back))))
                ∷ rest))
    → All (λ b. b ≢ ksu_address) noise
    → All IsByte (front ++ (x ∷ back))
    → IsByte y
    → x ≢ y
    → is_length_matches cmd (length (front ++ (x ∷ back)) + 1) ≡ some t
    → (q : Port) × (read_packet mode p ≡ err bad_crc q) × (stream q ≡ rest)
read_packet_corrupted mode cmd x y p noise front back rest {t} quiet e clean hb hy ne m =
    Agrees-failed SameTelegram p (read_packet mode p) bad_crc rest (
      subst (Agrees SameTelegram p (read_packet mode p))
        (ap (decode mode) e
          ∙ decode_corrupted mode cmd x y noise front back rest {t = t} clean hb hy ne m)
        (read_packet-decode mode p quiet))
