-- ===== src/Port/Telegram.antt =====
-- What the decoder makes of a telegram that `CreateRawPacket` wrote, and of one with a changed byte.
use ritex.Base.{
  ℕ, ◌+◌, ◌-◌, ◌%◌, ◌^◌, ◌≤◌, ◌<◌, ◌≡◌, ◌≢◌, refl, sym, ap, ◌∙◌, Bool, true, false, some, List, [],
  ◌∷◌, ◌++◌, ◌==◌, if◌then◌else◌, length, arith, All, IsByte, append_assoc, take_length-append,
  drop_length-append, length-append, ==_refl,
}
use ritex.Protocol.{PacketType, is_length_matches, ksu_address, get_cmd}
use ritex.Protocol.Laws.{is_length_matches_bounds}
use ritex.Packet.{swap16, load16, msb, lsb, size, DataPacket, create_raw_packet}
use ritex.Port.{bad_crc, long_cmd}
use ritex.Port.Frame.{
  Parsed, Parser, got, failed, cut, next, next_bytes, after_address, Telegram, decode_rest,
  decode_checked, decode,
}
use ritex.Port.Frame
use ritex.Crc.{crc16}
use ritex.Crc.Laws.{crc16-append, crc16_lt, crc16_detects_byte}

bind_got :
    {A B : Type 0} (k : Parser A) (g : A → Parser B) {s rest : List ℕ} {a : A}
    → k s ≡ got a rest
    → Frame.◌>>=◌ k g s ≡ g a rest
bind_got k g e = rw (e, Frame.◌>>=◌)

next_two : (a b : ℕ) (s : List ℕ) → next 2 (a ∷ b ∷ s) ≡ got (a ∷ b ∷ []) s
unfolding next
next_two a b s = ground arith

next_one : (a : ℕ) (s : List ℕ) → next 1 (a ∷ s) ≡ got (a ∷ []) s
unfolding next
next_one a s = ground arith

next_bytes-append : (xs ys : List ℕ) → next_bytes (length xs) (xs ++ ys) ≡ got xs ys
unfolding next_bytes next
next_bytes-append [] ys = refl
next_bytes-append (x ∷ xs) ys =
    ground (arith, length-append xs ys, take_length-append xs ys, drop_length-append xs ys)

after_address_noise :
    (noise s : List ℕ)
    → All (λ b. b ≢ ksu_address) noise
    → after_address (noise ++ (ksu_address ∷ s)) ≡ got tt s
unfolding after_address
after_address_noise [] s h = refl
after_address_noise (b ∷ noise) s (h, hs) = ground (arith, after_address_noise noise s hs)

swap16-msb : (n : ℕ) → n < 0x10000 → swap16 (load16 (msb n) (lsb n)) ≡ n
swap16-msb n h = omega arith

long_cmd_byte : (mode cmd : ℕ) → cmd < 0x100 → long_cmd mode cmd % 2 ^ 8 ≡ cmd
long_cmd_byte mode cmd h = ground arith

if_apply :
    (b : Bool) (t : Telegram) (rest : List ℕ)
    → (if b then Frame.pure t else Frame.fail bad_crc) rest
      ≡ (if b then got t rest else failed bad_crc rest)
if_apply true t rest = refl
if_apply false t rest = refl

-- The data and the check sum of a telegram whose check sum so far is `crc`.
decode_rest_sum :
    (type : PacketType) (cmd len crc sum : ℕ) (bytes rest : List ℕ)
    → len ≡ length bytes + 1
    → sum < 0x10000
    → decode_rest type cmd len crc (bytes ++ (msb sum ∷ lsb sum ∷ rest)) ≡ (
        if sum == crc16 crc bytes
        then got (record { type = type; cmd = cmd; bytes = bytes }) rest
        else failed bad_crc rest)
unfolding decode_rest
decode_rest_sum type cmd len crc sum bytes rest e h =
    bind_got (next_bytes (len - 1)) _ data_bytes
    ∙ bind_got (next 2) _ (next_two (msb sum) (lsb sum) rest)
    ∙ rw (swap16-msb sum h) (if_apply (sum == crc16 crc bytes) _ rest)
  where
    data_len : len - 1 ≡ length bytes
    data_len = omega arith

    tail : List ℕ
    tail = msb sum ∷ lsb sum ∷ rest

    data_bytes : next_bytes (len - 1) (bytes ++ tail) ≡ got bytes tail
    data_bytes = rw data_len (next_bytes-append bytes tail)

-- The head of a telegram behind some noise.
decode_head :
    (mode cmd len : ℕ) (noise s : List ℕ)
    → All (λ b. b ≢ ksu_address) noise
    → len < 0x10000
    → cmd < 0x100
    → decode mode (noise ++ (ksu_address ∷ msb len ∷ lsb len ∷ cmd ∷ s))
      ≡ decode_checked
          (is_length_matches cmd len)
          (long_cmd mode cmd)
          len
          (crc16 0 (ksu_address ∷ msb len ∷ lsb len ∷ cmd ∷ []))
          s
unfolding decode
decode_head mode cmd len noise s clean hl hc =
    bind_got after_address _ (after_address_noise noise (msb len ∷ lsb len ∷ cmd ∷ s) clean)
    ∙ bind_got (next 2) _ (next_two (msb len) (lsb len) (cmd ∷ s))
    ∙ bind_got (next 1) _ (next_one cmd s)
    ∙ rw (swap16-msb len hl, long_cmd_byte mode cmd hc)

-- The bytes in front of the check sum.
abbrev pub body : ℕ → List ℕ → List ℕ
body cmd bytes = ksu_address ∷ msb (length bytes + 1) ∷ lsb (length bytes + 1) ∷ cmd ∷ bytes

-- A telegram with the data `bytes` and the check sum `sum`, right or wrong.
decode_telegram :
    (mode cmd sum : ℕ) (noise bytes rest : List ℕ) {t : PacketType}
    → All (λ b. b ≢ ksu_address) noise
    → is_length_matches cmd (length bytes + 1) ≡ some t
    → sum < 0x10000
    → decode mode (noise ++ (body cmd bytes ++ (msb sum ∷ lsb sum ∷ rest))) ≡ (
        if sum == crc16 0 (body cmd bytes)
        then got (record { type = t; cmd = long_cmd mode cmd; bytes = bytes }) rest
        else failed bad_crc rest)
unfolding decode_checked
decode_telegram mode cmd sum noise bytes rest {t} clean m h =
    decode_head mode cmd (length bytes + 1) noise (bytes ++ (msb sum ∷ lsb sum ∷ rest)) clean
      (omega (arith, bounds)) (omega (arith, bounds))
    ∙ rw m (
        decode_rest_sum t (long_cmd mode cmd) (length bytes + 1) _ sum bytes rest refl h
        ∙ ap
            (λ c.
              if sum == c
              then got (record { type = t; cmd = long_cmd mode cmd; bytes = bytes }) rest
              else failed bad_crc rest)
            (sym (
              crc16-append 0
                (ksu_address ∷ msb (length bytes + 1) ∷ lsb (length bytes + 1) ∷ cmd ∷ []) bytes)))
  where
    bounds : (0 < length bytes + 1) × (length bytes + 1 ≤ 0x30) × (cmd < 0x100)
    bounds = is_length_matches_bounds cmd (length bytes + 1) m

body-IsByte :
    (cmd : ℕ) (bytes : List ℕ) → cmd < 0x100 → All IsByte bytes → All IsByte (body cmd bytes)
body-IsByte cmd bytes h hb = (omega arith, (omega arith, (omega arith, (h, hb))))

abbrev sealed : List ℕ → List ℕ
sealed b = b ++ (msb (crc16 0 b) ∷ lsb (crc16 0 b) ∷ [])

create_raw_packet-body :
    (packet : DataPacket)
    → packet.address ≡ ksu_address
    → create_raw_packet packet ≡ sealed (body (get_cmd packet.cmd) packet.bytes)
unfolding create_raw_packet
create_raw_packet-body packet addr =
    ap
      (λ a.
        sealed
          (a ∷ msb (size packet + 1) ∷ lsb (size packet + 1) ∷ get_cmd packet.cmd ∷ packet.bytes))
      addr

sum_lt :
    (cmd : ℕ) (bytes : List ℕ) → cmd < 0x100 → All IsByte bytes → crc16 0 (body cmd bytes) < 0x10000
sum_lt cmd bytes h hb = crc16_lt 0 (body cmd bytes) (omega arith) (body-IsByte cmd bytes h hb)

-- What `create_raw_packet` writes, `decode` reads back, and it leaves what follows on the line.
pub decode-create_raw_packet :
    (mode : ℕ) (noise rest : List ℕ) (packet : DataPacket) {t : PacketType}
    → All (λ b. b ≢ ksu_address) noise
    → packet.address ≡ ksu_address
    → All IsByte packet.bytes
    → is_length_matches (get_cmd packet.cmd) (size packet + 1) ≡ some t
    → decode mode (noise ++ (create_raw_packet packet ++ rest))
      ≡ got
          (record { type = t; cmd = long_cmd mode (get_cmd packet.cmd); bytes = packet.bytes })
          rest
decode-create_raw_packet mode noise rest packet {t} clean addr hb m =
    rw (create_raw_packet-body packet addr) (
      rw (append_assoc (body cmd bytes) (msb sum ∷ lsb sum ∷ []) rest) (
        decode_telegram mode cmd sum noise bytes rest clean m (sum_lt cmd bytes (omega arith) hb)
        ∙ rw (==_refl sum)))
  where
    open packet use {bytes}

    cmd : ℕ
    cmd = get_cmd packet.cmd

    sum : ℕ
    sum = crc16 0 (body cmd bytes)

-- A telegram in which one byte of the data was changed on the way fails the check sum.
pub decode_corrupted :
    (mode cmd x y : ℕ) (noise front back rest : List ℕ) {t : PacketType}
    → All (λ b. b ≢ ksu_address) noise
    → All IsByte (front ++ (x ∷ back))
    → IsByte y
    → x ≢ y
    → is_length_matches cmd (length (front ++ (x ∷ back)) + 1) ≡ some t
    → let sent = body cmd (front ++ (x ∷ back)) in
      let arrived = body cmd (front ++ (y ∷ back)) in
      decode mode (noise ++ (arrived ++ (msb (crc16 0 sent) ∷ lsb (crc16 0 sent) ∷ rest)))
      ≡ failed bad_crc rest
decode_corrupted mode cmd x y noise front back rest {t} clean hb hy ne m =
    decode_telegram mode cmd sum noise (front ++ (y ∷ back)) rest {t = t} clean accepted
      (sum_lt cmd (front ++ (x ∷ back)) (is_length_matches_bounds cmd _ m).2 hb)
    ∙ rw differs
  where
    sum : ℕ
    sum = crc16 0 (body cmd (front ++ (x ∷ back)))

    same_length : length (front ++ (x ∷ back)) ≡ length (front ++ (y ∷ back))
    same_length = omega (arith, length-append front (x ∷ back), length-append front (y ∷ back))

    accepted : is_length_matches cmd (length (front ++ (y ∷ back)) + 1) ≡ some t
    accepted = rw (← same_length) m

    head : ℕ → List ℕ
    head n = ksu_address ∷ msb (n + 1) ∷ lsb (n + 1) ∷ cmd ∷ front

    all_bytes : All IsByte (head (length (front ++ (x ∷ back))) ++ (x ∷ back))
    all_bytes = body-IsByte cmd (front ++ (x ∷ back)) (is_length_matches_bounds cmd _ m).2 hb

    sums_differ : sum ≢ crc16 0 (head (length (front ++ (x ∷ back))) ++ (y ∷ back))
    sums_differ =
        crc16_detects_byte 0 x y (head (length (front ++ (x ∷ back)))) back (omega arith) all_bytes
          hy ne

    differs : (sum == crc16 0 (body cmd (front ++ (y ∷ back)))) ≡ false
    differs = rw (← same_length) (ground (arith, sums_differ))
