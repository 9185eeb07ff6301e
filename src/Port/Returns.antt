-- ===== src/Port/Returns.antt =====
-- The fuel of the loops suffices: no result of the model is stuck.
use ritex.Base.{
  ℕ, zero, suc, ◌-◌, ◌<◌, ◌≡◌, Bool, true, false, Option, none, some, ◌==◌, if◌then◌else◌, arith,
}
use ritex.Protocol.{PacketType, ksu_address}
use ritex.Packet.{new_packet, fill}
use ritex.Port.{
  Port, PortM, ◌>>=◌, return, throw, Outcome, ok, err, stuck, bad_crc, budget, read, find_address,
  read_bytes, read_rest, read_checked, read_packet,
}
use ritex.Port.Ends.{Ends, read-Ends, skip_to_address-Ends}

-- A result or an error: the model's fuel sufficed.
abbrev pub IsReturned {ℓ} : {A : Type ℓ} → Outcome A → Type 0
IsReturned (ok a q) = Unit
IsReturned (err e q) = Unit
IsReturned stuck = ⊥

bound {ℓ κ} :
    {A : Type ℓ} {B : Type κ} (o : Outcome A) (f : A → PortM B)
    → IsReturned o
    → ((a : A) (q : Port) → IsReturned (f a q))
    → IsReturned (elim o as (λ x. Outcome B) [ ok a q ↦ f a q | err e q ↦ err e q | stuck ↦ stuck ])
bound (ok a q) f h later = later a q
bound (err e q) f h later = tt
bound stuck f h later = absurd h

pub bind-IsReturned {ℓ κ} :
    {A : Type ℓ} {B : Type κ} (m : PortM A) (f : A → PortM B) (p : Port)
    → IsReturned (m p)
    → ((a : A) (q : Port) → IsReturned (f a q))
    → IsReturned ((m >>= f) p)
bind-IsReturned m f p h later = bound (m p) f h later

Ends-IsReturned {ℓ} : {A : Type ℓ} (b : ℕ) (o : Outcome A) → Ends b o → IsReturned o
Ends-IsReturned b (ok a q) h = tt
Ends-IsReturned b (err e q) h = tt
Ends-IsReturned b stuck h = absurd h

read-IsReturned : (len : ℕ) (p : Port) → 0 < len → IsReturned (read len p)
read-IsReturned len p h = Ends-IsReturned (budget p) (read len p) (read-Ends len p h)

read_bytes-IsReturned : (len : ℕ) (p : Port) → IsReturned (read_bytes len p)
unfolding read_bytes
read_bytes-IsReturned zero p = tt
read_bytes-IsReturned (suc len) p =
    let e : (suc len == 0) ≡ false = ground arith in
    rw e (read-IsReturned (suc len) p (omega arith))

pub if-IsReturned {ℓ} :
    {A : Type ℓ} (b : Bool) (m n : PortM A) (p : Port)
    → IsReturned (m p)
    → IsReturned (n p)
    → IsReturned ((if b then m else n) p)
if-IsReturned true m n p h k = h
if-IsReturned false m n p h k = k

read_rest-IsReturned :
    (type : PacketType) (cmd len crc : ℕ) (p : Port) → IsReturned (read_rest type cmd len crc p)
unfolding read_rest
read_rest-IsReturned type cmd len crc p =
    bind-IsReturned (read_bytes (len - 1)) _ p (read_bytes-IsReturned (len - 1) p) λ bytes q.
      bind-IsReturned (read 2) _ q (read-IsReturned 2 q (omega arith)) λ sum r.
        if-IsReturned _ (return (fill (new_packet type ksu_address cmd p.clock) bytes))
          (throw bad_crc) r tt tt

read_checked-IsReturned :
    (o : Option PacketType) (cmd len crc : ℕ) (p : Port) → IsReturned (read_checked o cmd len crc p)
unfolding read_checked
read_checked-IsReturned none cmd len crc p = tt
read_checked-IsReturned (some type) cmd len crc p = read_rest-IsReturned type cmd len crc p

-- For every list of events, whatever bytes wait for their echo, the fuel of the loops suffices.
pub read_packet-IsReturned : (mode : ℕ) (p : Port) → IsReturned (read_packet mode p)
unfolding read_packet find_address
read_packet-IsReturned mode p =
    bind-IsReturned find_address _ p
      (Ends-IsReturned (budget p) _ (skip_to_address-Ends (suc (budget p)) p (omega arith)))
      λ unit q. bind-IsReturned (read 2) _ q (read-IsReturned 2 q (omega arith)) λ length_bytes r.
        bind-IsReturned (read 1) _ r (read-IsReturned 1 r (omega arith))
          λ cmd_bytes s. read_checked-IsReturned _ _ _ _ s
