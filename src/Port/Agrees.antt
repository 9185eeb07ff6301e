-- ===== src/Port/Agrees.antt =====
-- When an outcome on the serial line agrees with what the stream of bytes says, and how this goes through
-- a chain of calls.
use ritex.Base.{ℕ, ◌≡◌, refl, ap, ◌∙◌, List, []}
use mathlib.Core.Path.{subst}
use ritex.Port.{
  Port, PortM, Outcome, ok, err, stuck, Error, bad_crc, bad_packet, long_cmd, read, budget,
  skip_to_address, find_address, read_bytes, read_rest, read_checked, read_packet,
}
use ritex.Port
use ritex.Port.Stream.{stream, line_error, Consumes}
use ritex.Port.Frame.{
  Parsed, Parser, got, failed, cut, next, after_address, Telegram, next_bytes, decode_rest,
  decode_checked, decode,
}
use ritex.Port.Frame

-- What a step of the port leaves alone.
pub record Follows (p q : Port) : Type 0 where
  pub quiet : q.echo_cancel_fifo ≡ []
  pub sent : q.written ≡ p.written
  pub fault : line_error q.events ≡ line_error p.events

pub follow : {p q r : Port} → Follows p q → Follows q r → Follows p r
follow f g = record { quiet = g.quiet; sent = g.sent ∙ f.sent; fault = g.fault ∙ f.fault }

pub consumed : {n : ℕ} {p q : Port} → Consumes n p q → Follows p q
consumed c = record { quiet = c.quiet; sent = c.sent; fault = c.fault }

module _ {A B : Type 0} where
  -- An outcome on the port `p` that says what a parse of its stream says.
  abbrev pub Agrees : (A → B → Type 0) → Port → Outcome A → Parsed B → Type 0
  Agrees R p (ok a q) (got b rest) = R a b × (stream q ≡ rest) × Follows p q
  Agrees R p (ok a q) (failed e rest) = ⊥
  Agrees R p (ok a q) cut = ⊥
  Agrees R p (err e q) (got b rest) = ⊥
  Agrees R p (err e q) (failed e' rest) = (e ≡ e') × (stream q ≡ rest) × Follows p q
  Agrees R p (err e q) cut =
      (e ≡ line_error p.events) × (q.echo_cancel_fifo ≡ []) × (q.written ≡ p.written)
  Agrees R p stuck s = ⊥

  -- What an outcome is, where the parse is known.
  pub Agrees-got :
      (R : A → B → Type 0) (p : Port) (r : Outcome A) (b : B) (rest : List ℕ)
      → Agrees R p r (got b rest)
      → (a : A) × (q : Port) × (r ≡ ok a q) × R a b × (stream q ≡ rest) × Follows p q
  Agrees-got R p (ok a q) b rest (h, e, f) = (a, q, refl, h, e, f)
  Agrees-got R p (err e q) b rest h = absurd h
  Agrees-got R p stuck b rest h = absurd h

  pub Agrees-failed :
      (R : A → B → Type 0) (p : Port) (r : Outcome A) (x : Error) (rest : List ℕ)
      → Agrees R p r (failed x rest)
      → (q : Port) × (r ≡ err x q) × (stream q ≡ rest)
  Agrees-failed R p (ok a q) x rest h = absurd h
  Agrees-failed R p (err e q) x rest (same, after, f) = (q, ap (λ t. err t q) same, after)
  Agrees-failed R p stuck x rest h = absurd h

  pub Agrees-follow :
      (R : A → B → Type 0) (p p' : Port) (r : Outcome A) (s : Parsed B)
      → Follows p p'
      → Agrees R p' r s
      → Agrees R p r s
  Agrees-follow R p p' (ok a q) (got b rest) f (h, e, g) = (h, e, follow f g)
  Agrees-follow R p p' (ok a q) (failed e rest) f h = h
  Agrees-follow R p p' (ok a q) cut f h = h
  Agrees-follow R p p' (err e q) (got b rest) f h = h
  Agrees-follow R p p' (err e q) (failed e' rest) f (h, e'', g) = (h, e'', follow f g)
  Agrees-follow R p p' (err e q) cut f (h, quiet, sent) = (h ∙ f.fault, quiet, sent ∙ f.sent)
  Agrees-follow R p p' stuck s f h = h

module _ {A B C D : Type 0} (R : A → B → Type 0) (S : C → D → Type 0) where
  -- Steps that agree, one after the other.
  pub bind_outcomes :
      (f : A → PortM C) (g : B → Parser D) (p : Port) (r : Outcome A) (s : Parsed B)
      → Agrees R p r s
      → ((a : A) (b : B) (q : Port)
          → R a b
          → q.echo_cancel_fifo ≡ []
          → Agrees S q (f a q) (g b (stream q)))
      → Agrees S p
          (elim r [ ok a q ↦ f a q | err e q ↦ err e q | stuck ↦ stuck ])
          (elim s [ got b rest ↦ g b rest | failed e rest ↦ failed e rest | cut ↦ cut ])
  bind_outcomes f g p (ok a q) (got b rest) (h, e, w) k =
      Agrees-follow S p q (f a q) (g b rest) w
        (subst (λ t. Agrees S q (f a q) (g b t)) e (k a b q h w.quiet))
  bind_outcomes f g p (ok a q) (failed e rest) h k = absurd h
  bind_outcomes f g p (ok a q) cut h k = absurd h
  bind_outcomes f g p (err e q) (got b rest) h k = absurd h
  bind_outcomes f g p (err e q) (failed e' rest) h k = h
  bind_outcomes f g p (err e q) cut h k = h
  bind_outcomes f g p stuck s h k = absurd h

  pub Agrees-bind :
      (m : PortM A) (f : A → PortM C) (k : Parser B) (g : B → Parser D) (p : Port)
      → Agrees R p (m p) (k (stream p))
      → ((a : A) (b : B) (q : Port)
          → R a b
          → q.echo_cancel_fifo ≡ []
          → Agrees S q (f a q) (g b (stream q)))
      → Agrees S p (Port.◌>>=◌ m f p) (Frame.◌>>=◌ k g (stream p))
  Agrees-bind m f k g p h next = bind_outcomes f g p (m p) (k (stream p)) h next
