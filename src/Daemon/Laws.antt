-- ===== src/Daemon/Laws.antt =====
-- A client's command lines, from its arguments to the responses of the daemon.
use ritex.Base.{
  ℕ, zero, suc, ◌+◌, ◌<◌, ◌≡◌, ◌≢◌, refl, ap, ◌∙◌, Bool, true, false, Option, none, some, List, [],
  ◌∷◌, ◌++◌, ◌==◌, if◌then◌else◌, leb, ltb, length, All, arith, take_length-append,
  drop_length-append, length-append, ==_refl, ◌>>=◌,
}
use ritex.CmdLine.Words.{Word, space, get_cmd_line}
use ritex.CmdLine.Words.Laws.{IsPlain, last_word, set_cmd_line-get_cmd_line}
use ritex.CmdLine.Parser.{parse}
use ritex.Daemon.Frame.{Socket, got, recv, int_bytes, int_of, c_string, envelope, line_packet, utf8}
use ritex.Daemon.{Outside, Server, respond, with_parsed, handle_line, with_data, with_length, serve}

pub int_of-int_bytes : (n : ℕ) → n < 0x80000000 → int_of (int_bytes n) ≡ n
int_of-int_bytes n h = omega arith

recv_whole :
    (bytes rest : List ℕ) (fails : Bool) (n : ℕ)
    → n ≡ length bytes
    → recv n (record { incoming = bytes ++ rest; fails = fails })
      ≡ got bytes (record { incoming = rest; fails = fails })
unfolding recv
recv_whole bytes rest fails n same =
    let fits : leb (length bytes) (length (bytes ++ rest)) ≡ true =
      ground (arith, length-append bytes rest) in
    rw (same, fits, take_length-append bytes rest, drop_length-append bytes rest) refl

-- No zero byte in a line.
abbrev pub NoZero : List ℕ → Type 0
NoZero = All (λ c. (c == 0) ≡ false)

c_string-line : (line : List ℕ) → NoZero line → c_string (line ++ (0 ∷ [])) ≡ some line
unfolding c_string
c_string-line [] h = refl
c_string-line (c ∷ line) (h, hs) = rw (h, c_string-line line hs) refl

abbrev pub packets : List (List Word) → List ℕ
packets [] = []
packets (args ∷ rest) = line_packet args ++ packets rest

-- Arguments that the line carries whole.
pub record IsCarried (args : List Word) : Type 0 where
  pub plain : All (IsPlain space) args
  pub named : last_word args ≢ []
  pub clean : NoZero (get_cmd_line args)
  pub small : length (get_cmd_line args) + 1 < 0x80000000

-- The client closes the connection: the end of the socket is taken for a wrong packet.
abbrev pub finish : {S : Type 0} → Option (Server S) → Option (Server S)
finish none = none
finish (some s) = some (respond (utf8 "7;[SERVER] got wrong packet length\n") s)

module _ {S : Type 0} (o : Outside S) where
  -- One packet, in front of what follows.
  serve-packet :
      (rounds : ℕ) (s : Server S) (line rest : List ℕ)
      → NoZero line
      → length line + 1 < 0x80000000
      → serve o
          (suc rounds)
          s
          (record { incoming = envelope (line ++ (0 ∷ [])) ++ rest; fails = false })
        ≡ elim (handle_line o s line) as (λ x. Option (Server S)) [
          | none ↦ none
          | some t ↦ serve o rounds t (record { incoming = rest; fails = false })
        ]
  unfolding serve envelope
  serve-packet rounds s line rest clean small =
      let buffer = line ++ (0 ∷ []) in
      let k = λ (t : Server S) (r : Socket). serve o rounds t r in
      let fits : length buffer < 0x80000000 = omega (arith, length-append line (0 ∷ [])) in
      let below : ltb (length buffer) 0x80000000 ≡ true = ground arith in
      ap (λ r. with_length o s r k)
        (recv_whole (int_bytes (length buffer)) (buffer ++ rest) false 4 refl)
      ∙ ap
          (λ n.
            if ltb n 0x80000000
            then with_data o n s (recv n (record { incoming = buffer ++ rest; fails = false })) k
            else none)
          (int_of-int_bytes (length buffer) fits)
      ∙ rw
          (
            below,
            recv_whole buffer rest false (length buffer) refl,
            ==_refl (length buffer),
            c_string-line line clean,
          )
          refl

  -- The commands of a client, each handled with the client's own arguments.
  abbrev pub handle_all : Server S → List (List Word) → Option (Server S)
  handle_all s [] = some s
  handle_all s (args ∷ rest) =
      let tokens = o.getopt args in
      with_parsed o s (parse (suc (length tokens)) tokens) >>= λ t. handle_all t rest

  -- The words of a line that came whole are the arguments.
  handled :
      (s : Server S) (args : List Word)
      → IsCarried args
      → handle_line o s (get_cmd_line args)
        ≡ with_parsed o s (parse (suc (length (o.getopt args))) (o.getopt args))
  unfolding handle_line
  handled s args carried =
      ap (λ words. with_parsed o s (parse (suc (length (o.getopt words))) (o.getopt words)))
        (set_cmd_line-get_cmd_line args carried.plain carried.named)

  handled_then :
      (h : Option (Server S)) (f g : Server S → Option (Server S))
      → ((t : Server S) → f t ≡ finish (g t))
      → elim h as (λ x. Option (Server S)) [ none ↦ none | some t ↦ f t ] ≡ finish (h >>= g)
  handled_then none f g e = refl
  handled_then (some t) f g e = e t

  -- For every getopt, library and device: a client sends one packet for each list of arguments,
  -- where no argument has a space and the line no zero byte, the last argument is not empty and the
  -- packet is shorter than 2 ^ 31, and then closes the connection. In more rounds than there are
  -- packets, the server handles the options of exactly these arguments, in their order, and ends
  -- with a response for a wrong packet; it has no result just where the handling of one of them
  -- ends the program, or waits for the result of a silent command.
  pub serve-packets :
      (lines : List (List Word)) (rounds : ℕ) (s : Server S)
      → All IsCarried lines
      → length lines < rounds
      → serve o rounds s (record { incoming = packets lines; fails = false })
        ≡ finish (handle_all s lines)
  unfolding serve recv line_packet
  serve-packets lines zero s all enough = absurd (omega arith)
  serve-packets [] (suc rounds) s all enough = refl
  serve-packets (args ∷ lines) (suc rounds) s (carried, all) enough =
      serve-packet rounds s (get_cmd_line args) (packets lines) carried.clean carried.small
      ∙ ap
          (λ h. elim h as (λ x. Option (Server S)) [
            | none ↦ none
            | some t ↦ serve o rounds t (record { incoming = packets lines; fails = false })
          ])
          (handled s args carried)
      ∙ handled_then (with_parsed o s (parse (suc (length (o.getopt args))) (o.getopt args)))
          (λ t. serve o rounds t (record { incoming = packets lines; fails = false }))
          (λ t. handle_all t lines) λ t. serve-packets lines rounds t all (omega (arith, enough))
