-- ===== src/Adapter/Client.antt =====
-- The client in the process of the parent: the channel of src/DaemonCommChannel.cpp, and what `Run` of
-- src/Adapter.cpp sends and prints.
use ritex.Base.{
  ℕ, zero, suc, ◌+◌, ◌<◌, ◌^◌, ◌≡◌, refl, Bool, true, false, Option, none, some, List, [], ◌∷◌,
  ◌++◌, length, take, take_all, drop, length-append, if◌then◌else◌, ltb, arith,
}
use ritex.CmdLine.Words.{Word}
use ritex.Daemon.Frame.{int_bytes, int_of, c_string, envelope, line_packet, utf8}
use ritex.Daemon.Laws.{NoZero, int_of-int_bytes}

-- What the calls of `connect` return, in their order: at most a hundred are made, half a second apart.
unfoldable pub connects : ℕ → List Bool → Bool
connects zero results = false
connects (suc tries) [] = false
connects (suc tries) (ok ∷ results) =
    let later = connects tries results in if ok then true else later

-- `open`; `socket` is whether the socket was made.
unfoldable pub open_channel : Bool → List Bool → Bool
open_channel socket results = if socket then connects 100 results else false

-- A call of `recv` without MSG_WAITALL: what arrived together is returned together, as far as it was
-- asked for; where nothing arrives any more, nothing is returned.
unfoldable pub recv_once : ℕ → List Word → Word × List Word
recv_once n [] = ([], [])
recv_once n (piece ∷ pieces) =
    (take n piece, if ltb n (length piece) then drop n piece ∷ pieces else pieces)

-- The bytes of a buffer, over what it held before.
abbrev pub over : Word → Word → Word
over bytes before = bytes ++ drop (length bytes) before

-- What is printed for a response: the first four bytes are its length. The result of neither call is
-- looked at. `none` is a read behind the buffer.
abbrev print_response : ℕ → Word → List Word → Option Word
print_response n before pieces = c_string (over (recv_once n pieces).0 before)

unfoldable pub client_output : Word → (ℕ → Word) → List Word → Option Word
client_output before_length before pieces =
    let n = int_of (over (recv_once 4 pieces).0 before_length) in
    if ltb 0 n then print_response n (before n) (recv_once 4 pieces).1 else some []

-- The line that is sent, and what is printed.
pub record Talk : Type 0 where
  pub sent : Option Word
  pub printed : Option Word

-- CONTEXT_PARENT.
unfoldable pub run_client : Bool → Word → (ℕ → Word) → List Word → List Word → Talk
run_client is_open before_length before args pieces =
    if is_open
    then record {
      sent = some (line_packet args);
      printed = client_output before_length before pieces;
    }
    else record { sent = none; printed = some (utf8 "7;Адаптер не отвечает\n") }

c_string-before :
    (text rest : Word) → NoZero text → c_string ((text ++ (0 ∷ [])) ++ rest) ≡ some text
unfolding c_string
c_string-before [] rest h = refl
c_string-before (c ∷ text) rest (h, hs) = rw (h, c_string-before text rest hs) refl

abbrev terminated : Word → Word
terminated text = text ++ (0 ∷ [])

first_length :
    (m : ℕ) (body before_length : Word) (later : List Word)
    → m < 2 ^ 31
    → int_of (over (recv_once 4 ((int_bytes m ++ body) ∷ later)).0 before_length) ≡ m
unfolding recv_once
first_length m body before_length later h = int_of-int_bytes m (omega arith)

first_rest :
    (m : ℕ) (body : Word) (later : List Word)
    → 0 < length body
    → (recv_once 4 ((int_bytes m ++ body) ∷ later)).1 ≡ body ∷ later
unfolding recv_once
first_rest m body later h =
    let more : ltb 4 (suc (suc (suc (suc (length body))))) ≡ true = ground (arith, h) in
    rw more refl

print_body :
    (text before : Word) (later : List Word)
    → NoZero text
    → print_response (length (terminated text)) before (terminated text ∷ later) ≡ some text
unfolding recv_once
print_body text before later clean =
    rw (take_all (length (terminated text)) (terminated text) (omega arith))
      (c_string-before text (drop (length (terminated text)) before) clean)

-- The response that the server sends for a text, with no zero byte in it and less than 2 ^ 31 - 1
-- bytes, is printed by the client as this text, where it arrives whole, whatever the buffers held
-- before.
pub client_output-envelope :
    (text before_length : Word) (before : ℕ → Word) (later : List Word)
    → NoZero text
    → length text + 1 < 2 ^ 31
    → client_output before_length before (envelope (text ++ (0 ∷ [])) ∷ later) ≡ some text
unfolding client_output envelope
client_output-envelope text before_length before later clean small =
    let size : length (terminated text) ≡ length text + 1 = length-append text (0 ∷ []) in
    let known =
      first_length (length (terminated text)) (terminated text) before_length later
        (omega (arith, size)) in
    let rest =
      first_rest (length (terminated text)) (terminated text) later (omega (arith, size)) in
    let some_bytes : ltb 0 (length (terminated text)) ≡ true = ground (arith, size) in
    rw (known, rest, some_bytes) (print_body text (before (length (terminated text))) later clean)

-- Where the daemon closes the connection without a response, the bytes that happened to be in the
-- variables decide what is printed.
pub client_output_closed :
    (before_length : Word) (before : ℕ → Word)
    → client_output before_length before []
      ≡ (if ltb 0 (int_of before_length) then c_string (before (int_of before_length)) else some [])
unfolding client_output recv_once
client_output_closed before_length before = refl
