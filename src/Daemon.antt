-- ===== src/Daemon.antt =====
-- The daemon and its client: `send` of src/DaemonCommChannel.cpp, the loop over the packets of a client
-- in `Run`, and `SendResponseToClient`, of src/DaemonCommServer.cpp. A text is its bytes in UTF-8. What
-- the device does with a command is a parameter, and so is what getopt_long_only tells of the words.
pub mod Frame
pub mod Laws
pub mod Handover
pub mod Examples
use ritex.Base.{
  ℕ, zero, suc, ◌+◌, Bool, true, false, Option, none, some, List, [], ◌∷◌, ◌++◌, ◌==◌,
  if◌then◌else◌, ltb, length,
}
use ritex.CmdLine.Words.{Word, set_cmd_line}
use ritex.CmdLine.Command.{CmdLineCommand}
use ritex.CmdLine.Parser.{Token, Result, accepted, rejected, parse}
use ritex.CmdLine.Compile.{Numbers, Compiled, compile}
use ritex.CmdLine.Options.{Options}
use ritex.Commands.Table.{Conversions}
use ritex.Commands.{Created, DeviceCommand, create_command}
use ritex.Daemon.Frame.{Socket, Received, got, broken, recv, int_of, c_string, envelope, utf8}

-- What `Execute` does, and the result that `OnResultReady` is given for it. The server waits for the
-- result before the next packet. A `silent` command returns `true`, and its result never comes.
pub data Execution : Type 0 where
  refused silent : Execution
  result : List ℕ → Execution

-- What is outside the server: the words' options, the library, and the device with its state.
pub record Outside (S : Type 0) : Type 0 where
  pub getopt : List Word → List Token
  pub numbers : Numbers
  pub conversions : Conversions
  pub random : S → ℕ
  pub unset : S → ℕ
  pub options : Options
  pub execute : S → DeviceCommand → S × Execution

-- The state of the server: that of the device, its limit `m_timeDiviation`, and the responses that were
-- sent.
pub record Server (S : Type 0) : Type 0 where
  pub device : S
  pub time_diviation : ℕ
  pub responses : List (List ℕ)

module _ {S : Type 0} where
  -- `SendResponseToClient`: the length counts the zero byte at the end.
  abbrev pub respond : List ℕ → Server S → Server S
  respond text s = record s { responses = s.responses ++ (envelope (text ++ (0 ∷ [])) ∷ []) }

  -- For a silent command the server waits for ever.
  abbrev pub executed : Server S → ℕ → S × Execution → Option (Server S)
  executed s limit (device, refused) = some (
      respond (utf8 "7;Не могу начать выполнение команды. Внутренняя ошибка\n")
        (record s { device = device; time_diviation = limit }))
  executed s limit (device, silent) = none
  executed s limit (device, result text) =
      some (respond text (record s { device = device; time_diviation = limit }))

  module _ (o : Outside S) where
    -- A command that was created; `none` is the end of the program, or a wait without end.
    abbrev pub with_created : Server S → Option Created → Option (Server S)
    with_created s none = none
    with_created s (some created) = elim created.command [
      | none ↦ some (record s { time_diviation = created.time_diviation })
      | some command ↦ executed s created.time_diviation (o.execute s.device command)
    ]

    abbrev pub with_compiled : Server S → Option Compiled → Option (Server S)
    with_compiled s none = some s
    with_compiled s (some c) =
        with_created s (create_command o.conversions (o.unset s.device) s.time_diviation c)

    abbrev pub with_parsed : Server S → Option Result → Option (Server S)
    with_parsed s none = some s
    with_parsed s (some (rejected c)) = some s
    with_parsed s (some (accepted c)) =
        with_compiled s (compile o.numbers (o.random s.device) o.options c)

    -- A good packet: a line that is not accepted, not compiled, or no command, has no response.
    unfoldable pub handle_line : Server S → List ℕ → Option (Server S)
    handle_line s line =
        let tokens = o.getopt (set_cmd_line line) in
        with_parsed s (parse (suc (length tokens)) tokens)

    -- The data behind the length: they are to be as many bytes as it tells.
    abbrev pub with_data :
        ℕ → Server S → Received → (Server S → Socket → Option (Server S)) → Option (Server S)
    with_data len s broken rest = some (respond (utf8 "7;[SERVER] got wrong content length\n") s)
    with_data len s (got bytes socket) rest =
        if length bytes == len
        then elim (c_string bytes) [
          | none ↦ none
          | some line ↦ elim (handle_line s line) [ none ↦ none | some t ↦ rest t socket ]
        ]
        else some (respond (utf8 "7;[SERVER] got wrong content length\n") s)

    -- The four bytes of a length. Where the call fails, the socket is given up before the response,
    -- which nobody gets. A negative length ends the program by `new`.
    abbrev pub with_length :
        Server S → Received → (Server S → Socket → Option (Server S)) → Option (Server S)
    with_length s broken rest = some s
    with_length s (got bytes socket) rest =
        if length bytes == 4
        then (if ltb (int_of bytes) 0x80000000
            then with_data (int_of bytes) s (recv (int_of bytes) socket) rest
            else none)
        else some (respond (utf8 "7;[SERVER] got wrong packet length\n") s)

    -- The packets of one client. A packet takes four bytes at least off the socket, so as many rounds
    -- as it has bytes, and one more, are enough; without rounds there is no result.
    unfoldable pub serve : ℕ → Server S → Socket → Option (Server S)
    serve zero s socket = none
    serve (suc rounds) s socket = with_length s (recv 4 socket) (serve rounds)
