-- ===== src/Lib.antt =====
-- Verification of the adapter daemon that connects a control station (KSU) on a serial line with a
-- data base.
--
-- The parts and how they interact. A telegram on the line is a DataPacket. ComTrafficProcessor reads
-- and writes telegrams, takes back the echo of what it wrote, and holds the conversations with the
-- station. What it reads goes to RitexDevice, which keeps the settings of the station, and turns
-- replies into events and values for the loggers of the data base. A client parses its command line and
-- sends it to the daemon, which parses it again, compiles it and creates a command; a command for the
-- station goes to the queue of ComTrafficProcessor, which carries it out while it has captured the
-- station, and its reply goes back to the client.
--
-- Which file models which part (paths from the repository's root):
--   Base      shared names, tests on native numbers, lists with native lengths, exclusive or, texts.
--   Crc       Crc16 of src/Utils.cpp.
--   Protocol  the constants of src/RitexDevice.h (Protocol/Req, Ack, IdxAck), the two tables,
--             isLengthMatches and GetAckForCmd of src/ComTrafficProcessor.cpp.
--   Packet    src/DataPacket.h and src/DataPacket.cpp, swap16, MSB and LSB of src/Utils.h.
--   Port      Read, ReadPacket and WritePacket of src/ComTrafficProcessor.cpp. Port/Frame is the
--             abstract view: what a stream of bytes says. Port/Stream, Port/Agrees and Port/Refines relate
--             the two, Port/Telegram and Port/RoundTrip are about what was written, Port/Echo about its
--             echo.
--   Device    src/RitexDevice.cpp: the settings (Table, Settings), the channels and the values that a
--             reply reports (Channels, Reports, with FindGarameter of src/Device.cpp and
--             src/ParameterFilter.h), the faults (Faults), the deviation of the clocks
--             (Clock), and src/DBEventCommon.h (Event). Turns writes out the events of the motor.
--   Traffic   the rest of src/ComTrafficProcessor.cpp: CheckAndReportFault (Fault), the requests and
--             their replies (Exchange), ProcessMotorCmd and ProcessCommand (Motor), the cycle
--             through the write modes in Run (Modes), and the loop of Run (Run). Ends, here and in
--             Port, shows that no loop of the model runs out of fuel.
--   Replies   SetReply of src/DeviceCommand.cpp, src/CmdTestDevice.cpp and src/CmdExternal.cpp: what a
--             client is told.
--   Commands  how the device carries out a command of a client: the tables and the creation of commands
--             in src/RitexDevice.cpp, CreateCommand of src/Device.cpp and GetParameter of
--             src/CmdLineCommand.cpp.
--   CmdLine   src/CmdLineParser.cpp (Words, Parser), src/CmdLineCommand.cpp (Command, Compile) and the
--             parameters that src/RetexAdapter.cpp adds (Options). Parser/Grammar is the abstract
--             view of a line.
--   Daemon    the packets between the client and the daemon (Frame) and the loop over them, of
--             src/DaemonCommChannel.cpp and src/DaemonCommServer.cpp.
--   Logger    the queue of a logger, in src/LoggerThread.hpp, as steps of several threads, and the
--             records for the gateway (Records), of src/DataLoggerThread.cpp and
--             src/EventLoggerThread.cpp.
--   Daemon/Handover  how the server and the thread of the traffic hand over a command and its result:
--             the mutex, the flag and the condition variable of src/DaemonCommServer.cpp, step by step,
--             with the mutex of Start and the end of Run of src/ComTrafficProcessor.cpp.
--   Listings  the commands that print a table of channels, parameters or commands, with Decimal for the
--             digits of a number (src/Utils.cpp).
--   Adapter   the process: Run of src/Adapter.cpp, the contexts of a daemon, the names of lock and
--             socket, and the client of src/DaemonCommChannel.cpp.
-- Each Examples file holds the components at concrete inputs.
--
-- Numbers. A byte, an unsigned short and a time are natural numbers; where the source wraps around, the
-- remainder is written out. A call of read_loop takes a held byte or an event in each round, so the
-- bytes held and still to come, and the events, bound its rounds: read gives it one round more. The
-- same bound serves the search for the address.
--
-- The command line. What the calls of getopt_long_only give is a list of options, a parameter; the end
-- of the line follows it for ever. The loop of Parse takes an option in each round but the last, so one
-- round more than there are options is enough. A std::map is the list of its pairs in the order of
-- their keys; strtol, strtod and printf of a float are parameters, and an int or a
-- float is the number with its 32 bits.
--
-- The line. What select will meet is a list of events, a parameter of every state: bytes after some
-- seconds, the end of the timeout, or a failure. The length of a timeout is thus in the events. A
-- read that returns nothing (the line hangs up), on which Read goes round without end, and a write that
-- is cut short are not modelled: that Read ends is shown for these events only.
--
-- Not modelled: src/gateway is a copy of another project's library; Log and backtrace write for the
-- developer; Thread wraps pthread; OpenCommPort and the queries of the data base are input and
-- output. The making of the server's socket, and what the gateway does with a record are left out.
pub mod Base
pub mod Crc
pub mod Protocol
pub mod Packet
pub mod Port
pub mod Device
pub mod Traffic
pub mod Replies
pub mod Commands
pub mod Daemon
pub mod Logger
pub mod Decimal
pub mod Listings
pub mod Adapter
pub mod CmdLine
