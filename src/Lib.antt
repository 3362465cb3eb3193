-- ===== src/Lib.antt =====
-- Mclog sends log messages of many programs over a multicast group to the hosts that keep them. A
-- program hands a message to a logger, whose loopback sender gathers messages into packets for
-- the daemon on its host; the daemon's multicast sender gathers them into encrypted packets for
-- the group. A receiver keeps one source per sender, asks the sender for its key, holds packets
-- back until it has the key, and gives the messages to its sinks, which write them to files that
-- are rolled by time or size. This library models these parts over lists of bytes.
--
-- Paths are those under classes/src and classes/include.
-- - Base, with its children, holds the shared names: tests on numbers, lists, texts as lists of
--   bytes, and the first-match searches of the tables.
-- - Stream models the formatted reads of std::istream that the text forms use.
-- - Facility and Severity are DwmMclogFacility.{hh,cc} and DwmMclogSeverity.{hh,cc}:
--   `facility_name`, `facility_value`, `severity_name`, `severity_value` and the stream
--   operators.
-- - Roll is DwmMclogRollPeriod.{hh,cc} and DwmMclogRollInterval.{hh,cc}: `get_roll_period`,
--   `next_mark`, `set_to_current`.
-- - Packet is DwmMclogMessagePacket.{hh,cc}: `add`, `encrypt`, `datagram` (what SendTo hands to
--   the socket), `decrypt`, `recv_plain`, `recv_encrypted`.
-- - Message is DwmMclogMessage, DwmMclogMessageHeader, DwmMclogMessageOrigin and
--   DwmMclogTimestamp: the data with their `Read`, `Write`, `BZRead` and gzip forms, and the
--   loops that read messages until a read fails.
-- - Sender is DwmMclogLoopbackSender.cc and DwmMclogMulticastSender.cc: the body of `Run` and of
--   `SendPacket`.
-- - Source is DwmMclogMulticastSourceKey.{hh,cc} and DwmMclogMulticastSource.{hh,cc}:
--   `process_packet`, `process_backlog`, `clear_old_backlog`, `start_query`.
-- - Decimal and TextForm are the text forms of DwmMclogTimestamp.cc, DwmMclogMessageOrigin.cc,
--   DwmMclogMessageHeader.cc and DwmMclogMessage.cc: `print_message` is operator << and
--   `parse_message` operator >>, down to the digits.
-- - Sinks and Logger are DwmMclogLogger.{hh,cc}, with the lists of sinks that the receivers keep
--   too: `open_logger`, `add_sinks`, `set_sinks`, `log`, `close_logger`, and any sequence of them
--   (`run`).
-- - Loopback and LoopbackReceiver are apps/mclogd/DwmMclogLoopbackReceiver.{hh,cc}, from the
--   root: `turn` is a round of its thread's loop, `turns` all of them; `start_loopback`,
--   `stop_loopback`, `thread_step` are its sockets and its thread.
-- - Filter is DwmMclogMessageFilterParse.y and DwmMclogMessageFilterDriver.{hh,cc}: `run_parser`
--   is the parser of the grammar with its precedences, `new_driver` and `parse` the driver;
--   Filter/Trees are the grammar's trees.
-- - Command is apps/mclogger/mclogger.cc: `get_priority_info`, `read_send_options`,
--   `make_message` and `send_command`, its main.
-- - Reader is apps/mclog/mclog.cc: `process_file` and its readers, `process_sink`, and `main`.
-- - FileLogger is DwmMclogFileLogger.{hh,cc} with `Configure` and `Process` of
--   DwmMclogLogFiles.cc: `push_message` is the sink, `file_turn` a turn of its thread,
--   `operate_all` any operations.
-- - LoopbackSender is the rest of DwmMclogLoopbackSender.{hh,cc}: `start_loopback_sender`,
--   `stop_loopback_sender` and its socket.
-- - Sockets models the descriptors that the system hands out and takes back, and what it answers
--   to each call. Receiver is DwmMclogMulticastReceiver.{hh,cc}: `open_receiver`,
--   `close_receiver`, and `run`, its thread. SenderThreads is the sockets and threads of
--   DwmMclogMulticastSender.cc with DwmMclogKeyRequestListener.cc: `open_sender`,
--   `start_listener`, `close_sender`.
-- - Exchange, with Requester and Client, is DwmMclogKeyRequesterState.{hh,cc} and
--   DwmMclogKeyRequestClientState.{hh,cc}, with the loop of DwmMclogKeyRequester.cc:
--   `requester_step`, `get_key`, `client_step`; Exchange/Listener is the rest of
--   DwmMclogKeyRequestListener.cc: `listen` is its loop, `clear_expired` what it forgets.
-- - Table is DwmMclogUdpEndpoint.hh and DwmMclogMulticastSources.cc: `endpoint_less`,
--   `process_from` (ProcessPacket) and `clear_old`.
-- - LogFiles is DwmMclogLogFiles.{hh,cc}: `log_path` with its cache, `log_path_configs`, and
--   `handle_all` (the loop of Process).
-- - LogFile is DwmMclogLogFile.{hh,cc}: `roll_archives`, `roll_current`, `roll`, `open_no_lock`
--   and `process`; the files are a record of the current one, the one that waits for the
--   compressor, and the archives by number.
-- - Examples runs the definitions on concrete data.
--
-- The records Aead (libsodium), StreamIo (libDwm's forms of numbers and strings) and Calendar
-- (<time.h>) are parameters, as are Clock (<time.h> and sscanf, in TextForm), System (the
-- operating system, in Sockets), Credence and Forms (Exchange), the parser of filters (LogFiles;
-- FileLogger gives it the one of Filter), the scanner that Flex generates (Filter), boost's
-- regular expressions, what ShortString makes of a text (Command), what the files hold once they
-- are opened and decompressed (Reader), the rule by which libDwm's queue takes one more entry and
-- the contents that it hands out, what the file system answers (LogFile). What they are relied on
-- for are the records IsSound of Packet/Secrecy, IsSound of Message/RoundTrip, IsSteady of
-- Roll/Intervals, IsExact of TextForm/RoundTrip and IsOrder of Table/Order (addresses), each with
-- an instance in Examples. A failed assertion is the result `none` of the function that holds it.
-- Steps that run in another thread, such as the end of a query for a key, come between two
-- packets.
--
-- Loops run on fuel: the loop of `next_mark` adds a positive amount at each turn, so a turn more
-- than the value of the field is enough; the loop that reads messages takes a byte at least at
-- each turn, so a turn more than the bytes is enough. Numbers are unbounded, but for the ports
-- and the numbers of archives; the bounds of bytes, of the 64-bit time stamp and of the short
-- strings are hypotheses where they matter.
--
-- Not modelled: the sockets of the requester of keys, the buffer sizes that the multicast sender
-- asks for, the sinks of streams and syslog, sockets, threads and process control, the Bison
-- grammar of the configuration, the Flex scanners, the daemon's main program and its receiver on
-- a Unix socket.
pub mod Base
pub mod Stream
pub mod Decimal
pub mod Facility
pub mod Severity
pub mod Roll
pub mod Packet
pub mod Message
pub mod TextForm
pub mod Filter
pub mod Sender
pub mod Loopback
pub mod Source
pub mod Table
pub mod Sockets
pub mod LoopbackReceiver
pub mod LoopbackSender
pub mod Receiver
pub mod SenderThreads
pub mod Sinks
pub mod Logger
pub mod Exchange
pub mod LogFile
pub mod LogFiles
pub mod FileLogger
pub mod Command
pub mod Reader
pub mod Examples
