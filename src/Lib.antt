-- ===== src/Lib.antt =====
-- The C core of the UPnP development kit: its timer, buffers, tables of subscriptions and handles, and
-- the parsers of SSDP packets, HTTP messages and URIs, and the device's side of eventing. Strings are lists of bytes without their terminator, `int` and `time_t`
-- are integers (`Prelude.Int`), a 32-bit wrap-around is written out.
--
-- The parts and their files:
-- - Prelude and its children: the shared helpers; no code of the program.
-- - Codes: the result codes of inc/upnp.h, and the table of messages with `UpnpGetErrorMessage` of
--   src/api/upnptools.c. The other parts return these codes.
-- - Timer: src/genlib/timer_thread/timer_thread.c. A function is one critical section of its mutex, on
--   the record `Timer`; `timer_turn`, `wait_over` and `after_wait` are the pieces of `TimerThread`,
--   `stop_begin`, `stop_next` and `stop_end` those of `StopTimerThread`. Timer.Queue states what the
--   sections do to the queue, Timer.Turns runs the rounds of the two loops one after the other,
--   Timer.History puts the sections into a step relation, with any interleaving of callers, the timer
--   thread and the shutdown, and Timer.History.Fate has its invariants.
-- - Membuffer: the `membuffer` functions of src/genlib/util/membuffer.c, on a block of bytes. A write
--   outside of the block, a write through NULL and a failed assertion are `none`; the two outcomes of
--   `realloc` and the bytes of fresh memory are an argument (`Heap`).
-- - ClientTable: src/genlib/client_table/client_table.c. Freeing a subscription takes its renewal out of
--   the Timer.
-- - ServiceTable: the services of a device and their subscriptions, of
--   src/genlib/service_table/service_table.c. ServiceTable.Traversal states the loop in which
--   src/gena/gena_server.c goes through the subscriptions, ServiceTable.Lookup the removal and lookup,
--   ServiceTable.ByUrl has the searches by the path of a URL, which use Http.Uri.
-- - Ssdp: src/ssdp/ssdpparser.c, with the use of its result in `TransferResEvent` of
--   src/ssdp/ssdplib.c. Ssdp.StartLine is `CheckHdr`, Ssdp.Names and Ssdp.Headers the functions of
--   `FunList`, Ssdp.Analyze `AnalyzeCommand`. `none` is a read through NULL or a copy past an array.
-- - Http: the parsing of messages and URIs in src/genlib/http_client/http_client.c. A pointer and the number
--   of bytes that may be read from it are one list, a token is the bytes that it covers. Http.Text has the
--   lexical functions, Http.Message status lines, headers and responses, Http.Request
--   requests, Http.Uri `parse_uri`, with `gethostbyname` as a parameter; Http.Lines, Http.RoundTrip,
--   Http.RequestTrip and Http.Absolute read back what is put together from its parts, Http.Bounded has the end
--   of the loop over the headers.
-- - Api.Handles: the table of handles and `UpnpRegisterClient` of src/api/upnpapi.c. It holds lists of
--   ClientTable and the service tables.
-- - Api.Device: the calls of src/api/upnpapi.c for a device's application, which guard those of Gena, the
--   limits on subscriptions, and the end of the registration.
-- - Gena: src/gena/gena_server.c, and `genaCallback` of src/gena/gena_callback.c, on the table of
--   handles. Gena.Event has the texts of an event, Gena.Notify the loop of `genaNotifyAll`, Gena.Calls the
--   calls of the application, Gena.Thread `genaNotifyThread` in its two stretches under the mutex and
--   `genaNotify` between them, Gena.Callbacks `createURL_list`, Gena.Replies the replies, Gena.Requests
--   UNSUBSCRIBE and the renewal, Gena.Subscribe the new subscription and the choice by method. What the
--   library gets from outside in a call (memory, clock, resolver, `sscanf`, thread pool, sockets, the
--   identifier of a new subscription) are arguments. Gena.Order puts the events of one subscription and
--   their jobs into a step relation, Gena.Kept all calls on one table, Gena.Directory sees the subscriptions
--   as a map from identifiers, and Gena.Initial has the first event of a subscription.
--   Gena.Client is `genaUnregisterClient` of src/gena/gena_client.c with `UpnpUnRegisterClient`, and
--   Gena.Client.Unsubscribe `genaUnSubscribe`, with the result of `transferHTTP` as an argument.
--
-- Fuel: `drain`, `stop_calls`, `visit`, `notify_loop` and `unregister_loop` use up one unit per event
-- or subscription and one at the end, so more fuel than there are entries is enough, and their
-- theorems ask for no more, `notify_all` gives just that; `split_lines` uses one per line. `digits`
-- writes ten digits at most, enough for an `int`. `header_loop` counts the headers that there is
-- memory for. All other loops are structural.
--
-- Not modelled: allocation beyond its outcome, the debugging output, the mutexes and conditions beyond
-- the critical sections they make, sockets and threads; the C++ parts (DOM, HTTP server, thread pool);
-- that the texts of an event are freed with its last job; the rest of src/gena/gena_client.c,
-- src/soap, the socket functions of src/genlib/http_client, and the rest of src/api and src/ssdp.
pub mod Prelude
pub mod Codes
pub mod Timer
pub mod Membuffer
pub mod Ssdp
pub mod ClientTable
pub mod ServiceTable
pub mod Api
pub mod Http
pub mod Gena
