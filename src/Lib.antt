-- ===== src/Lib.antt =====
-- libABK, the automotive broadcast kit: a server (ServerLib) offers variables, trends and events of
-- a data logger to clients over HTTP, in requests and replies that are JSON texts. This library is
-- about the two classes through which all of them pass, about parts of the server on top, and about
-- the HTTP server that the repository brings with it.
--
-- Parts, and the files that model them:
--   Common: numbers, lists and tests that the others share; no code.
--   Json.Escape: the two overloads of `operator <<` for texts in Common/JsonFormatter.cpp.
--   Json.Stream: `CJsonStreamBase`, `CJsonStreamArray`, `CJsonStreamObject` and `CJsonFormatter` of
--     Common/JsonFormatter. Stream/Close is about `Close`, Stream/Wrote about what each call
--     appends, Stream/Writer about a client that writes a whole document, Stream/OpenChild about
--     a text that is taken while an array is open, Stream/Text about the
--     values without quotes.
--   Json.Unescape: `UnescapeString` and `CompareUnescapedString` of Common/JsonParser.cpp, with
--     their buffer (Unescape/Buffer) and against the formatter (Unescape/RoundTrip).
--   Json.Scan, Json.Parser, Json.Item: the scanners, the class `CJsonParser` with `Restart` and
--     `Iterate`, and the tests and extractions of the actual item, with `SkipItem`.
--   Json.Document: documents, and the text that stands for one: the specification that the writer
--     and the reader share. Json.Reading: the items that a parser shows for a document, and the
--     reading of a printed document. Json.RoundTrip: the formatter against the parser.
--   Json.Progress, Json.Faults, Json.Naming: `Iterate` on any text, with its stack of containers
--     (Progress/Stack), the texts on which it leaves its memory (for deep ones Reading/TooDeep), and
--     what names and Booleans are accepted.
--   Server.Collector: a formatter with one open array, which a queue of events and a trend both
--     keep. Server.EventQueue: ServerLib/EventQueue. Server.Trend and Server.ValueList:
--     `CDaqTrend` with its feeding, and `CDaqList` and `CDaqMAM`, of ServerLib/Daq.
--     Server.ValueTable, Server.Meta, Server.Dependants: the value table, the meta data
--     and the trends of a variable, in ServerLib/VarRef. Server.LogQueue: Common/LogQueue.
--   Server.Dispatch: the handler table of ServerLib/LoggerIf.cpp, its sorting in the constructor of
--     `CLoggerInterface`, and `HandleHttpRequest` up to the call of the handler.
--   Server.Sessions: the session map of `CLoggerInterface` with `GenerateSession`, `GetSession`,
--     `DeleteSession`, `DeleteAllSessions` and `OnGetClientRole`, and the life time of a `CSession`
--     of ServerLib/Session.cpp. A list of calls is what the threads of the server do to it.
--   Server.Daq: what the client of a session has ordered. Server.Poll: `FireEventToClient` and
--     `Handle_EventPolling`. Poll/Orders and Poll/Spec are the specification, in which what waits
--     for a client is a list of values and of orders without streams; Poll/Reply is about one poll,
--     Poll/Runs about the life of a session.
--   Server.Requests: the loop over the items of a request, `Handle_PostSession`, and `Decode`,
--     `FormatAnswer` and the loop of `Run` of ServerLib/DiscoveryServer.cpp. Requests/Members is
--     about the loop, Requests/Replies and Requests/Answer about what is replied.
--   Server.Statistics, Server.Information: the replies of `Handle_GetVarList` and
--     `Handle_InterfaceStatistic`, and those about the server and its client.
--   Server.Query: `DecodeUriValue`, and the `GetSession` of a query string.
--   Server.System: the sessions under all of these together.
--   Http: the class `CHttpServer` of HttpServerLib/HttpServer. Http.Options: the map of options for
--     urls with `AddUrlOption` and `FindUrlOption`; Options/Longest is the specification, the longest
--     start of a url that has options, and Options/Calls is about any calls; options are kept under
--     their url with a slash behind it. Http.Escape:
--     `UnescapeString`. Http.Completeness: `TestRequestCompleteness`, and Completeness/Framing about
--     requests that arrive in pieces. Http.Files: `HandleFileRequest`. Http.Message:
--     `ParseAndHandleRequest`; Message/Parts is about the parts of a request, Message/Handling about
--     who answers it. Http.Connection: `Send` and `ConnectionThread`; Connection/Sending and
--     Connection/Counting are about these, Connection/Exchange about requests that are served one
--     after the other (Exchange/Service), and about one that is not answered (Exchange/Stalled). Http.Server puts the thread and the handling of requests together.
--     Http.Status, Http.Numbers, Http.Text: texts of status codes, decimal numbers and the searches
--     in texts that these share.
--   Tests: the theorems at concrete documents.
--
-- Correspondence. A definition has the name of its function, in lower case with underscores;
-- overloads are told apart by a suffix or an argument. A text is the list of its bytes in front of
-- the NUL, and a `const char *` into it the list of the bytes from there on; NULL is `none`. The
-- objects of one formatter live in a store and are named by numbers, since children and parents
-- point at each other; a destructor is `close`, and the store keeps the destroyed object. All
-- objects of a formatter share its string stream, so `m_pDump` is the one field `dump`.
--
-- Assertions. One that guards an array bound or a pointer is a fault of the model where it fails.
-- Any other is taken as in a build without assertions, as at the escape `\u`, in `SkipItem` at the
-- nesting level zero and in `AddTrend` for a trend that is there.
--
-- Fuel. `close` walks a chain of children, each constructed after its parent, on as much fuel as
-- objects were constructed and one more. `skip_item` and `run_to_done` answer `none` when their fuel
-- runs out; the theorems about them say how much is enough, or that no fuel is.
--
-- Threads. A call holds a mutex, so that it is one step of the model. A turn of the expiration
-- thread releases the lock of the session before it deletes it: in Server.System these are two steps,
-- between which others may come, and in the lists of calls of Server.Sessions a turn is one step that
-- nothing interrupts. The assertion that no request is in progress then is left out. A session id is
-- counted without the bound of `int`. `DeleteSession` gives up after its retries when a request
-- is still in progress; the request is not in progress, or it is so during all of them. The search
-- for a handler has as much fuel as the table has entries and one more, and the loop over the items
-- of a request as much as the request has bytes and two more.
--
-- The HTTP server. `std::string` may hold NUL, and `c_str()` is then written out as `until_nul`. The
-- files are a parameter, `Disk`, over a world which the handlers of urls may change too. What wakes
-- the thread of a connection up, and what `WSASend` answers, are lists; where these end before a call
-- does, the model answers `none`, as where a handler reads in front of a text. `size_t` has 64 bits,
-- and a status code is not negative.
--
-- Not modelled: dates (`FormatDate`, `ScanDate`); floating-point numbers, for which the type
-- `double`, `sscanf` and the format of `std::ostream` are parameters; the format of log messages,
-- mutexes, timers and sockets, and the parts of the repository that stand on them: the handlers of
-- the logger interface that decode lists, variables and events of clients, the accept
-- thread with the start and stop of the HTTP server, the clients and the example programs. Requests
-- whose members hold arrays or objects are decoded by the model, but not covered by the theorems
-- about requests.
pub mod Common
pub mod Json
pub mod Server
pub mod Http
mod Tests
