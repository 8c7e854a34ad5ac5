-- ===== src/Lib.antt =====
-- A model of the core of cppsp-ng, a library for HTTP servers in C++, with the theorems that make it correct.
--
-- The parts, and how they interact. A connection handler (cppsp.C) hands the bytes that come from a socket to a
-- request parser (include/cppsp-ng/httpparser.H: `beginAddData`, `endAddData`, `readRequest`), copies the parsed
-- request (`copyRequest`), splits the query string off its path (`parseQueryString`, with the cursors of
-- include/cppsp-ng/split.H and the URL decoder of stringutils.C), and asks a cache of routes (route_cache.C)
-- for the handler of the request. A handler fills in the response (`Response`), with the escape functions of
-- stringutils.C, and calls `finish`, which composes the head (`composeHeaders`, with the date that the worker
-- writes with `rfctime2`) and hands it to the socket with the body; the handler of a static file
-- (static_handler.C) sends the file, which a manager keeps loaded; or the handler takes the connection over
-- for a web socket (websocket.C, include/cppsp-ng/websocket.H), which parses frames with `WebSocketParser` and
-- queues them with `FrameWriter`.
--
-- The files:
--   Base       the names of the libraries passed on; lists, bytes, searches and memory
--   Split      `split` and `optionParser`: the rest of a text, none for a null pointer
--   Url        `doURLDecode`, `urlDecodeImpl`, `urlEncodeImpl` and the hexadecimal digits
--   Markup     `htmlEscapeImpl`, `htmlAttributeEscapeImpl`, `jsEscapeImpl`
--   Query      `parseQueryStringImpl`, and the method `parseQueryString` of the connection handler
--   Http       `HTTPParser`: its state and operations (Defs, Read), its invariant (Valid, Line, Preserve),
--              data that comes in pieces (Extend, Resume, Place, Later), and the room in the buffer (Room)
--   Request    `Request`, `copyRequest`, `ci_equals`, `ci_compare`, `ws_iswebsocket`
--   Cache      `RouteCache`, and the lookup of a handler in `processRequest`
--   Decimal    `itoa64`, `itoa1`, `itoa2`
--   Date       `rfctime2` and `rfctime` of stringutils.C, and the date of `Worker::timerCB`
--   Response   `Response` (Defs), and what `composeHeaders` makes (Head, Added, Branches, Compose)
--   Connection `ConnectionHandlerInternal`: its callbacks (Defs), the state between them (Safe), the reply (Reply),
--              that every callback leads on (Answer, Steps), `scratchArea` and `ObjectPool` (Scratch)
--   Static     `StaticFileManager` and `FileRef`: the state (Defs), the operations (Files, Loading, Manager), the
--              list of loaded files (Links, Unlink), what holds of all of it (Valid), the operations on valid
--              states (Unlist, Forget, Unload, Purge, Load, Reload, Create, Release) and all states that are
--              reached (Steps); `StaticFileHandler` (Send), `loadMimeDB` and the types of files (Mime)
--   WebSocket  `WebSocketParser` (Parser) with its room (Room), its bounds (Bounds) and what it makes of a frame
--              (Unmask, Step, Laid, Receive), the frames of RFC 6455 (Wire), `htonll` (Words), and
--              `FrameWriter` (Writer, Append, Queue)
-- Each has a module Tests with runs and the theorems at concrete states.
--
-- How the code is modelled. Bytes are numbers below 256, texts are lists of them, and a buffer is a function of
-- the index with its size beside it. An operation on an object takes its state to a new one; a pointer into the
-- object's buffer is an index. An index that may be -1 is an option. Arithmetic on `char`, and the size counters
-- of the escape functions, wrap; so do the `int` sizes that `upsize` of the frame parser and
-- `scratchArea` double, which are given by their 32 bits; any other `int` that holds a place in a buffer or a length is a
-- number, as buffers stay far below 2 ^ 31. An exception and a failed assertion are results. Words in memory are those of a
-- little-endian machine.
--
-- A pointer to a loaded file is its address, and the heap of files a function of it. Callbacks are steps: an event
-- ends an operation that is under way and runs the callback, which may begin another.
--
-- Bounds and fuel. `readRequest` is given one round more than there are bytes to read, `doURLDecode` one more
-- than its input has bytes, a loop over `split` two more: each round uses up at least one byte, and that
-- this is enough is part of the theorems; so is it for the doubling in `upsize` and `scratchArea`, which has the wanted
-- size as fuel and wraps around for sizes above those that the theorems allow, for the digits in `itoa64`, which has the number, and for `finish`, which calls itself once at most,
-- where the head does not fit, since the page for an exception has a short one.
--
-- Parameters, which stand for code outside the repository: `atoi`, `ntohll` (it undoes `htonll`), `sdbm`, `log10`
-- rounded down (right for the numbers below a bound; that of the C library is for those far above 2 ^ 31), the text that `snprintf`
-- makes, the type of handlers, the router, what the file system answers, and what fresh memory holds.
--
-- Not modelled: sockets, the event loop, listening and accepting, the clock, and the reading of files, which are I/O (what they
-- give is an event or a parameter); the reply to a web socket handshake, which is SHA-1 and Base64 of a library;
-- a `handleException` that the application has put in place of the default; the examples.
pub mod Base
pub mod Split
pub mod Url
pub mod Markup
pub mod Query
pub mod Http
pub mod Decimal
pub mod Date
pub mod Request
pub mod Response
pub mod Static
pub mod Connection
pub mod Cache
pub mod WebSocket
