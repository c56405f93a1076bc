-- ===== src/Lib.antt =====
-- Vuvuzela: conversations and introductions of clients that a chain of mix servers hides.
--
-- A client seals what it sends in one layer for each server of the chain, and gives the onion to the
-- entry server, which runs a round with the first server on all the onions that it has. Each server
-- takes its layer off, filters duplicates, adds noise, shuffles, and runs the round with the next. In
-- the conversation protocol the last server exchanges the messages that name the same dead drop, and
-- the replies go back the same way; in the dialing protocol it keeps the messages for the clients to
-- read by buckets.
--
-- Files, with paths from the repository's root:
--   Wire            vuvuzela.go, params.go, boxkey.go: the records that are sent, the sizes and nonces;
--   Onion           onionbox/onion.go: Seal and Open;
--   Shuffle         shuffle.go: NewShuffler, Shuffle, Unshuffle, and the draw of a number below a bound;
--   Spans           internal/span.go: the batches of a round;
--   Parallel        internal/parallelfor.go: the workers of a loop, in any order of their calls;
--   Salsa           rand/salsa20rand.go: the buffer over a stream of random blocks;
--   Pki             pki.go: ReadPKI after decoding, Index and the lookups made with it;
--   Noise           noise.go: the three fillers;
--   Filter          filterIncoming of convo.go and of dial.go;
--   Exchange        the last server's part of ConvoService.Close in convo.go;
--   Node            the state of a server process: the rounds of ConvoService and DialService, and the
--                   mutex `Idle` that they share;
--   Rpc             vrpc/client.go: Call and CallMany;
--   ConvoClient     NewConvoRound and RunConvoRound of convo.go;
--   Convo           NewRound, Open, Add (Convo), Close, Get and Delete (Convo.Close) of convo.go; the
--                   other files below it lead to a whole round of the last server (Convo.Delivery),
--                   of a server in the middle (Convo.Relay, Convo.Passing) and of these two, one
--                   behind the other (Convo.Pair);
--   DialClient      NewDialRound and RunDialRound of dial.go;
--   Dial            NewRound, Add, Close and Buckets of dial.go; the files below it lead to a whole
--                   round of the last server (Dial.Whole) and of two servers (Dial.Pair), and to what
--                   comes after a failed one (Dial.Resume);
--   Chain           Add of both services on onions sealed for any server of the chain;
--   EntryServer     vuvuzela-entry-server/server.go: requests, rounds and what clients are sent;
--   Envelope        entry_api.go: Envelop and Open;
--   Client          vuvuzela-client: conversation.go (Message, Conversation, with Varint for the part of
--                   encoding/binary that it calls), client.go (Handlers), dialer.go (Dialer), and
--                   gui.go with the check of main.go (Gui, with Text for the part of strings that it
--                   calls). A conversation's address is a position in a list.
--   Server          vuvuzela-server: the start of a process in server.go, and histogram.go (Histogram);
-- Prelude, Run, Bytes and Rounds hold lists and tests on the native numbers, the ways a Go call ends,
-- byte strings, and Go maps from round numbers. Examples has the theorems at concrete inputs.
--
-- A handler is a function from the state to the state and a `Run`: a value, an error, a panic, or a
-- call that waits. A step of a server that calls the next one is a step on both states, and a server
-- is to the one before it a record of calls (ConvoNext, DialNext), which Convo.Serve and Dial.Whole
-- fill with the handlers. Calls and rounds of loops that the program makes in parallel take effect in the order of
-- the list. Each mutex but `Idle` is held only within a step.
--
-- NaCl's box, salsa20, HMAC and JSON are not in the repository: they are the parameters `Nacl`,
-- `block`, `hmac` and `Json`, with what their documentation promises as laws. Random bytes are
-- parameters too, and so are the counts that cappedFlooredLaplace draws.
--
-- All loops are recursion on a list or on a count that the code has, but that Intn reads words
-- until one is accepted: it is recursion on the random bytes, and waits when there are no more.
-- PutUvarint and Uvarint have ten bytes at most, which a number of 64 bits fits; Read of
-- Salsa20Rand has as many rounds as bytes at most, and each copies one at least. Words of 32 bits
-- are reduced modulo 2^32 where they are stored; an int is a natural number.
--
-- Not modelled: flags, files, sockets, timers and deadlines; logging, and the views of the terminal;
-- floating point, and with it laplace.go (the histogram has the whole parts of its two shares of
-- Mu); the choice of a random source by processor in rand; null entries and keys in the JSON files,
-- which the code would follow as nil pointers.
pub mod Prelude
pub mod Run
pub mod Spans
pub mod Bytes
pub mod Shuffle
pub mod Nacl
pub mod Wire
pub mod Onion
pub mod Pki
pub mod Noise
pub mod Rounds
pub mod Filter
pub mod Exchange
pub mod Node
pub mod Rpc
pub mod ConvoClient
pub mod Client
pub mod Convo
pub mod DialClient
pub mod Dial
pub mod Chain
pub mod EntryServer
pub mod Envelope
pub mod Parallel
pub mod Salsa
pub mod Server
mod Examples
