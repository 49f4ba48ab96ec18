-- ===== src/Lib.antt =====
-- A model of exasol-driver-go, the database/sql driver for Exasol, with the theorems on it.
--
-- A program opens a connection by a data source name (pkg/dsn), which becomes the configuration of
-- a connection (internal/config). The connection logs in over a websocket and then sends requests
-- and reads responses (pkg/connection, pkg/types); queries return result sets that fetch their rows
-- from the server, and prepared statements send their arguments by columns. A statement that imports
-- local files starts a proxy, over which the database reads the files while it executes the
-- statement (pkg/connection/import.go, pkg/proxy).
--
-- Files:
--   Base          shared names: bytes, lists and tests over the native numbers, Go's int
--   Result        the outcome of a call: a value, an error, or a panic
--   Errors        pkg/errors/errors.go
--   Logger        SetLogger of pkg/logger/logger.go
--   Text          what the driver uses of strings, strconv, fmt and regexp: Decimal has numbers,
--                 Pattern the parts of a regular expression, each as the list of its matches in
--                 the order that regexp prefers; Laws, Words and Ways prove
--   Config        internal/config/config.go
--   Dsn           pkg/dsn/dsn.go, pkg/dsn/converter.go, the constructors of driver.go; Print is
--                 ToDSN, Parse is ParseDSN, the other children prove
--   Hosts         ResolveHosts and ParseRange of internal/utils/helper.go; Shuffle is ShuffleHosts,
--                 the other children prove
--   Driver        driver.go; Connecting is Connect of a connector, Opening and Reading prove
--   Fingerprint   the verification of a certificate in pkg/connection/wsconn/wsconn.go
--   Types, Wire   pkg/types, and the interface to the socket and the codecs; Json has the values
--                 that are marshalled, Encode the requests by their tags, Decode and
--                 Requests a reader of requests, and RoundTrip proves
--   Connection    the state of pkg/connection/connection.go; Send is websocket.go, Query the
--                 statements, Login the login, Connect the way to a host, with the configuration
--                 of TLS in Tls; Exchange is Send with its goroutines as interleaved steps, of
--                 which Sequential, Channels, Stale and Closed prove; Frame, Session, Closing,
--                 Reach and Pinned prove
--   ResultSet     pkg/connection/result_set.go; Serve, Window and Drain prove
--   Prepared      the layout of arguments; Columns, Layout and Mod prove
--   Statement, Transaction   pkg/connection/statement.go and transaction.go
--   Effect        the outcomes of code that works on a network, in sequence
--   Proxy         pkg/proxy/proxy.go; Chunk is the chunked writer, Send the transfer of files, Start
--                 the handshake; Decode reads a chunked body, Lines, Delivery, Received, Success,
--                 Handshake and Marks prove
--   Import        pkg/connection/import.go and exec of connection.go; Query is the reading and the
--                 rewriting of import statements in internal/utils/helper.go, the others prove
--   Lifecycle     the calls on a connection as steps; Frames, Handles and Open prove
--   Tests         runs on the inputs of the repository's tests, and the theorems at inputs
--
-- How the model corresponds to the code. A Go string is a list of bytes. A method of a connection is
-- a function from the connection to an outcome and the connection after it; a field websocket that
-- is not nil is the flag connected. A pointer to a Boolean is an Option, a nil slice of arguments is
-- told apart from an empty one, and a nil map of parameters is the empty list. A panic is an outcome
-- of its own. An int is an integer with a predicate for the range of 64 bits; counts of rows and
-- columns and identifiers are numbers. The loops are recursions on lists or on numbers that the
-- code counts down, but for those on fuel: the printers of decimal and hexadecimal numbers, for which
-- the number itself is enough, and the loop over a range of hosts, for which its size and one more
-- step are enough, if the range ends below the largest int.
--
-- What is not under the repository's own code is a parameter: Wire holds the socket of
-- gorilla/websocket, the text of JSON, zlib and the cancellation of contexts, Host the operating
-- system and the encryption of passwords, Network the dial, the numbers drawn for a shuffle and
-- SHA-256, Tcp the socket of an import, Machine the files and what else an import asks of its
-- surroundings. Errors keep the parts that error-reporting-go renders to text.
--
-- Three things are simpler than in the code. The configuration of a connection is a value of its own,
-- while in the code it is a pointer that the connector and its other connections share: what a login
-- changes in it is seen here in the connection that logs in alone. Reading a message always returns:
-- a receiver that waits for a message that never comes is one that takes no step in Exchange, and has
-- no counterpart in Send. A file whose reading failed once gives no further bytes.
--
-- Not modelled: what is logged, and the use of one connection by two callers at once, which
-- database/sql rules out. A Send is a call, and once more a sequence of steps, in which the
-- receivers of cancelled calls take part; the other methods are built on the former, so that
-- Connect and Close are no steps of Exchange, and in a Lifecycle such receivers run between the
-- calls. The two goroutines of an import are called one after the other, since the one works on
-- the connection alone and the other on the proxy alone; a Schedule has the shared context and
-- which of two errors comes first. The test doubles and the examples have no part in it.
mod Base
pub mod Errors
pub mod Logger
pub mod Result
pub mod Text
pub mod Config
pub mod Driver
pub mod Dsn
pub mod Fingerprint
pub mod Hosts
pub mod Effect
pub mod Proxy
pub mod Import
pub mod Lifecycle
pub mod Types
pub mod Wire
pub mod Connection
pub mod ResultSet
pub mod Prepared
pub mod Statement
pub mod Transaction
mod Tests
