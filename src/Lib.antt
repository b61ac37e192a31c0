-- ===== src/Lib.antt =====
-- go-pkicmp-ng: a library for the Certificate Management Protocol (RFC 9810, RFC 9483).
--
-- The program. Package pkicmp holds the messages, their encoding, protection and verification.
-- Package server answers messages: it verifies the protection of a request, checks its header,
-- registers its transaction, asks a handler, and records what it answers until the client confirms.
-- Package client runs the other side: it sends a request, polls while the server asks it to wait, and
-- checks and confirms the certificate. internal/certpath finds a chain for a certificate.
--
-- The files.
--   Prelude: lists, byte strings and integers over the native numbers, association lists, results.
--   Pkicmp/Types, Message, Status: the parsed data (pkicmp/types.go, pkimessage.go, crmf.go,
--     revocation.go, status.go). A body is the result of its accessor, none where that fails.
--   Pkicmp/Algorithms, Algorithms/Confirmation: pkicmp/algorithms.go. Pkicmp/Pop: pkicmp/pop.go.
--   Certpath: internal/certpath/certpath.go. Certpath/Spec says what a trusted path is.
--   Pkicmp/Errors, Der: pkicmp/errors.go and the AlgorithmIdentifier of types.go.
--   Pkicmp/Protect, Credentials, Sign, Verify: pkicmp/protect.go, credentials.go and verify.go: MACs,
--     the credentials and their options, signatures, and PKIMessage.Verify.
--   Client/Config, Wait, Http, Response, Exchange, Poll, Enroll: client/client.go, errors.go and
--     transport.go: the settings, clampCheckAfter, sendHTTP, the checks of a response, one exchange,
--     poll, and enroll with the certConf that confirms or rejects.
--   Server/Entry, Tracker: server/transaction.go. The sync.Map is an association list whose cells
--     carry addresses, since CompareAndSwap compares pointers. Tracker/Races interleaves goroutines
--     at the atomic operations.
--   Server/Config: server/handler.go, errors.go, options.go. Env holds the functions of the standard
--     library and of the composite key library.
--   Server/Response: the replies of server/response.go and protection.go.
--   Server/CertRequest, PollReq, CertConf, Revoke: handleCertRequest and handlePollReq of
--     server/response.go, handleCertConf of server/confirm_poll.go, handleRevocation of
--     server/revocation.go.
--   Server/Crmf, Revocation, Ca, Policy: server/certrequest.go, revocation.go, ca.go, lwpolicy.go.
--   Server/Protection, Header, Process: the verification of server/protection.go, server/server.go
--     and nested.go.
--   Tests: runs on small inputs.
--
-- The state. A server's state is its tracker and the log of what was asked of its CA, newest first. A
-- handler is a function of the context, the request, the sender and the log, and gives its answer and
-- the new log. A client's state is the log of the messages it sent and of its waits, newest first, and
-- the network answers as a function of it. The readings of the clock and of the random source are
-- inputs of a request. A nil dereference is the outcome panicked. A polling or an enrollment that
-- gives neither a value nor an error, as the code does for an error message with the status accepted,
-- ends with no_error.
--
-- Bounds. Machine integers are unbounded where the code compares them only; the lengths hashed into a
-- key wrap at 2 ^ 32, and the client's waits and its limit of a body at 2 ^ 64, as in the code. Time is
-- in nanoseconds since the zero time. The search of Certpath runs on fuel, one more than the largest
-- depth of a path, and more fuel gives the same result. The polls of Client/Poll are counted down
-- from the configured number. Every other recursion is on a list or on a number of the input. The loop
-- of setCompleted is one round, since without another goroutine it ends there; its rounds between other
-- goroutines' steps are those of Tracker/Races.
--
-- Libraries. crypto, hmac, pbkdf2, cryptobyte, encoding/asn1, crypto/x509, net/http and the composite key
-- library are records of functions, with what is documented of them as laws where a theorem needs it.
--
-- Not modelled: the DER encoding of headers and bodies (functions of MacLibrary), snapshots, the HTTP
-- handler of the server, the client's revocation and its building of requests, verificationHint, the
-- texts of errors. Server/Protection takes the verification of a message as an interface. The random
-- source does not fail: crypto/rand ends the program where it would.
pub mod Prelude
pub mod Pkicmp
pub mod Certpath
pub mod Server
pub mod Client
mod Tests
