-- ===== src/Lib.antt =====
-- Verification library of kem-make, an implementation of the KEM-MAKE handshake.
--
-- The program. Two peers hold one `Session` each (src/kem_make/session.py): a state machine that an
-- application feeds with PDUs (`post_pdu`) and payloads (`post_payload`), cranks with the time
-- (`update`), and drains (`get_pdu`, `get_payload`). The PDUs are DER structures that
-- src/kem_make/bottom.py builds and loads, with the check of canonical encoding of
-- src/kem_make/common.py. A `CandidateStore` (src/kem_make/candidate.py) bounds the unauthenticated
-- state that incoming first messages may make. A `Dispatcher` (src/kem_make/dispatcher.py) holds many
-- sessions and routes PDUs to them. A `KeyDirectory` (src/kem_make/keystore.py) keeps the static keys
-- on disk, and is the key store that a session looks keys up in.
--
-- The files.
--   Errors: the exceptions of all parts as one type, and `Result` for a call that may raise.
--   Candidates: candidate.py, one function for each method; the store comes back changed. Expiry,
--     Adding, Invariant and History hold the lemmas and theorems.
--   Wire: bottom.py and common.py; Algorithms has the tables, Messages the structures, Canonical
--     and Lengths the theorems. `Der` is asn1crypto for one structure: a parser that may refuse, with
--     any exception, and an encoder that does not for what was built or parsed. Its documented round
--     trip is a hypothesis, `RoundTrips`, where it is used.
--   Session: session.py. State has the attributes as a record and a method call as a function from
--     a session to a result and a session, so that what was written before a raise stays written.
--     Backend has the plumbing around the third-party cryptography, which is a record of functions;
--     randomness is an argument. Answers computes what the handlers need, Handlers writes it,
--     and Session itself has the dispatch, the timeouts and the crank. Laws states what the
--     cryptography promises; Handshake, Outcomes, Retries, Traffic and Nonces hold the theorems.
--   Dispatcher: dispatcher.py. State has the attributes, draining, promotion, reaping and the
--     reconciliation with the candidate store; Routing what `post_pdu` does with a PDU; Crank the
--     loops of `update`; Dispatcher itself the public methods. A session object is written back to
--     the map in which the code found it. Isolation, Promotion, Exclusion,
--     Reachable and Starvation hold the theorems.
--   CryptoBackend: crypto_backend.py, over the package's operations as a record of functions; Checks
--     holds the theorem.
--   KeyDirectory: keystore.py. A disk is three folders, a folder a dict from names to files; Files
--     has `_atomic_write` as its system calls, with a fault at any of them and at the `unlink` that
--     follows one, and what a stop does to a content that is not synced, Records the files' structures
--     and their `load`, Derivation the key derivations and tags, State the open directory with its
--     paths, Entries what is read and checked of public keys and the index, and KeyDirectory itself
--     the public methods. A call returns its result and the directory, so that what was written
--     before a raise stays. Ledger is the abstract view that the calls are compared with: two maps
--     from names to keys. Invariant, Lifecycle, Refinement and the other modules hold the theorems.
--   Integration: session.py over keystore.py, with a key directory as the `KeyLookup` of a session.
--   Samples: an encoder and a toy cryptography that keep all the laws, for the examples.
--   Base: names of the library, Boolean tests, lists, and an association list for `dict`.
--
-- Numbers. Times are natural numbers in a fixed unit where the program has floats, which it only
-- adds and compares. Bytes are lists of numbers. A nonce is made only below 256 to the length of
-- the IV, beyond which Python raises OverflowError, as the model does. There is no fuel: all loops
-- run over lists. Randomness is drawn from a stream, `uuid4` included.
--
-- Not modelled: faults of calls that only read the disk, a machine that stops in the writes of
-- `create` or `key_id_for`, index entries whose text is not a plain file name, and a file
-- system that reorders changes of names and modes; asn1crypto, `cryptography`, hmac, hashlib, uuid,
-- tempfile and os.urandom are parameters or arguments.
mod Base
pub mod Errors
pub mod Candidates
pub mod Wire
pub mod Session
pub mod Dispatcher
pub mod CryptoBackend
pub mod KeyDirectory
pub mod Integration
pub mod Samples
