-- ===== src/Lib.antt =====
-- tezsign is a remote signer for Tezos bakers. A host sends requests over a USB link to a gadget
-- that holds BLS keys; the gadget signs consensus payloads and keeps, for each key and each kind of
-- payload, the highest level and round that it has signed, in memory and on disk.
--
-- The parts that are modelled, and how they work together:
--
--   Prelude    Boolean tests, lists and byte orders over the native numbers, for all other files.
--   Broker     broker/: the link. Wire is the frame header (wire.go, constants.go, errors.go);
--              Stash is the buffer of received bytes and the loop that cuts messages from it
--              (stash.go, and processStash of broker.go); Session is the rest of broker.go, with
--              waiters.go: requests that wait, the dispatch of messages, the queue of frames, and
--              the write and read loops.
--   Keychain   keychain/: Kinds are the kinds of payloads and their marks (keyring.go,
--              state.pb.go); Decode is DecodeAndValidateSignPayload (decode.go); KeyState, HwmFile
--              and HwmWorker are the file of marks, from its plain text to the worker that writes
--              its two slots in turn (key_hwm_file.go); Key is one key with signAndUpdate, setLevel,
--              unlock, lock and status (keys.go), and Key.Life its states from start to start, as a
--              step relation; Ring is the map of keys and the operations on it, with the status of
--              all keys (keys.go, keyring.go); Create is CreateKey (keyring.go); Store is FileStore:
--              the master file, the seed, the reservation of indices and the directories of the
--              keys, and Bundle the file of an encrypted key (store.go). Crypto is the interface to
--              AES-GCM, with its documented laws, and the checksum of hash/crc32.
--   Signer     signer/: Scalar are scalars as bytes, and what is taken from the hashes and from blst; Text
--              are the texts of keys, signatures and addresses (signer.go); Hd is the derivation of
--              keys from a seed (hdbls.go).
--   Gadget     app/gadget/: Limiter is the limit on attempts that need the password (limiter.go);
--              Handlers are the requests of the two USB interfaces to keys that exist, and their
--              routing; Management are the requests for new keys, the status and the set-up
--              (gadget.go, error_codes.go).
--
--   Host       the program on the baker's machine: Remote is a request to sign over the link
--              (common/proto.go), and Http the HTTP interface for the baker (app/host/http.go,
--              bls_encoding.go), composed with the device of Gadget.
--
-- A message reaches a key by way of Http, Remote, Broker, Handlers and Ring. Remote has the device behind
-- the link: a request or its response is lost, or it arrives. The parsing of a request's bytes is the
-- protobuf library's, and Handlers begin with the request that it makes.
--
-- Conventions. Bytes and machine words are native numbers, with the wrap-around of additions written
-- out; a slice is a list, a slice that may be nil an Option. Go's errors are data types, one for each
-- package, and a call that panics or blocks for ever has a result of its own (panic, no_return). An
-- operation on a key is one step: it holds the key's lock from beginning to end, but for unlock, which
-- reads the file before it takes the lock, and is modelled with nothing in between. The random bytes
-- and the outcome of a file operation are arguments. A file is the list of its bytes; a write that
-- fails leaves any content, which is an argument too. AES-GCM and the BLS library are parameters: of
-- the first, sealing is undone by opening and adds sixteen bytes; of the second, in Signer, that it
-- takes every scalar of the field but zero, and that a public key has 48 bytes. Argon2id and the
-- package signer are parameters of Store and Create, and Create.Library gives the latter by the
-- definitions of Signer; of Argon2id only the length of its result is assumed. The directory of the
-- store is a record of its files, with a map for the directories of the keys; a JSON file is the value
-- that it holds, less its time of creation; a written file is replaced, or left, or replaced without
-- the directory being synced, and the last two are errors.
--
-- Fuel. The loop of processStash runs on fuel, one unit for a round: one unit more than the buffer has
-- bytes is enough, wherever the loop ends at all. The write loop has one unit for an attempt, and two
-- are enough. CreateKey has one unit for a candidate: one more than the store has directories is
-- enough, as long as the counter of names does not wrap. hkdfExpand has one unit for a block, one more
-- than the bytes that are asked for; hkdfModR has one for a salt, and ends when one of them gives a
-- candidate that is not zero, which its theorem assumes of the hash.
--
-- Not modelled: the interleaving of a broker's goroutines, each of which is one step up to the point
-- where it waits, and the keep-alive timer; in Key.Life, writes that fail while the program
-- goes on, keys whose secret cannot be opened, and a set level on a key whose marks a status has made
-- zero, of which the theorems on single calls tell; the verification and aggregation of signatures, which the program does not call;
-- the handlers for the log and the version, and the parsing of requests; the host's commands and its
-- requests other than to sign, the updater, the registrar of USB endpoints and the system image, which
-- are input and output; generated code.
pub mod Prelude
pub mod Broker
pub mod Keychain
pub mod Signer
pub mod Gadget
pub mod Host
