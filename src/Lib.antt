-- ===== src/Lib.antt =====
-- slivingdoc keeps a notebook of documents in an object store: every accepted state is a Git
-- commit, stored as packs, and one object, `current`, holds the manifest that names the packs. A
-- workspace pulls the accepted state, merges it with local edits, and publishes the result by a
-- conditional write of the manifest. The library models the program's own rules: what a manifest
-- must satisfy and how it is read and compacted, how pack keys are written and read, which paths a
-- notebook may hold, which of them a policy protects, and how conflict markers are found.
--
-- Parts and files:
-- - internal/storage/key.go, uuid.go, sha256.go and internal/git/oid.go: Storage/Key (types and
--   `Key.String`), Storage/Parse (`ParseKey`, `ParseUUIDv7`, `ParseOID`, `ParseSHA256`).
-- - internal/storage/manifest.go: Storage/Manifest/Types (the structs), Storage/Manifest/Check
--   (`validateManifest`, its maps passed on as a state), Storage/Manifest/Valid (the description that
--   the checks refine), Storage/Decode (`DecodeManifest` from the value tree on) and
--   Storage/Decode/Encode (the tree that the struct tags and `MarshalJSON` give).
-- - internal/strictjson/json.go: Storage/Json (the value tree and its look-ups) and Storage/Strict
--   (`Parse` over the tokens of encoding/json).
-- - internal/notebook/checkpoint.go: Notebook/Checkpoint (`planCheckpoint`, `prefixPresent`,
--   `compactManifest`, `manifestRoots`). A compaction is planned on one manifest and applied to a later
--   one, after publications by others; its result must pass `validateManifest` for every reader.
-- - internal/git/path.go: Git/Path (`ValidatePath`, `ValidateContent`).
-- - internal/git/readonly.go: Git/Entries; internal/git/policy.go: Git/Policy (`NewPolicy`,
--   `Protects`).
-- - internal/git/merge.go: Git/Markers (`FindConflictBlocks`, `formatDeleteConflict`).
-- - internal/git/path.go: Git/Snapshot (`ValidateSnapshot`, `FoldedDirectoryPairs`); the rest of
--   internal/git/readonly.go: Git/Pin (`Pin`, `ChangedUnder`).
-- - internal/storage/key.go and name.go: Storage/Names (`ValidatePrefix`, `JoinKey`,
--   `ValidateNewSpaceName`); internal/storage/metadata.go: Storage/Metadata.
-- - internal/notebook/commit.go and remote.go: Notebook/Publication (`buildProposal`,
--   `buildCompactingProposal`, `publicationIn`). A proposal is built on the remote state that was read,
--   and a conditional write publishes its manifest or refuses it.
-- - internal/notebook/checkpoint.go: Notebook/Cleanup (`cleanupPacks`), over a store with a state. It
--   runs on fuel, the number of keys; each batch takes at least one.
-- - internal/storage/upload.go: Storage/Upload (`UploadUnique`, `VerifyObject`), over a store with a
--   state; internal/notebook/backoff.go: Notebook/Backoff, where a duration is 64 bits.
-- - internal/storage/store.go: Storage/Store (the conditional writes of `ObjectStore` and their
--   contract, for one client and for one beside others); internal/storage/fake/fake.go: Storage/Fake, which keeps it.
-- - internal/storage/manifest.go and internal/notebook/encryption.go: Storage/Current
--   (`EncodeManifest`, `ClassifyCurrent`, `WrapCurrentEnvelope`, `decodeStoredCurrent`).
-- - internal/notebook/commit.go: Notebook/Publish (`publish`, `lookupPublication`,
--   `checkpointAccepted`, `discardCompaction`), Notebook/Attempt (`attemptPublication`) and
--   Notebook/Commit (the loop of `commit`). The loop runs attempts, an attempt calls the operations of
--   the workspace and the merge through an interface (`Steps`) and publishes on a store.
-- - Notebook/History: the interleavings of commits and checkpoints of several writers, as a relation
--   of steps. It is no function of the source: its steps call the functions that make the manifests,
--   and their guards are the precondition of the write and the check of `EncodeManifest`.
-- - internal/crypt/envelope.go: Crypt/Wire (the reader and big-endian numbers), Crypt/Envelope
--   (`decodeEnvelope`, `encodeHeader`, `assembleEnvelope`); header.go: Crypt/Door (the doors and what
--   authenticates them) and Crypt/Wrap (`WrapKey`, `UnwrapKey`); the payload (`sealPayload`,
--   `openPayload`): Crypt/Payload; kdf.go: Crypt/Kdf.
-- - internal/recovery/code.go: Recovery/Wordlist (the binary search `index`; each turn narrows the
--   range, so its length is enough fuel) and Recovery/Words, the list of wordlist.go.
-- Bounds: a `uint64` is a natural number, its sums are taken modulo 2^64 (`add64`), and a number that
-- is parsed is below 2^64. `decimal` runs on fuel 20, one for each digit a `uint64` can have. Byte
-- strings are lists of numbers, and the arrays of ids and digests are byte strings too; where the
-- length of an array matters it is a hypothesis (`IsBytes`). The loop of `commit` has fuel for one
-- turn for each attempt and one for the strict reload, `cleanupPacks` has the number of keys, the
-- search of a word has the length of its range, and the parse of a JSON text has three calls for each
-- token. All other loops are structural recursion.
--
-- Parameters: the id library github.com/google/uuid (`UuidLibrary`), the Unicode functions of
-- golang.org/x/text (`TextLibrary`), the local repository that libgit2 keeps (`Repository`) and
-- the object store (`ObjectStore`, `CleanupStore`, `UploadStore`), the texts and the tokens of
-- encoding/json and the texts of encoding/base64 (`TextLibrary` of Storage/Current), with the digest of crypto/sha256, the
-- cipher of golang.org/x/crypto (`Aead`), its key derivation (`KdfLibrary`) and crypto/hmac. Error
-- messages are constructors, one for each message, or a single one where callers only see that the
-- operation failed.
--
-- Not modelled: pulls, the import of packs and the merge itself; the network adapters,
-- libgit2, the MCP server, the commands and their settings, which are input, output and glue;
-- the keyring and the workspace's files; the bits and the checksum of a recovery code; the scanner
-- of encoding/json, so that a text is what its tokens are.
--
-- Each folder has a module Samples with runs of its operations.
pub mod Base
pub mod Storage
pub mod Git
pub mod Crypt
pub mod Notebook
pub mod Recovery
