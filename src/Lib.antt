-- ===== src/Lib.antt =====
-- A model of Go backends of imoogi-emacs (the Org-to-Anki synchronisation, the clipboard transactions,
-- the extraction of archives, moves of note directories, the event command imoogi-agent and the
-- handler of Anki links), with theorems about what they may do to a collection, a registry, a disk and an Emacs.
--
-- The program. The Emacs front end scans Org files and sends one request: the entries (headings
-- that are to be notes), the census (every note identifier that any file mentions, with the file),
-- and the configuration. internal/anki/planner decides what to do with each entry, talks to the
-- AnkiConnect add-on through internal/anki/ankiconnect, keeps one record for each note in
-- internal/anki/registry, and finally deletes notes that no heading claims any more. Content is
-- compared by the hash of internal/anki/hashing. A separate command moves notes of a stock note
-- type onto the imoogi- types. internal/clipboard stages pasted files and turns them into assets
-- of a document; each paste is a transaction with a manifest on disk, which the front end commits,
-- aborts or reconciles. internal/artifact unpacks
-- the verified archives of the tool chain into a directory. internal/notemove moves a directory of
-- notes by a verified copy. internal/agentipc turns one command line
-- into one event and hands it to Emacs by emacsclient; internal/anki/opener does the same for the
-- links on cards, and reads the answers as agentipc does. The backends share the helpers, and the
-- opener the reader of Lisp strings and the identifiers of the Anki protocol.
--
-- The files.
--   Prelude, Prelude/*: names shared by all modules, Boolean tests, lists, byte strings, sorting,
--     association lists for Go maps.
--   Anki/Protocol: internal/anki/protocol/protocol.go, requests and results as decoded values.
--   Anki/Registry: internal/anki/registry/registry.go: Lookup, All, Put, Remove, and the map that Load
--     builds (lookup, all, put, remove, load). Anki/Registry/File: Load and Save on files.
--   Anki/Hashing: internal/anki/hashing/hashing.go: Hash (canonical, hash).
--   Anki/CardOptions: internal/anki/planner/card_options.go and readCardOptions of
--     internal/anki/planner/multiline.go.
--   Anki/Client: internal/anki/ankiconnect/client.go: the requests that the planner makes, and the
--     reading of a notesInfo answer.
--   Anki/Planner/Runner: the state of a run (runner), the requests as state transformers, and early
--     returns (Exec).
--   Anki/Planner/Fields: resolveFields, resolveDeck, appendSourceLink, renderError.
--   Anki/Planner/Branches: ensureDeck, uploadMedia, addNewNote, reconcile, updateNote.
--   Anki/Planner/Entries: processEntry, and the loop of Run.
--   Anki/Planner/Orphans: reconcileSourcePaths, computeCandidates, confirmAndDelete.
--   Anki/Planner/Run: Run.
--   Anki/Planner/Migrate: internal/anki/planner/migrate.go.
--   Clipboard/Protocol: internal/clipboard/protocol.go, the values of a transaction.
--   Clipboard/Disk: the file system as a parameter, compensate of internal/clipboard/publish.go, and
--     writeJSONAtomic of internal/clipboard/staging.go.
--   Clipboard/Staging: internal/clipboard/staging.go: Transition, Prepare, allowedTransition.
--   Clipboard/Verify: verifyPreparedManifest of internal/clipboard/service.go.
--   Clipboard/Service: internal/clipboard/service.go: the handlers finalize, document-saved, commit,
--     abort and reconcile.
--   Clipboard/Transaction: transactionDirectory and the checks that the handlers begin with, of
--     internal/clipboard/service.go, and safeComponent of internal/clipboard/owner.go.
--   Clipboard/Owner: ResolveOwner, canonicalForContainment, pathWithin of internal/clipboard/owner.go.
--   Clipboard/Publisher, Clipboard/Publisher/Sources, Place and Publish: internal/clipboard/publish.go:
--     record, fileSHA256, sanitizedFilename; preflightSources; findExistingAsset, publishOne; Publish,
--     compensate, loadAssetCache, saveAssetCache.
--   Prelude/Paths, Prelude/Relative: what the sources use of the packages path and path/filepath.
--   Artifact/Paths: internal/artifact/artifact.go: cleanArchivePath, containedPath, validateSymlinkTarget.
--   Artifact/Headers: withDefaultLimits, kindForType, detectPathConflict, validateEntryHeader, and
--     zipEntryHeader of internal/artifact/zip.go.
--   Artifact/Staging: mkdirNoSymlinkBelow, writeRegularFile, createVerifiedSymlinks.
--   Artifact/Extract: VerifyFile, extractVerifiedTarGzip; extractVerifiedZip and writeZipFile.
--   Artifact/Commit: validateDestination, commitStaging, ExtractTarGzipWithOptions, ExtractZip.
--   Agent/Numbers, Agent/Args, Agent/Request: internal/agentipc/request.go.
--   Agent/LispString: parseLispString of internal/agentipc/emacsclient.go, lispString of
--     internal/anki/opener/opener.go.
--   Agent/Deliver: internal/agentipc/emacsclient.go. Agent/Main: internal/agentipc/agentipc.go.
--   Opener: internal/anki/opener/opener.go.
--   NoteMove: internal/notemove/move.go. NoteMove/System: trees and system calls. NoteMove/Manifest:
--     manifest, equalManifest. NoteMove/Copy: copyTree, copyFile. NoteMove/Validate: validate, inside.
--     NoteMove/Move: Move.
--   The modules below these are proofs, named for what they prove; Tests hold runs on small inputs.
--
-- How the code is modelled. A run is a function of the state that the runner keeps; a request
-- appends to a history, and the add-on is a parameter (Peer) whose answer may depend on the whole
-- history before it, so that nothing is assumed about what it answers. Errors are values: a
-- function that returns a value and an error is an Ask, one that may return a result early is an
-- Exec. An entry is processed by prepare, which neither reads nor changes the state, then by
-- dispatch, the branches. Go maps are association lists with the later insertion first or in place;
-- their order of iteration is that of the list. Strings are lists of bytes, case is folded for
-- ASCII letters only (white space is that of Unicode), a function over the runes of a string that
-- replaces ASCII characters is one over its bytes, so that invalid UTF-8 is left as it is where Go
-- puts U+FFFD, and identifiers are natural numbers, since they are only compared. Loops are
-- recursion on the list that they range over, so no fuel is needed, but for the wait of the opener:
-- it takes launch_wait / poll_interval + 1 rounds, and Opener/Ends proves them enough. The
-- clipboard handlers are functions of the manifests and of what was done on disk so far; every
-- removal, write and read may succeed or fail as a parameter (Disk) decides from that past. A removal
-- never touches a manifest, although a path that a manifest records could name one. The
-- extraction acts on a tree, a function from paths to nodes; its system calls are numbered, and a
-- parameter (Faults) says which of them fail. A move of notes acts on nested directories with the same
-- numbering (System), and reads the source three times, each time a tree of its own (Readings), since
-- another process may write to it; its calls of manifest and copyTree recurse on these trees. The
-- publisher acts on a function from names to files, again with numbered calls; its loop over sequence
-- numbers is recursion on those of the 10000 that are left, and reports the error of the source when
-- they run out. The opener's commands and clock are functions of the
-- history of what was done.
--
-- What is a parameter. The Org renderer (internal/anki/orgdoc, over the go-org library), the media
-- pass (internal/anki/media, which reads files), SHA-256 and the home directory are fields of Env,
-- with no hypothesis on them. So are, in the Env of the clipboard, the disk, SHA-256, the staging
-- base, the printing of a generation, ResolveOwner and Publish. The decoders of tar, gzip and zip
-- give lists of entries or a read error; the JSON encoder, the parser of URLs, the search of the
-- program path and the runs of programs are fields of Process, System and Deps. What the publisher's
-- ReadDir, CreateTemp, randomHex and index codec give are fields of its System, with the one hypothesis
-- that a name of CreateTemp is free; the asset root that it is given has been made, resolved and found
-- within its owner.
--
-- What is not modelled. Messages of diagnostics, contexts and cancellation, JSON and HTTP, the
-- clipboard's import, its leases and its adapters, and the other packages of the
-- repository.
pub mod Prelude
pub mod Anki
pub mod Clipboard
pub mod Artifact
pub mod Agent
pub mod NoteMove
pub mod Opener
