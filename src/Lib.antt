-- ===== src/Lib.antt =====
-- The verification library of dps_files, a content-addressed file store with an HTTP and a TCP server.
--
-- The program and the files that model it:
-- - src/key_store is the storage engine. A file is cut into blocks; each block is a chunk on disk, under a
--   key that is the SHA-1 hash of the file's hash and the block's number; metadata, a cache of it and the
--   record of a store in progress (an intent) are files beside the chunks; three maps index them in memory.
--   KeyStore/Types has its data (metadata.go, file_reference.go, files.go, config.go, intent.go) and the
--   struct KeyStore with the disk; Exec the actions on it and the calls of package os; BlockSize config.go
--   (CalculateBlockSize, promoteCandidateBlockSize) and metadata.go (PrepareMetaData); Chunk
--   file_reference.go (StoreFileReference, LoadFileReferenceData, DeleteFileReference); Index and Cache
--   the maps and the cache of key_store.go (fileToMemory, existingFileByHash, ensureHashNotCached and what
--   they call); Intent intent.go; Files the storing of files.go (StoreFileLocal, LoadAndStoreFileLocal,
--   StoreFromReader) and DeleteFile and CleanupExpired of key_store.go; Stream the reading
--   (ReassembleFileToBytes, StreamFile, StreamChunkRange); Reassemble ReassembleFileToPath and HashFile;
--   Remote LoadAndStoreFileRemote over a handler; Verify verify.go; Start InitKeyStoreWithConfig and
--   ReloadLocalState; Cleaning the wholesale operations (Cleanup, CleanupExtensions,
--   verifyFileReferences, UpdateLocalMetaData, LoadAllLocalFilesToMemory).
--   Naming follows the two maps of files through sequences of methods, which Naming/Steps writes as a
--   relation of steps (the methods that enter metadata from the disk apart).
-- - cmd/httpserver is HttpServer: Range (parseRange), Trim (trimWriter), Handlers (serveFile and the
--   handlers).
-- - src/api/transport is Transport: the coder of encoding.go and the reading loop of tcp.go.
-- - src/impl and cmd/chain are Chain: blocks, their hashes, Append and ValidateChain.
-- - cmd/fileserver is FileServer: Frame (protocol.go) and Server (handlers.go); its client in
--   cmd/storage/remote.go is FileServer/Client.
-- - cmd/storage, the interactive tool, is Storage: CommandLine runtime_config.go (parseCLI), Menu and Select
--   menu.go (promptAction, handleModeToggle, the prompts for a file) and the loop of delete.go, Actions
--   store.go (executeStoreTargets) and delete.go (executeDeleteAction), View the sizes that view.go and
--   store.go print of the last chunk, Files filesystem.go (deepCleanStorage and what it calls). Each action stands on the engine's operations.
-- - src/api/nodes/routing.go is Routing: DefaultRouter, and what NewKademliaRouter tests.
-- - cmd/gen_file is GenFile: parseSize, defaultSizeLabel and the loop of main.
-- The servers call the engine's operations as they stand; the theorems about them go through those about
-- the engine.
--
-- How the model stands to the code: a method that changes the store or the disk is a function from a Store
-- to a result and a Store. The disk is a map from paths to bytes; each call of the operating system takes
-- the next entry of a list of faults, which says whether it fails and, for a write, how many bytes arrive
-- first; after the list's end calls succeed. Hash functions and the codecs for TOML and JSON are the record
-- Platform, an argument everywhere; a theorem that needs a property of them names it (the keys of a file's
-- chunks differ). Go's maps are association lists, the order of iteration that of the entries. Numbers are
-- natural, and the conversions to 32 and 64 bits that can change a value are written out. Locks, logging
-- and directories are left out: each method runs alone. Blanks and case are those of ASCII. The input of the
-- tool is the list of its lines. What a remote handler is passed are slices of one buffer, which is part of
-- the state; a handler does not write through what it is passed. Every loop is a recursion on a list or on the
-- number of blocks, with these exceptions on fuel: 64 steps to find a power of two, more than the 22 that the
-- largest block size needs; one step for each message that arrives on a connection of Transport; 20 digits of
-- a 64-bit number; a step more than there are lines for the menu; and a chunk more than the size has for
-- the generated file.
--
-- Not modelled: of cmd/storage the loop of the session (runInteractiveSession), the download and view
-- actions and the modes over a server, which call the engine or the client between prompts and print,
-- and its progress bars, statistics and printing; the ledgers of src/api, interfaces without code;
-- sockets, goroutines and the reading of flags; the encryption of blocks; cmd/client and cmd/server;
-- and of the engine the default remote handler, a goroutine that prints.
pub mod Prelude
pub mod KeyStore
pub mod HttpServer
pub mod FileServer
pub mod Chain
pub mod Transport
pub mod Routing
pub mod Storage
pub mod GenFile
