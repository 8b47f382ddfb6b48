-- ===== src/Lib.antt =====
-- rstr: a sender offers files and a receiver downloads them in chunks, through a server that both are
-- connected to. The repository has four parts: rstr_core (metadata, the index of files, messages, a
-- binary format), rstr_server, rstr_client, and rstr_projfs (a view of the index as a file system).
--
-- How the parts interact. The sender makes the metadata of a local file (`MetaIndex::create_for_file`:
-- size, hash, and chunks with their hashes) and publishes it; the server adds it to its own index and
-- tells the receiver, which asks for the metadata that is new. The receiver asks for one chunk at a
-- time; the server passes the request to the sender, whose task reads the chunk and sends it in parts,
-- and passes the parts to the receiver, which writes and hashes them, and at the end of a chunk checks
-- the hash, marks the chunk in its index and asks for the next one that is missing.
--
-- Which file models what, by the source's names:
--   Prelude      lists, options, integers, bits, texts as lists of bytes, and `Exec`: a method that
--                changes its object and may return an error or panic; the object comes back in each case
--   Binary       rstr_core/src/binary: Writer, Reader and Serialization are writer.rs, reader.rs and
--                serialization.rs; Words, RoundTrip, Agreement and Sizes are about them
--   Meta         rstr_core/src/meta.rs: Types, Index (the operations in memory), Storage (`load`, `save`),
--                Create (`create_for_file`), Hash (what is used of xxhash-rust and of floats); Lookup,
--                Modified, Paths, Members, Received, History, Reloading, Slices, Totals and Partition are about them
--   Message      rstr_core/src/message.rs: the payloads as a data type, and the stated sizes
--   Server       rstr_server/src/server.rs: State (`Server`, `Client`), Handlers (`handle_message` and the
--                handlers), Loop (`Server::new`, `handle_clients`), Connection (`handle_connection`), Start (`main` of
--                rstr_server/src/main.rs); Clients,
--                Roles, Login, Index, Routing and Sessions are about them
--   Client       rstr_client/src/client.rs: Types, Paths, Listing (`convert_index`), Receiver (the user's
--                operations: `request_chunk` is `ask_chunk`, `request_meta` is `ask_meta`), Chunks
--                (`process_message` and what it calls), Sender (with `publish_meta` as `publish`), Transmit
--                (the task of `process_request_chunk`); Files, Receiving, Requests, Completing, Sending,
--                Transfers, Ending, Starting, Continuing, Download, Contents, Whole, Requested,
--                Resumed, Exchange, Progress, Keeping, Operating, Offering, Validity, Posting, Serving and
--                Normalizing are about them
--   Gui          rstr_client/src/gui.rs: Types (`ProcessingEvent`), Screen (the properties of the window in
--                rstr_client/ui), Window (`process_gui_event`), Callbacks (`setup_ui`); Shown is about them
--   App          rstr_client/src/main.rs: State (the client that runs and its channels), Dispatch (the
--                `match` over the events), Loop (connecting, `read_task`, the loop), Program (the client
--                program as a step relation); Adding, Emitting, Draining, Soundness, Starting, Uploading, Handling,
--                Reaching, Requesting, Wire and Faults are about them
--   Projfs       rstr_projfs/src/projfs.rs: DirMap (`create_dir_map`); Listed, Unlinked and Total are about it
-- The modules Examples, Client.Runs and Client.Fetched hold runs on concrete inputs, Client.Samples,
-- App.Samples and Meta.Instances what they run on.
--
-- Conventions. A struct is a record with the source's fields; beside its own fields an object has what
-- it shares with the outside: the disk of its index, the local files, and the messages that it has
-- sent. A channel and a cancellation token are handles, a `HashMap` and a `HashSet` are lists, whose
-- order is that of the iteration. Unsigned words are natural numbers with `% 2 ^ w` where they wrap;
-- signed ones are integers. `panic` is an outcome of its own, so an `unwrap` that fails is visible.
-- The crates bincode, xxhash-rust, lexical-sort and size and the floats are parameters with the laws
-- that the code relies on: what was encoded decodes to the same, and a digest does not depend on how
-- the input is cut up. All loops are recursions on the data they run over, or on the number of their
-- rounds, so no other fuel is needed; the theorems on a whole download and on the client's event loop say
-- how many rounds are enough.
--
-- In the client program a method of the receiver or of the sender starts with nothing sent, and what it
-- sends goes to the end of the event loop's channel; the window, the user, the socket and the spawned
-- tasks put their events there in any order.
--
-- Not modelled: the sockets themselves and the accept loop of rstr_server/src/main.rs, the bytes of the
-- messages on the wire (bincode's), the layout of the window, the logs, and the bounds of the channels,
-- which hold a million events or more. A local file that cannot be opened, written or synced is taken
-- as unchanged. The rest of rstr_projfs is commented out.
pub mod Prelude
pub mod Binary
pub mod Meta
pub mod Message
pub mod Server
pub mod Client
pub mod Gui
pub mod App
pub mod Projfs
