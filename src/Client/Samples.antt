-- ===== src/Client/Samples.antt =====
-- Concrete receivers and senders for rstr_client/src/client.rs, with a file of five bytes in two
-- chunks.
use rstr.Prelude.{ℕ, refl, true, false, Option, none, some, List, [], ◌∷◌, length, arith}
use rstr.Prelude.Int.{pos}
use rstr.Prelude.Text.{Text, text_eq}
use rstr.Meta.Types.{Chunk, MetaIndexEntry}
use rstr.Meta.Index.{contains, find_entry}
use rstr.Meta.Received.{IsReceived}
use rstr.Meta.Slices.{Describes}
use rstr.Meta.Hash.{new-Absorbed, write-Absorbed}
use rstr.Meta.Instances.{sum_hasher, no_floats, small_bincode, sum}
use rstr.Client.Types.{
  Platform, ReceiverState, Directory, ReceiverFile, ReceiverFileStatus, SenderState,
}
use rstr.Client.Receiver.{Receiver, RequestingFile}
use rstr.Client.Chunks.{set_len, bytes_of}
use rstr.Client.Receiving.{Downloading}
use rstr.Client.Sender.{Sender}
use rstr.Message.{RequestChunkData}

abbrev pub example_platform : Platform
example_platform = record {
  hasher = sum_hasher;
  floats = no_floats;
  bincode = small_bincode;
  lexical_le = λ a b. true;
  format_size = λ n. [];
}

abbrev pub path_a : Text
path_a = 97 ∷ []

abbrev pub path_b : Text
path_b = 98 ∷ []

abbrev pub first_chunk : Chunk
first_chunk = record { hash = 6; offset = 0; size = 3 }

abbrev pub second_chunk : Chunk
second_chunk = record { hash = 9; offset = 3; size = 2 }

abbrev pub entry_with : List ℕ → MetaIndexEntry
entry_with received = record {
  local_path = path_b;
  received_chunks = received;
  meta = record {
    path = path_a;
    hash = 15;
    size = 5;
    file_modified = pos 7;
    meta_modified = pos 8;
    chunks = first_chunk ∷ second_chunk ∷ [];
  };
}

abbrev pub file_bytes : List ℕ
file_bytes = 1 ∷ 2 ∷ 3 ∷ 4 ∷ 5 ∷ []

pub file_described : Describes sum 0 (first_chunk ∷ second_chunk ∷ []) file_bytes
file_described = (
  refl,
  omega arith,
  omega arith,
  omega arith,
  refl,
  (refl, omega arith, omega arith, omega arith, refl, refl),
)

abbrev pub asked : ℕ → List ℕ → RequestingFile example_platform
asked i seen = record {
  remote_path = path_a;
  total_downloaded = 0;
  progress = 0;
  chunk_index = i;
  current_offset = length seen;
  chunk_hash_writer = sum seen;
}

abbrev pub asked_second : RequestingFile example_platform
asked_second = record {
  remote_path = path_a;
  total_downloaded = 3;
  progress = 0;
  chunk_index = 1;
  current_offset = 3;
  chunk_hash_writer = 0;
}

abbrev pub receiver_in :
    ReceiverState
    → Option (RequestingFile example_platform)
    → MetaIndexEntry
    → List ℕ
    → Receiver example_platform
receiver_in state requesting e stored = record {
  index = record { entries = e ∷ [] };
  state = state;
  last_updated = pos 0;
  requesting_chunk = requesting;
  disk = record { contents = none; can_open = true; can_read = true; can_write = true };
  files = record {
    stored = λ path. some (record { bytes = stored; modified = 7 });
    refused = λ path. false;
  };
  events = [];
  stopped = false;
}

-- The first byte of the first chunk has come.
abbrev pub downloading_one : Receiver example_platform
downloading_one =
    receiver_in ReceiverState.requested_chunk (some (asked 0 (1 ∷ []))) (entry_with []) (1 ∷ [])

pub one-Downloading :
    Downloading example_platform downloading_one
      (entry_with [])
      first_chunk
      (asked 0 (1 ∷ []))
      (1 ∷ [])
unfolding find_entry text_eq set_len bytes_of
one-Downloading = record {
  state = refl;
  requesting = refl;
  entry = refl;
  chunk = refl;
  at_offset = refl;
  hashed = write-Absorbed sum_hasher 0 [] (1 ∷ []) (new-Absorbed sum_hasher);
  holds = record { before = []; after = 0 ∷ 0 ∷ 0 ∷ 0 ∷ []; parts = refl; at_offset = refl };
  writable = refl;
  room = omega arith;
  small = omega arith;
  running = refl;
}

-- Nothing of the second chunk has come yet.
abbrev pub downloading_none : Receiver example_platform
downloading_none =
    receiver_in ReceiverState.requested_chunk (some (asked_second)) (entry_with (0 ∷ []))
      (1 ∷ 2 ∷ 3 ∷ [])

pub none-Downloading :
    Downloading example_platform downloading_none (entry_with (0 ∷ [])) second_chunk asked_second []
unfolding find_entry text_eq set_len bytes_of
none-Downloading = record {
  state = refl;
  requesting = refl;
  entry = refl;
  chunk = refl;
  at_offset = refl;
  hashed = new-Absorbed sum_hasher;
  holds = record { before = 1 ∷ 2 ∷ 3 ∷ []; after = 0 ∷ 0 ∷ []; parts = refl; at_offset = refl };
  writable = refl;
  room = omega arith;
  small = omega arith;
  running = refl;
}

-- The receiver before anything was asked for.
abbrev pub resting : MetaIndexEntry → Receiver example_platform
resting e = receiver_in ReceiverState.idle none e []

pub entry-IsReceived : IsReceived (entry_with (0 ∷ []))
unfolding contains
entry-IsReceived = record { once = (refl, tt); known = (omega arith, tt) }

abbrev pub empty_entry : MetaIndexEntry
empty_entry = record {
  local_path = [];
  received_chunks = [];
  meta = record {
    path = path_a;
    hash = 0;
    size = 0;
    file_modified = pos 7;
    meta_modified = pos 8;
    chunks = [];
  };
}

abbrev pub shown_one : List Directory × List ReceiverFile
shown_one = (
  record { display_name = b'/' ∷ []; actual_name = [] } ∷ [],
  record {
    name = path_a;
    dir = [];
    status = ReceiverFileStatus.downloaded;
    remote_path = path_a;
    local_path = path_b;
    formatted_size = [];
  }
      ∷ [],
)

abbrev pub serving : Sender example_platform
serving = record {
  index = record { entries = entry_with [] ∷ [] };
  state = SenderState.idle;
  sender_cancellation_token = none;
  disk = record { contents = none; can_open = true; can_read = true; can_write = true };
  events = [];
  stopped = false;
  cancelled = [];
  tokens = 0;
  transfers = [];
}

abbrev pub request_of : ℕ → ℕ → RequestChunkData
request_of index hash = record { path = path_a; index = index; hash = hash }
