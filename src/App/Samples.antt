-- ===== src/App/Samples.antt =====
-- Concrete states of the client program of rstr_client/src/main.rs.
use rstr.Prelude.{ℕ, ◌≡◌, ap, subst, true, false, Option, none, some, List, [], ◌∷◌}
use rstr.Prelude.Text.{Text}
use rstr.Meta.Received.{IsValid}
use rstr.Meta.Storage.{Disk, load, empty_index}
use rstr.Meta.Reloading.{HoldsValid}
use rstr.Meta.Instances.{small_bincode}
use rstr.Message.{BinaryMessage, MessagePayload, request_chunk, stop_chunk}
use rstr.Gui.Screen.{start}
use rstr.Gui.Callbacks.{Ui}
use rstr.Client.Types.{EventMessage, file_requested}
use rstr.Client.Samples.{example_platform, path_a, entry_with, resting}
use rstr.App.State.{Codec, opened, ClientType, App}
use rstr.App.Program.{Program}

-- An encoding of two kinds of messages.
abbrev pub encode_payload : ℕ → MessagePayload → Option (List ℕ)
encode_payload magic stop_chunk = some (magic ∷ [])
encode_payload magic (request_chunk request) =
    some (magic ∷ request.index ∷ request.hash ∷ request.path)
encode_payload magic _ = none

abbrev pub decode_message : List ℕ → Option BinaryMessage
decode_message (magic ∷ []) = some (record { magic = magic; payload = stop_chunk })
decode_message (magic ∷ index ∷ hash ∷ path) = some (record {
  magic = magic;
  payload = request_chunk (record { path = path; index = index; hash = hash });
})
decode_message _ = none

pub decode-encode_payload :
    (magic : ℕ) (payload : MessagePayload) (bytes : List ℕ)
    → encode_payload magic payload ≡ some bytes
    → decode_message bytes ≡ some (record { magic = magic; payload = payload })
decode-encode_payload magic stop_chunk bytes h = ap decode_message {x = bytes} {y = magic ∷ []} (cc)
decode-encode_payload magic (request_chunk request) bytes h =
    ap decode_message {x = bytes} {y = magic ∷ request.index ∷ request.hash ∷ request.path} (cc)
decode-encode_payload magic _ bytes h = cc

abbrev pub example_codec : Codec
example_codec = record {
  encode = λ m. encode_payload m.magic m.payload;
  decode = decode_message;
  decode-encode = λ m bytes h. decode-encode_payload m.magic m.payload bytes h;
}

abbrev pub new_disk : Disk
new_disk = record { contents = none; can_open = true; can_read = true; can_write = true }

pub new_disk-HoldsValid : HoldsValid small_bincode new_disk
unfolding load
new_disk-HoldsValid index h =
    let same : empty_index ≡ index = cc in subst IsValid same (record { paths = tt; received = tt })

abbrev pub app_with : ClientType example_platform → List (EventMessage ℕ) → App example_platform
app_with client events = record {
  client = client;
  events = events;
  window = [];
  window_open = true;
  written = [];
  socket_open = true;
  uploads = [];
  receiver_dir = new_disk;
  sender_dir = new_disk;
  files = record { stored = λ path. none; refused = λ path. false };
  opens = λ path. opened 5;
}

-- The user has asked the idle receiver for a file.
abbrev pub asking : App example_platform
asking =
    app_with (ClientType.receiver (resting (entry_with (0 ∷ []))))
      (file_requested path_a (99 ∷ []) ∷ [])

abbrev pub ui_with : List Text → Ui ℕ
ui_with paths = record {
  meta_dialog = false;
  local_path = none;
  meta_multiple_dialog = false;
  multiple_meta_paths = paths;
  events = [];
  event_loop_runs = true;
  processing = [];
}

abbrev pub program_with : App example_platform → Program example_platform example_codec
program_with app = record { app = app; ui = ui_with []; window = start ℕ 0 }
