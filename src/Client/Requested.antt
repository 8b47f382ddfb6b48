-- ===== src/Client/Requested.antt =====
-- A file from the request for it to its last byte (rstr_client/src/client.rs).
use rstr.Prelude.{
  ℕ, ◌+◌, ◌^◌, ◌≤◌, ◌<◌, ◌≡◌, refl, ap, true, false, none, some, List, [], ◌∷◌, length, drop,
  get_elem?, arith, All, concat,
}
use rstr.Prelude.Int.{to_unsigned}
use rstr.Prelude.Text.{Text}
use rstr.Meta.Types.{Chunk, MetaIndexEntry}
use rstr.Meta.Index.{contains, find_entry, change_local, relocate}
use rstr.Meta.Create.{buffer_limit}
use rstr.Meta.Slices.{Describes, Describes-get_elem?}
use rstr.Client.Types.{Platform, idle}
use rstr.Client.Receiver.{Receiver, find_first_undownloaded, request_file}
use rstr.Client.Starting.{request_file_lem, request_file-keeps}
use rstr.Client.Download.{saves, mark_all, download}
use rstr.Client.Whole.{download_completes}

-- A file that is not empty has a first chunk.
Describes-some :
    (hash : List ℕ → ℕ) (chunks : List Chunk) (file : List ℕ)
    → Describes hash 0 chunks file
    → 0 < length file
    → (c : Chunk) × (get_elem? chunks 0 ≡ some c)
Describes-some hash [] file described full = absurd (omega (arith, ap length described))
Describes-some hash (c ∷ chunks) file described full = (c, refl)

-- A file that is requested arrives. The receiver is idle and knows the file, which is not empty, has
-- fewer than 2^64 bytes and 2^32 chunks, and still is what its metadata was made of; the event loop
-- runs, the new place can be written, and the disk takes every index that is saved on the way; each
-- request is answered with the parts of its chunk, read in buffers of at most 64 KiB. Then after as
-- many answers as the file has chunks, or more, the file at the new place is the sender's, byte for
-- byte and with the time of its metadata, and no chunk of it is missing in the index, whatever was at
-- that place before and whatever had been received to another one.
pub requested_file_arrives :
    (P : Platform) (s : Receiver P) (p local_path : Text) (e : MetaIndexEntry) (file : List ℕ)
    (buffers : ℕ → List (List ℕ)) (rounds : ℕ)
    → s.state ≡ idle
    → find_entry s.index p ≡ some e
    → Describes P.hasher.hash 0 e.meta.chunks file
    → e.meta.size ≡ length file
    → 0 < length file
    → e.meta.size < 2 ^ 64
    → length e.meta.chunks < 2 ^ 32
    → s.stopped ≡ false
    → s.files.refused local_path ≡ false
    → s.disk.can_write ≡ true
    → ((chunks : List ℕ)
        → (encoding : List ℕ) × (P.bincode.encode
              (mark_all p chunks (change_local p local_path s.index).1)
            ≡ some encoding))
    → ((i : ℕ) (c : Chunk)
        → get_elem? e.meta.chunks i ≡ some c
        → All (λ b. (0 < length b) × (length b ≤ buffer_limit)) (buffers i)
          × (concat (buffers i) ≡ drop c.offset file))
    → length e.meta.chunks ≤ rounds
    → (e' : MetaIndexEntry) × (find_entry
          (download P p buffers e.meta.chunks rounds (request_file P p local_path s).1).index
          p
        ≡ some e')
      × (e'.meta ≡ e.meta)
      × (find_first_undownloaded P e' ≡ none)
      × ((download P p buffers e.meta.chunks rounds (request_file P p local_path s).1).files.stored
            local_path
          ≡ some (record { bytes = file; modified = to_unsigned 64 e.meta.file_modified }))
unfolding contains
requested_file_arrives P s p local_path e file buffers rounds is_idle found described whole full
      small few running writable writes encodes read enough =
    let (saved, still) =
      saves P (change_local p local_path s.index).1 s.disk _ (encodes []).1 writes in
    let (c, there) = Describes-some P.hasher.hash e.meta.chunks file described full in
    let slice = Describes-get_elem? P.hasher.hash 0 e.meta.chunks file 0 c described there in
    let room : c.offset + c.size ≤ e.meta.size = omega (arith, slice.1) in
    let (r, went, path, first, waits) =
      request_file_lem P s p local_path e is_idle found saved c there room small writable running in
    let (index, files, disk) =
      request_file-keeps P s p local_path e is_idle found saved c there room small writable
        running in
    download_completes P p buffers file rounds (request_file P p local_path s).1
      (relocate local_path e) c r described whole small few read
      (record {
        waits = waits;
        path = path;
        fine = record { once = tt; known = tt };
        lacks = refl;
        writes = rw disk still;
        encodes = λ chunks. rw index (encodes chunks);
      })
      (λ j d at received. cc) (omega (arith, enough))
