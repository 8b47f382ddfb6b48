-- ===== src/Client/Download.antt =====
-- The download of a whole file, chunk after chunk (rstr_client/src/client.rs).
use rstr.Prelude.{
  ℕ, zero, suc, ◌^◌, ◌≤◌, ◌<◌, ◌≡◌, refl, sym, ap, ◌∙◌, inl, inr, true, false, Option, none, some,
  List, [], ◌∷◌, length, get_elem?, arith, Option-cases, Bool-cases, ◌⊎◌, subst, All, concat, drop,
  length-append,
}
use rstr.Prelude.Text.{Text}
use rstr.Prelude.Exec.{ok}
use rstr.Meta.Types.{Chunk, MetaIndexEntry, MetaIndex}
use rstr.Meta.Index.{contains, insert, find_entry, mark_received, receive}
use rstr.Meta.Received.{IsReceived, receive-IsReceived}
use rstr.Meta.Storage.{save, Disk}
use rstr.Meta.Create.{buffer_limit}
use rstr.Meta.Slices.{Describes, Describes-get_elem?}
use rstr.Client.Types.{Platform}
use rstr.Client.Receiver.{
  Receiver, RequestingFile, find_first_undownloaded, convert_index, send_event,
}
use rstr.Client.Chunks.{chunk_received, next_chunk}
use rstr.Client.Transmit.{parts}
use rstr.Client.Receiving.{Downloading}
use rstr.Client.Completing.{get_elem?-below, next_chunk-keeps}
use rstr.Client.Requests.{find_first_undownloaded_least, get_elem?-some}
use rstr.Client.Transfers.{receive_all, ArePartsOf, parts-ArePartsOf}
use rstr.Client.Continuing.{chunk_received-Downloading, to_next, found_marked, marked_and_saved}
use rstr.Client.Listing.{listing, receiver_file}
use rstr.Client.Ending.{receive_all-ends}

-- The index after these chunks of a file are marked, one after the other.
abbrev pub mark_all : Text → List ℕ → MetaIndex → MetaIndex
mark_all p [] index = index
mark_all p (i ∷ chunks) index = mark_all p chunks (mark_received p i index).1

pub length-insert_new :
    (members : List ℕ) (i : ℕ)
    → contains members i ≡ false
    → length (insert members i) ≡ suc (length members)
unfolding insert
length-insert_new members i new = rw new (omega (arith, length-append members (i ∷ [])))

pub saves :
    (P : Platform) (index : MetaIndex) (disk : Disk) (encoding : List ℕ)
    → P.bincode.encode index ≡ some encoding
    → disk.can_write ≡ true
    → ((save P.bincode index disk).0 ≡ ok tt) × ((save P.bincode index disk).1.can_write ≡ true)
unfolding save
saves P index disk encoding encoded writes = rw writes (rw encoded (refl, refl))

module _ (P : Platform) (p : Text) (buffers : ℕ → List (List ℕ)) where
  -- The parts that the sender answers a request for a chunk with.
  abbrev pub answer : List Chunk → ℕ → List (List ℕ)
  answer chunks i = elim (get_elem? chunks i) [ none ↦ [] | some c ↦ parts c.size 0 (buffers i) ]

  -- The receiver, as long as it asks for a chunk, and for at most so many of them.
  unfoldable pub download : List Chunk → ℕ → Receiver P → Receiver P
  download chunks zero s = s
  download chunks (suc rounds) s = elim s.requesting_chunk [
    | none ↦ s
    | some r ↦ download chunks rounds (receive_all P (answer chunks r.chunk_index) s).1
  ]

  pub download_ends :
      (chunks : List Chunk) (rounds : ℕ) (s : Receiver P)
      → s.requesting_chunk ≡ none
      → download chunks rounds s ≡ s
  unfolding download
  download_ends chunks zero s h = refl
  download_ends chunks (suc rounds) s h = rw h refl

  pub download_asks :
      (chunks : List Chunk) (rounds : ℕ) (s : Receiver P) (r : RequestingFile P)
      → s.requesting_chunk ≡ some r
      → download chunks (suc rounds) s
        ≡ download chunks rounds (receive_all P (answer chunks r.chunk_index) s).1
  unfolding download
  download_asks chunks rounds s r h =
      ap
        (λ (asked : Option (RequestingFile P)). elim asked as (λ _. Receiver P) [
          | none ↦ s
          | some r ↦ download chunks rounds (receive_all P (answer chunks r.chunk_index) s).1
        ])
        h

  -- Before a chunk that is asked for and has not been received.
  pub record IsBefore (s : Receiver P) (e : MetaIndexEntry) (c : Chunk) (r : RequestingFile P)
      : Type 0 where
    pub waits : Downloading P s e c r []
    pub path : r.remote_path ≡ p
    pub fine : IsReceived e
    pub lacks : contains e.received_chunks r.chunk_index ≡ false
    pub writes : s.disk.can_write ≡ true
    pub encodes :
        (chunks : List ℕ)
        → (encoding : List ℕ) × (P.bincode.encode (mark_all p chunks s.index) ≡ some encoding)

  -- What a complete chunk leads to: the next one that is missing, or none is.
  abbrev pub Leads : Receiver P → MetaIndexEntry → Type 0
  Leads s e =
      (find_entry s.index p ≡ some e)
      × (((c : Chunk) × (r : RequestingFile P) × IsBefore s e c r)
          ⊎ ((find_first_undownloaded P e ≡ none) × (s.requesting_chunk ≡ none)))

  finished_asks_nothing :
      (s : Receiver P)
      → s.requesting_chunk ≡ none
      → (next_chunk P p none s).1.requesting_chunk ≡ none
  unfolding next_chunk convert_index send_event
  finished_asks_nothing s h = elim (Bool-cases s.stopped) [
    | inl gone ↦ rw gone h
    | inr running ↦ elim (Option-cases (listing P (receiver_file P) s.index)) [
      | inl lost ↦ rw running (rw lost h)
      | inr (shown, made) ↦ rw running (rw made h)
    ]
  ]

  module _ (file : List ℕ) (e : MetaIndexEntry)
      (described : Describes P.hasher.hash 0 e.meta.chunks file) (whole : e.meta.size ≡ length file)
      (small : e.meta.size < 2 ^ 64) (few : length e.meta.chunks < 2 ^ 32) where
    chunk_received-Leads :
        (s : Receiver P) (i : ℕ)
        → find_entry s.index p ≡ some e
        → i < length e.meta.chunks
        → IsReceived e
        → s.stopped ≡ false
        → s.files.refused e.local_path ≡ false
        → s.disk.can_write ≡ true
        → ((chunks : List ℕ)
            → (encoding : List ℕ) × (P.bincode.encode (mark_all p chunks s.index) ≡ some encoding))
        → Leads (chunk_received P p i s).1 (receive i e)
    chunk_received-Leads s i found fits fine running writable writes encodes =
        let (saved, still) =
          saves P (mark_received p i s.index).1 s.disk _ (encodes (i ∷ [])).1 writes in
        let next = find_first_undownloaded P (receive i e) in
        let after : chunk_received P p i s
            ≡ next_chunk P p next (marked_and_saved P s p i e found fits saved running) =
          to_next P s p i e found fits saved running in
        let kept =
          next_chunk-keeps P p next (marked_and_saved P s p i e found fits saved running) in
        let index : (chunk_received P p i s).1.index ≡ (mark_received p i s.index).1 =
          ap (λ o. o.1.index) after ∙ kept.0 in
        let disk : (chunk_received P p i s).1.disk
            ≡ (save P.bincode (mark_received p i s.index).1 s.disk).1 =
          ap (λ o. o.1.disk) after ∙ kept.2 in
        (
          ap (λ ix. find_entry ix p) index ∙ found_marked P s p i e found fits saved running,
          elim (Option-cases (find_first_undownloaded P (receive i e))) [
            | inl done ↦ inr (
              done,
              rw after (
                  rw done (
                    finished_asks_nothing (marked_and_saved P s p i e found fits saved running)
                      refl)),
            )
            | inr (j, missing) ↦
                let least = find_first_undownloaded_least P (receive i e) few j 0 missing in
                let (c, there) = get_elem?-some e.meta.chunks j least.0 in
                let slice =
                  Describes-get_elem? P.hasher.hash 0 e.meta.chunks file j c described there in
                let (r, went, path, is_j, waits) =
                  chunk_received-Downloading P s p i e found fits saved running j c missing there
                    fine (omega (arith, slice.1)) small writable in
                inl (
                  c,
                  r,
                  record {
                    waits = waits;
                    path = path;
                    fine = receive-IsReceived e i fits fine;
                    lacks = rw is_j least.1;
                    writes = rw disk still;
                    encodes = λ chunks. rw index (encodes (i ∷ chunks));
                  },
                )
          ],
        )

    -- The buffers that the sender reads for each chunk are the file from the chunk's offset on.
    module _
        (read : (i : ℕ) (c : Chunk)
          → get_elem? e.meta.chunks i ≡ some c
          → All (λ b. (0 < length b) × (length b ≤ buffer_limit)) (buffers i)
            × (concat (buffers i) ≡ drop c.offset file)) where
      pub answered-Leads :
          (s : Receiver P) (c : Chunk) (r : RequestingFile P)
          → IsBefore s e c r
          → Leads (receive_all P (answer e.meta.chunks r.chunk_index) s).1 (receive r.chunk_index e)
      answered-Leads s c r b =
          let i : ℕ = r.chunk_index in
          let d = b.waits in
          let (bufs, from_offset) = read i c d.chunk in
          let sent : ArePartsOf P.hasher.hash file c (parts c.size 0 (buffers i)) =
            parts-ArePartsOf P.hasher.hash e.meta.chunks file i c (buffers i) described d.chunk bufs
              from_offset in
          let (s', index, disk, running, writable, ends) =
            receive_all-ends P s e c r [] (parts c.size 0 (buffers i)) d sent.some_bytes
              sent.not_empty (omega (arith, sent.full)) sent.right in
          let leads =
            chunk_received-Leads s' i
              (ap (λ ix. find_entry ix p) index ∙ ap (find_entry s.index) (sym b.path) ∙ d.entry)
              (get_elem?-below e.meta.chunks i c d.chunk) b.fine running writable (rw disk b.writes)
              (λ chunks. rw index (b.encodes chunks)) in
          let is_parts : answer e.meta.chunks i ≡ parts c.size 0 (buffers i) =
            rw (d.chunk, answer) refl in
          let state : (receive_all P (answer e.meta.chunks i) s).1 ≡ (chunk_received P p i s').1 =
            ap (λ bs. (receive_all P bs s).1) is_parts
            ∙ ends
            ∙ ap (λ q. (chunk_received P q i s').1) b.path in
          subst (λ t. Leads t (receive i e)) (sym state) leads
