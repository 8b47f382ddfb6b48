-- ===== src/Client/Requests.antt =====
-- What the receiver asks for (`request_chunk`, `find_first_undownloaded` and
-- `calculate_downloaded` in rstr_client/src/client.rs).
use rstr.Prelude.{
  ℕ, zero, suc, ◌+◌, ◌%◌, ◌^◌, ◌≤◌, ◌<◌, ◌≡◌, refl, sym, ◌⊎◌, inl, inr, true, false, none, some,
  List, [], ◌∷◌, ◌++◌, length, ltb, ◌==◌, get_elem?, arith, Bool-cases, Option-cases, subst, All,
  take, drop, take-append-drop, length-take,
}
use rstr.Prelude.Text.{Text}
use rstr.Prelude.Exec.{ok}
use rstr.Meta.Types.{Chunk, MetaIndexEntry}
use rstr.Meta.Index.{contains, find_entry}
use rstr.Meta.Received.{IsReceived}
use rstr.Meta.Hash.{new-Absorbed}
use rstr.Message.{request_chunk, message}
use rstr.Client.Types.{Platform, send_message}
use rstr.Client.Receiver.{
  Receiver, RequestingFile, send_event, send_payload, ask_chunk, sizes_from, calculate_downloaded,
  first_missing, find_first_undownloaded,
}
use rstr.Client.Chunks.{set_len, bytes_of}
use rstr.Client.Files.{length-set_len}
use rstr.Client.Receiving.{Downloading}

pub get_elem?-some :
    {A : Type 0} → (xs : List A) (i : ℕ) → i < length xs → (x : A) × (get_elem? xs i ≡ some x)
get_elem?-some [] i h = absurd (omega arith)
get_elem?-some (x ∷ xs) zero h = (x, refl)
get_elem?-some (x ∷ xs) (suc i) h = get_elem?-some xs i (omega arith)

-- The least number from `i` on, within the rounds, that is missing.
first_missing_lem :
    (P : Platform) (received : List ℕ) (i rounds n : ℕ)
    → first_missing P received i rounds ≡ some n
    → (i ≤ n)
      × (n < i + rounds)
      × (contains received n ≡ false)
      × ((j : ℕ) → i ≤ j → j < n → contains received j ≡ true)
unfolding first_missing
first_missing_lem P received i zero n h = cc
first_missing_lem P received i (suc rounds) n h = elim (Bool-cases (contains received i)) [
  | inl have ↦
      let later = first_missing_lem P received (i + 1) rounds n (ground arith) in
      (
        omega (arith, later.0),
        omega (arith, later.1),
        later.2,
        λ j le lt. elim (Bool-cases (i == j)) [
          | inl same ↦
              let e : i ≡ j = ground arith in subst (λ k. contains received k ≡ true) e have
          | inr other ↦ later.3 j (ground arith) lt
        ],
      )
  | inr lacks ↦
      let e : i ≡ n = ground arith in
      (
        omega arith,
        omega arith,
        subst (λ k. contains received k ≡ false) e lacks,
        λ j le lt. absurd (omega arith),
      )
]

first_missing-none :
    (P : Platform) (received : List ℕ) (i rounds : ℕ)
    → first_missing P received i rounds ≡ none
    → (j : ℕ) → i ≤ j
    → j < i + rounds
    → contains received j ≡ true
unfolding first_missing
first_missing-none P received i zero h j le lt = absurd (omega arith)
first_missing-none P received i (suc rounds) h j le lt = elim (Bool-cases (contains received i)) [
  | inr lacks ↦ absurd (ground arith)
  | inl have ↦ elim (Bool-cases (i == j)) [
    | inl same ↦ let e : i ≡ j = ground arith in subst (λ k. contains received k ≡ true) e have
    | inr other ↦
        first_missing-none P received (i + 1) rounds (ground arith) j (ground arith) (omega arith)
  ]
]

module _ (P : Platform) (e : MetaIndexEntry) (few : length e.meta.chunks < 2 ^ 32) where
  -- In a file of fewer than 2^32 chunks, the chunk that is asked for next is one of the file that has
  -- not been received, and every chunk before it has.
  pub find_first_undownloaded_least :
      (n j : ℕ)
      → find_first_undownloaded P e ≡ some n
      → (n < length e.meta.chunks)
        × (contains e.received_chunks n ≡ false)
        × ((n ≤ j) ⊎ (contains e.received_chunks j ≡ true))
  unfolding find_first_undownloaded
  find_first_undownloaded_least n j h =
      let least = first_missing_lem P e.received_chunks 0 (length e.meta.chunks % 2 ^ 32) n h in
      (
        omega (arith, least.1),
        least.2,
        elim (Bool-cases (ltb j n)) [
          | inl before ↦ inr (least.3 j (omega arith) (ground arith))
          | inr after ↦ inl (ground arith)
        ],
      )

  -- In a file of fewer than 2^32 chunks, none is left to ask for only when every one has been
  -- received.
  pub find_first_undownloaded-none :
      find_first_undownloaded P e ≡ none
      → (j : ℕ) → j < length e.meta.chunks
      → contains e.received_chunks j ≡ true
  unfolding find_first_undownloaded
  find_first_undownloaded-none h j lt =
      first_missing-none P e.received_chunks 0 (length e.meta.chunks % 2 ^ 32) h j (omega arith)
        (omega arith)

sizes_from-some :
    (P : Platform) (chunks : List Chunk) (downloaded : ℕ) (received : List ℕ)
    → All (λ i. i < length chunks) received
    → (n : ℕ) × (sizes_from P chunks downloaded received ≡ some n)
unfolding sizes_from
sizes_from-some P chunks downloaded [] h = (downloaded, refl)
sizes_from-some P chunks downloaded (i ∷ received) h =
    let (c, there) = get_elem?-some chunks i h.0 in
    rw (there, sizes_from) (sizes_from-some P chunks ((downloaded + c.size) % 2 ^ 64) received h.1)

calculate_downloaded-some :
    (P : Platform) (e : MetaIndexEntry)
    → IsReceived e
    → (n : ℕ) × (calculate_downloaded P e ≡ some n)
unfolding calculate_downloaded
calculate_downloaded-some P e h = sizes_from-some P e.meta.chunks 0 e.received_chunks h.known

module _ (P : Platform) where
  -- A request changes neither the index, in memory and on the disk, nor the local files.
  pub ask_chunk-keeps :
      (p : Text) (i : ℕ) (s : Receiver P)
      → ((ask_chunk P p i s).1.index ≡ s.index)
        × ((ask_chunk P p i s).1.files ≡ s.files)
        × ((ask_chunk P p i s).1.disk ≡ s.disk)
  unfolding ask_chunk send_payload send_event
  ask_chunk-keeps p i s = elim (Option-cases (find_entry s.index p)) [
    | inl missing ↦ rw missing (refl, refl, refl)
    | inr (e, found) ↦ elim (Option-cases (get_elem? e.meta.chunks i)) [
      | inl none_there ↦ rw found (rw none_there (refl, refl, refl))
      | inr (c, there) ↦ elim (Bool-cases s.stopped) [
        | inl gone ↦ rw found (rw there (rw gone (refl, refl, refl)))
        | inr running ↦ elim (Option-cases (calculate_downloaded P e)) [
          | inl lost ↦ rw found (rw there (rw running (rw lost (refl, refl, refl))))
          | inr (n, total) ↦ rw found (rw there (rw running (rw total (refl, refl, refl))))
        ]
      ]
    ]
  ]

  module _ (s : Receiver P) (p : Text) (e : MetaIndexEntry) (c : Chunk) (i : ℕ)
      (found : find_entry s.index p ≡ some e) (there : get_elem? e.meta.chunks i ≡ some c)
      (fine : IsReceived e) (room : c.offset + c.size ≤ e.meta.size) (small : e.meta.size < 2 ^ 64)
      (writable : s.files.refused e.local_path ≡ false) (running : s.stopped ≡ false) where
    -- A request for a chunk of a file in the index succeeds while the event loop runs, where the
    -- entry has received chunks of its file only, the chunk lies within the file, the file's size
    -- fits a `u64` and its place can be written: the request is sent, with the chunk's hash, and the
    -- receiver then waits for the chunk from its first byte on.
    pub ask_chunk_lem :
        (r : RequestingFile P) × ((ask_chunk P p i s).0 ≡ ok tt)
        × ((ask_chunk P p i s).1.events
            ≡ s.events
              ++ send_message
                  (message (request_chunk (record { path = p; index = i; hash = c.hash })))
                ∷ [])
        × (r.remote_path ≡ p)
        × (r.chunk_index ≡ i)
        × Downloading P (ask_chunk P p i s).1 e c r []
    unfolding ask_chunk send_payload send_event
    ask_chunk_lem =
        let (n, total) = calculate_downloaded-some P e fine in
        rw found (
          rw there (
            rw running (
              rw total (
                _,
                refl,
                refl,
                refl,
                refl,
                record {
                  state = refl;
                  requesting = refl;
                  entry = found;
                  chunk = there;
                  at_offset = omega arith;
                  hashed = new-Absorbed P.hasher;
                  holds = record {
                    before =
                        take c.offset
                          (set_len e.meta.size (bytes_of (s.files.stored e.local_path)));
                    after =
                        drop c.offset
                          (set_len e.meta.size (bytes_of (s.files.stored e.local_path)));
                    parts = sym (
                        take-append-drop c.offset
                          (set_len e.meta.size (bytes_of (s.files.stored e.local_path))));
                    at_offset = omega (
                      arith,
                      length-take c.offset
                          (set_len e.meta.size (bytes_of (s.files.stored e.local_path))),
                      length-set_len e.meta.size (bytes_of (s.files.stored e.local_path)),
                    );
                  };
                  writable = writable;
                  room = room;
                  small = small;
                  running = refl;
                },
              ))))
