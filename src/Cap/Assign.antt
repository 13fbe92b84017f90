-- ===== src/Cap/Assign.antt =====
-- Assignments and unsubscriptions: what the CAP functions write and read, and what the parser leaves
-- in the pipe pointers of its caller.
use liboctopipes.Prelude.{
  ℕ, ◌+◌, ◌≤◌, ◌<◌, ◌≡◌, ◌≢◌, refl, sym, ◌∙◌, true, some, [], ◌∷◌, ◌++◌, arith, le→leb, lt→not_leb,
  ge→not_ltb, leb→le, ltb, leb, ◌==◌, ==_iff, length, length-append, drop, take, append-nil,
  if◌then◌else◌, Bool-cases, inl, inr, ◌⊎◌,
}
use liboctopipes.Types.{
  Outcome, ok, Bytes, Heap, ample, Error, success, bad_packet, bad_alloc, Pointer, null, freed,
  buffer, cap_success,
}
use liboctopipes.Memory.{terminated, u8, u64}
use liboctopipes.Memory.Cursor.{
  read_byte-drop, read_bytes-drop, drop_next, drop_block, read_pointer-append, read_byte_within,
  read_bytes_within,
}
use liboctopipes.Cap.{
  cap_assignment, Assignment, prepare_assign, parse_assign, parse_assign_rx, parse_assign_tx,
}

-- The frame of an assignment.
abbrev pub assignment_payload : ℕ → Bytes → Bytes → Bytes
assignment_payload error tx rx = cap_assignment ∷ error ∷ length tx ∷ (tx ++ length rx ∷ rx)

pub prepare_assign-payload :
    (heap : Heap) (error : ℕ) (tx rx : Bytes)
    → heap 0 ≡ true
    → error < 256
    → length tx < 256
    → length rx < 256
    → prepare_assign heap error
        (some (terminated tx))
        (length tx)
        (some (terminated rx))
        (length rx)
      ≡ ok (some (assignment_payload error tx rx))
unfolding prepare_assign
prepare_assign-payload heap error tx rx room fe ft fr = rw (
  room,
  read_pointer-append tx (0 ∷ []),
  read_pointer-append rx (0 ∷ []),
  u8-byte error fe,
  u8-byte (length tx) ft,
  u8-byte (length rx) fr,
  le→leb (length (assignment_payload error tx rx)) (u64 (4 + length tx + length rx))
      (omega (arith, length-append tx (length rx ∷ rx))),
)
  where
    u8-byte : (n : ℕ) → n < 256 → u8 n ≡ n
    u8-byte n h = omega arith

-- What the parser makes of an assignment: the two pipes if there is no error, and otherwise the
-- error alone.
abbrev pub assigned : ℕ → Bytes → Bytes → Pointer → Pointer → Assignment
assigned error tx rx old_tx old_rx =
    if error == cap_success
    then record {
      code = success;
      cap_error = some error;
      tx = buffer (terminated tx);
      rx = buffer (terminated rx);
    }
    else record { code = success; cap_error = some error; tx = old_tx; rx = old_rx }

parse_assign_rx-payload :
    (error : ℕ) (tx rx : Bytes) (a : Assignment)
    → parse_assign_rx ample (assignment_payload error tx rx) tx (3 + length tx) a
      ≡ ok (record a { tx = buffer (terminated tx); rx = buffer (terminated rx) })
unfolding parse_assign_rx
parse_assign_rx-payload error tx rx a =
    let payload : Bytes = assignment_payload error tx rx in
    let at : drop (3 + length tx) payload ≡ length rx ∷ rx = drop_block payload 3 tx _ refl in
    rw (
      read_byte-drop payload (3 + length tx) (length rx) at,
      le→leb (3 + length tx + 1 + length rx) (length payload)
          (omega (arith, length-append tx (length rx ∷ rx))),
      read_bytes-drop payload (3 + length tx + 1) rx []
          (drop_next payload (3 + length tx) (length rx) at ∙ sym (append-nil rx))
          (omega (arith, length-append tx (length rx ∷ rx))),
    )

pub parse_assign-payload :
    (error : ℕ) (tx rx : Bytes) (old_tx old_rx : Pointer)
    → parse_assign ample (assignment_payload error tx rx) old_tx old_rx
      ≡ ok (assigned error tx rx old_tx old_rx)
unfolding parse_assign parse_assign_tx
parse_assign-payload error tx rx old_tx old_rx =
    let payload : Bytes = assignment_payload error tx rx in
    let size : length payload ≡ 4 + length tx + length rx =
      omega (arith, length-append tx (length rx ∷ rx)) in
    rw
      (
        ge→not_ltb (length payload) 4 (omega arith),
        read_byte-drop payload 0 cap_assignment refl,
        read_byte-drop payload 1 error refl,
      )
      (elim (Bool-cases (error == cap_success)) [
        | inr failed ↦ rw failed
        | inl fine ↦
            rw
              (
                fine,
                read_byte-drop payload 2 (length tx) refl,
                lt→not_leb (length payload) (3 + length tx) (omega arith),
                read_bytes-drop payload 3 tx _ refl (omega arith),
              )
              (parse_assign_rx-payload error tx rx
                (record { code = success; cap_error = some error; tx = old_tx; rx = old_rx }))
      ])

-- An assignment that ends inside its second path.
pub parse_assign-cut :
    (tx part : Bytes) (size : ℕ) (old_tx old_rx : Pointer)
    → length part < size
    → parse_assign ample (cap_assignment ∷ 0 ∷ length tx ∷ (tx ++ size ∷ part)) old_tx old_rx
      ≡ ok (record { code = bad_packet; cap_error = some 0; tx = freed; rx = freed })
unfolding parse_assign parse_assign_tx parse_assign_rx
parse_assign-cut tx part size old_tx old_rx short =
    let payload : Bytes = cap_assignment ∷ 0 ∷ length tx ∷ (tx ++ size ∷ part) in
    let whole : length payload ≡ 4 + length tx + length part =
      omega (arith, length-append tx (size ∷ part)) in
    rw (
      ge→not_ltb (length payload) 4 (omega arith),
      read_byte-drop payload 0 cap_assignment refl,
      read_byte-drop payload 1 0 refl,
      read_byte-drop payload 2 (length tx) refl,
      lt→not_leb (length payload) (3 + length tx) (omega arith),
      read_bytes-drop payload 3 tx (size ∷ part) refl (omega arith),
      read_byte-drop payload (3 + length tx) size (drop_block payload 3 tx (size ∷ part) refl),
      lt→not_leb (3 + length tx + 1 + size) (length payload) (omega arith),
    )

-- The parser gets from an assignment what the server put into it: both paths where the error is
-- SUCCESS, and otherwise the error, with the caller's pipe pointers as they were. The paths have at
-- most 255 bytes, and all allocations are assumed to succeed.
pub parse_assign-prepare_assign :
    (error : ℕ) (tx rx : Bytes) (old_tx old_rx : Pointer)
    → error < 256
    → length tx < 256
    → length rx < 256
    → (payload : Bytes) × (prepare_assign ample error
          (some (terminated tx))
          (length tx)
          (some (terminated rx))
          (length rx)
        ≡ ok (some payload))
      × (parse_assign ample payload old_tx old_rx ≡ ok (assigned error tx rx old_tx old_rx))
parse_assign-prepare_assign error tx rx old_tx old_rx fe ft fr = (
  assignment_payload error tx rx,
  prepare_assign-payload ample error tx rx refl fe ft fr,
  parse_assign-payload error tx rx old_tx old_rx,
)

-- What a call of the parser leaves in the pipe pointers of its caller: they stay as they were (after
-- a refused header, or an assignment that carries an error), they both point at new strings, or the
-- call fails and the first one is NULL or points at freed memory.
pub data Leaves (tx rx : Pointer) (a : Assignment) : Type 0 where
  kept : a.tx ≡ tx → a.rx ≡ rx → Leaves tx rx a
  replaced :
      (new_tx new_rx : Bytes)
      → a.code ≡ success
      → a.cap_error ≡ some cap_success
      → a.tx ≡ buffer (terminated new_tx)
      → a.rx ≡ buffer (terminated new_rx)
      → Leaves tx rx a
  lost : a.code ≢ success → (a.tx ≡ null) ⊎ (a.tx ≡ freed) → Leaves tx rx a

-- The call returns, with such pointers.
abbrev pub Returns : Pointer → Pointer → Outcome Assignment → Type 0
Returns tx rx call = (a : Assignment) × (call ≡ ok a) × Leaves tx rx a

returns : {tx rx : Pointer} {a : Assignment} → Leaves tx rx a → Returns tx rx (ok a)
returns {a} leaves = (a, refl, leaves)

code-ne : {e : Error} → e ≡ bad_packet ⊎ e ≡ bad_alloc → e ≢ success
code-ne (inl b) s = cc
code-ne (inr b) s = cc

parse_assign_rx-Returns :
    (heap : Heap) (payload tx_text : Bytes) (ptr : ℕ) (tx rx : Pointer)
    → ptr < length payload
    → Returns tx rx (
        parse_assign_rx heap payload tx_text ptr
          (record { code = success; cap_error = some cap_success; tx = tx; rx = rx }))
unfolding parse_assign_rx
parse_assign_rx-Returns heap payload tx_text ptr tx rx bound =
    let (size, read) = read_byte_within payload ptr bound in
    elim (Bool-cases (heap 1)) [
      | inr none_left ↦ rw (read, none_left) (returns (lost (code-ne (inr refl)) (inr refl)))
      | inl room ↦ elim (Bool-cases (leb (ptr + 1 + size) (length payload))) [
        | inr over ↦ rw (read, room, over) (returns (lost (code-ne (inl refl)) (inr refl)))
        | inl fits ↦
            rw (read, room, fits, read_bytes_within payload (ptr + 1) size (leb→le _ _ fits))
              (returns (replaced tx_text (take size (drop (ptr + 1) payload)) refl refl refl refl))
      ]
    ]

parse_assign_tx-Returns :
    (heap : Heap) (payload : Bytes) (size : ℕ) (tx rx : Pointer)
    → Returns tx rx (
        parse_assign_tx heap payload size
          (record { code = success; cap_error = some cap_success; tx = tx; rx = rx }))
unfolding parse_assign_tx
parse_assign_tx-Returns heap payload size tx rx = elim (Bool-cases (heap 0)) [
  | inr none_left ↦ rw none_left (returns (lost (code-ne (inr refl)) (inl refl)))
  | inl room ↦ elim (Bool-cases (leb (length payload) (3 + size))) [
    | inl over ↦ rw (room, over) (returns (lost (code-ne (inl refl)) (inr refl)))
    | inr fits ↦
        let bound : 3 + size < length payload = ground arith in
        rw (room, fits, read_bytes_within payload 3 size (omega arith))
          (parse_assign_rx-Returns heap payload _ (3 + size) tx rx bound)
  ]
]

-- On every payload, and whichever allocations fail, parse_assign returns and reads nothing outside
-- the payload; what it leaves in the pipe pointers is one of the three cases of `Leaves`.
pub parse_assign-Returns :
    (heap : Heap) (payload : Bytes) (tx rx : Pointer)
    → Returns tx rx (parse_assign heap payload tx rx)
unfolding parse_assign
parse_assign-Returns heap payload tx rx = elim (Bool-cases (ltb (length payload) 4)) [
  | inl short ↦ rw short (returns (kept refl refl))
  | inr long ↦
      let bound : 4 ≤ length payload = ground arith in
      let (object, e0) = read_byte_within payload 0 (omega arith) in
      let (error, e1) = read_byte_within payload 1 (omega arith) in
      let (size, e2) = read_byte_within payload 2 (omega arith) in
      rw (long, e0)
        (elim (Bool-cases (object == cap_assignment)) [
          | inr other ↦ rw other (returns (kept refl refl))
          | inl assigns ↦
              rw (assigns, e1)
                (elim (Bool-cases (error == cap_success)) [
                  | inr failed ↦ rw failed (returns (kept refl refl))
                  | inl fine ↦
                      let zero_error : error ≡ cap_success = (==_iff error cap_success).0 fine in
                      rw (fine, e2, zero_error) (parse_assign_tx-Returns heap payload size tx rx)
                ])
        ])
]
