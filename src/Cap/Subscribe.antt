-- ===== src/Cap/Subscribe.antt =====
-- Subscriptions: what octopipes_cap_prepare_subscription writes and
-- octopipes_cap_parse_subscribe reads.
use liboctopipes.Prelude.{
  ℕ, zero, suc, ◌+◌, ◌*◌, ◌≤◌, ◌<◌, ◌^◌, ◌≡◌, ◌≢◌, refl, sym, ap, ap₂, ◌∙◌, true, some, List, [],
  ◌∷◌, ◌++◌, arith, le→leb, lt→ltb, lt→not_leb, length, length-append, length-drop, drop, All,
  append_assoc, append-nil,
}
use native.Mathlib.Nat.{add-zero, zero-add, suc-add}
use liboctopipes.Types.{ok, fault, uninitialized_read, ◌>>=◌, >>=-ok, >>=-assoc, Bytes, Heap, ample}
use liboctopipes.Memory.{scan_string, terminated, u8, u64}
use liboctopipes.Memory.Cursor.{read_byte-drop, read_bytes-drop, drop_next, drop_block}
use liboctopipes.Cap.{
  cap_subscription, group_bytes, subscription_size, prepare_subscription, parse_groups,
  parse_subscribe,
}

-- The text of a C string: no null byte.
abbrev pub IsText : Bytes → Type 0
IsText = All (λ b. b ≢ 0)

-- A group that a frame can name: its length is one byte.
abbrev pub IsGroup : Bytes → Type 0
IsGroup text = IsText text × (length text < 256)

abbrev pub buffers : List Bytes → List Bytes
buffers [] = []
buffers (text ∷ texts) = terminated text ∷ buffers texts

-- The groups on the wire, each behind its length.
abbrev pub group_frames : List Bytes → Bytes
group_frames [] = []
group_frames (text ∷ texts) = length text ∷ (text ++ group_frames texts)

pub scan_string-terminated : (text : Bytes) → IsText text → scan_string (terminated text) ≡ ok text
scan_string-terminated [] h = refl
scan_string-terminated (zero ∷ bs) h = absurd (h.0 refl)
scan_string-terminated (suc b ∷ bs) h = ground (arith, scan_string-terminated bs h.1)

pub length-buffers : (texts : List Bytes) → length (buffers texts) ≡ length texts
length-buffers [] = refl
length-buffers (text ∷ texts) = ap suc (length-buffers texts)

u8-small : (n : ℕ) → n < 256 → u8 n ≡ n
u8-small n h = omega arith

group_bytes-buffers :
    (texts : List Bytes) → All IsGroup texts → group_bytes (buffers texts) ≡ ok (group_frames texts)
unfolding group_bytes
group_bytes-buffers [] h = refl
group_bytes-buffers (text ∷ texts) h =
    rw (
      scan_string-terminated text h.0.0,
      group_bytes-buffers texts h.1,
      u8-small (length text) h.0.1,
    )

pub length-group_frames-le :
    (texts : List Bytes) → All IsGroup texts → length (group_frames texts) ≤ 256 * length texts
length-group_frames-le [] h = omega arith
length-group_frames-le (text ∷ texts) h =
    omega (arith, h.0.1, length-append text (group_frames texts), length-group_frames-le texts h.1)

subscription_size-buffers :
    (texts : List Bytes) (size : ℕ)
    → All IsGroup texts
    → size + length (group_frames texts) < 2 ^ 64
    → subscription_size (buffers texts) size ≡ ok (size + length (group_frames texts))
unfolding subscription_size
subscription_size-buffers [] size h fits = ap ok (omega arith)
subscription_size-buffers (text ∷ texts) size h fits =
    let next : u64 (size + (length text + 1)) ≡ size + (length text + 1) =
      omega (arith, fits, length-append text (group_frames texts)) in
    rw (scan_string-terminated text h.0.0, next)
      (subscription_size-buffers texts (size + (length text + 1)) h.1
          (omega (arith, fits, length-append text (group_frames texts)))
        ∙ ap ok (omega (arith, length-append text (group_frames texts))))

-- The frame of a subscription.
abbrev pub subscription_payload : ℕ → Bytes → Bytes
subscription_payload amount frames = cap_subscription ∷ amount ∷ frames

pub prepare_subscription-buffers :
    (heap : Heap) (texts : List Bytes)
    → heap 0 ≡ true
    → All IsGroup texts
    → length texts < 256
    → prepare_subscription heap (buffers texts)
      ≡ ok (some (subscription_payload (length texts) (group_frames texts)))
unfolding prepare_subscription
prepare_subscription-buffers heap texts room h few = rw (
  subscription_size-buffers texts 2 h (omega (arith, length-group_frames-le texts h)),
  room,
  group_bytes-buffers texts h,
  length-buffers texts,
  u8-small (length texts) few,
  le→leb (suc (suc (length (group_frames texts)))) (2 + length (group_frames texts)) (omega arith),
)

parse_groups_step :
    (payload text rest : Bytes) (left curr ptr : ℕ)
    → drop ptr payload ≡ length text ∷ (text ++ rest)
    → ptr ≤ length payload
    → parse_groups ample payload (suc left) curr ptr ≡ (
        parse_groups ample payload left (suc curr) (ptr + 1 + length text) >>= λ more.
        ok (terminated text ∷ more))
unfolding parse_groups
parse_groups_step payload text rest left curr ptr at le = rw (
  lt→ltb ptr (length payload) (omega (arith, bound)),
  read_byte-drop payload ptr (length text) at,
  le→leb (ptr + 1 + length text) (length payload) (omega (arith, bound)),
  read_bytes-drop payload (ptr + 1) text rest (drop_next payload ptr (length text) at)
      (omega (arith, bound)),
)
  where
    bound : ptr + 1 + length text + length rest ≡ length payload
    bound = omega (arith, length-drop ptr payload, ap length at, length-append text rest)

-- The loop reads the groups that are there, and goes on behind them.
parse_groups-frames :
    (payload : Bytes) (texts : List Bytes) (left curr ptr : ℕ) (rest : Bytes)
    → drop ptr payload ≡ group_frames texts ++ rest
    → ptr ≤ length payload
    → parse_groups ample payload (length texts + left) curr ptr ≡ (
        parse_groups ample payload left (curr + length texts) (ptr + length (group_frames texts))
        >>= λ more. ok (buffers texts ++ more))
parse_groups-frames payload [] left curr ptr rest at le =
    rw (zero-add, add-zero, add-zero) (sym (>>=-ok (parse_groups ample payload left curr ptr)))
parse_groups-frames payload (text ∷ texts) left curr ptr rest at le =
    let from : drop ptr payload ≡ length text ∷ (text ++ (group_frames texts ++ rest)) =
      at ∙ ap (λ xs. length text ∷ xs) (append_assoc text (group_frames texts) rest) in
    let counted : suc curr + length texts ≡ curr + suc (length texts) = omega arith in
    let positioned : ptr + 1 + length text + length (group_frames texts)
        ≡ ptr + length (group_frames (text ∷ texts)) =
      omega (arith, length-append text (group_frames texts)) in
    let next : drop (ptr + 1 + length text) payload ≡ group_frames texts ++ rest =
      drop_block payload (ptr + 1) text _ (drop_next payload ptr (length text) from) in
    rw suc-add (
      parse_groups_step payload text (group_frames texts ++ rest) (length texts + left) curr ptr
        from le
      ∙ ap (λ m. m >>= λ more. ok (terminated text ∷ more))
          (parse_groups-frames payload texts left (suc curr) (ptr + 1 + length text) rest next (
            omega (
              arith,
              length-drop ptr payload,
              ap length from,
              length-append text (group_frames texts ++ rest),
            )))
      ∙ >>=-assoc
          (parse_groups ample payload left (suc curr + length texts)
            (ptr + 1 + length text + length (group_frames texts)))
          _ _
      ∙ ap₂
          (λ i j.
            parse_groups ample payload left i j >>= λ more. ok (buffers (text ∷ texts) ++ more))
          counted positioned)

parse_groups-end :
    (payload : Bytes) (left curr ptr : ℕ)
    → length payload ≤ ptr
    → parse_groups ample payload left curr ptr ≡ ok []
unfolding parse_groups
parse_groups-end payload zero curr ptr h = refl
parse_groups-end payload (suc left) curr ptr h = ground arith

parse_groups-short :
    (payload part : Bytes) (size left curr ptr : ℕ)
    → drop ptr payload ≡ size ∷ part
    → length part < size
    → parse_groups ample payload (suc left) curr ptr ≡ fault uninitialized_read
unfolding parse_groups
parse_groups-short payload part size left curr ptr at short = rw (
  lt→ltb ptr (length payload) (omega (arith, length-drop ptr payload, ap length at)),
  read_byte-drop payload ptr size at,
  lt→not_leb (ptr + 1 + size) (length payload)
      (omega (arith, length-drop ptr payload, ap length at)),
)

parse_subscribe-payload :
    (amount : ℕ) (frames : Bytes)
    → parse_subscribe ample (subscription_payload amount frames) ≡ (
        parse_groups ample (subscription_payload amount frames) amount 0 2 >>= λ groups.
        ok (record { groups = groups; amount = amount }))
unfolding parse_subscribe
parse_subscribe-payload amount frames = rw (
  le→leb 2 (length (subscription_payload amount frames)) (omega arith),
  read_byte-drop (subscription_payload amount frames) 0 cap_subscription refl,
  read_byte-drop (subscription_payload amount frames) 1 amount refl,
)

-- Where the announced number of groups is not smaller than that of the groups that follow, the
-- parser reads these and reports success. It announces all of them to the caller, also where the
-- payload holds fewer: the pointers behind the last group are then not set.
pub parse_subscribe-group_frames :
    (texts : List Bytes) (missing : ℕ)
    → parse_subscribe ample (subscription_payload (length texts + missing) (group_frames texts))
      ≡ ok (record { groups = buffers texts; amount = length texts + missing })
parse_subscribe-group_frames texts missing =
    let payload : Bytes = subscription_payload (length texts + missing) (group_frames texts) in
    parse_subscribe-payload (length texts + missing) (group_frames texts)
    ∙ rw (
      parse_groups-frames payload texts missing 0 2 [] (sym (append-nil (group_frames texts)))
          (omega arith),
      parse_groups-end payload missing (0 + length texts) (2 + length (group_frames texts))
          (omega arith),
      append-nil (buffers texts),
    )

-- What prepare_subscription writes for at most 255 groups, each a text of at most 255 bytes,
-- parse_subscribe reads back, with the number of groups. All allocations are assumed to succeed.
pub parse_subscribe-prepare_subscription :
    (texts : List Bytes)
    → All IsGroup texts
    → length texts < 256
    → (payload : Bytes) × (prepare_subscription ample (buffers texts) ≡ ok (some payload))
      × (parse_subscribe ample payload
          ≡ ok (record { groups = buffers texts; amount = length texts }))
parse_subscribe-prepare_subscription texts h few = (
  subscription_payload (length texts) (group_frames texts),
  prepare_subscription-buffers ample texts refl h few,
  rw add-zero at (parse_subscribe-group_frames texts 0),
)

-- A payload that ends inside one of the announced groups is not refused with BAD_PACKET: the
-- clean-up frees the pointer of that group, which was never set.
pub parse_subscribe_truncated :
    (texts : List Bytes) (left size : ℕ) (part : Bytes)
    → length part < size
    → parse_subscribe ample
        (subscription_payload (length texts + suc left) (group_frames texts ++ size ∷ part))
      ≡ fault uninitialized_read
parse_subscribe_truncated texts left size part short =
    let payload : Bytes =
      subscription_payload (length texts + suc left) (group_frames texts ++ size ∷ part) in
    parse_subscribe-payload (length texts + suc left) (group_frames texts ++ size ∷ part)
    ∙ rw (
      parse_groups-frames payload texts (suc left) 0 2 (size ∷ part) refl (omega arith),
      parse_groups-short payload part size left (0 + length texts) (2 + length (group_frames texts))
          (drop_block payload 2 (group_frames texts) (size ∷ part) refl) short,
    )
