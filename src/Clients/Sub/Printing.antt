-- ===== src/Clients/Sub/Printing.antt =====
-- What octopipes_sub prints.
use liboctopipes.Prelude.{
  ℕ, zero, suc, ◌-◌, ◌<◌, ◌≡◌, ◌≢◌, refl, sym, ap, true, false, none, some, Option, List, [], ◌∷◌,
  length, arith, lt→ltb, leb, take, Bool-cases, inl, inr,
}
use liboctopipes.Types.{Outcome, ok, fault, overread, ◌>>=◌, Bytes, Message}
use liboctopipes.Memory.{scan_string, read_string, terminated}
use liboctopipes.Serializer.Frame.{Packet, message_of}
use liboctopipes.Cap.Subscribe.{IsText, scan_string-terminated}
use liboctopipes.Clients.Sub.{reached, printed, on_received}

-- A scan for a terminator that is not there.
pub scan_string_overread : (text : Bytes) → IsText text → scan_string text ≡ fault overread
scan_string_overread [] h = refl
scan_string_overread (zero ∷ bs) h = absurd (h.0 refl)
scan_string_overread (suc b ∷ bs) h = ground (arith, scan_string_overread bs h.1)

-- A message as octopipes_decode stores it, whose payload holds no null byte, as the payloads of
-- octopipes_send: on_received prints it as a C string and reads past its end, unless it is the last
-- message of the count or comes behind it.
pub on_received_unterminated :
    (count : Option ℕ) (counter checksum : ℕ) (q : Packet)
    → reached count (suc counter) ≡ false
    → q.payload ≢ []
    → IsText q.payload
    → on_received count false counter (message_of q checksum) ≡ fault overread
unfolding on_received printed read_string
on_received_unterminated count counter checksum q more some_payload text =
    by_payload q.payload some_payload text
  where
    by_payload :
        (bytes : Bytes)
        → bytes ≢ []
        → IsText bytes
        → on_received count false counter (message_of (record q { payload = bytes }) checksum)
          ≡ fault overread
    by_payload [] filled h = absurd (filled refl)
    by_payload (b ∷ bs) filled h =
        rw (more, lt→ltb 0 (length (b ∷ bs)) (omega arith), scan_string_overread (b ∷ bs) h)

-- A payload that is a C string, terminator and all.
pub record Shows (m : Message) (text : Bytes) : Type 0 where
  pub sized : 0 < m.data_size
  pub holds : m.payload ≡ some (terminated text)
  pub is_text : IsText text

-- The calls of on_received for these messages, with the lines that they print.
abbrev pub hear : Option ℕ → (counter : ℕ) → List Message → Outcome (List Bytes)
hear count counter [] = ok []
hear count counter (m ∷ ms) = do
  heard ← on_received count false counter m
  rest ← hear count heard.counter ms
  ok (elim heard.line [ none ↦ rest | some line ↦ line ∷ rest ])

abbrev pub AllShow : List Message → List Bytes → Type 0
AllShow [] [] = Unit
AllShow (m ∷ ms) (text ∷ texts) = Shows m text × AllShow ms texts
AllShow _ _ = ⊥

printed-Shows : (m : Message) (text : Bytes) → Shows m text → printed false m ≡ ok (some text)
unfolding printed read_string
printed-Shows m text s =
    rw (s.holds, lt→ltb 0 m.data_size s.sized, scan_string-terminated text s.is_text)

take-nil {ℓ} : {A : Type ℓ} (n : ℕ) → take {A = A} n [] ≡ []
take-nil zero = refl
take-nil (suc n) = refl

over-sub : (count counter : ℕ) → leb count (suc counter) ≡ true → count - suc counter ≡ 0
over-sub count counter over = ground arith

over-sub_next : (count counter : ℕ) → leb count (suc counter) ≡ true → count - suc (suc counter) ≡ 0
over-sub_next count counter over = ground arith

more-sub :
    (count counter : ℕ)
    → leb count (suc counter) ≡ false
    → count - suc counter ≡ suc (count - suc (suc counter))
more-sub count counter more = ground arith

hear-from :
    (count counter : ℕ) (ms : List Message) (texts : List Bytes)
    → AllShow ms texts
    → hear (some count) counter ms ≡ ok (take (count - suc counter) texts)
unfolding on_received
hear-from count counter [] [] shown = ap ok (sym (take-nil (count - suc counter)))
hear-from count counter [] (text ∷ texts) shown = elim shown [ ]
hear-from count counter (m ∷ ms) [] shown = elim shown [ ]
hear-from count counter (m ∷ ms) (text ∷ texts) shown =
    elim (Bool-cases (leb count (suc counter))) [
      | inl over ↦
          rw
            (
              over,
              hear-from count (suc counter) ms texts shown.1,
              over-sub_next count counter over,
              over-sub count counter over,
            )
            refl
      | inr more ↦
          rw
            (
              more,
              printed-Shows m text shown.0,
              hear-from count (suc counter) ms texts shown.1,
              more-sub count counter more,
            )
            refl
    ]

-- octopipes_sub with a limit on the number of messages, to which messages come whose payloads are C
-- strings: it prints the payloads of the first ones in their order, one fewer than the limit, and
-- then no more. A limit of 0 prints none.
pub hear-take :
    (count : ℕ) (ms : List Message) (texts : List Bytes)
    → AllShow ms texts
    → hear (some count) 0 ms ≡ ok (take (count - 1) texts)
hear-take count ms texts shown = hear-from count 0 ms texts shown
