-- ===== src/Cap/Tests.antt =====
-- Runs of the CAP payloads on small inputs, and their theorems at such inputs.
use liboctopipes.Prelude.{◌≡◌, refl, some, List, [], ◌∷◌, All, arith}
use liboctopipes.Types.{ok, ample, null, freed, buffer, success, bad_packet, Bytes}
use liboctopipes.Memory.{read_byte, read_bytes, terminated}
use liboctopipes.Cap.{
  prepare_subscription, parse_subscribe, parse_groups, parse_assign, parse_assign_tx,
  parse_assign_rx, prepare_assign,
}
use liboctopipes.Cap.Subscribe.{IsGroup, buffers, parse_subscribe-prepare_subscription}
use liboctopipes.Cap.Assign.{assigned, Returns, parse_assign-prepare_assign, parse_assign-Returns}

prepared :
    prepare_subscription ample ((97 ∷ 98 ∷ 0 ∷ []) ∷ (99 ∷ 0 ∷ []) ∷ [])
    ≡ ok (some (1 ∷ 2 ∷ 2 ∷ 97 ∷ 98 ∷ 1 ∷ 99 ∷ []))
unfolding prepare_subscription
prepared = refl

parsed :
    parse_subscribe ample (1 ∷ 2 ∷ 2 ∷ 97 ∷ 98 ∷ 1 ∷ 99 ∷ [])
    ≡ ok (record { groups = (97 ∷ 98 ∷ 0 ∷ []) ∷ (99 ∷ 0 ∷ []) ∷ []; amount = 2 })
unfolding parse_subscribe parse_groups read_byte read_bytes
parsed = refl

parsed_assign :
    parse_assign ample (0xFF ∷ 0 ∷ 1 ∷ 97 ∷ 1 ∷ 98 ∷ []) null null
    ≡ ok (record {
      code = success;
      cap_error = some 0;
      tx = buffer (97 ∷ 0 ∷ []);
      rx = buffer (98 ∷ 0 ∷ []);
    })
unfolding parse_assign parse_assign_tx parse_assign_rx read_byte read_bytes
parsed_assign = refl

-- The first pipe is left dangling where the second one is cut off.
parsed_assign_short :
    parse_assign ample (0xFF ∷ 0 ∷ 1 ∷ 97 ∷ 2 ∷ 98 ∷ []) null null
    ≡ ok (record { code = bad_packet; cap_error = some 0; tx = freed; rx = freed })
unfolding parse_assign parse_assign_tx parse_assign_rx read_byte read_bytes
parsed_assign_short = refl

abbrev two_groups : List Bytes
two_groups = (97 ∷ 98 ∷ []) ∷ (99 ∷ []) ∷ []

two_groups-IsGroup : All IsGroup two_groups
two_groups-IsGroup = omega arith

parse_subscribe-prepare_subscription_example :
    (payload : Bytes) × (prepare_subscription ample (buffers two_groups) ≡ ok (some payload))
    × (parse_subscribe ample payload ≡ ok (record { groups = buffers two_groups; amount = 2 }))
parse_subscribe-prepare_subscription_example =
    parse_subscribe-prepare_subscription two_groups two_groups-IsGroup (omega arith)

parse_assign-prepare_assign_example :
    (payload : Bytes) × (prepare_assign ample 0
        (some (terminated (97 ∷ [])))
        1
        (some (terminated (98 ∷ [])))
        1
      ≡ ok (some payload))
    × (parse_assign ample payload null null ≡ ok (assigned 0 (97 ∷ []) (98 ∷ []) null null))
parse_assign-prepare_assign_example =
    parse_assign-prepare_assign 0 (97 ∷ []) (98 ∷ []) null null (omega arith) (omega arith)
      (omega arith)

parse_assign-Returns_example :
    Returns null null (parse_assign ample (0xFF ∷ 0 ∷ 9 ∷ 9 ∷ []) null null)
parse_assign-Returns_example = parse_assign-Returns ample (0xFF ∷ 0 ∷ 9 ∷ 9 ∷ []) null null
