-- ===== src/Payload/Inmem/Examples.antt =====
-- The store of payloads on concrete times.
use go_dota.Base.{◌≡◌, refl, some, arith, get as lookup, put as insert}
use go_dota.Base.Int.{pos, int_eq, int_beq}
use go_dota.Json.{text}
use go_dota.Payload.{Got}
use go_dota.Payload.Inmem.{Store, put, get, new, read, is_over}
use go_dota.Payload.Inmem.Expiry.{view, got_of, get-view}

abbrev one_payload : Store
one_payload = put new 10 (pos 7) (text "match") 5

get-view_example :
    ((get one_payload 12 (pos 7)).1 ≡ got_of (view one_payload 12 (pos 7)))
    × (view (get one_payload 12 (pos 7)).0 14 (pos 7) ≡ view one_payload 14 (pos 7))
get-view_example = get-view one_payload 12 (pos 7) 14 (pos 7) (omega arith)

-- It is there until its time is over.
in_time : (get one_payload 15 (pos 7)).1 ≡ Got.found (text "match")
unfolding get read put is_over insert lookup int_beq new
in_time = refl

too_late : (get one_payload 16 (pos 7)).1 ≡ Got.not_found
unfolding get read put is_over insert lookup int_beq new
too_late = refl

holds_7 : lookup one_payload (pos 7) ≡ some (record { bytes = text "match"; expires_at = some 15 })
unfolding put insert lookup int_beq new
holds_7 = refl
