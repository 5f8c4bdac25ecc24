-- ===== src/Worker/Parser/Examples.antt =====
-- The parser on a small payload.
use go_dota.Base.{
  ℕ, suc, ◌≡◌, refl, true, some, List, [], ◌∷◌, ◌↔◌, if◌then◌else◌, get as lookup, put as insert,
}
use go_dota.Base.Int.{ℤ, pos, negsuc, int_beq, int_eq, is_positive}
use go_dota.Json.{Blob, find}
use go_dota.Json.{fits}
use go_dota.Json.Members.{
  int_in, int_or_zero, bool_in, bool_or_false, text_in, text_or_empty, number_in, ints_in,
  structs_in, member, read_int, or_else, read_slice, read_items, int_item, struct_item,
}
use go_dota.Queue.{Task}
use go_dota.Payload.Inmem as Payload
use go_dota.Payload.Inmem.Expiry.{view, current}
use go_dota.Storage.Matchstore.{Match}
use go_dota.Worker.Tasks.{marshal_task, unmarshal-marshal_task}
use go_dota.Worker.Ingester.{Ingested, ingested}
use go_dota.Worker.Parser.{process, after_decode}
use go_dota.Worker.Parser.Raw.{RawMatch}
use go_dota.Worker.Parser.Unmarshal.{unmarshal_match}
use go_dota.Worker.Parser.UnmarshalPlayer.{unmarshal_player}
use go_dota.Worker.Parser.Decode.{
  decoded, rows_of, decode_match, decode_raw, with_match_id, unmarshal_raw, is_negative,
  is_match_parsed,
}
use go_dota.Worker.Parser.Validate.{fine, validate}
use go_dota.Worker.Parser.Accepted.{
  IsValid, validate-IsValid, Comes, decode_match-Comes, null_log-parsed,
}
use go_dota.Worker.Parser.Series.{safe_idx}
use go_dota.Worker.Parser.Finishing.{found_in_time}
use go_dota.Worker.Parser.Samples.{payload, raw_match, dire_player}

abbrev match_7 : Match
match_7 = rows_of (record raw_match { match_id = pos 7 }) payload

reads : unmarshal_raw payload ≡ some raw_match
unfolding unmarshal_raw unmarshal_match unmarshal_player find int_in int_or_zero bool_in
    bool_or_false text_in text_or_empty number_in ints_in structs_in member read_int fits or_else
    read_slice read_items int_item struct_item
reads = refl

decodes : decode_match (pos 7) payload ≡ decoded match_7
unfolding decode_match with_match_id decode_raw int_beq is_positive is_negative unmarshal_raw
    unmarshal_match unmarshal_player find int_in int_or_zero bool_in bool_or_false text_in
    text_or_empty number_in ints_in structs_in member read_int fits or_else read_slice read_items
    int_item struct_item
decodes = refl

decode_match-Comes_example :
    (rm : RawMatch) × (unmarshal_raw payload ≡ some rm)
    × Comes payload rm match_7
    × (match_7.match_id ≡ (if int_beq rm.match_id (pos 0) then pos 7 else rm.match_id))
decode_match-Comes_example = decode_match-Comes (pos 7) payload match_7 decodes

validate-IsValid_example : (validate match_7 ≡ fine) ↔ IsValid match_7
validate-IsValid_example = validate-IsValid match_7

null_counts : is_match_parsed raw_match ≡ true
null_counts = null_log-parsed raw_match dire_player [] refl refl

abbrev denies : List ℤ
denies = negsuc 39999 ∷ []

first_denies : safe_idx denies 0 ≡ some (negsuc 39999)
unfolding safe_idx
first_denies = refl

-- A repository that counts the matches it takes.
abbrev takes : ℕ → Match → ℕ × Ingested
takes n m = (suc n, ingested)

abbrev payloads : Payload.Store
payloads = Payload.put Payload.new 10 (pos 7) payload 100

abbrev parse_7 : Task Blob
parse_7 = record { id = 1; payload = marshal_task (pos 7); retry_count = 0 }

there : view payloads 20 (pos 7) ≡ some payload
unfolding view current Payload.put Payload.new Payload.is_over insert lookup int_beq
there = refl

found_payload :
    process Payload.store_ops takes payloads 0 20 parse_7
    ≡ after_decode Payload.store_ops takes
        (Payload.get payloads 20 (pos 7)).0
        0
        20
        (pos 7)
        (decode_match (pos 7) payload)
unfolding fits
found_payload =
    found_in_time takes payloads 0 20 parse_7 (pos 7) payload (unmarshal-marshal_task (pos 7) refl)
      there
