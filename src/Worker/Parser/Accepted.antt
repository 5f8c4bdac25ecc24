-- ===== src/Worker/Parser/Accepted.antt =====
-- What decodeMatch and validate let pass (internal/worker/parser/decode.go).
use go_dota.Base.{
  ℕ, zero, suc, ◌≤◌, ◌<◌, ◌≡◌, ◌≢◌, refl, Bool, true, false, not, ◌↔◌, ◌⊎◌, Option, none, some,
  List, [], ◌∷◌, map, length, length-map, All, arith, if◌then◌else◌, sym, subst, ◌∙◌,
}
use go_dota.Base.Int.{ℤ, pos, negsuc, is_positive, int_beq, int_beq_iff}
use go_dota.Json.{Json, Blob}
use go_dota.Storage.Matchstore.{Match, PlayerRow, PickBanRow}
use go_dota.Worker.Parser.Raw.{RawMatch, RawPlayer}
use go_dota.Worker.Parser.Convert.{convert_player, convert_player_detail}
use go_dota.Worker.Parser.Decode.{
  is_negative, Decoding, DecodeError, decoded, refused, rows_of, decode_match_root, decode_raw,
  with_match_id, decode_match, unmarshal_raw, any_parsed, is_match_parsed, is_player_parsed,
  is_there,
}
use go_dota.Worker.Parser.Validate.{
  valid_player_slot, Verdict, fine, bad_hero_id, bad_player_slot, validate_picks_bans,
  validate_players, validate,
}

-- The team of a pick or ban is 0 or 1.
abbrev pub HasTeam : PickBanRow → Type 0
HasTeam pb = (pb.team ≡ pos 0) ⊎ (pb.team ≡ pos 1)

abbrev pub IsPlayer : PlayerRow → Type 0
IsPlayer p =
    ((s : ℕ) × (p.player_slot ≡ pos s) × ((s ≤ 4) ⊎ ((128 ≤ s) × (s ≤ 132))))
    × ((h : ℕ) × (p.hero_id ≡ pos h))

abbrev pub IsValid : Match → Type 0
IsValid m =
    ((n : ℕ) × (0 < n) × (m.match_id ≡ pos n))
    × ((n : ℕ) × (0 < n) × (m.start_time ≡ pos n))
    × All IsPlayer m.players
    × All HasTeam m.picks_bans

picks_bans-fine : (pbs : List PickBanRow) → validate_picks_bans pbs ≡ fine → All HasTeam pbs
unfolding validate_picks_bans
picks_bans-fine [] e = tt
picks_bans-fine (pb ∷ pbs) e =
    ground (arith, picks_bans-fine pbs, int_beq_iff pb.team (pos 0), int_beq_iff pb.team (pos 1))

fine-picks_bans : (pbs : List PickBanRow) → All HasTeam pbs → validate_picks_bans pbs ≡ fine
unfolding validate_picks_bans
fine-picks_bans [] h = refl
fine-picks_bans (pb ∷ pbs) h =
    ground (arith, fine-picks_bans pbs, int_beq_iff pb.team (pos 0), int_beq_iff pb.team (pos 1))

slot-valid :
    (s : ℤ)
    → valid_player_slot s ≡ true
    → (n : ℕ) × (s ≡ pos n) × ((n ≤ 4) ⊎ ((128 ≤ n) × (n ≤ 132)))
unfolding valid_player_slot
slot-valid (pos n) h = (n, refl, ground arith)
slot-valid (negsuc n) h = ground arith

not_negative : (h : ℤ) → is_negative h ≡ false → (n : ℕ) × (h ≡ pos n)
unfolding is_negative
not_negative (pos n) h = (n, refl)
not_negative (negsuc n) h = ground arith

positive : (h : ℤ) → is_positive h ≡ true → (n : ℕ) × (0 < n) × (h ≡ pos n)
unfolding is_positive
positive (pos zero) h = ground arith
positive (pos (suc n)) h = (suc n, omega arith, refl)
positive (negsuc n) h = ground arith

valid-slot :
    (s : ℤ) (n : ℕ) → s ≡ pos n → ((n ≤ 4) ⊎ ((128 ≤ n) × (n ≤ 132))) → valid_player_slot s ≡ true
unfolding valid_player_slot
valid-slot s n e h = rw e (ground (arith, h))

negative_no : (s : ℤ) (n : ℕ) → s ≡ pos n → is_negative s ≡ false
unfolding is_negative
negative_no s n e = rw e refl

positive_yes : (s : ℤ) (n : ℕ) → s ≡ pos n → 0 < n → is_positive s ≡ true
unfolding is_positive
positive_yes s zero e h = absurd (omega arith)
positive_yes s (suc n) e h = rw e refl

-- Two guards, one after the other, let pass.
passed :
    (a b : Bool) (x y rest : Verdict)
    → x ≢ fine
    → y ≢ fine
    → (if not a then x else if b then y else rest) ≡ fine
    → (a ≡ true) × (b ≡ false) × (rest ≡ fine)
passed true false x y rest nx ny e = (refl, refl, e)
passed true true x y rest nx ny e = absurd (ny e)
passed false b x y rest nx ny e = absurd (nx e)

players-fine :
    (ps : List PlayerRow) (after : Verdict)
    → validate_players ps after ≡ fine
    → All IsPlayer ps × (after ≡ fine)
unfolding validate_players
players-fine [] after e = (tt, e)
players-fine (p ∷ ps) after e =
    let (a, b, r) =
      passed (valid_player_slot p.player_slot) (is_negative p.hero_id) bad_player_slot bad_hero_id
        (validate_players ps after) (λ n. cc) (λ n. cc) e in
    let (ok, last) = players-fine ps after r in
    (((slot-valid p.player_slot a, not_negative p.hero_id b), ok), last)

fine-players :
    (ps : List PlayerRow) (after : Verdict)
    → All IsPlayer ps
    → after ≡ fine
    → validate_players ps after ≡ fine
unfolding validate_players
fine-players [] after h e = e
fine-players (p ∷ ps) after (((n, s, range), (k, hero)), hs) e =
    rw (valid-slot p.player_slot n s range, negative_no p.hero_id k hero)
      (fine-players ps after hs e)

-- The tests of validate, its first two guards aside.
passed_both :
    (a b : Bool) (x y rest : Verdict)
    → x ≢ fine
    → y ≢ fine
    → (if not a then x else if not b then y else rest) ≡ fine
    → (a ≡ true) × (b ≡ true) × (rest ≡ fine)
passed_both true true x y rest nx ny e = (refl, refl, e)
passed_both true false x y rest nx ny e = absurd (ny e)
passed_both false b x y rest nx ny e = absurd (nx e)

fine-IsValid : (m : Match) → validate m ≡ fine → IsValid m
unfolding validate
fine-IsValid m e =
    let (a, b, r) =
      passed_both (is_positive m.match_id) (is_positive m.start_time) Verdict.bad_match_id
        Verdict.bad_start_time (validate_players m.players (validate_picks_bans m.picks_bans))
        (λ n. cc) (λ n. cc) e in
    let (ps, last) = players-fine m.players (validate_picks_bans m.picks_bans) r in
    (positive m.match_id a, positive m.start_time b, ps, picks_bans-fine m.picks_bans last)

IsValid-fine : (m : Match) → IsValid m → validate m ≡ fine
unfolding validate
IsValid-fine m ((n, pn, id), (k, pk, start), ps, pbs) =
    rw (positive_yes m.match_id n id pn, positive_yes m.start_time k start pk)
      (fine-players m.players (validate_picks_bans m.picks_bans) ps
        (fine-picks_bans m.picks_bans pbs))

-- validate lets a match pass exactly when its number and its start are positive, each player has a
-- slot of one of the two teams and a hero whose number is not negative, and each pick or ban is of
-- one of the two teams.
pub validate-IsValid : (m : Match) → (validate m ≡ fine) ↔ IsValid m
validate-IsValid m = (λ e. fine-IsValid m e, λ h. IsValid-fine m h)

-- What a decoded match has to do with the raw one.
abbrev pub Comes : Blob → RawMatch → Match → Type 0
Comes blob rm m =
    (is_positive m.match_id ≡ true)
    × (m.start_time ≢ pos 0)
    × (is_negative m.duration ≡ false)
    × (m.players ≡ map (λ p. convert_player p) rm.players)
    × (m.details ≡ map (λ p. convert_player_detail p) rm.players)
    × (length m.details ≡ length m.players)
    × (m.raw ≡ blob)

accepted :
    (a b c : Bool) (r m : Match)
    → (if not a
        then refused DecodeError.invalid_match_id
        else if b
        then refused DecodeError.start_time_missing
        else if c
        then refused DecodeError.negative_duration
        else decoded r)
      ≡ decoded m
    → (a ≡ true) × (b ≡ false) × (c ≡ false) × (r ≡ m)
accepted true false false r m e = (refl, refl, refl, cc)
accepted true false true r m e = absurd cc
accepted true true c r m e = absurd cc
accepted false b c r m e = absurd cc

not_zero : (n : ℤ) → int_beq n (pos 0) ≡ false → n ≢ pos 0
not_zero n e = ground (arith, int_beq_iff n (pos 0))

decode_raw-Comes :
    (rm : RawMatch) (blob : Blob) (m : Match)
    → decode_raw rm blob ≡ decoded m
    → Comes blob rm m × (m.match_id ≡ rm.match_id)
unfolding decode_raw rows_of decode_match_root
decode_raw-Comes rm blob m e =
    let (a, b, c, same) =
      accepted (is_positive rm.match_id) (int_beq rm.start_time (pos 0)) (is_negative rm.duration)
        (rows_of rm blob) m e in
    subst (λ m. Comes blob rm m × (m.match_id ≡ rm.match_id)) same
      (
        (
          a,
          not_zero rm.start_time b,
          c,
          refl,
          refl,
          length-map (λ p. convert_player_detail p) rm.players
              ∙ sym (length-map (λ p. convert_player p) rm.players),
          refl,
        ),
        refl,
      )

decode_as :
    (id : ℤ) (rm : RawMatch) (b : Bool) (blob : Blob) (m : Match)
    → decode_raw (if b then record rm { match_id = id } else rm) blob ≡ decoded m
    → Comes blob rm m × (m.match_id ≡ (if b then id else rm.match_id))
decode_as id rm true blob m e = decode_raw-Comes (record rm { match_id = id }) blob m e
decode_as id rm false blob m e = decode_raw-Comes rm blob m e

decode_found :
    (id : ℤ) (blob : Blob) (m : Match) (o : Option RawMatch)
    → (elim o as (λ x. Decoding) [
      | none ↦ refused DecodeError.no_json
      | some rm ↦ decode_raw (with_match_id id rm) blob
    ])
      ≡ decoded m
    → (rm : RawMatch) × (o ≡ some rm)
      × Comes blob rm m
      × (m.match_id ≡ (if int_beq rm.match_id (pos 0) then id else rm.match_id))
unfolding with_match_id
decode_found id blob m none e = absurd cc
decode_found id blob m (some rm) e =
    let (c, i) = decode_as id rm (int_beq rm.match_id (pos 0)) blob m e in (rm, refl, c, i)

-- A match that is decoded has a positive number, the one in the payload or, where that is missing,
-- the task's; a start that is not 0; and no negative duration. It has one row and one row of details
-- for each player of the payload, in their order.
pub decode_match-Comes :
    (id : ℤ) (blob : Blob) (m : Match)
    → decode_match id blob ≡ decoded m
    → (rm : RawMatch) × (unmarshal_raw blob ≡ some rm)
      × Comes blob rm m
      × (m.match_id ≡ (if int_beq rm.match_id (pos 0) then id else rm.match_id))
unfolding decode_match
decode_match-Comes id blob m e = decode_found id blob m (unmarshal_raw blob) e

-- A first player whose purchase log is `null` makes the match count as parsed: the raw message of
-- `null` is not nil.
pub null_log-parsed :
    (rm : RawMatch) (p : RawPlayer) (ps : List RawPlayer)
    → rm.players ≡ p ∷ ps
    → p.purchase_log ≡ some Json.null
    → is_match_parsed rm ≡ true
unfolding is_match_parsed any_parsed is_player_parsed is_there
null_log-parsed rm p ps e h = rw (e, h) refl
