-- ===== src/Command/Migrator/Names.antt =====
-- Which names are migrations (cmd/migrator/main.go, filenameRe).
use go_dota.Base.{
  ℕ, ◌≡◌, ◌↔◌, refl, sym, ap, ◌∙◌, subst, Bool, true, false, some, [], ◌∷◌, ◌++◌, All, Bool-cases,
  inl, inr, arith,
}
use go_dota.Base.Bytes.{Bytes, bytes_beq, bytes_beq_iff, is_empty}
use go_dota.Command.Migrator.{
  is_digit, is_word, span, dot_sql, matches_tail, after_version, match_filename,
}

abbrev pub Passes : (ℕ → Bool) → Bytes → Type 0
Passes p cs = All (λ c. p c ≡ true) cs

-- `digits`_`word`.sql, with one digit and one byte of a word at least.
abbrev pub IsName : Bytes → Bytes → Bytes → Type 0
IsName name digits word =
    (name ≡ digits ++ (95 ∷ (word ++ dot_sql)))
    × (is_empty digits ≡ false)
    × Passes is_digit digits
    × (is_empty word ≡ false)
    × Passes is_word word

span-append : (p : ℕ → Bool) (cs : Bytes) → (span p cs).0 ++ (span p cs).1 ≡ cs
unfolding span
span-append p [] = refl
span-append p (c ∷ cs) = elim (Bool-cases (p c)) [
  | inl e ↦ rw e (ap (λ l. c ∷ l) (span-append p cs))
  | inr e ↦ rw e refl
]

span-Passes : (p : ℕ → Bool) (cs : Bytes) → Passes p (span p cs).0
unfolding span
span-Passes p [] = tt
span-Passes p (c ∷ cs) = elim (Bool-cases (p c)) [
  | inl e ↦ rw e (e, span-Passes p cs)
  | inr e ↦ rw e tt
]

-- A byte that does not pass ends the prefix.
span_stop :
    (p : ℕ → Bool) (xs : Bytes) (c : ℕ) (ys : Bytes)
    → Passes p xs
    → p c ≡ false
    → span p (xs ++ c ∷ ys) ≡ (xs, c ∷ ys)
unfolding span
span_stop p [] c ys h e = rw e refl
span_stop p (x ∷ xs) c ys h e = rw (h.0, span_stop p xs c ys h.1 e) refl

underscore : is_digit 95 ≡ false
unfolding is_digit
underscore = refl

tail_word :
    (cs : Bytes)
    → matches_tail cs ≡ true
    → (word : Bytes) × (cs ≡ word ++ dot_sql) × (is_empty word ≡ false) × Passes is_word word
unfolding matches_tail
tail_word cs e = (
  (span is_word cs).0,
  sym (span-append is_word cs)
      ∙ ap (λ r. (span is_word cs).0 ++ r)
          ((bytes_beq_iff (span is_word cs).1 dot_sql).0 (ground arith)),
  ground arith,
  span-Passes is_word cs,
)

word_tail :
    (word : Bytes)
    → is_empty word ≡ false
    → Passes is_word word
    → matches_tail (word ++ dot_sql) ≡ true
unfolding matches_tail is_word is_digit bytes_beq
word_tail word e h = rw (span_stop is_word word 46 (115 ∷ 113 ∷ 108 ∷ []) h refl, e) refl

found-IsName :
    (name digits rest ds : Bytes)
    → digits ++ rest ≡ name
    → Passes is_digit digits
    → after_version digits rest ≡ some ds
    → (word : Bytes) × IsName name ds word
unfolding after_version
found-IsName name digits [] ds e h m = ground arith
found-IsName name digits (c ∷ cs) ds e h m =
    subst (λ l. (word : Bytes) × IsName name l word) (ground arith)
      (
        found.0,
        (
          sym e
              ∙ ap (λ l. digits ++ l) (ap (λ x. x ∷ cs) (ground arith) ∙ ap (λ l. 95 ∷ l) found.1),
          ground arith,
          h,
          found.2,
          found.3,
        ),
      )
  where
    found : (word : Bytes) × (cs ≡ word ++ dot_sql) × (is_empty word ≡ false) × Passes is_word word
    found = tail_word cs (ground arith)

-- A name matches, with some digits as its version, exactly when it is those digits, an underscore, a
-- word of letters, digits, underscores and dashes, and `.sql`, where neither is empty.
pub match_filename-IsName :
    (name digits : Bytes)
    → (match_filename name ≡ some digits) ↔ ((word : Bytes) × IsName name digits word)
unfolding match_filename after_version
match_filename-IsName name digits = (
  (λ e.
      found-IsName name (span is_digit name).0 (span is_digit name).1 digits
        (span-append is_digit name) (span-Passes is_digit name) e),
  (λ (word, is_name). rw is_name.0 (
      rw (span_stop is_digit digits 95 (word ++ dot_sql) is_name.2 underscore)
        (rw (is_name.1, word_tail word is_name.3 is_name.4) refl))),
)
