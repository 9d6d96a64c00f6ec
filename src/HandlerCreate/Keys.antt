-- ===== src/HandlerCreate/Keys.antt =====
-- What the key of a form parameter spells.
use swift_go.Prelude.{
  ℕ, ◌≤◌, ◌≡◌, refl, arith, true, false, none, some, [], ◌∷◌, ◌++◌, ok, err, All, Bytes,
  no_conflict_character,
}
use swift_go.Io.{Time}
use swift_go.Pair.{empty_value}
use swift_go.HandlerCreate.{
  Parsers, is_operation_character, find_character, get_conflict_policy, create_pair,
  create_pair_with_value, create_pair_with_no_value,
}
use swift_go.HandlerCreate.Pairs.{or_text}

-- a name without operation characters
abbrev pub IsName : Bytes → Type 0
IsName = All (λ x. is_operation_character x ≡ false)

-- The first operation character is found, whatever stands behind it.
find_character-append :
    (n : Bytes) (x : ℕ) (rest : Bytes)
    → IsName n
    → is_operation_character x ≡ true
    → find_character (n ++ x ∷ rest) ≡ some (record { name = n; character = x; rest = rest })
unfolding find_character
find_character-append [] x rest h hx = rw hx refl
find_character-append (y ∷ n) x rest (hy, h) hx = rw (hy, find_character-append n x rest h hx) refl

find_character-name : (n : Bytes) → IsName n → find_character n ≡ none
unfolding find_character
find_character-name [] h = refl
find_character-name (y ∷ n) (hy, h) = rw (hy, find_character-name n h) refl

-- a character with its policy
abbrev pub IsPolicy : ℕ → ℕ → Type 0
IsPolicy x policy = (is_operation_character x ≡ true) × (get_conflict_policy x ≡ ok policy)

module _ {Url : Type 0} (p : Parsers Url) (now : Time) (n v : Bytes) (h : IsName n) where
  -- A key of a name, an operation character and a date that parses, not before the present, gives
  -- the pair of that name with the policy of the character, created now, expiring on the date, and
  -- with the value decoded from base64 or else as it stands.
  create_pair-dated :
      (x policy y : ℕ) (date : Bytes) (expires : Time)
      → IsPolicy x policy
      → p.parse_date (y ∷ date) ≡ ok expires
      → now ≤ expires
      → create_pair p now (n ++ x ∷ (y ∷ date)) v
        ≡ ok (record empty_value {
          conflict = policy;
          pair = record {
            key = n;
            created = now;
            expires = expires;
            values = or_text p now v (p.decode_base64 v) ∷ [];
          };
        })
  unfolding create_pair create_pair_with_value
  create_pair-dated x policy y date expires (hx, hp) parsed future =
      rw (find_character-append n x (y ∷ date) h hx, hp, parsed) (ground arith)

  -- A key of a name and an operation character gives a pair without values, whatever the value.
  pub create_pair-undated :
      (x policy : ℕ)
      → IsPolicy x policy
      → create_pair p now (n ++ x ∷ []) v
        ≡ ok
            (record empty_value { conflict = policy; pair = record (empty_value.pair) { key = n } })
  unfolding create_pair create_pair_with_no_value
  create_pair-undated x policy (hx, hp) = rw (find_character-append n x [] h hx, hp) refl

  -- A key without an operation character is refused.
  pub create_pair_plain : create_pair p now n v ≡ err no_conflict_character
  unfolding create_pair
  create_pair_plain = rw (find_character-name n h) refl
