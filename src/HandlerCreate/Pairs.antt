-- ===== src/HandlerCreate/Pairs.antt =====
-- handlerCreate.go: a key and a value of the form as a pair.
use swift_go.Prelude.{
  ℕ, ℤ, ltb, length, Bool, ◌||◌, Option, none, some, [], ◌∷◌, Result, ok, err, bind,
  no_conflict_character, invalid_character, expiry_not_future, ◌==◌, if◌then◌else◌, Bytes,
}
use swift_go.Io.{Time, before}
use swift_go.Pair.{OperationPair, empty_value, conflict_add, conflict_oldest, conflict_newest}

-- What the standard library parses and prints: base64.StdEncoding, `time.Parse` of a date,
-- `strconv.Atoi` and `URL.String`.
pub record Parsers (Url : Type 0) : Type 0 where
  pub decode_base64 : Bytes → Result Bytes
  pub parse_date : Bytes → Result Time
  pub parse_int : Bytes → Result ℤ
  pub url_string : Url → Bytes

-- the expression of `operationCharacterRegEx`
unfoldable pub is_operation_character : ℕ → Bool
is_operation_character x = (x == b'<') || (x == b'>') || (x == b'+')

-- A key at its first operation character: what stands before it, the character, what stands behind.
pub record Parts : Type 0 where
  pub name : Bytes
  pub character : ℕ
  pub rest : Bytes

abbrev pub longer : ℕ → Option Parts → Option Parts
longer x none = none
longer x (some p) = some (record p { name = x ∷ p.name })

-- `FindStringIndex` and the slices that the code takes by its result; the expression matches one
-- byte, so an index is always two numbers that differ by one.
unfoldable pub find_character : Bytes → Option Parts
find_character [] = none
find_character (x ∷ k) =
    let further = find_character k in
    if is_operation_character x
    then some (record { name = []; character = x; rest = k })
    else longer x further

unfoldable pub get_conflict_policy : ℕ → Result ℕ
get_conflict_policy x =
    if x == b'+'
    then ok conflict_add
    else if x == b'<'
    then ok conflict_oldest
    else if x == b'>'
    then ok conflict_newest
    else err invalid_character

unfoldable pub create_pair_with_no_value : Parts → Result OperationPair
unfolding get_conflict_policy
create_pair_with_no_value parts = bind (get_conflict_policy parts.character) λ conflict.
    ok (record empty_value {
      conflict = conflict;
      pair = record (empty_value.pair) { key = parts.name };
    })

module _ {Url : Type 0} (p : Parsers Url) (now : Time) where
  abbrev pub or_text : Bytes → Result Bytes → Bytes
  or_text v (ok b) = b
  or_text v (err e) = v

  unfoldable pub create_pair_with_value : Parts → Bytes → Result OperationPair
  unfolding get_conflict_policy
  create_pair_with_value parts v = bind (get_conflict_policy parts.character) λ conflict.
      bind (p.parse_date parts.rest) λ expires.
        if before expires now
        then err expiry_not_future
        else ok (record empty_value {
          conflict = conflict;
          pair = record {
            key = parts.name;
            created = now;
            expires = expires;
            values = or_text v (p.decode_base64 v) ∷ [];
          };
        })

  abbrev create_from : Option Parts → Bytes → Result OperationPair
  create_from none v = err no_conflict_character
  create_from (some parts) v =
      if ltb 0 (length parts.rest)
      then create_pair_with_value parts v
      else create_pair_with_no_value parts

  unfoldable pub create_pair : Bytes → Bytes → Result OperationPair
  unfolding find_character create_pair_with_value create_pair_with_no_value
  create_pair k v = create_from (find_character k) v
