-- ===== src/Primitives/EntityId.antt =====
-- shared/id/entity-id.ts. A UUID is the 128-bit number of its 32 hexadecimal digits; the canonical
-- lower-case text that the program compares and this number determine one another.
use main_acounting_system.Prelude.{
  List, Option, [], if◌then◌else◌, if◌then◌else◌, if◌then◌else◌, leb, none, some, suc, zero, ℕ,
  ◌&&◌, ◌*◌, ◌+◌, ◌-◌, ◌==◌, ◌∷◌,
}
use main_acounting_system.Prelude.Outcome.{Outcome, err, ok}
use main_acounting_system.Primitives.Text.{
  InvalidPrimitiveError, Text, invalid_primitive, is_space, trim,
}

abbrev pub EntityId : Type 0
EntityId = ℕ

-- `[0-9a-f]` under the flag `i`, with the digit's value.
unfoldable pub hex_value : ℕ → Option ℕ
hex_value c =
    if leb b'0' c && leb c b'9'
    then some (c - b'0')
    else (if leb b'a' c && leb c b'f'
        then some (c - b'a' + 10)
        else (if leb b'A' c && leb c b'F' then some (c - b'A' + 10) else none))

-- One step of a `{n}` group or of a dash, on the digits read so far.
abbrev next_digit : Option ℕ → Option ℕ → Option ℕ
next_digit none d = none
next_digit (some n) none = none
next_digit (some n) (some d) = some (n * 16 + d)

-- `h` stands for a hexadecimal digit and `dash` for "-".
pub data Slot : Type 0 where
  hex dash : Slot

abbrev read_slot : Slot → ℕ → Option ℕ → Option ℕ
unfolding hex_value
read_slot hex c n = next_digit n (hex_value c)
read_slot dash c n = if c == b'-' then n else none

match_slots : List Slot → Text → Option ℕ → Option ℕ
unfolding hex_value
match_slots [] [] n = n
match_slots (slot ∷ slots) (c ∷ s) n = match_slots slots s (read_slot slot c n)
match_slots _ _ n = none

abbrev group : ℕ → List Slot → List Slot
group zero rest = rest
group (suc k) rest = hex ∷ group k rest

-- `UUID_PATTERN`: 8-4-4-4-12 hexadecimal digits.
abbrev uuid_pattern : List Slot
uuid_pattern = group 8 (dash ∷ group 4 (dash ∷ group 4 (dash ∷ group 4 (dash ∷ group 12 []))))

abbrev or_invalid : Option ℕ → Outcome InvalidPrimitiveError EntityId
or_invalid none = err invalid_primitive
or_invalid (some n) = ok n

unfoldable pub entity_id_from : Text → Outcome InvalidPrimitiveError EntityId
unfolding match_slots trim is_space
entity_id_from value = or_invalid (match_slots uuid_pattern (trim value) (some 0))
