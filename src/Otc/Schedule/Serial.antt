-- ===== src/Otc/Schedule/Serial.antt =====
-- serialize_signal and deserialize_signal. A text of a time is the list of its code points, and the
-- dictionary a record with none for a key that is missing or None.
use divap_trader.Base.{
  ℕ, ◌+◌, ◌-◌, ◌*◌, ◌/◌, ◌%◌, String, Bool, ◌&&◌, Option, none, some, List, [], ◌∷◌, leb, ltb, ◌==◌,
  if◌then◌else◌, option_or,
}
use divap_trader.Base.Int.{ℤ, pos, negsuc}
use divap_trader.Otc.Models.{OtcSignal, TimeOfDay}

abbrev pub Text : Type 0
Text = List ℕ

abbrev pub digit_code : ℕ → ℕ
digit_code d = 48 + d

abbrev is_digit_to : ℕ → ℕ → Bool
is_digit_to top c = leb 48 c && leb c (48 + top)

-- `strftime("%H:%M")`
unfoldable pub format_time : TimeOfDay → Text
format_time t =
    digit_code (t.hour / 10)
    ∷ digit_code (t.hour % 10)
    ∷ 58
    ∷ digit_code (t.minute / 10)
    ∷ digit_code (t.minute % 10)
    ∷ []

-- The %M of strptime: up to 59, with one digit or two.
unfoldable pub parse_minute : ℕ → Text → Option TimeOfDay
parse_minute h [] = none
parse_minute h (a ∷ []) =
    if is_digit_to 9 a then some (record { hour = h; minute = a - 48 }) else none
parse_minute h (a ∷ b ∷ []) =
    if is_digit_to 5 a && is_digit_to 9 b
    then some (record { hour = h; minute = (a - 48) * 10 + (b - 48) })
    else none
parse_minute h (a ∷ b ∷ c ∷ rest) = none

abbrev is_hour : ℕ → ℕ → Bool
is_hour a b = is_digit_to 2 a && is_digit_to 9 b && ltb ((a - 48) * 10 + (b - 48)) 24

-- The %H with two digits, up to 23, before the colon.
unfoldable pub parse_long : ℕ → ℕ → Text → Option TimeOfDay
unfolding parse_minute
parse_long a b [] = none
parse_long a b (c ∷ rest) =
    if is_hour a b && c == 58 then parse_minute ((a - 48) * 10 + (b - 48)) rest else none

-- `strptime(text, "%H:%M")`, none for the ValueError; of other digits than those of ASCII nothing is said.
unfoldable pub parse_time : Text → Option TimeOfDay
unfolding parse_long
parse_time [] = none
parse_time (a ∷ []) = none
parse_time (a ∷ b ∷ rest) =
    if is_digit_to 9 a && b == 58 then parse_minute (a - 48) rest else parse_long a b rest

unfoldable pub format_all : List TimeOfDay → List Text
unfolding format_time
format_all [] = []
format_all (t ∷ ts) = format_time t ∷ format_all ts

abbrev both : Option TimeOfDay → Option (List TimeOfDay) → Option (List TimeOfDay)
both none ts = none
both (some t) none = none
both (some t) (some ts) = some (t ∷ ts)

unfoldable pub parse_all : List Text → Option (List TimeOfDay)
unfolding parse_time
parse_all [] = some []
parse_all (x ∷ xs) = both (parse_time x) (parse_all xs)

pub record SignalData : Type 0 where
  pub asset : String
  pub direction : String
  pub expiry_minutes : Option ℤ
  pub entry_time : Option Text
  pub raw_text : Option String
  pub protection_level : Option ℤ
  pub max_auto_protections : Option ℤ
  pub protection_schedule : Option (List Text)

abbrev pub format_entry : Option TimeOfDay → Option Text
format_entry none = none
format_entry (some t) = some (format_time t)

unfoldable pub serialize_signal : OtcSignal → SignalData
unfolding format_all format_time
serialize_signal s = record {
  asset = s.asset;
  direction = s.direction;
  expiry_minutes = some s.expiry_minutes;
  entry_time = format_entry s.entry_time;
  raw_text = some s.raw_text;
  protection_level = some s.protection_level;
  max_auto_protections = s.max_auto_protections;
  protection_schedule = some (format_all s.protection_schedule);
}

-- `int(data.get("expiry_minutes") or 1)`, where 0 counts as missing
abbrev pub or_one : Option ℤ → ℤ
or_one none = pos 1
or_one (some (pos n)) = if n == 0 then pos 1 else pos n
or_one (some (negsuc n)) = negsuc n

abbrev pub found_entry : Option TimeOfDay → Option (Option TimeOfDay)
found_entry none = none
found_entry (some t) = some (some t)

-- None inside where there is no entry, and for the empty text.
unfoldable pub parse_entry : Option Text → Option (Option TimeOfDay)
parse_entry none = some none
parse_entry (some []) = some none
parse_entry (some (c ∷ cs)) = found_entry (parse_time (c ∷ cs))

abbrev pub with_times :
    SignalData → Option (Option TimeOfDay) → Option (List TimeOfDay) → Option OtcSignal
with_times d none schedule = none
with_times d (some entry) none = none
with_times d (some entry) (some schedule) = some (record {
  asset = d.asset;
  direction = d.direction;
  expiry_minutes = or_one d.expiry_minutes;
  entry_time = entry;
  raw_text = option_or d.raw_text "";
  protection_level = option_or d.protection_level (pos 0);
  max_auto_protections = d.max_auto_protections;
  protection_schedule = schedule;
})

-- None for a ValueError.
unfoldable pub deserialize_signal : SignalData → Option OtcSignal
unfolding parse_entry parse_all
deserialize_signal d =
    with_times d (parse_entry d.entry_time) (parse_all (option_or d.protection_schedule []))
