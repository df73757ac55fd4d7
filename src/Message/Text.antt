-- ===== src/Message/Text.antt =====
-- `ContentMessage.valueOf`: the timestamp in decimal, padded to sixteen digits, and the id.
use Prim.Native.String
use Prim.Native.Char.{Char}
use logos_messaging_js.Prelude.{
  ℕ, zero, suc, ◌-◌, ◌/◌, ◌%◌, ◌≡◌, refl, Option, none, some, String, ltb, ◌==◌, if◌then◌else◌,
}
use logos_messaging_js.Message.{Message}

digit : ℕ → Char
digit n =
    if n == 0
    then "0"
    else if n == 1
    then "1"
    else if n == 2
    then "2"
    else if n == 3
    then "3"
    else if n == 4
    then "4"
    else if n == 5
    then "5"
    else if n == 6
    then "6"
    else if n == 7
    then "7"
    else if n == 8
    then "8"
    else "9"

-- `n.toString()`, the last digit first into the accumulator. A number has no more digits than its
-- own value plus one, so that much fuel is enough.
decimal : ℕ → ℕ → String → String
unfolding digit
decimal zero n acc = acc
decimal (suc fuel) n acc =
    let rest = decimal fuel (n / 10) (String.◌∷◌ (digit (n % 10)) acc) in
    if ltb n 10 then String.◌∷◌ (digit n) acc else rest

unfoldable pub to_string : ℕ → String
unfolding decimal
to_string n = decimal (suc n) n ""

count : String → ℕ
count String.[] = 0
count (String.◌∷◌ c s) = suc (count s)

zeros : ℕ → String → String
zeros zero s = s
zeros (suc n) s = String.◌∷◌ "0" (zeros n s)

-- `s.padStart(width, "0")`
unfoldable pub pad_start : ℕ → String → String
unfolding count zeros
pad_start width s = zeros (width - count s) s

timestamp : Option ℕ → ℕ
timestamp none = 0
timestamp (some t) = t

-- Only a content message has a `valueOf`, and it has a timestamp.
unfoldable pub value_of : Message → String
unfolding to_string pad_start timestamp
value_of m =
    String.◌++◌ (pad_start 16 (to_string (timestamp m.lamport_timestamp)))
      (String.◌∷◌ "_" m.message_id)

pad_test : pad_start 16 (to_string 1700000000123) ≡ "0001700000000123"
unfolding to_string pad_start
pad_test = refl
