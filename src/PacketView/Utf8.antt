-- ===== src/PacketView/Utf8.antt =====
-- `core::str::from_utf8`: the well-formed byte sequences of the Unicode standard (table 3-7). A `&str`
-- of the source is the list of its bytes.
use umqtt.Base.{
  ℕ, zero, suc, leb, ltb, ◌==◌, if◌then◌else◌, Bool, true, false, ◌&&◌, Option, none, some, List,
  [], ◌∷◌, ◌≡◌,
}

-- What may come next: a new character, or a byte from `lo` to `hi` and then `k` continuation bytes.
pub data Expect : Type 0 where
  character : Expect
  continuation : ℕ → ℕ → ℕ → Expect

lead : ℕ → Option Expect
lead b =
    if ltb b 0x80
    then some character
    else if ltb b 0xc2
    then none
    else if ltb b 0xe0
    then some (continuation 0x80 0xbf 0)
    else if b == 0xe0
    then some (continuation 0xa0 0xbf 1)
    else if b == 0xed
    then some (continuation 0x80 0x9f 1)
    else if ltb b 0xf0
    then some (continuation 0x80 0xbf 1)
    else if b == 0xf0
    then some (continuation 0x90 0xbf 2)
    else if ltb b 0xf4
    then some (continuation 0x80 0xbf 2)
    else if b == 0xf4
    then some (continuation 0x80 0x8f 2)
    else none

after : ℕ → Expect
after zero = character
after (suc k) = continuation 0x80 0xbf k

step : Expect → ℕ → Option Expect
unfolding lead after
step character b = lead b
step (continuation lo hi k) b = if leb lo b && leb b hi then some (after k) else none

run : Expect → List ℕ → Bool
run character [] = true
run (continuation lo hi k) [] = false
run e (b ∷ bs) = elim (step e b) [ none ↦ false | some e' ↦ run e' bs ]

unfoldable pub is_utf8 : List ℕ → Bool
unfolding run step
is_utf8 = run character

-- The bytes of a `&str`.
abbrev pub IsStr : List ℕ → Type 0
IsStr s = is_utf8 s ≡ true
