-- ===== src/PacketView/TopicIterator/Items.antt =====
-- packetview/topic_iterator.rs: the topic that the items of an iterator make.
use umqtt.Base.{
  ◌∙◌, Option, none, some, ℕ, suc, ◌*◌, ◌<◌, ◌≡◌, refl, sym, ap, arith, false, List, [], ◌∷◌, ◌++◌,
  length, append-nil,
}
use mathlib.Core.Option
use umqtt.PacketView.SubscribeWriter.Filters.{join}
use umqtt.PacketView.TopicIterator.{
  TopicIterator, new, next, items, collect, separator, pop, peek_separator,
}

-- The bytes of all items.
unfoldable pub concat : List (List ℕ) → List ℕ
concat [] = []
concat (x ∷ xs) = x ++ concat xs

-- One item more, in front.
map-concat :
    (item : List ℕ) (o : Option (List (List ℕ))) (bytes : List ℕ)
    → Option.map concat o ≡ some bytes
    → Option.map concat (Option.map (λ items. item ∷ items) o) ≡ some (item ++ bytes)
unfolding concat
map-concat item none bytes h = cc
map-concat item (some items) bytes h = cc h

-- The iterator that has given the first part and has `parts` still to give.
abbrev rest_of : List (List ℕ) → TopicIterator
rest_of parts = record { iter = parts; first = false; prev_was_separator = false }

-- What follows the first part.
tail : List (List ℕ) → List ℕ
tail [] = []
tail (part ∷ parts) = separator ++ (part ++ tail parts)

join-tail :
    (part : List ℕ) (parts : List (List ℕ)) → join (part ∷ parts) separator ≡ part ++ tail parts
unfolding join tail
join-tail part [] = sym (append-nil part)
join-tail part (p ∷ parts) = ap (λ (l : List ℕ). part ++ (separator ++ l)) (join-tail p parts)

items-rest_of :
    (parts : List (List ℕ)) (fuel : ℕ)
    → 2 * length parts < fuel
    → Option.map concat (items fuel (rest_of parts)) ≡ some (tail parts)
unfolding items collect next pop peek_separator concat tail
items-rest_of [] (suc fuel) h = refl
items-rest_of (part ∷ parts) (suc (suc fuel)) h =
    map-concat separator (Option.map (λ items. part ∷ items) (items fuel (rest_of parts)))
      (part ++ tail parts)
      (map-concat part (items fuel (rest_of parts)) (tail parts)
        (items-rest_of parts fuel (omega arith)))
items-rest_of parts fuel h = absurd (omega arith)

-- A loop over a topic iterator ends after at most twice as many rounds as there are parts and one
-- more, and its items one after the other are the topic: the parts with a slash between any two of
-- them.
pub items-join :
    (parts : List (List ℕ)) (fuel : ℕ)
    → 2 * length parts < fuel
    → Option.map concat (items fuel (new parts)) ≡ some (join parts separator)
unfolding items collect next join pop peek_separator concat
items-join [] (suc fuel) h = refl
items-join (part ∷ parts) (suc fuel) h =
    map-concat part (items fuel (rest_of parts)) (tail parts)
      (items-rest_of parts fuel (omega arith))
    ∙ ap some (sym (join-tail part parts))
items-join parts fuel h = absurd (omega arith)
